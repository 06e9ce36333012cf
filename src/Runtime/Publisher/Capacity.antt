-- ===== src/Runtime/Publisher/Capacity.antt =====
-- The slots of the semaphore.
use smart_gatekeeper.Common.{
  ℕ, ◌+◌, ◌-◌, ◌<◌, ◌≡◌, refl, Option, none, some, arith, leb, Bool-cases, min, inl, inr,
}
use smart_gatekeeper.Runtime.Breaker
use smart_gatekeeper.Runtime.Breaker.{Breaker}
use smart_gatekeeper.Runtime.Publisher.{
  Publisher, Publishing, Connecting, Attempt, Worker, working, connected, refused, Confirmation,
  wait_raised, unconfirmed, confirmed, publish, connected_client, ask_gate, with_gate,
  connect_gated, await_attempt, finish_attempt, current_attempt, settle, await_sent, fail_at,
  deliver, discard, discard_client, with_slot, log, reuse_or_connect, send,
}

free-finish_attempt :
    (env : Connecting) (a : Attempt) (w : Worker) (s : Publisher)
    → (finish_attempt env a w s).1.free ≡ s.free
unfolding finish_attempt
free-finish_attempt env a working s = refl
free-finish_attempt env a connected s = ground arith
free-finish_attempt env a refused s = refl

free-await_attempt :
    (env : Connecting) (deadline : ℕ) (a : Attempt) (s : Publisher)
    → (await_attempt env deadline a s).1.free ≡ s.free
unfolding await_attempt
free-await_attempt env deadline a s = elim (Bool-cases (leb deadline env.wait_at)) [
  | inl over ↦ rw over (free-finish_attempt env a working s)
  | inr left ↦ rw left (free-finish_attempt env a _ _)
]

free-connect_gated :
    (env : Connecting) (deadline : ℕ) (a : Option Attempt) (s : Publisher)
    → (connect_gated env deadline a s).1.free ≡ s.free
unfolding connect_gated
free-connect_gated env deadline none s = refl
free-connect_gated env deadline (some a) s =
    free-await_attempt env deadline a (record s { attempt = some a })

free-with_gate :
    (env : Connecting) (deadline : ℕ) (c : Option ℕ) (s : Publisher)
    → (with_gate env deadline c s).1.free ≡ s.free
unfolding with_gate
free-with_gate env deadline none s =
    free-connect_gated env deadline (current_attempt env.factory s.attempt) s
free-with_gate env deadline (some c) s = refl

free-ask_gate :
    (env : Connecting) (deadline : ℕ) (s : Publisher) → (ask_gate env deadline s).1.free ≡ s.free
unfolding ask_gate
free-ask_gate env deadline s = elim (Bool-cases (leb deadline env.gate_at)) [
  | inl over ↦ rw over refl
  | inr left ↦ elim (Bool-cases (env.gate (deadline - env.gate_at))) [
    | inl had ↦ rw (left, had) (free-with_gate env deadline _ _)
    | inr kept_out ↦ rw (left, kept_out) refl
  ]
]

free-reuse :
    (env : Connecting) (deadline : ℕ) (c : Option ℕ) (s : Publisher)
    → (reuse_or_connect env deadline c s).1.free ≡ s.free
unfolding reuse_or_connect
free-reuse env deadline none s = free-ask_gate env deadline s
free-reuse env deadline (some c) s = refl

free-discard_client : (c : Option ℕ) (s : Publisher) → (discard_client c s).free ≡ s.free
unfolding discard_client
free-discard_client none s = refl
free-discard_client (some c) s = refl

free-fail_at : (now : ℕ) (s : Publisher) → (fail_at now s).1.free ≡ s.free
unfolding fail_at discard
free-fail_at now s =
    free-discard_client s.client (record s { breaker = Breaker.failure now s.breaker })

free-settle :
    (env : Publishing) (c : Confirmation) (s : Publisher) → (settle env c s).1.free ≡ s.free
unfolding settle
free-settle env confirmed s = refl
free-settle env unconfirmed s = free-fail_at env.failed_at s
free-settle env wait_raised s = free-fail_at env.failed_at s

free-await_sent :
    (env : Publishing) (deadline : ℕ) (s : Publisher) → (await_sent env deadline s).1.free ≡ s.free
unfolding await_sent
free-await_sent env deadline s = elim (Bool-cases (leb deadline env.sent_at)) [
  | inl over ↦ rw over (free-fail_at env.failed_at s)
  | inr left ↦ rw left (free-settle env _ _)
]

free-deliver :
    (env : Publishing) (deadline : ℕ) (c : Option ℕ) (s : Publisher)
    → (deliver env deadline (c, s)).1.free ≡ s.free
unfolding deliver
free-deliver env deadline none s = free-fail_at env.failed_at s
free-deliver env deadline (some c) s = elim (Bool-cases env.sends) [
  | inl sent ↦ rw sent (free-await_sent env deadline (log (send c) s))
  | inr not_sent ↦ rw not_sent (free-fail_at env.failed_at s)
]

free-with_slot : (env : Publishing) (s : Publisher) → 0 < s.free → (with_slot env s).1.free ≡ s.free
unfolding with_slot connected_client
free-with_slot env s h =
    let (c, t) =
      connected_client s.publish_timeout env.connecting (record s { free = s.free - 1 }) in
    let e =
      free-reuse env.connecting (env.connecting.started + min s.publish_timeout s.connect_timeout)
        s.client (record s { free = s.free - 1 }) in
    let d = free-deliver env (env.started + s.publish_timeout) c t in omega (arith, e, d)

-- Every path of `publish`, the ones that raise included, gives its slot of the semaphore back, whatever
-- overlapping calls do to the session.
pub free-publish : (env : Publishing) (s : Publisher) → (publish env s).1.free ≡ s.free
unfolding publish
free-publish env s =
    ground (arith, free-with_slot env (record s { breaker = (Breaker.permit env.now s.breaker).1 }))
