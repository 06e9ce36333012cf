-- ===== src/Runtime/Publisher/Waits.antt =====
-- How long a publication waits.
use smart_gatekeeper.Common.{
  ℕ, ◌+◌, ◌-◌, ◌<◌, ◌≤◌, ◌≡◌, false, Option, none, some, arith, leb, Bool-cases, inl, inr, All, min,
  [], not, ◌||◌, ◌==◌,
}
use smart_gatekeeper.Runtime.Breaker
use smart_gatekeeper.Runtime.Breaker.{Breaker}
use smart_gatekeeper.Runtime.Publisher.{
  Publisher, Publishing, Connecting, Attempt, Worker, working, connected, refused, Confirmation,
  wait_raised, unconfirmed, confirmed, publish, connected_client, ask_gate, with_gate,
  connect_gated, await_attempt, finish_attempt, current_attempt, settle, await_sent, fail_at,
  deliver, discard, discard_client, with_slot, is_cancelled, log, reuse_or_connect, send, meanwhile,
  Effect, await_gate, await_connect, await_confirm,
}

-- A wait that has time left and ends by its deadline
abbrev pub IsPunctual : ℕ → ℕ → Effect → Type 0
IsPunctual connect_by confirm_by (await_gate at n) = (0 < n) × (at + n ≤ connect_by)
IsPunctual connect_by confirm_by (await_connect at n) = (0 < n) × (at + n ≤ connect_by)
IsPunctual connect_by confirm_by (await_confirm at n) = (0 < n) × (at + n ≤ confirm_by)
IsPunctual connect_by confirm_by _ = Unit {0}

left_over :
    (deadline now : ℕ)
    → leb deadline now ≡ false
    → (0 < deadline - now) × (now + (deadline - now) ≤ deadline)
left_over deadline now h = (ground arith, ground arith)

module _ (by until : ℕ) where
  abbrev Punctual : Publisher → Type 0
  Punctual s = All (IsPunctual by until) s.effects

  finish-Punctual :
      (env : Connecting) (a : Attempt) (w : Worker) (s : Publisher)
      → Punctual s
      → Punctual (finish_attempt env a w s).1
  unfolding finish_attempt log
  finish-Punctual env a working s h = (tt, h)
  finish-Punctual env a connected s h = elim (Bool-cases (is_cancelled a s.attempt)) [
    | inl gone ↦ rw gone (tt, h)
    | inr live ↦ elim (Bool-cases env.starts) [
      | inl up ↦ rw (live, up) (tt, h)
      | inr down ↦ rw (live, down) h
    ]
  ]
  finish-Punctual env a refused s h = (tt, h)

  await_attempt-Punctual :
      (env : Connecting) (a : Attempt) (s : Publisher)
      → Punctual s
      → Punctual (await_attempt env by a s).1
  unfolding await_attempt log
  await_attempt-Punctual env a s h = elim (Bool-cases (leb by env.wait_at)) [
    | inl over ↦ rw over (finish-Punctual env a working s h)
    | inr rest ↦
        let asked = log (await_connect env.wait_at (by - env.wait_at)) s in
        rw rest (
          finish-Punctual env a (env.worker (by - env.wait_at)) (meanwhile env.during_wait asked)
            (left_over by env.wait_at rest, h))
  ]

  gated-Punctual :
      (env : Connecting) (a : Option Attempt) (s : Publisher)
      → Punctual s
      → Punctual (connect_gated env by a s).1
  unfolding connect_gated
  gated-Punctual env none s h = h
  gated-Punctual env (some a) s h = await_attempt-Punctual env a (record s { attempt = some a }) h

  with_gate-Punctual :
      (env : Connecting) (c : Option ℕ) (s : Publisher)
      → Punctual s
      → Punctual (with_gate env by c s).1
  unfolding with_gate
  with_gate-Punctual env none s h = gated-Punctual env (current_attempt env.factory s.attempt) s h
  with_gate-Punctual env (some c) s h = h

  ask_gate-Punctual :
      (env : Connecting) (s : Publisher) → Punctual s → Punctual (ask_gate env by s).1
  unfolding ask_gate log
  ask_gate-Punctual env s h = elim (Bool-cases (leb by env.gate_at)) [
    | inl over ↦ rw over h
    | inr rest ↦
        let asked = log (await_gate env.gate_at (by - env.gate_at)) s in
        let t = meanwhile env.before_gate asked in
        let h' : Punctual t = (left_over by env.gate_at rest, h) in
        elim (Bool-cases (env.gate (by - env.gate_at))) [
          | inl had ↦ rw (rest, had) (with_gate-Punctual env t.client t h')
          | inr kept_out ↦ rw (rest, kept_out) h'
        ]
  ]

  reuse-Punctual :
      (env : Connecting) (c : Option ℕ) (s : Publisher)
      → Punctual s
      → Punctual (reuse_or_connect env by c s).1
  unfolding reuse_or_connect
  reuse-Punctual env none s h = ask_gate-Punctual env s h
  reuse-Punctual env (some c) s h = h

  discard-Punctual : (c : Option ℕ) (s : Publisher) → Punctual s → Punctual (discard_client c s)
  unfolding discard_client log
  discard-Punctual none s h = h
  discard-Punctual (some c) s h = (tt, h)

  fail-Punctual : (now : ℕ) (s : Publisher) → Punctual s → Punctual (fail_at now s).1
  unfolding fail_at discard
  fail-Punctual now s h =
      discard-Punctual s.client (record s { breaker = Breaker.failure now s.breaker }) h

  settle-Punctual :
      (env : Publishing) (c : Confirmation) (s : Publisher)
      → Punctual s
      → Punctual (settle env c s).1
  unfolding settle
  settle-Punctual env confirmed s h = h
  settle-Punctual env unconfirmed s h = fail-Punctual env.failed_at s h
  settle-Punctual env wait_raised s h = fail-Punctual env.failed_at s h

  await_sent-Punctual :
      (env : Publishing) (s : Publisher) → Punctual s → Punctual (await_sent env until s).1
  unfolding await_sent log
  await_sent-Punctual env s h = elim (Bool-cases (leb until env.sent_at)) [
    | inl over ↦ rw over (fail-Punctual env.failed_at s h)
    | inr rest ↦
        let asked = log (await_confirm env.sent_at (until - env.sent_at)) s in
        rw rest (
          settle-Punctual env (env.confirm (until - env.sent_at)) (meanwhile env.others asked)
            (left_over until env.sent_at rest, h))
  ]

  deliver-Punctual :
      (env : Publishing) (c : Option ℕ) (s : Publisher)
      → Punctual s
      → Punctual (deliver env until (c, s)).1
  unfolding deliver log
  deliver-Punctual env none s h = fail-Punctual env.failed_at s h
  deliver-Punctual env (some c) s h = elim (Bool-cases env.sends) [
    | inl sent ↦ rw sent (await_sent-Punctual env (log (send c) s) (tt, h))
    | inr unsent ↦ rw unsent (fail-Punctual env.failed_at s h)
  ]

with_slot-Punctual :
    (env : Publishing) (s : Publisher)
    → let by = env.connecting.started + min s.publish_timeout s.connect_timeout in
      let until = env.started + s.publish_timeout in
      Punctual by until s → Punctual by until (with_slot env s).1
unfolding with_slot connected_client
with_slot-Punctual env s h =
    let by = env.connecting.started + min s.publish_timeout s.connect_timeout in
    let until = env.started + s.publish_timeout in
    let taken = record s { free = s.free - 1 } in
    let (c, t) = connected_client s.publish_timeout env.connecting taken in
    deliver-Punctual by until env c t (reuse-Punctual by until env.connecting s.client taken h)

-- A publication waits for the gate and for the connection only while time is left, and no longer than to
-- the smaller of the two timeouts after it asked for the session; for the confirmation it waits only
-- while time is left, and no longer than to `publish_timeout` after it began.
pub publish-IsPunctual :
    (env : Publishing) (s : Publisher)
    → s.effects ≡ []
    → All
        (IsPunctual
          (env.connecting.started + min s.publish_timeout s.connect_timeout)
          (env.started + s.publish_timeout))
        (publish env s).1.effects
unfolding publish
publish-IsPunctual env s none_yet =
    let by = env.connecting.started + min s.publish_timeout s.connect_timeout in
    let until = env.started + s.publish_timeout in
    let start : All (IsPunctual by until) s.effects = rw none_yet tt in
    let (granted, b) = Breaker.permit env.now s.breaker in
    elim (Bool-cases (not granted || s.free == 0)) [
      | inl refusal ↦ rw refusal start
      | inr granted ↦ rw granted (with_slot-Punctual env (record s { breaker = b }) start)
    ]
