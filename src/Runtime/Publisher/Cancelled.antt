-- ===== src/Runtime/Publisher/Cancelled.antt =====
-- An attempt that was given up gives no session.
use smart_gatekeeper.Common.{
  ℕ, ◌+◌, ◌-◌, ◌≡◌, refl, ap, ◌∙◌, true, Option, none, some, leb, ◌==◌, Bool-cases, inl, inr, min,
}
use smart_gatekeeper.Runtime.Publisher.{
  Publisher, Connecting, Attempt, Worker, working, connected, refused, connected_client,
  reuse_or_connect, ask_gate, with_gate, connect_gated, await_attempt, finish_attempt,
  current_attempt, is_cancelled, log, await_gate, await_connect, meanwhile,
}

still_cancelled :
    (a : Attempt) (o : Option Attempt) → a.cancelled ≡ true → o ≡ some a → is_cancelled a o ≡ true
still_cancelled a none h e = cc
still_cancelled a (some b) h e =
    let q : b ≡ a = cc in
    elim (Bool-cases (b.client == a.client)) [
      | inl same ↦ rw same (ap (λ x. x.cancelled) q ∙ h)
      | inr other ↦ rw other h
    ]

finish-cancelled :
    (env : Connecting) (a : Attempt) (w : Worker) (s : Publisher)
    → is_cancelled a s.attempt ≡ true
    → (finish_attempt env a w s).0 ≡ none
unfolding finish_attempt
finish-cancelled env a working s h = refl
finish-cancelled env a connected s h = rw h refl
finish-cancelled env a refused s h = refl

-- What overlapping calls leave alone
abbrev pub IsAlone : (Publisher → Publisher) → Type 0
IsAlone others = (t : Publisher) → ((others t).client ≡ t.client) × ((others t).attempt ≡ t.attempt)

module _ (env : Connecting) (by : ℕ) (a : Attempt) (given_up : a.cancelled ≡ true)
    (before : IsAlone env.before_gate) (during : IsAlone env.during_wait) where
  await-cancelled : (s : Publisher) → s.attempt ≡ some a → (await_attempt env by a s).0 ≡ none
  unfolding await_attempt log
  await-cancelled s e = elim (Bool-cases (leb by env.wait_at)) [
    | inl over ↦ rw over (finish-cancelled env a working s (still_cancelled a s.attempt given_up e))
    | inr rest ↦
        let asked = log (await_connect env.wait_at (by - env.wait_at)) s in
        rw rest (
          finish-cancelled env a (env.worker (by - env.wait_at)) (meanwhile env.during_wait asked)
            (still_cancelled a (env.during_wait asked).attempt given_up ((during asked).1 ∙ e)))
  ]

  gated-cancelled :
      (o : Option Attempt) (s : Publisher) → o ≡ some a → (connect_gated env by o s).0 ≡ none
  unfolding connect_gated
  gated-cancelled none s e = refl
  gated-cancelled (some b) s e =
      let q : b ≡ a = cc in rw q (await-cancelled (record s { attempt = some a }) refl)

  current : (o : Option Attempt) → o ≡ some a → current_attempt env.factory o ≡ some a
  current none e = absurd cc
  current (some b) e = e

  with_gate-cancelled :
      (o : Option ℕ) (s : Publisher)
      → o ≡ none
      → s.attempt ≡ some a
      → (with_gate env by o s).0 ≡ none
  unfolding with_gate
  with_gate-cancelled none s q e =
      gated-cancelled (current_attempt env.factory s.attempt) s (current s.attempt e)
  with_gate-cancelled (some c) s q e = absurd cc

  gate-cancelled :
      (s : Publisher) → s.attempt ≡ some a → s.client ≡ none → (ask_gate env by s).0 ≡ none
  unfolding ask_gate log
  gate-cancelled s e n = elim (Bool-cases (leb by env.gate_at)) [
    | inl over ↦ rw over refl
    | inr rest ↦ elim (Bool-cases (env.gate (by - env.gate_at))) [
      | inr kept_out ↦ rw (rest, kept_out) refl
      | inl had ↦
          let asked = log (await_gate env.gate_at (by - env.gate_at)) s in
          let t = meanwhile env.before_gate asked in
          let (same, held) = before asked in
          rw (rest, had) (with_gate-cancelled t.client t (same ∙ n) (held ∙ e))
    ]
  ]

  alone :
      (o : Option ℕ) (s : Publisher)
      → o ≡ none
      → s.attempt ≡ some a
      → s.client ≡ none
      → (reuse_or_connect env by o s).0 ≡ none
  unfolding reuse_or_connect
  alone none s q e n = gate-cancelled s e n
  alone (some c) s q e n = absurd cc

-- While there is no session and the current connection attempt has been given up, `_connected_client`
-- raises, whatever becomes of the attempt, if overlapping calls leave the session and the attempt alone.
pub cancelled_never_session :
    (timeout : ℕ) (env : Connecting) (s : Publisher) (a : Attempt)
    → s.client ≡ none
    → s.attempt ≡ some a
    → a.cancelled ≡ true
    → IsAlone env.before_gate
    → IsAlone env.during_wait
    → (connected_client timeout env s).0 ≡ none
unfolding connected_client
cancelled_never_session timeout env s a n e given_up before during =
    alone env (env.started + min timeout s.connect_timeout) a given_up before during s.client s n e
      n
