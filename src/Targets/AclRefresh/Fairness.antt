-- ===== src/Targets/AclRefresh/Fairness.antt =====
-- The worker neither loses a request nor oversleeps a lease.
use mathlib.Core.Path.{subst}
use smart_gatekeeper.Common.{
  ℕ, suc, ◌+◌, ◌*◌, ◌≤◌, ◌≡◌, ◌≢◌, ◌⊎◌, refl, ap, ◌∙◌, true, false, Option, none, some, List, [],
  ◌∷◌, arith, if◌then◌else◌, list_eq, nat_eq, length, Bool-cases, inl, inr, list_beq, list_beq_iff,
  min, beq_refl,
}
use smart_gatekeeper.Common.Dict.{
  Dict, lookup, keys, lookup-set_item, lookup-remove, length-remove_old,
}
use smart_gatekeeper.Common.Text.{Text}
use smart_gatekeeper.Targets.AclRefresh.{
  Worker, Reason, Pass, select, pick, pick_due, due, least, pass, reschedule, delay, soonest,
  refresh_interval_of, retry_interval_of, reason_or, text_lt,
}

-- For a lease of 1 to 3600 seconds, the refresh interval is at least 100 ms and ends at least 100
-- ms before the lease does, and the retry interval is from 100 ms to 30 s.
pub renewal_before_expiry :
    (lease : ℕ)
    → 1 ≤ lease
    → lease ≤ 3600
    → (100 ≤ refresh_interval_of lease)
      × (refresh_interval_of lease + 100 ≤ lease * 1000)
      × (100 ≤ retry_interval_of (refresh_interval_of lease))
      × (retry_interval_of (refresh_interval_of lease) ≤ 30000)
unfolding refresh_interval_of retry_interval_of
renewal_before_expiry lease l u = omega arith

abbrev Member : Text → List Text → Type 0
Member id [] = ⊥
Member id (j ∷ ids) = (j ≡ id) ⊎ Member id ids

skip_second : (id j k : Text) (ids : List Text) → Member k (id ∷ ids) → Member k (id ∷ j ∷ ids)
skip_second id j k ids (inl e) = inl e
skip_second id j k ids (inr m) = inr (inr m)

least_smaller :
    (id j : Text) (ids : List Text) → text_lt j id ≡ true → least j ids ≡ least id (j ∷ ids)
unfolding least
least_smaller id j ids h = rw h refl

least_larger :
    (id j : Text) (ids : List Text) → text_lt j id ≡ false → least id ids ≡ least id (j ∷ ids)
unfolding least
least_larger id j ids h = rw h refl

least-Member : (id : Text) (ids : List Text) → Member (least id ids) (id ∷ ids)
least-Member id [] = unfold least in inl refl
least-Member id (j ∷ ids) = elim (Bool-cases (text_lt j id)) [
  | inl smaller ↦
      subst (λ x. Member x (id ∷ j ∷ ids)) (least_smaller id j ids smaller)
        (inr (least-Member j ids))
  | inr larger ↦
      subst (λ x. Member x (id ∷ j ∷ ids)) (least_larger id j ids larger)
        (skip_second id j (least id ids) ids (least-Member id ids))
]

not_first :
    (j id : Text) (ids : List Text) → list_beq j id ≡ false → Member id (j ∷ ids) → Member id ids
not_first j id ids n (inl e) = absurd (ground (arith, list_beq_iff j id))
not_first j id ids n (inr m) = m

in_keys :
    (id : Text) (d : Dict Text Reason) → Member id (keys d) → (r : Reason) × (lookup id d ≡ some r)
unfolding lookup
in_keys id [] m = absurd m
in_keys id ((j, r) ∷ d) m = elim (Bool-cases (list_beq j id)) [
  | inl same ↦ (r, rw same refl)
  | inr other ↦ rw other (in_keys id d (not_first j id (keys d) other m))
]

-- The earliest deadline is one of them, and nothing is due before it.
due_at_soonest :
    (now t : ℕ) (id : Text) (d : Dict Text ℕ) → soonest t d ≤ now → due now ((id, t) ∷ d) ≢ []
unfolding soonest
due_at_soonest now t id [] h e = ground arith
due_at_soonest now t id ((j, u) ∷ d) h e = ground (arith, due_at_soonest now (min t u) id d)

delay-due :
    (now later : ℕ) (d : Dict Text ℕ) → d ≢ [] → now + delay now d ≤ later → due later d ≢ []
unfolding delay
delay-due now later [] n l e = n refl
delay-due now later ((id, t) ∷ d) n l e = due_at_soonest later t id d (omega arith) e

pick-none :
    (d : Dict Text Reason) (now : ℕ) (w : Worker)
    → (pick d now w).0 ≡ none
    → ((pick d now w).1 ≡ w) × (d ≡ [])
unfolding pick
pick-none [] now w h = (refl, refl)
pick-none ((id, r) ∷ d) now w h = cc

pick_due_some : (ids : List Text) → ids ≢ [] → pick_due ids ≢ none
pick_due_some [] n e = n refl
pick_due_some (id ∷ ids) n e = cc

pick_idle :
    (d : Dict Text Reason) (now : ℕ) (w : Worker)
    → d ≡ []
    → due now w.next_due ≢ []
    → (pick d now w).0 ≢ none
unfolding pick
pick_idle [] now w e n = pick_due_some (due now w.next_due) n
pick_idle ((id, r) ∷ d) now w e n = λ h. cc

-- With a Target to renew, when nothing is selected, a selection after the delay, or later, finds a
-- Target.
pub wakes_on_time :
    (now later : ℕ) (w : Worker)
    → w.next_due ≢ []
    → (select now w).0 ≡ none
    → now + delay now w.next_due ≤ later
    → (select later (select now w).1).0 ≢ none
unfolding select
wakes_on_time now later w n idle l =
    let (same, empty) = pick-none w.pending now w idle in
    rw same (pick_idle w.pending later w empty (delay-due now later w.next_due n l))

abbrev pub passes : List Pass → Worker → Worker
passes [] w = w
passes (p ∷ ps) w = passes ps (pass p w).1

pick_shrinks :
    (d : Dict Text Reason) (now : ℕ) (w : Worker) (n : ℕ)
    → w.pending ≡ d
    → length d ≤ suc n
    → (length (pick d now w).1.pending ≤ n) × ((pick d now w).1.stopping ≡ w.stopping)
unfolding pick
pick_shrinks [] now w n e l = (rw e (omega arith), refl)
pick_shrinks ((id, r) ∷ d) now w n e l =
    let first = least id (keys d) in
    let (r', found) = in_keys first ((id, r) ∷ d) (least-Member id (keys d)) in
    (rw e (omega (arith, length-remove_old first r' ((id, r) ∷ d) found)), refl)

reschedule_keeps :
    (p : Pass) (o : Option (Text × Reason)) (w : Worker)
    → ((reschedule p o w).pending ≡ w.pending) × ((reschedule p o w).stopping ≡ w.stopping)
unfolding reschedule
reschedule_keeps p none w = (refl, refl)
reschedule_keeps p (some (id, r)) w = (refl, refl)

pass_live :
    (p : Pass) (w : Worker)
    → w.stopping ≡ false
    → pass p w ≡ ((select p.now w).0, reschedule p (select p.now w).0 (select p.now w).1)
unfolding pass
pass_live p w live = ground arith

pass_shrinks :
    (p : Pass) (w : Worker) (n : ℕ)
    → w.stopping ≡ false
    → length w.pending ≤ suc n
    → (length (pass p w).1.pending ≤ n) × ((pass p w).1.stopping ≡ false)
unfolding select
pass_shrinks p w n live l =
    let (c, t) = pick w.pending p.now w in
    let (same, still) = reschedule_keeps p c t in
    let (short, going) = pick_shrinks w.pending p.now w n refl l in
    rw (pass_live p w live) (rw same short, still ∙ going ∙ live)

no_pending : (d : Dict Text Reason) → length d ≤ 0 → d ≡ []
no_pending [] l = refl
no_pending (x ∷ d) l = absurd (omega arith)

-- While the worker is not stopping and no new request comes, after as many passes as Targets were
-- pending, or more, none is.
pub pending_drains :
    (ps : List Pass) (w : Worker)
    → w.stopping ≡ false
    → length w.pending ≤ length ps
    → (passes ps w).pending ≡ []
pending_drains [] w live n = no_pending w.pending n
pending_drains (p ∷ ps) w live n =
    let (l, going) = pass_shrinks p w (length ps) live n in pending_drains ps (pass p w).1 going l

pick_serves :
    (d : Dict Text Reason) (now : ℕ) (w : Worker) (id : Text) (reason : Reason)
    → w.pending ≡ d
    → lookup id d ≡ some reason
    → (lookup id (pick d now w).1.pending ≡ some reason) ⊎ ((pick d now w).0 ≡ some (id, reason))
unfolding pick
pick_serves [] now w id reason e h = inl (rw e h)
pick_serves ((j, r) ∷ d) now w id reason e h =
    let first = least j (keys d) in
    elim (Bool-cases (list_beq first id)) [
      | inl same ↦
          let eq : first ≡ id = (list_beq_iff first id).0 same in
          inr (
            ap (λ (x : Text). some (x, reason_or (lookup x ((j, r) ∷ d)))) eq
            ∙ ap (λ (o : Option Reason). some (id, reason_or o)) h)
      | inr other ↦ inl (rw (e, lookup-remove first id ((j, r) ∷ d), other) h)
    ]

pick_intervals :
    (d : Dict Text Reason) (now : ℕ) (w : Worker)
    → ((pick d now w).1.refresh_interval ≡ w.refresh_interval)
      × ((pick d now w).1.retry_interval ≡ w.retry_interval)
unfolding pick
pick_intervals [] now w = (refl, refl)
pick_intervals ((j, r) ∷ d) now w = (refl, refl)

-- The deadline that the outcome of a pass sets.
abbrev pub next_deadline : Pass → Worker → ℕ
next_deadline p w = p.ended + (if p.succeeded then w.refresh_interval else w.retry_interval)

reschedule_sets :
    (p : Pass) (id : Text) (reason : Reason) (t : Worker)
    → lookup id (reschedule p (some (id, reason)) t).next_due ≡ some (next_deadline p t)
unfolding reschedule
reschedule_sets p id reason t =
    rw (lookup-set_item id id (next_deadline p t) t.next_due, beq_refl id) refl

same_deadline :
    (p : Pass) (w t : Worker)
    → (t.refresh_interval ≡ w.refresh_interval) × (t.retry_interval ≡ w.retry_interval)
    → next_deadline p t ≡ next_deadline p w
same_deadline p w t e = ground arith

-- While the worker is not stopping, a request that is pending is still pending after a pass, or
-- the pass answers with its Target and reason and sets the next deadline from the outcome.
pub request_served :
    (p : Pass) (id : Text) (reason : Reason) (w : Worker)
    → w.stopping ≡ false
    → lookup id w.pending ≡ some reason
    → (lookup id (pass p w).1.pending ≡ some reason)
      ⊎ (((pass p w).0 ≡ some (id, reason))
          × (lookup id (pass p w).1.next_due ≡ some (next_deadline p w)))
unfolding select
request_served p id reason w live asked =
    let t = (pick w.pending p.now w).1 in
    rw (pass_live p w live) (elim (pick_serves w.pending p.now w id reason refl asked) [
      | inl waits ↦ inl (rw ((reschedule_keeps p (pick w.pending p.now w).0 t).0) waits)
      | inr served ↦ inr (
        served,
        rw served (
            reschedule_sets p id reason t
            ∙ ap (λ (n : ℕ). some n) (same_deadline p w t (pick_intervals w.pending p.now w))),
      )
    ])
