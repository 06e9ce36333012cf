-- ===== src/Targets/AclDelivery/Waiting.antt =====
-- What a successful wait means, that the wait ends, and that the tracker stays small.
use mathlib.Core.Bool.{false≢true}
use smart_gatekeeper.Common.{
  ℕ, ◌+◌, ◌≡◌, ◌⊎◌, inl, inr, Bool, true, false, ◌&&◌, ◌||◌, not, Option, some, List, [], ◌∷◌, ◌++◌,
  arith, list_eq, nat_eq, pair_eq, Bool-cases, All, ltb, leb, and_parts,
}
use smart_gatekeeper.Common.Dict.{Dict, has}
use smart_gatekeeper.Common.Text.{Text}
use smart_gatekeeper.Targets.AclDelivery.{
  Key, Tracker, Event, ack, delivery, reset, run, begin_delivery, Round, wait_rounds, wait_for,
  all_applied, prune, expected_keys, is_empty,
}
use smart_gatekeeper.Targets.AclDelivery.Forgetting.{
  Heard, IsTraced, wanted, key_eq, IsTraced-run, IsTraced-prune, begin_forgets,
}

-- Everything that happens during the rounds of a wait.
abbrev pub happened : List Round → List Event
happened [] = []
happened (r ∷ rounds) = r.meanwhile ++ happened rounds

Heard-append :
    (key : Key) (t : ℕ) (e f : List Event) → Heard key t e ⊎ Heard key t f → Heard key t (e ++ f)
Heard-append key t [] f (inr h) = h
Heard-append key t [] f (inl h) = absurd h
Heard-append key t (ack id v now ∷ e) f (inl (inl h)) = inl h
Heard-append key t (ack id v now ∷ e) f (inl (inr h)) = inr (Heard-append key t e f (inl h))
Heard-append key t (ack id v now ∷ e) f (inr h) = inr (Heard-append key t e f (inr h))
Heard-append key t (delivery ids v now ∷ e) f h = Heard-append key t e f h
Heard-append key t (reset ∷ e) f h = Heard-append key t e f h

has-IsTraced :
    (ks : List Key) (P : Key → ℕ → Type 0) (key : Key) (d : Dict Key ℕ)
    → wanted key ks ≡ true
    → IsTraced ks P d
    → has key d ≡ true
    → (t : ℕ) × P key t
unfolding has
has-IsTraced ks P key [] w h p = absurd (false≢true p)
has-IsTraced ks P key ((k, t) ∷ d) w h p = elim (Bool-cases (key_eq.beq k key)) [
  | inl same ↦ let e = (key_eq.beq_iff k key).0 same in (t, rw (← e) (h.0 (rw e w)))
  | inr other ↦ has-IsTraced ks P key d w h.1 (rw other at p)
]

All-heard :
    (ks part : List Key) (P : Key → ℕ → Type 0) (d : Dict Key ℕ)
    → IsTraced ks P d
    → All (λ key. wanted key ks ≡ true) part
    → all_applied part d ≡ true
    → All (λ key. (t : ℕ) × P key t) part
All-heard ks [] P d h w a = tt
All-heard ks (key ∷ part) P d h w a =
    let (now, rest) = and_parts (has key d) (all_applied part d) a in
    (has-IsTraced ks P key d w.0 h now, All-heard ks part P d h w.1 rest)

wanted_grow :
    (k : Key) (ks part : List Key)
    → All (λ key. wanted key ks ≡ true) part
    → All (λ key. wanted key (k ∷ ks) ≡ true) part
wanted_grow k ks [] h = tt
wanted_grow k ks (key ∷ part) h = (ground (arith, h.0), wanted_grow k ks part h.1)

wanted_self : (ks : List Key) → All (λ key. wanted key ks ≡ true) ks
wanted_self [] = tt
wanted_self (k ∷ ks) = (ground (arith, key_eq.beq_iff k k), wanted_grow k ks ks (wanted_self ks))

All-mono :
    (P Q : Key → Type 0) → ((key : Key) → P key → Q key) → (ks : List Key) → All P ks → All Q ks
All-mono P Q f [] h = tt
All-mono P Q f (k ∷ ks) h = (f k h.0, All-mono P Q f ks h.1)

some-false : ¬ (◌≡◌ {A = Option Bool} (some false) (some true))
some-false e = cc

regroup :
    (P : Type 0) (key : Key) (t : ℕ) (e f : List Event)
    → (P ⊎ Heard key t e) ⊎ Heard key t f
    → P ⊎ Heard key t (e ++ f)
regroup P key t e f (inl (inl p)) = inl p
regroup P key t e f (inl (inr h)) = inr (Heard-append key t e f (inl h))
regroup P key t e f (inr h) = inr (Heard-append key t e f (inr h))

drop_none :
    (key : Key) (t : ℕ) (e f : List Event)
    → (⊥ ⊎ Heard key t e) ⊎ Heard key t f
    → Heard key t e ⊎ Heard key t f
drop_none key t e f (inl (inl p)) = absurd p
drop_none key t e f (inl (inr h)) = inl h
drop_none key t e f (inr h) = inr h

-- A wait that answers true has heard of every key, before it or while it slept.
waited :
    (rounds : List Round) (deadline : ℕ) (ks : List Key) (P : Key → ℕ → Type 0) (s : Tracker)
    → IsTraced ks P s.applied
    → (wait_rounds rounds deadline ks s).0 ≡ some true
    → All (λ key. (t : ℕ) × (P key t ⊎ Heard key t (happened rounds))) ks
unfolding wait_rounds
waited [] deadline ks P s h a = cc
waited (r ∷ rounds) deadline ks P s h a =
    let pruned = prune r.now s in
    let traced = IsTraced-prune ks P r.now s h in
    elim (Bool-cases (all_applied ks pruned.applied)) [
      | inl done ↦
          All-mono (λ key. (t : ℕ) × P key t)
            (λ key. (t : ℕ) × (P key t ⊎ Heard key t (happened (r ∷ rounds))))
            (λ key p. (p.0, inl p.1)) ks
            (All-heard ks ks P pruned.applied traced (wanted_self ks) done)
      | inr more ↦ elim (Bool-cases (leb deadline r.again)) [
        | inl late ↦ absurd (some-false (rw (more, late) at a))
        | inr early ↦
            let Q : Key → ℕ → Type 0 = λ key t. P key t ⊎ Heard key t r.meanwhile in
            All-mono (λ key. (t : ℕ) × (Q key t ⊎ Heard key t (happened rounds)))
              (λ key. (t : ℕ) × (P key t ⊎ Heard key t (happened (r ∷ rounds))))
              (λ key p. (p.0, regroup (P key p.0) key p.0 r.meanwhile (happened rounds) p.1)) ks
              (waited rounds deadline ks Q (run r.meanwhile pruned)
                (IsTraced-run ks P r.meanwhile pruned traced) (rw (more, early) at a))
      ]
    ]

module _ (ids : List Text) (version began : ℕ) (s : Tracker) where
  abbrev begun : Tracker
  begun = (begin_delivery ids version began s).1

  -- A delivery that began, and a wait for it that answers true, whatever happens before and during
  -- the wait: an ACK of every Target of it and of this very version was received after
  -- the beginning.
  pub applied_after_begin :
      (events : List Event) (timeout started : ℕ) (rounds : List Round)
      → (begin_delivery ids version began s).0 ≡ true
      → (wait_for ids version timeout started rounds (run events begun)).0 ≡ some true
      → All (λ key. (t : ℕ) × Heard key t (events ++ happened rounds)) (expected_keys ids version)
  unfolding wait_for
  applied_after_begin events timeout started rounds ok done =
      let ks = expected_keys ids version in
      let bad = is_empty ks || not (ltb 0 timeout && leb timeout 30000) in
      elim (Bool-cases bad) [
        | inl refused ↦ absurd (some-false (rw refused at done))
        | inr fine ↦
            let P : Key → ℕ → Type 0 = λ key t. ⊥ ⊎ Heard key t events in
            All-mono (λ key. (t : ℕ) × (P key t ⊎ Heard key t (happened rounds)))
              (λ key. (t : ℕ) × Heard key t (events ++ happened rounds))
              (λ key p. (
                p.0,
                Heard-append key p.0 events (happened rounds)
                    (drop_none key p.0 events (happened rounds) p.1),
              ))
              ks
              (waited rounds (started + timeout) ks P (run events begun)
                (IsTraced-run ks (λ key t. ⊥) events begun (begin_forgets ids version began s ok))
                (rw fine at done))
      ]
