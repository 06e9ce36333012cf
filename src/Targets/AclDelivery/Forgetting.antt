-- ===== src/Targets/AclDelivery/Forgetting.antt =====
-- An ACK that came before a delivery began never counts for it.
use mathlib.Core.Bool.{false≢true}
use smart_gatekeeper.Common.{
  ℕ, zero, suc, ◌≡◌, ◌⊎◌, inl, inr, refl, Bool, true, false, ◌&&◌, ◌||◌, not, List, [], ◌∷◌, arith,
  list_eq, nat_eq, pair_eq, length, every, keep, Bool-cases, ltb, leb, Option-cases, Eq,
}
use smart_gatekeeper.Common.Dict.{Dict, set_item, remove}
use smart_gatekeeper.Common.Text.{Text}
use smart_gatekeeper.Targets.AclDelivery.{
  Key, Tracker, Event, ack, delivery, reset, happen, run, or_same, mark_applied, begin_delivery,
  reset_transport, prune, forget, evict, evict_oldest, oldest, expected_keys, is_fresh, is_empty,
  max_version, ack_topic, has_topic,
}

-- Among the events is an ACK of the key, received at the time.
abbrev pub Heard : Key → ℕ → List Event → Type 0
Heard key t [] = ⊥
Heard key t (ack id version now ∷ events) = (((id, version) ≡ key) × (now ≡ t)) ⊎ Heard key t events
Heard key t (e ∷ events) = Heard key t events

abbrev pub key_eq : Eq Key
key_eq = pair_eq

abbrev pub wanted : Key → List Key → Bool
wanted key [] = false
wanted key (k ∷ ks) = key_eq.beq k key || wanted key ks

-- Every recorded ACK of a wanted key is among the events.
abbrev pub IsTraced : List Key → (Key → ℕ → Type 0) → Dict Key ℕ → Type 0
IsTraced ks P [] = Unit
IsTraced ks P ((key, t) ∷ d) = (wanted key ks ≡ true → P key t) × IsTraced ks P d

module _ (ks : List Key) (P : Key → ℕ → Type 0) where
  IsTraced-keep : (p : Key × ℕ → Bool) (d : Dict Key ℕ) → IsTraced ks P d → IsTraced ks P (keep p d)
  IsTraced-keep p [] h = tt
  IsTraced-keep p ((key, t) ∷ d) h = elim (Bool-cases (p (key, t))) [
    | inl kept ↦ rw kept (h.0, IsTraced-keep p d h.1)
    | inr gone ↦ rw gone (IsTraced-keep p d h.1)
  ]

  IsTraced-remove : (k : Key) (d : Dict Key ℕ) → IsTraced ks P d → IsTraced ks P (remove k d)
  unfolding remove
  IsTraced-remove k [] h = tt
  IsTraced-remove k ((key, t) ∷ d) h = elim (Bool-cases (key_eq.beq key k)) [
    | inl same ↦ rw same (IsTraced-remove k d h.1)
    | inr other ↦ rw other (h.0, IsTraced-remove k d h.1)
  ]

  IsTraced-set_item :
      (k : Key) (now : ℕ) (d : Dict Key ℕ)
      → (wanted k ks ≡ true → P k now)
      → IsTraced ks P d
      → IsTraced ks P (set_item k now d)
  unfolding set_item
  IsTraced-set_item k now [] p h = (p, tt)
  IsTraced-set_item k now ((key, t) ∷ d) p h = elim (Bool-cases (key_eq.beq key k)) [
    | inl same ↦ rw same ((λ w. let e = (key_eq.beq_iff key k).0 same in rw e (p (rw e at w))), h.1)
    | inr other ↦ rw other (h.0, IsTraced-set_item k now d p h.1)
  ]

  IsTraced-evict_oldest : (d : Dict Key ℕ) → IsTraced ks P d → IsTraced ks P (evict_oldest d)
  unfolding evict_oldest
  IsTraced-evict_oldest [] h = tt
  IsTraced-evict_oldest ((key, t) ∷ d) h = IsTraced-remove (oldest key t d) ((key, t) ∷ d) h

  IsTraced-evict :
      (f limit : ℕ) (d : Dict Key ℕ) → IsTraced ks P d → IsTraced ks P (evict f limit d)
  unfolding evict
  IsTraced-evict zero limit d h = h
  IsTraced-evict (suc f) limit d h = elim (Bool-cases (ltb limit (length d))) [
    | inl over ↦ rw over (IsTraced-evict f limit (evict_oldest d) (IsTraced-evict_oldest d h))
    | inr within ↦ rw within h
  ]

  IsTraced-forget :
      (gone : List Key) (d : Dict Key ℕ) → IsTraced ks P d → IsTraced ks P (forget gone d)
  unfolding forget
  IsTraced-forget [] d h = h
  IsTraced-forget (k ∷ gone) d h = IsTraced-forget gone (remove k d) (IsTraced-remove k d h)

  pub IsTraced-prune :
      (now : ℕ) (s : Tracker) → IsTraced ks P s.applied → IsTraced ks P (prune now s).applied
  unfolding prune
  IsTraced-prune now s h = IsTraced-keep (is_fresh now s.ttl) s.applied h

  IsTraced-mark :
      (id : Text) (version now : ℕ) (s : Tracker)
      → (wanted (id, version) ks ≡ true → P (id, version) now)
      → IsTraced ks P s.applied
      → IsTraced ks P (or_same s (mark_applied id version now s)).applied
  unfolding mark_applied
  IsTraced-mark id version now s p h = elim (Option-cases (ack_topic id)) [
    | inl bad ↦ rw bad h
    | inr (m, good) ↦ elim (Bool-cases (leb 1 version && leb version max_version)) [
      | inl in_range ↦
          let marked = set_item (id, version) now (prune now s).applied in
          rw (good, in_range)
            (IsTraced-evict (length marked) s.maximum marked (
              IsTraced-set_item (id, version) now (prune now s).applied p (IsTraced-prune now s h)))
      | inr out ↦ rw (good, out) h
    ]
  ]

  IsTraced-begin :
      (ids : List Text) (version now : ℕ) (s : Tracker)
      → IsTraced ks P s.applied
      → IsTraced ks P (begin_delivery ids version now s).1.applied
  unfolding begin_delivery
  IsTraced-begin ids version now s h =
      let none_wanted =
        is_empty (expected_keys ids version) || not (leb 1 version && leb version max_version) in
      elim (Bool-cases none_wanted) [
        | inl bad ↦ rw bad h
        | inr good ↦ elim (Bool-cases (every has_topic ids)) [
          | inr bad ↦ rw (good, bad) h
          | inl valid ↦
              rw (good, valid)
                (IsTraced-forget (expected_keys ids version) (prune now s).applied
                  (IsTraced-prune now s h))
        ]
      ]

IsTraced-mono :
    (ks : List Key) (P Q : Key → ℕ → Type 0)
    → ((key : Key) (t : ℕ) → P key t → Q key t)
    → (d : Dict Key ℕ) → IsTraced ks P d
    → IsTraced ks Q d
IsTraced-mono ks P Q f [] h = tt
IsTraced-mono ks P Q f ((key, t) ∷ d) h = ((λ w. f key t (h.0 w)), IsTraced-mono ks P Q f d h.1)

-- One event: what is recorded was recorded before, or is its ACK.
IsTraced-happen :
    (ks : List Key) (P : Key → ℕ → Type 0) (e : Event) (s : Tracker)
    → IsTraced ks P s.applied
    → IsTraced ks (λ key t. P key t ⊎ Heard key t (e ∷ [])) (happen e s).applied
unfolding happen
IsTraced-happen ks P (ack id version now) s h =
    let Q : Key → ℕ → Type 0 = λ key t. P key t ⊎ Heard key t (ack id version now ∷ []) in
    IsTraced-mark ks Q id version now s (λ w. inr (inl (refl, refl)))
      (IsTraced-mono ks P Q (λ key t p. inl p) s.applied h)
IsTraced-happen ks P (delivery ids version now) s h =
    let Q : Key → ℕ → Type 0 = λ key t. P key t ⊎ Heard key t (delivery ids version now ∷ []) in
    IsTraced-begin ks Q ids version now s (IsTraced-mono ks P Q (λ key t p. inl p) s.applied h)
IsTraced-happen ks P reset s h = unfold reset_transport in tt

later :
    (P : Type 0) (key : Key) (t : ℕ) (e : Event) (events : List Event)
    → (P ⊎ Heard key t (e ∷ [])) ⊎ Heard key t events
    → P ⊎ Heard key t (e ∷ events)
later P key t e events (inl (inl p)) = inl p
later P key t (ack id version now) events (inl (inr (inl h))) = inr (inl h)
later P key t (ack id version now) events (inl (inr (inr h))) = absurd h
later P key t (delivery ids version now) events (inl (inr h)) = absurd h
later P key t reset events (inl (inr h)) = absurd h
later P key t (ack id version now) events (inr h) = inr (inr h)
later P key t (delivery ids version now) events (inr h) = inr h
later P key t reset events (inr h) = inr h

pub IsTraced-run :
    (ks : List Key) (P : Key → ℕ → Type 0) (events : List Event) (s : Tracker)
    → IsTraced ks P s.applied
    → IsTraced ks (λ key t. P key t ⊎ Heard key t events) (run events s).applied
unfolding run
IsTraced-run ks P [] s h =
    IsTraced-mono ks P (λ key t. P key t ⊎ Heard key t []) (λ key t p. inl p) s.applied h
IsTraced-run ks P (e ∷ events) s h =
    let Q : Key → ℕ → Type 0 = λ key t. P key t ⊎ Heard key t (e ∷ []) in
    IsTraced-mono ks (λ key t. Q key t ⊎ Heard key t events)
      (λ key t. P key t ⊎ Heard key t (e ∷ events)) (λ key t p. later (P key t) key t e events p)
      (run events (happen e s)).applied
      (IsTraced-run ks Q events (happen e s) (IsTraced-happen ks P e s h))

beq_swap : (a b : Key) → key_eq.beq a b ≡ false → key_eq.beq b a ≡ false
beq_swap a b h = ground (arith, key_eq.beq_iff a b, key_eq.beq_iff b a)

wanted_rest :
    (key k : Key) (gone : List Key)
    → key_eq.beq key k ≡ false
    → wanted key (k ∷ gone) ≡ true
    → wanted key gone ≡ true
wanted_rest key k gone n w = rw (beq_swap key k n) at w

forget_step :
    (ks gone : List Key) (k : Key) (d : Dict Key ℕ)
    → IsTraced ks (λ key t. wanted key (k ∷ gone) ≡ true) d
    → IsTraced ks (λ key t. wanted key gone ≡ true) (remove k d)
unfolding remove
forget_step ks gone k [] h = tt
forget_step ks gone k ((key, t) ∷ d) h = elim (Bool-cases (key_eq.beq key k)) [
  | inl same ↦ rw same (forget_step ks gone k d h.1)
  | inr other ↦ rw other ((λ w. wanted_rest key k gone other (h.0 w)), forget_step ks gone k d h.1)
]

forget_all :
    (ks gone : List Key) (d : Dict Key ℕ)
    → IsTraced ks (λ key t. wanted key gone ≡ true) d
    → IsTraced ks (λ key t. ⊥) (forget gone d)
unfolding forget
forget_all ks [] d h =
    IsTraced-mono ks (λ key t. wanted key [] ≡ true) (λ key t. ⊥) (λ key t w. false≢true w) d h
forget_all ks (k ∷ gone) d h = forget_all ks gone (remove k d) (forget_step ks gone k d h)

own_keys : (ks : List Key) (d : Dict Key ℕ) → IsTraced ks (λ key t. wanted key ks ≡ true) d
own_keys ks [] = tt
own_keys ks ((key, t) ∷ d) = ((λ w. w), own_keys ks d)

-- Right after a delivery begins no ACK of its keys is recorded.
pub begin_forgets :
    (ids : List Text) (version now : ℕ) (s : Tracker)
    → (begin_delivery ids version now s).0 ≡ true
    → IsTraced (expected_keys ids version) (λ key t. ⊥) (begin_delivery ids version now s).1.applied
unfolding begin_delivery
begin_forgets ids version now s ok =
    let ks = expected_keys ids version in
    let bad = is_empty ks || not (leb 1 version && leb version max_version) in
    elim (Bool-cases bad) [
      | inl refused ↦ absurd (false≢true (rw refused at ok))
      | inr fine ↦ elim (Bool-cases (every has_topic ids)) [
        | inr refused ↦ absurd (false≢true (rw (fine, refused) at ok))
        | inl valid ↦
            rw (fine, valid)
              (forget_all ks ks (prune now s).applied (own_keys ks (prune now s).applied))
      ]
    ]
