-- ===== src/Targets/AclDelivery/Bounds.antt =====
-- The tracker keeps at most `maximum_records` records.
use mathlib.Core.Path.{subst}
use smart_gatekeeper.Common.{
  ℕ, zero, suc, ◌≤◌, ◌≡◌, refl, Bool, true, false, ◌||◌, some, [], ◌∷◌, arith, list_eq, nat_eq,
  pair_eq, length, Bool-cases, inl, inr, ltb, Option-cases, Eq,
}
use smart_gatekeeper.Common.Dict.{Dict, lookup, set_item, has, length-remove_old, lookup-has}
use smart_gatekeeper.Common.Text.{Text}
use smart_gatekeeper.Targets.AclDelivery.{
  Key, Tracker, mark_applied, prune, evict, evict_oldest, oldest,
}

abbrev key_eq : Eq Key
key_eq = pair_eq

or_right : (a b : Bool) → b ≡ true → (a || b) ≡ true
or_right true b h = refl
or_right false b h = h

or_between : (a b c : Bool) → (a || c) ≡ true → (a || (b || c)) ≡ true
or_between true b c h = refl
or_between false b c h = or_right b c h

oldest_older :
    (key k : Key) (t u : ℕ) (d : Dict Key ℕ)
    → ltb u t ≡ true
    → oldest k u d ≡ oldest key t ((k, u) ∷ d)
unfolding oldest
oldest_older key k t u d h = rw h refl

oldest_newer :
    (key k : Key) (t u : ℕ) (d : Dict Key ℕ)
    → ltb u t ≡ false
    → oldest key t d ≡ oldest key t ((k, u) ∷ d)
unfolding oldest
oldest_newer key k t u d h = rw h refl

has_head : (key : Key) (t : ℕ) (d : Dict Key ℕ) → has key ((key, t) ∷ d) ≡ true
unfolding has
has_head key t d = rw ((key_eq.beq_iff key key).1 refl) refl

has_later : (x key : Key) (t : ℕ) (d : Dict Key ℕ) → has x d ≡ true → has x ((key, t) ∷ d) ≡ true
unfolding has
has_later x key t d h = or_right (key_eq.beq key x) (has x d) h

has_skip :
    (x key k : Key) (t u : ℕ) (d : Dict Key ℕ)
    → has x ((key, t) ∷ d) ≡ true
    → has x ((key, t) ∷ (k, u) ∷ d) ≡ true
unfolding has
has_skip x key k t u d h = or_between (key_eq.beq key x) (key_eq.beq k x) (has x d) h

-- The key that is evicted is there.
has-oldest : (key : Key) (t : ℕ) (d : Dict Key ℕ) → has (oldest key t d) ((key, t) ∷ d) ≡ true
has-oldest key t [] = unfold oldest in has_head key t []
has-oldest key t ((k, u) ∷ d) = elim (Bool-cases (ltb u t)) [
  | inl older ↦
      subst (λ x. has x ((key, t) ∷ (k, u) ∷ d) ≡ true) (oldest_older key k t u d older)
        (has_later (oldest k u d) key t ((k, u) ∷ d) (has-oldest k u d))
  | inr newer ↦
      subst (λ x. has x ((key, t) ∷ (k, u) ∷ d) ≡ true) (oldest_newer key k t u d newer)
        (has_skip (oldest key t d) key k t u d (has-oldest key t d))
]

length-evict_oldest :
    (key : Key) (t : ℕ) (d : Dict Key ℕ) → length (evict_oldest ((key, t) ∷ d)) ≤ length d
unfolding evict_oldest
length-evict_oldest key t d =
    let k = oldest key t d in
    elim (Option-cases (lookup k ((key, t) ∷ d))) [
      | inl gone ↦ absurd (ground (arith, has-oldest key t d, lookup-has k ((key, t) ∷ d) gone))
      | inr (v, found) ↦ omega (arith, length-remove_old k v ((key, t) ∷ d) found)
    ]

length-evict : (f limit : ℕ) (d : Dict Key ℕ) → length d ≤ f → length (evict f limit d) ≤ limit
unfolding evict
length-evict zero limit [] h = omega arith
length-evict zero limit ((key, t) ∷ d) h = absurd (omega arith)
length-evict (suc f) limit [] h = ground arith
length-evict (suc f) limit ((key, t) ∷ d) h =
    ground (arith, length-evict_oldest key t d, length-evict f limit (evict_oldest ((key, t) ∷ d)))

-- Whatever was recorded before, after an ACK is recorded there are at most `maximum` records, and
-- the maximum is the same.
pub mark_applied_bounded :
    (id : Text) (version now : ℕ) (s t : Tracker)
    → mark_applied id version now s ≡ some t
    → (length t.applied ≤ s.maximum) × (t.maximum ≡ s.maximum)
unfolding mark_applied
mark_applied_bounded id version now s t h =
    let marked = set_item (id, version) now (prune now s).applied in
    ground (arith, length-evict (length marked) s.maximum marked)
