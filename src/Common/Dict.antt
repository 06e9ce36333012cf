-- ===== src/Common/Dict.antt =====
-- Python's `dict` and `OrderedDict`: an association list in insertion order. Assignment to a key that
-- is there keeps its place, a new key goes to the end, and `popitem(last=False)` takes the first.
use mathlib.Core.Path.{subst}
use smart_gatekeeper.Common.{
  ◌<◌, ℕ, zero, suc, ◌+◌, ◌≤◌, ◌≡◌, refl, Bool, false, ◌||◌, Option, none, some, List, [], ◌∷◌,
  ◌++◌, arith, Eq, if◌then◌else◌, length, ltb, Bool-cases, inl, inr,
}

abbrev pub Dict {ℓ} : Type ℓ → Type ℓ → Type ℓ
Dict K V = List (K × V)

module _ {ℓ} {K V : Type ℓ} where
  -- d.popitem(last=False)
  unfoldable pub pop_first : Dict K V → Dict K V
  pop_first [] = []
  pop_first (e ∷ d) = d

  abbrev pub keys : Dict K V → List K
  keys [] = []
  keys ((k, v) ∷ d) = k ∷ keys d

  -- `while len(d) > limit: d.popitem(last=False)`, with fuel for its rounds
  unfoldable pub trim_rounds : ℕ → ℕ → Dict K V → Dict K V
  trim_rounds zero limit d = d
  trim_rounds (suc f) limit d =
      let rest = trim_rounds f limit (pop_first d) in if ltb limit (length d) then rest else d

  unfoldable pub trim : ℕ → Dict K V → Dict K V
  unfolding trim_rounds pop_first
  trim limit d = trim_rounds (length d) limit d

  trim_rounds-length :
      (f limit : ℕ) (d : Dict K V) → length d ≤ f → length (trim_rounds f limit d) ≤ limit
  unfolding trim_rounds pop_first
  trim_rounds-length zero limit [] h = omega arith
  trim_rounds-length zero limit (e ∷ d) h = absurd (omega arith)
  trim_rounds-length (suc f) limit [] h = ground arith
  trim_rounds-length (suc f) limit (e ∷ d) h = ground (arith, trim_rounds-length f limit d)

  -- The rounds suffice: after the loop the dictionary is within its limit.
  pub length-trim : (limit : ℕ) (d : Dict K V) → length (trim limit d) ≤ limit
  unfolding trim
  length-trim limit d = trim_rounds-length (length d) limit d (omega arith)

  trim_rounds-within : (f limit : ℕ) (d : Dict K V) → length d ≤ limit → trim_rounds f limit d ≡ d
  unfolding trim_rounds
  trim_rounds-within zero limit d h = refl
  trim_rounds-within (suc f) limit d h = ground arith

  pub trim-within : (limit : ℕ) (d : Dict K V) → length d ≤ limit → trim limit d ≡ d
  unfolding trim
  trim-within limit d h = trim_rounds-within (length d) limit d h

  -- One entry too many: exactly the oldest goes.
  pub trim_one_over :
      (limit : ℕ) (e : K × V) (d : Dict K V) → length d ≡ limit → trim limit (e ∷ d) ≡ d
  unfolding trim
  trim_one_over limit e d h = ground (arith, trim_rounds-within (length d) limit d)

module _ {ℓ} {K V : Type ℓ} ⦃e : Eq K⦄ where
  -- d.get(k)
  unfoldable pub lookup : K → Dict K V → Option V
  lookup k [] = none
  lookup k ((j, v) ∷ d) = if e.beq j k then some v else lookup k d

  -- k in d
  unfoldable pub has : K → Dict K V → Bool
  has k [] = false
  has k ((j, v) ∷ d) = e.beq j k || has k d

  -- d[k] = v
  unfoldable pub set_item : K → V → Dict K V → Dict K V
  set_item k v [] = (k, v) ∷ []
  set_item k v ((j, w) ∷ d) = if e.beq j k then (j, v) ∷ d else (j, w) ∷ set_item k v d

  -- d.pop(k, None)
  unfoldable pub remove : K → Dict K V → Dict K V
  remove k [] = []
  remove k ((j, v) ∷ d) = let rest = remove k d in if e.beq j k then rest else (j, v) ∷ rest

  pub lookup-set_item :
      (k j : K) (v : V) (d : Dict K V)
      → lookup j (set_item k v d) ≡ (if e.beq k j then some v else lookup j d)
  unfolding lookup set_item
  lookup-set_item k j v [] = refl
  lookup-set_item k j v ((i, w) ∷ d) =
      ground (arith, e.beq_iff k j, e.beq_iff i k, e.beq_iff i j, lookup-set_item k j v d)

  pub lookup-remove :
      (k j : K) (d : Dict K V) → lookup j (remove k d) ≡ (if e.beq k j then none else lookup j d)
  unfolding lookup remove
  lookup-remove k j [] = ground arith
  lookup-remove k j ((i, w) ∷ d) =
      ground (arith, e.beq_iff k j, e.beq_iff i k, e.beq_iff i j, lookup-remove k j d)

  pub lookup-append :
      (k : K) (d f : Dict K V)
      → lookup k (d ++ f) ≡ (elim (lookup k d) [ none ↦ lookup k f | some v ↦ some v ])
  unfolding lookup
  lookup-append k [] f = refl
  lookup-append k ((j, v) ∷ d) f = ground (arith, lookup-append k d f)

  pub length-remove : (k : K) (d : Dict K V) → length (remove k d) ≤ length d
  unfolding remove
  length-remove k [] = omega arith
  length-remove k ((j, v) ∷ d) = ground (arith, length-remove k d)

  pub length-set_item : (k : K) (v : V) (d : Dict K V) → length (set_item k v d) ≤ length d + 1
  unfolding set_item
  length-set_item k v [] = omega arith
  length-set_item k v ((j, w) ∷ d) = ground (arith, length-set_item k v d)

  pub length-set_item_old :
      (k : K) (v w : V) (d : Dict K V) → lookup k d ≡ some w → length (set_item k v d) ≡ length d
  unfolding set_item lookup
  length-set_item_old k v w [] h = cc
  length-set_item_old k v w ((j, u) ∷ d) h = ground (arith, length-set_item_old k v w d)

  -- A key that is not there goes to the end.
  pub set_item_new :
      (k : K) (v : V) (d : Dict K V) → lookup k d ≡ none → set_item k v d ≡ d ++ (k, v) ∷ []
  unfolding set_item lookup
  set_item_new k v [] h = refl
  set_item_new k v ((j, w) ∷ d) h = ground (arith, set_item_new k v d)

  pub remove_new : (k : K) (d : Dict K V) → lookup k d ≡ none → remove k d ≡ d
  unfolding remove lookup
  remove_new k [] h = refl
  remove_new k ((j, w) ∷ d) h = ground (arith, remove_new k d)

  -- No key stands twice.
  abbrev pub IsDistinct : Dict K V → Type 0
  IsDistinct [] = Unit
  IsDistinct ((k, v) ∷ d) = (has k d ≡ false) × IsDistinct d

  pub has-remove :
      (k j : K) (d : Dict K V) → has j (remove k d) ≡ (if e.beq k j then false else has j d)
  unfolding has remove
  has-remove k j [] = ground arith
  has-remove k j ((i, w) ∷ d) =
      ground (arith, e.beq_iff k j, e.beq_iff i k, e.beq_iff i j, has-remove k j d)

  pub has-set_item :
      (k j : K) (v : V) (d : Dict K V) → has j (set_item k v d) ≡ (e.beq k j || has j d)
  unfolding has set_item
  has-set_item k j v [] = ground arith
  has-set_item k j v ((i, w) ∷ d) =
      ground (arith, e.beq_iff k j, e.beq_iff i k, e.beq_iff i j, has-set_item k j v d)

  pub has-lookup : (k : K) (d : Dict K V) → has k d ≡ false → lookup k d ≡ none
  unfolding has lookup
  has-lookup k [] h = refl
  has-lookup k ((j, w) ∷ d) h = ground (arith, has-lookup k d)

  pub lookup-has : (k : K) (d : Dict K V) → lookup k d ≡ none → has k d ≡ false
  unfolding has lookup
  lookup-has k [] h = refl
  lookup-has k ((j, w) ∷ d) h = ground (arith, lookup-has k d)

  pub remove-IsDistinct : (k : K) (d : Dict K V) → IsDistinct d → IsDistinct (remove k d)
  unfolding remove
  remove-IsDistinct k [] h = tt
  remove-IsDistinct k ((j, w) ∷ d) h = elim (Bool-cases (e.beq j k)) [
    | inl same ↦ rw same (remove-IsDistinct k d h.1)
    | inr other ↦ rw other (ground (arith, has-remove k j d, h.0), remove-IsDistinct k d h.1)
  ]

  pub set_item-IsDistinct :
      (k : K) (v : V) (d : Dict K V) → IsDistinct d → IsDistinct (set_item k v d)
  unfolding set_item has
  set_item-IsDistinct k v [] h = ground arith
  set_item-IsDistinct k v ((j, w) ∷ d) h = elim (Bool-cases (e.beq j k)) [
    | inl same ↦ rw same h
    | inr other ↦ rw other (
      ground (arith, has-set_item k j v d, h.0, e.beq_iff k j, e.beq_iff j k),
      set_item-IsDistinct k v d h.1,
    )
  ]

  pub pop_first-IsDistinct : (d : Dict K V) → IsDistinct d → IsDistinct (pop_first d)
  unfolding pop_first
  pop_first-IsDistinct [] h = tt
  pop_first-IsDistinct ((k, v) ∷ d) h = h.1

  trim_rounds-IsDistinct :
      (f limit : ℕ) (d : Dict K V) → IsDistinct d → IsDistinct (trim_rounds f limit d)
  unfolding trim_rounds pop_first
  trim_rounds-IsDistinct zero limit d h = h
  trim_rounds-IsDistinct (suc f) limit [] h = ground arith
  trim_rounds-IsDistinct (suc f) limit ((k, v) ∷ d) h =
      elim (Bool-cases (ltb limit (length ((k, v) ∷ d)))) [
        | inl over ↦ rw over (trim_rounds-IsDistinct f limit d h.1)
        | inr within ↦ rw within h
      ]

  pub trim-IsDistinct : (limit : ℕ) (d : Dict K V) → IsDistinct d → IsDistinct (trim limit d)
  unfolding trim
  trim-IsDistinct limit d h = trim_rounds-IsDistinct (length d) limit d h

pub ruleset dict_laws = (lookup-set_item, lookup-remove)

-- A property of every value.
module _ {ℓ} {K V : Type ℓ} where
  abbrev pub AllValues {κ} : (V → Type κ) → Dict K V → Type κ
  AllValues P [] = Unit
  AllValues P ((k, v) ∷ d) = P v × AllValues P d

module _ {ℓ κ} {K V : Type ℓ} (P : V → Type κ) where
  trim_rounds-AllValues :
      (f limit : ℕ) (d : Dict K V) → AllValues P d → AllValues P (trim_rounds f limit d)
  unfolding trim_rounds pop_first
  trim_rounds-AllValues zero limit d h = h
  trim_rounds-AllValues (suc f) limit [] h = elim (Bool-cases (ltb limit (length {A = K × V} []))) [
    | inl over ↦ rw over (trim_rounds-AllValues f limit [] h)
    | inr within ↦ rw within h
  ]
  trim_rounds-AllValues (suc f) limit ((k, v) ∷ d) h =
      elim (Bool-cases (ltb limit (length ((k, v) ∷ d)))) [
        | inl over ↦ rw over (trim_rounds-AllValues f limit d h.1)
        | inr within ↦ rw within h
      ]

  pub trim-AllValues : (limit : ℕ) (d : Dict K V) → AllValues P d → AllValues P (trim limit d)
  unfolding trim
  trim-AllValues limit d h = trim_rounds-AllValues (length d) limit d h

module _ {ℓ κ} {K V : Type ℓ} ⦃e : Eq K⦄ (P : V → Type κ) where
  pub lookup-AllValues : (k : K) (v : V) (d : Dict K V) → AllValues P d → lookup k d ≡ some v → P v
  unfolding lookup
  lookup-AllValues k v [] h p = cc
  lookup-AllValues k v ((j, w) ∷ d) h p = elim (Bool-cases (e.beq j k)) [
    | inl same ↦ let q : w ≡ v = ground arith in subst P q h.0
    | inr other ↦ lookup-AllValues k v d h.1 (rw other at p)
  ]

  pub set_item-AllValues :
      (k : K) (v : V) (d : Dict K V) → P v → AllValues P d → AllValues P (set_item k v d)
  unfolding set_item
  set_item-AllValues k v [] p h = (p, tt)
  set_item-AllValues k v ((j, w) ∷ d) p h = elim (Bool-cases (e.beq j k)) [
    | inl same ↦ rw same (p, h.1)
    | inr other ↦ rw other (h.0, set_item-AllValues k v d p h.1)
  ]

  pub remove-AllValues : (k : K) (d : Dict K V) → AllValues P d → AllValues P (remove k d)
  unfolding remove
  remove-AllValues k [] h = tt
  remove-AllValues k ((j, w) ∷ d) h = elim (Bool-cases (e.beq j k)) [
    | inl same ↦ rw same (remove-AllValues k d h.1)
    | inr other ↦ rw other (h.0, remove-AllValues k d h.1)
  ]

module _ {ℓ} {K V : Type ℓ} ⦃e : Eq K⦄ where
  pub length-remove_old :
      (k : K) (v : V) (d : Dict K V) → lookup k d ≡ some v → length (remove k d) < length d
  unfolding remove lookup
  length-remove_old k v [] h = cc
  length-remove_old k v ((j, w) ∷ d) h = ground (arith, length-remove k d, length-remove_old k v d)
