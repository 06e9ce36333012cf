-- ===== src/Runtime/Ledger/Held.antt =====
-- The entry of a key that has not expired: which changes of the ledger's dictionary leave it there.
use smart_gatekeeper.Common.{
  ℕ, zero, suc, ◌+◌, ◌≤◌, ◌<◌, ◌≡◌, refl, false, none, some, [], ◌∷◌, ◌++◌, Eq, if◌then◌else◌,
  length, ltb, lt→ltb, le→ltb_false, arith, Bool-cases, inl, inr, beq_refl,
}
use smart_gatekeeper.Common.Dict.{
  Dict, lookup, set_item, trim, trim_rounds, pop_first, length-set_item,
}
use smart_gatekeeper.Runtime.Ledger.{Entry, Progress, purge}

module _ {K R : Type 0} ⦃e : Eq K⦄ where
  -- `key` is in the ledger, created no earlier than `since`, with at most `n` younger entries.
  abbrev pub Held : K → ℕ → ℕ → Dict K (Entry R) → Type 0
  Held key since n [] = ⊥
  Held key since n ((k, (created, p)) ∷ d) =
      if e.beq k key then (since ≤ created) × (length d ≤ n) else Held key since n d

  pub Held-purge :
      (key : K) (since n ttl now : ℕ) (d : Dict K (Entry R))
      → now < since + ttl
      → Held key since n d
      → Held key since n (purge ttl now d)
  unfolding purge
  Held-purge key since n ttl now [] t h = h
  Held-purge key since n ttl now ((k, (created, p)) ∷ d) t h = elim (Bool-cases (e.beq k key)) [
    | inl same ↦
        let g : since ≤ created = (rw same at h).0 in
        rw (lt→ltb now (created + ttl) (omega arith)) h
    | inr other ↦ elim (Bool-cases (ltb now (created + ttl))) [
      | inl lives ↦ rw lives h
      | inr gone ↦ rw gone (Held-purge key since n ttl now d t (rw other at h))
    ]
  ]

  Held-trim_rounds :
      (key : K) (since n f limit : ℕ) (d : Dict K (Entry R))
      → n < limit
      → Held key since n d
      → Held key since n (trim_rounds f limit d)
  unfolding trim_rounds pop_first
  Held-trim_rounds key since n zero limit d l h = h
  Held-trim_rounds key since n (suc f) limit [] l h = absurd h
  Held-trim_rounds key since n (suc f) limit ((k, (created, p)) ∷ d) l h =
      elim (Bool-cases (e.beq k key)) [
        | inl same ↦
            let g : length d ≤ n = (rw same at h).1 in
            rw (le→ltb_false limit (suc (length d)) (omega arith)) h
        | inr other ↦ elim (Bool-cases (ltb limit (suc (length d)))) [
          | inl over ↦ rw over (Held-trim_rounds key since n f limit d l (rw other at h))
          | inr within ↦ rw within h
        ]
      ]

  pub Held-mono :
      (key : K) (since n m : ℕ) (d : Dict K (Entry R))
      → n ≤ m
      → Held key since n d
      → Held key since m d
  Held-mono key since n m [] l h = h
  Held-mono key since n m ((k, (created, p)) ∷ d) l h = elim (Bool-cases (e.beq k key)) [
    | inl same ↦ let g = rw same at h in rw same (g.0, omega (arith, g.1))
    | inr other ↦ rw other (Held-mono key since n m d l (rw other at h))
  ]

  pub Held-trim :
      (key : K) (since n limit : ℕ) (d : Dict K (Entry R))
      → n < limit
      → Held key since n d
      → Held key since n (trim limit d)
  unfolding trim
  Held-trim key since n limit d l h = Held-trim_rounds key since n (length d) limit d l h

  pub Held-set_other :
      (key k : K) (v : Entry R) (since n : ℕ) (d : Dict K (Entry R))
      → e.beq k key ≡ false
      → Held key since n d
      → Held key since (n + 1) (set_item k v d)
  unfolding set_item
  Held-set_other key k v since n [] o h = absurd h
  Held-set_other key k v since n ((j, (created, p)) ∷ d) o h = elim (Bool-cases (e.beq j key)) [
    | inl same ↦
        let g = rw same at h in
        let apart : e.beq j k ≡ false =
          ground (arith, e.beq_iff j key, e.beq_iff k key, e.beq_iff j k) in
        rw (apart, same) (g.0, omega (arith, g.1, length-set_item k v d))
    | inr other ↦ elim (Bool-cases (e.beq j k)) [
      | inl here ↦ rw (here, other) (Held-mono key since n (n + 1) d (omega arith) (rw other at h))
      | inr there ↦ rw (there, other) (Held-set_other key k v since n d o (rw other at h))
    ]
  ]

  -- Completing an entry keeps its place, and does not make it younger than it was.
  pub Held-set_same :
      (key : K) (c : ℕ) (q : Progress R) (since n : ℕ) (d : Dict K (Entry R))
      → since ≤ c
      → Held key since n d
      → Held key since n (set_item key (c, q) d)
  unfolding set_item
  Held-set_same key c q since n [] l h = absurd h
  Held-set_same key c q since n ((j, (created, p)) ∷ d) l h = elim (Bool-cases (e.beq j key)) [
    | inl same ↦ rw (same, same) (l, (rw same at h).1)
    | inr other ↦ rw (other, other) (Held-set_same key c q since n d l (rw other at h))
  ]

  pub Held-lookup :
      (key : K) (since n : ℕ) (d : Dict K (Entry R))
      → Held key since n d
      → (c : ℕ) × (p : Progress R) × (lookup key d ≡ some (c, p)) × (since ≤ c)
  unfolding lookup
  Held-lookup key since n [] h = absurd h
  Held-lookup key since n ((j, (created, p)) ∷ d) h = elim (Bool-cases (e.beq j key)) [
    | inl same ↦ (created, p, rw same refl, (rw same at h).0)
    | inr other ↦
        let (c, q, found, l) = Held-lookup key since n d (rw other at h) in
        (c, q, rw other found, l)
  ]

  pub Held-append :
      (key : K) (since : ℕ) (p : Progress R) (d : Dict K (Entry R))
      → lookup key d ≡ none
      → Held key since 0 (d ++ (key, (since, p)) ∷ [])
  unfolding lookup
  Held-append key since p [] h = rw (beq_refl key) (omega arith)
  Held-append key since p ((j, (created, q)) ∷ d) h = elim (Bool-cases (e.beq j key)) [
    | inl same ↦ absurd (ground arith)
    | inr other ↦ rw other (Held-append key since p d (rw other at h))
  ]
