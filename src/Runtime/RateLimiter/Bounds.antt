-- ===== src/Runtime/RateLimiter/Bounds.antt =====
-- The limiter's memory is bounded: by `max_keys` keys, and `limit` hits for each.
use smart_gatekeeper.Common.{
  ℕ, ◌+◌, ◌≤◌, ◌<◌, ◌≡◌, List, [], ◌∷◌, ◌++◌, Eq, length, arith, leb, leb→le, false, Bool-cases,
  Option-cases, inl, inr, length-append, length-keep, ltb,
}
use smart_gatekeeper.Common.Dict.{
  lookup, remove, set_item, IsDistinct, AllValues, length-trim, trim-IsDistinct,
  set_item-IsDistinct, remove-IsDistinct, trim-AllValues, set_item-AllValues, remove-AllValues,
  lookup-AllValues, length-remove_old, length-set_item,
}
use smart_gatekeeper.Runtime.RateLimiter.{Limiter, allow, hits_of, live}

abbrev pub Within : ℕ → List ℕ → Type 0
Within limit l = length l ≤ limit

pub record IsValid {K : Type 0} ⦃e : Eq K⦄ (s : Limiter K) : Type 0 where
  pub limited : 0 < s.limit
  pub roomy : 0 < s.max_keys
  pub distinct : IsDistinct s.hits
  pub bounded : AllValues (Within s.limit) s.hits
  pub few : length s.hits ≤ s.max_keys

one_more :
    (limit : ℕ) (hits : List ℕ) (now : ℕ)
    → leb limit (length hits) ≡ false
    → Within limit (hits ++ now ∷ [])
one_more limit hits now spare = ground (arith, length-append hits (now ∷ []))

module _ {K : Type 0} ⦃e : Eq K⦄ where
  pub hits_of-Within : (key : K) (s : Limiter K) → IsValid s → Within s.limit (hits_of key s)
  unfolding hits_of
  hits_of-Within key s v = elim (Option-cases (lookup key s.hits)) [
    | inl e ↦ rw e (omega arith)
    | inr (l, e) ↦ rw e (lookup-AllValues (Within s.limit) key l s.hits v.bounded e)
  ]

  pub live-Within :
      (key : K) (now : ℕ) (s : Limiter K)
      → IsValid s
      → Within s.limit (live now s.window (hits_of key s))
  live-Within key now s v =
      omega (
        arith,
        hits_of-Within key s v,
        length-keep (λ hit. ltb now (hit + s.window)) (hits_of key s),
      )

  -- A denied caller was in the table, so putting its hits back does not make the table grow.
  denied_few :
      (key : K) (now : ℕ) (s : Limiter K)
      → IsValid s
      → s.limit ≤ length (live now s.window (hits_of key s))
      → (l : List ℕ) → length (set_item key l (remove key s.hits)) ≤ s.max_keys
  unfolding hits_of
  denied_few key now s v full l = elim (Option-cases (lookup key s.hits)) [
    | inl e ↦ absurd (omega (arith, v.limited, rw e at full))
    | inr (w, e) ↦
        omega (
          arith,
          v.few,
          length-set_item key l (remove key s.hits),
          length-remove_old key w s.hits e,
        )
  ]

  -- From a limiter within its bounds, whatever the caller and the time, a call leaves one: a
  -- positive limit, at most `max_keys` keys, none twice, and at most `limit` hits for each.
  pub allow-IsValid : (key : K) (now : ℕ) (s : Limiter K) → IsValid s → IsValid (allow key now s).1
  unfolding allow
  allow-IsValid key now s v =
      let hits = live now s.window (hits_of key s) in
      let popped = remove key s.hits in
      let apart = remove-IsDistinct key s.hits v.distinct in
      let rest = remove-AllValues (Within s.limit) key s.hits v.bounded in
      elim (Bool-cases (leb s.limit (length hits))) [
        | inl full ↦ rw full (record {
          limited = v.limited;
          roomy = v.roomy;
          distinct = set_item-IsDistinct key hits popped apart;
          bounded =
              set_item-AllValues (Within s.limit) key hits popped (live-Within key now s v) rest;
          few = denied_few key now s v (leb→le s.limit (length hits) full) hits;
        })
        | inr spare ↦
            let next = hits ++ now ∷ [] in
            rw spare (record {
              limited = v.limited;
              roomy = v.roomy;
              distinct =
                  trim-IsDistinct s.max_keys (set_item key next popped)
                    (set_item-IsDistinct key next popped apart);
              bounded = trim-AllValues (Within s.limit) s.max_keys (set_item key next popped) (
                  set_item-AllValues (Within s.limit) key next popped
                    (one_more s.limit hits now spare) rest);
              few = length-trim s.max_keys (set_item key next popped);
            })
      ]
