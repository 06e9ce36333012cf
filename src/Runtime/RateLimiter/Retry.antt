-- ===== src/Runtime/RateLimiter/Retry.antt =====
-- How long a denied caller has to wait.
use smart_gatekeeper.Common.{
  ℕ, ◌+◌, ◌-◌, ◌*◌, ◌/◌, ◌≤◌, ◌<◌, ◌≡◌, refl, sym, ap, ◌∙◌, List, [], ◌∷◌, Eq, length, arith, leb,
  ltb, Bool-cases, inl, inr, length-keep, max, true, if◌then◌else◌,
}
use smart_gatekeeper.Common.Dict.{remove, set_item, lookup-set_item}
use smart_gatekeeper.Common.{beq_refl}
use smart_gatekeeper.Runtime.RateLimiter.{
  Limiter, allow, hits_of, live, retry_after, granted, denied,
}
use smart_gatekeeper.Runtime.RateLimiter.Bounds.{IsValid, live-Within}

-- A millisecond after the time that the denial names, the oldest of the live hits has left the window.
live_shrinks :
    (now later window r h : ℕ) (hits : List ℕ)
    → r ≡ max 1 ((h + window - now + 999000000) / 1000000000)
    → now + r * 1000000000 + 1000000 ≤ later
    → length (live later window (h ∷ hits)) ≤ length hits
live_shrinks now later window r h hits e p =
    ground (arith, length-keep (λ hit. ltb later (hit + window)) hits)

denied_value :
    (limit now window r : ℕ) (hits : List ℕ)
    → (if leb limit (length hits) then retry_after now window hits else granted) ≡ denied r
    → (h : ℕ) × (t : List ℕ) × (hits ≡ h ∷ t)
      × (r ≡ max 1 ((h + window - now + 999000000) / 1000000000))
      × (leb limit (length hits) ≡ true)
unfolding retry_after
denied_value limit now window r [] d = absurd (ground arith)
denied_value limit now window r (h ∷ t) d = (h, t, refl, ground arith, ground arith)

few_granted :
    (limit now window : ℕ) (hits : List ℕ)
    → length hits < limit
    → (if leb limit (length hits) then retry_after now window hits else granted) ≡ granted
few_granted limit now window hits h = ground arith

module _ {K : Type 0} ⦃e : Eq K⦄ (key : K) where
  hits_of-set_item :
      (l : List ℕ) (s : Limiter K)
      → hits_of key (record s { hits = set_item key l (remove key s.hits) }) ≡ l
  unfolding hits_of
  hits_of-set_item l s = rw (lookup-set_item key key l (remove key s.hits), beq_refl key)

  module _ (now : ℕ) (s : Limiter K) where
    -- A call is decided by the number of live hits.
    pub decision :
        (hits : List ℕ)
        → live now s.window (hits_of key s) ≡ hits
        → (allow key now s).0
          ≡ (if leb s.limit (length hits) then retry_after now s.window hits else granted)
    unfolding allow
    decision hits h = ground arith

    pub denied_keeps :
        leb s.limit (length (live now s.window (hits_of key s))) ≡ true
        → hits_of key (allow key now s).1 ≡ live now s.window (hits_of key s)
    unfolding allow
    denied_keeps full = rw full (hits_of-set_item (live now s.window (hits_of key s)) s)

    config : ((allow key now s).1.limit ≡ s.limit) × ((allow key now s).1.window ≡ s.window)
    unfolding allow
    config = elim (Bool-cases (leb s.limit (length (live now s.window (hits_of key s))))) [
      | inl full ↦ rw full (refl, refl)
      | inr spare ↦ rw spare (refl, refl)
    ]

    denied_live :
        (r : ℕ)
        → (allow key now s).0 ≡ denied r
        → (h : ℕ) × (t : List ℕ) × (live now s.window (hits_of key s) ≡ h ∷ t)
          × (r ≡ max 1 ((h + s.window - now + 999000000) / 1000000000))
          × (leb s.limit (length (live now s.window (hits_of key s))) ≡ true)
    denied_live r d =
        let hits = live now s.window (hits_of key s) in
        denied_value s.limit now s.window r hits (sym (decision hits refl) ∙ d)

  -- From a limiter within its bounds: a caller that is denied with `r` seconds and comes back after
  -- at least `r` seconds and one millisecond, with no call for any key in between, is granted.
  pub granted_after_retry :
      (now r later : ℕ) (s : Limiter K)
      → IsValid s
      → (allow key now s).0 ≡ denied r
      → now + r * 1000000000 + 1000000 ≤ later
      → (allow key later (allow key now s).1).0 ≡ granted
  granted_after_retry now r later s v d p =
      let (h, t, e, re, full) = denied_live now s r d in
      let next = (allow key now s).1 in
      let after = live later next.window (hits_of key next) in
      let same : after ≡ live later s.window (h ∷ t) =
        rw ((config now s).1, denied_keeps now s full) (ap (live later s.window) e) in
      decision later next after refl
      ∙ few_granted next.limit later next.window after (few h t e re same)
    where
      few :
          (h : ℕ) (t : List ℕ)
          → live now s.window (hits_of key s) ≡ h ∷ t
          → r ≡ max 1 ((h + s.window - now + 999000000) / 1000000000)
          → live later (allow key now s).1.window (hits_of key (allow key now s).1)
            ≡ live later s.window (h ∷ t)
          → length (live later (allow key now s).1.window (hits_of key (allow key now s).1))
            < (allow key now s).1.limit
      few h t e re same =
          rw (same, (config now s).0)
            (omega (
              arith,
              live_shrinks now later s.window r h t re p,
              live-Within key now s v,
              ap (λ (l : List ℕ). length l) e,
            ))
