-- ===== src/Runtime/RateLimiter/Window.antt =====
-- The limiter against a sliding window over the whole history of granted calls, which forgets nothing.
use mathlib.Core.Path.{subst}
use smart_gatekeeper.Common.{
  ℕ, ◌+◌, ◌≤◌, ◌<◌, ◌≡◌, refl, ap, ◌∙◌, Bool, true, false, not, List, [], ◌∷◌, ◌++◌, Eq,
  if◌then◌else◌, length, ltb, leb, arith, keep-keep, keep-append, append-nil, Bool-cases, beq_refl,
  inl, inr,
}
use smart_gatekeeper.Common.Dict.{
  Dict, lookup, set_item, remove, trim-within, lookup-set_item, lookup-remove, length-set_item,
  length-remove,
}
use smart_gatekeeper.Runtime.RateLimiter.{
  Limiter, Decision, granted, live, or_empty, retry_after, hits_of, allow,
}

abbrev pub is_granted : Decision → Bool
is_granted granted = true
is_granted _ = false

-- live of live
live-live :
    (now later window : ℕ) (hits : List ℕ)
    → now ≤ later
    → live later window (live now window hits) ≡ live later window hits
live-live now later window hits h =
    keep-keep (λ hit. ltb now (hit + window)) (λ hit. ltb later (hit + window))
      (λ x q. ground arith) hits

retry_after-denies :
    (now window : ℕ) (hits : List ℕ) → is_granted (retry_after now window hits) ≡ false
unfolding retry_after
retry_after-denies now window [] = refl
retry_after-denies now window (h ∷ hits) = refl

module _ {K : Type 0} ⦃e : Eq K⦄ where
  -- The times of the granted calls with a key
  abbrev pub times : K → List (K × ℕ) → List ℕ
  times key [] = []
  times key ((j, t) ∷ history) =
      let rest = times key history in if e.beq j key then t ∷ rest else rest

  -- A call is granted where fewer than `limit` granted calls with its key are in the window.
  abbrev pub ideal_grants : ℕ → ℕ → K × ℕ → List (K × ℕ) → Bool
  ideal_grants limit window (key, now) history =
      not (leb limit (length (live now window (times key history))))

  abbrev pub ideal : ℕ → ℕ → List (K × ℕ) → List (K × ℕ) → List Bool
  ideal limit window [] history = []
  ideal limit window (c ∷ calls) history =
      let b = ideal_grants limit window c history in
      b ∷ ideal limit window calls (if b then history ++ c ∷ [] else history)

  unfoldable pub answers : List (K × ℕ) → Limiter K → List Bool
  answers [] s = []
  answers ((key, now) ∷ calls) s = let x = allow key now s in is_granted x.0 ∷ answers calls x.1

  -- Calls in the order of their times, none before `now`
  abbrev pub IsOrdered : ℕ → List (K × ℕ) → Type 0
  IsOrdered now [] = Unit
  IsOrdered now ((key, t) ∷ calls) = (now ≤ t) × IsOrdered t calls

  -- From a time on, the window shows the same hits of every key.
  abbrev Agrees : ℕ → Limiter K → List (K × ℕ) → Type 0
  Agrees now s history =
      (key : K) (later : ℕ)
      → now ≤ later
      → live later s.window (hits_of key s) ≡ live later s.window (times key history)

  times-append : (key : K) (h g : List (K × ℕ)) → times key (h ++ g) ≡ times key h ++ times key g
  times-append key [] g = refl
  times-append key ((j, t) ∷ h) g = ground (arith, times-append key h g)

  or_empty-set :
      (key k : K) (hits : List ℕ) (d : Dict K (List ℕ))
      → or_empty (lookup k (set_item key hits (remove key d)))
        ≡ (if e.beq key k then hits else or_empty (lookup k d))
  or_empty-set key k hits d = elim (Bool-cases (e.beq key k)) [
    | inl same ↦ rw (lookup-set_item key k hits (remove key d), same) refl
    | inr other ↦
        rw (lookup-set_item key k hits (remove key d), other, lookup-remove key k d, other) refl
  ]

  length-replaced :
      (key : K) (hits : List ℕ) (d : Dict K (List ℕ))
      → length (set_item key hits (remove key d)) ≤ length d + 1
  length-replaced key hits d =
      omega (arith, length-set_item key hits (remove key d), length-remove key d)

  abbrev Step : K → ℕ → Limiter K → List (K × ℕ) → Decision × Limiter K → Type 0
  Step key now s history x =
      (is_granted x.0 ≡ ideal_grants s.limit s.window (key, now) history)
      × (x.1.limit ≡ s.limit)
      × (x.1.window ≡ s.window)
      × (x.1.max_keys ≡ s.max_keys)
      × (length x.1.hits ≤ length s.hits + 1)
      × Agrees now x.1 (if is_granted x.0 then history ++ (key, now) ∷ [] else history)

  replaced-Agrees :
      (key : K) (since now : ℕ) (hits : List ℕ) (s : Limiter K) (history after : List (K × ℕ))
      → since ≤ now
      → Agrees since s history
      → ((later : ℕ)
          → now ≤ later
          → live later s.window hits ≡ live later s.window (times key after))
      → ((k : K) → e.beq key k ≡ false → times k after ≡ times k history)
      → (k : K) (later : ℕ) → now ≤ later
      → live later s.window (or_empty (lookup k (set_item key hits (remove key s.hits))))
        ≡ live later s.window (times k after)
  unfolding hits_of
  replaced-Agrees key since now hits s history after le agrees ours others k later l =
      elim (Bool-cases (e.beq key k)) [
        | inl same ↦
            let there : or_empty (lookup k (set_item key hits (remove key s.hits))) ≡ hits =
              or_empty-set key k hits s.hits ∙ rw same refl in
            rw there (
              subst (λ j. live later s.window hits ≡ live later s.window (times j after))
                ((e.beq_iff key k).0 same) (ours later l))
        | inr other ↦
            let there : or_empty (lookup k (set_item key hits (remove key s.hits)))
                ≡ or_empty (lookup k s.hits) =
              or_empty-set key k hits s.hits ∙ rw other refl in
            rw (there, others k other) (agrees k later (omega arith))
      ]

  times-other :
      (key k : K) (now : ℕ) (history : List (K × ℕ))
      → e.beq key k ≡ false
      → times k (history ++ (key, now) ∷ []) ≡ times k history
  times-other key k now history h =
      times-append k history ((key, now) ∷ []) ∙ rw h (append-nil (times k history))

  times-own :
      (key : K) (now : ℕ) (history : List (K × ℕ))
      → times key (history ++ (key, now) ∷ []) ≡ times key history ++ now ∷ []
  times-own key now history = times-append key history ((key, now) ∷ []) ∙ rw (beq_refl key) refl

  granted-live :
      (key : K) (since now later : ℕ) (s : Limiter K) (history : List (K × ℕ))
      → since ≤ now
      → now ≤ later
      → Agrees since s history
      → live later s.window (live now s.window (hits_of key s) ++ now ∷ [])
        ≡ live later s.window (times key (history ++ (key, now) ∷ []))
  granted-live key since now later s history le l agrees =
      let w = s.window in
      let test : ℕ → Bool = λ hit. ltb later (hit + w) in
      rw
        (
          times-own key now history,
          keep-append test (live now w (hits_of key s)) (now ∷ []),
          keep-append test (times key history) (now ∷ []),
          live-live now later w (hits_of key s) l,
          agrees key later (omega arith),
        )
        refl

  allow-Step :
      (key : K) (since now : ℕ) (s : Limiter K) (history : List (K × ℕ))
      → since ≤ now
      → Agrees since s history
      → length s.hits < s.max_keys
      → Step key now s history (allow key now s)
  unfolding allow hits_of
  allow-Step key since now s history le agrees room =
      let hits = live now s.window (hits_of key s) in
      let seen : hits ≡ live now s.window (times key history) = agrees key now le in
      elim (Bool-cases (leb s.limit (length hits))) [
        | inl full ↦
            let denies = retry_after-denies now s.window hits in
            let step : Step key now s history (
              retry_after now s.window hits,
              record s { hits = set_item key hits (remove key s.hits) },
            ) =
              (
                rw (denies, ← seen, full) refl,
                refl,
                refl,
                refl,
                length-replaced key hits s.hits,
                rw denies (
                    replaced-Agrees key since now hits s history history le agrees
                      (λ later l.
                        live-live now later s.window (hits_of key s) l
                        ∙ agrees key later (omega arith))
                      (λ k q. refl)),
              ) in
            rw full step
        | inr free ↦
            let grown = set_item key (hits ++ now ∷ []) (remove key s.hits) in
            let fits = length-replaced key (hits ++ now ∷ []) s.hits in
            let step : Step key now s history (granted, record s { hits = grown }) = (
              rw (← seen, free) refl,
              refl,
              refl,
              refl,
              fits,
              replaced-Agrees key since now (hits ++ now ∷ []) s history
                  (history ++ (key, now) ∷ []) le agrees
                  (λ later l. granted-live key since now later s history le l agrees)
                  (λ k other. times-other key k now history other),
            ) in
            rw (free, trim-within s.max_keys grown (omega arith)) step
      ]

  answers-ideal :
      (since : ℕ) (calls : List (K × ℕ)) (s : Limiter K) (history : List (K × ℕ))
      → IsOrdered since calls
      → Agrees since s history
      → length s.hits + length calls ≤ s.max_keys
      → answers calls s ≡ ideal s.limit s.window calls history
  unfolding answers
  answers-ideal since [] s history o agrees room = refl
  answers-ideal since ((key, now) ∷ calls) s history (le, o) agrees room =
      let x = allow key now s in
      let step : Step key now s history x =
        allow-Step key since now s history le agrees (omega arith) in
      let (same, limit, window, max_keys, longer, agreed) = step in
      let rest =
        answers-ideal now calls x.1 (if is_granted x.0 then history ++ (key, now) ∷ [] else history)
          o agreed (rw max_keys (omega arith)) in
      let rest' : answers calls x.1
          ≡ ideal s.limit s.window calls
              (if is_granted x.0 then history ++ (key, now) ∷ [] else history) =
        rw (limit, window) at rest in
      rw rest' (
        ap
          (λ (b : Bool).
            b ∷ ideal s.limit s.window calls (if b then history ++ (key, now) ∷ [] else history))
          same)

  -- Calls in the order of their times, and no more than the limiter may keep keys, get from a limiter
  -- that starts empty the decisions of a window over the whole history: a call is granted exactly
  -- where fewer than `limit` of the earlier granted calls with its key are less than a window old.
  pub limiter_refines_window :
      (limit window max_keys : ℕ) (calls : List (K × ℕ)) (start : ℕ)
      → IsOrdered start calls
      → length calls ≤ max_keys
      → answers calls (record { limit = limit; window = window; max_keys = max_keys; hits = [] })
        ≡ ideal limit window calls []
  unfolding hits_of lookup
  limiter_refines_window limit window max_keys calls start o room =
      answers-ideal start calls
        (record { limit = limit; window = window; max_keys = max_keys; hits = [] }) [] o
        (λ key later l. refl) (omega (arith, room))
