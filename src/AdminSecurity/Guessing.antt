-- ===== src/AdminSecurity/Guessing.antt =====
-- How often one client can try passwords, with its calls interleaved.
use smart_gatekeeper.Common.{
  ℕ, zero, suc, Option, none, some, ◌+◌, ◌<◌, ◌≤◌, ◌≡◌, ◌≢◌, refl, Bool, true, false, List, [], ◌∷◌,
  ◌++◌, arith, if◌then◌else◌, ltb, leb, list_eq, nat_eq, Bool-cases, inl, inr, length, keep, All,
  keep-append, length-append, keep-keep, length-keep, beq_refl, le→leb, ◌==◌, ap, ◌-◌, ◌∙◌,
}
use smart_gatekeeper.Common.Dict.{lookup, set_item, lookup-set_item}
use smart_gatekeeper.Common.Text.{Text}
use smart_gatekeeper.Common.Try.{Try, done, gave_up, raised}
use smart_gatekeeper.AdminSecurity.Authorization.{is_same-true}
use mathlib.Core.Path.{subst}
use smart_gatekeeper.AdminSecurity.{
  Answer, http, Identity, Admin, Request, client_key, live_attempts, failed_attempt, is_limited,
  keep_live, is_empty, recent, stamps_of,
}
use smart_gatekeeper.AdminSecurity.Logins.{
  is_same, password_gate, password_settled, password_checked,
}

-- A try of a password: the request and the candidate
abbrev pub Guess : Type 0
Guess = Request × Text

-- The calls of `authenticate_personal_password` run on `workers` threads and interleave: one enters and
-- passes its first section, or one of those in between, by its place, comes to its end.
pub data Step : Type 0 where
  entering : Guess → Step
  settling : ℕ → Step

pub record Calls : Type 0 where
  pub admin : Admin
  pub in_flight : List Guess

abbrev pub put_back : Guess → Option (Guess × List Guess) → Option (Guess × List Guess)
put_back g none = none
put_back g (some (h, rest)) = some (h, g ∷ rest)

abbrev pub take_out : ℕ → List Guess → Option (Guess × List Guess)
take_out n [] = none
take_out zero (g ∷ gs) = some (g, gs)
take_out (suc n) (g ∷ gs) = put_back g (take_out n gs)

unfoldable pub entered :
    Guess → Option (Answer Identity) × Admin → List Guess → Option (Answer Identity) × Calls
entered g (some answer, s) gs = (some answer, record { admin = s; in_flight = gs })
entered g (none, s) gs = (none, record { admin = s; in_flight = g ∷ gs })

unfoldable pub settled : Option (Guess × List Guess) → Calls → Option (Answer Identity) × Calls
settled none x = (none, x)
settled (some ((r, candidate), rest)) x =
    let (answer, s) = password_settled r candidate x.admin in
    (some answer, record { admin = s; in_flight = rest })

-- While all workers are taken, a call does not enter.
unfoldable pub step : ℕ → Step → Calls → Option (Answer Identity) × Calls
unfolding entered settled
step workers (entering g) x =
    if leb workers (length x.in_flight)
    then (none, x)
    else entered g (password_gate g.0 x.admin) x.in_flight
step workers (settling n) x = settled (take_out n x.in_flight) x

abbrev pub is_401 : Option (Answer Identity) → Bool
is_401 (some (http n)) = n == 401
is_401 _ = false

abbrev pub count : Bool → ℕ
count b = if b then 1 else 0

-- How many of the calls are answered with 401
unfoldable pub wrong_answers : ℕ → List Step → Calls → ℕ
wrong_answers workers [] x = 0
wrong_answers workers (c ∷ steps) x =
    let (answer, after) = step workers c x in
    count (is_401 answer) + wrong_answers workers steps after

-- The attempts of a client since a time
abbrev since : ℕ → Text → Admin → ℕ
since start client s =
    length (keep (λ stamp. leb start stamp) (stamps_of (lookup client s.attempts)))

since-recent :
    (start now window : ℕ) (stamps : List ℕ)
    → now < start + window
    → keep (λ stamp. leb start stamp) (recent now window stamps)
      ≡ keep (λ stamp. leb start stamp) stamps
since-recent start now window stamps h =
    keep-keep (λ stamp. ltb now (stamp + window)) (λ stamp. leb start stamp) (λ x q. ground arith)
      stamps

stamps-set_item :
    (client : Text) (stamps : List ℕ) (s : Admin)
    → stamps_of (lookup client (set_item client stamps s.attempts)) ≡ stamps
stamps-set_item client stamps s =
    rw (lookup-set_item client client stamps s.attempts, beq_refl client) refl

since-keep_live :
    (start now : ℕ) (client : Text) (s : Admin)
    → now < start + s.auth_window
    → since start client (keep_live client now s) ≡ since start client s
unfolding live_attempts
since-keep_live start now client s h =
    rw
      (
        stamps-set_item client (live_attempts client now s) s,
        since-recent start now s.auth_window (stamps_of (lookup client s.attempts)) h,
      )
      refl

since-failed_attempt :
    (start now : ℕ) (client : Text) (s : Admin)
    → start ≤ now
    → now < start + s.auth_window
    → since start client (failed_attempt client now s) ≡ since start client s + 1
unfolding failed_attempt live_attempts
since-failed_attempt start now client s b h =
    rw
      (
        stamps-set_item client (live_attempts client now s ++ now ∷ []) s,
        keep-append (λ stamp. leb start stamp) (live_attempts client now s) (now ∷ []),
        le→leb start now b,
        length-append (keep (λ stamp. leb start stamp) (live_attempts client now s)) (now ∷ []),
        since-recent start now s.auth_window (stamps_of (lookup client s.attempts)) h,
      )
      refl

since-live :
    (start now : ℕ) (client : Text) (s : Admin)
    → now < start + s.auth_window
    → since start client s ≤ length (live_attempts client now s)
unfolding live_attempts
since-live start now client s h =
    let stamps = stamps_of (lookup client s.attempts) in
    let shorter = length-keep (λ stamp. leb start stamp) (recent now s.auth_window stamps) in
    omega (
      arith,
      shorter,
      ap (λ (l : List ℕ). length l) (since-recent start now s.auth_window stamps h),
    )

-- The tries of one client, within one window that begins at `start`, and none with the password
abbrev pub IsGuessing : ℕ → Text → Admin → Guess → Type 0
IsGuessing start client s (r, candidate) =
    (client_key r ≡ client)
    × (start ≤ r.now)
    × (r.now < start + s.auth_window)
    × (candidate ≢ s.personal_password)

abbrev pub IsGuess : ℕ → Text → Admin → Step → Type 0
IsGuess start client s (entering g) = IsGuessing start client s g
IsGuess start client s (settling n) = Unit {0}

-- The attempts counted and those still to be counted are within the bound.
abbrev Within : ℕ → ℕ → Text → Admin → Calls → Type 0
Within most start client t x =
    (x.admin.auth_attempts ≡ t.auth_attempts)
    × (x.admin.auth_window ≡ t.auth_window)
    × (x.admin.personal_password ≡ t.personal_password)
    × All (IsGuessing start client t) x.in_flight
    × (since start client x.admin + length x.in_flight ≤ most)

-- One step keeps the bound, and a wrong answer is a counted attempt.
abbrev Kept : ℕ → ℕ → Text → Admin → Calls → Option (Answer Identity) × Calls → Type 0
Kept most start client t x y =
    Within most start client t y.1
    × (since start client x.admin + count (is_401 y.0) ≤ since start client y.1.admin)

module _ (workers most start : ℕ) (client : Text) (t : Admin)
    (enough : t.auth_attempts - 1 + workers ≤ most) where
  gate-Kept :
      (r : Request) (candidate : Text) (x : Calls)
      → IsGuessing start client t (r, candidate)
      → length x.in_flight < workers
      → Within most start client t x
      → Kept most start client t x (entered (r, candidate) (password_gate r x.admin) x.in_flight)
  unfolding entered password_gate
  gate-Kept r candidate x (same, from, until_t, wrong) spare (a, w, p, all, b) =
      let until : r.now < start + x.admin.auth_window = rw w until_t in
      elim (Bool-cases (is_empty x.admin.personal_password)) [
        | inl none_set ↦ rw none_set ((a, w, p, all, b), omega arith)
        | inr set ↦ elim (Bool-cases (is_limited (client_key r) r.now x.admin)) [
          | inl limited ↦
              let kept = since-keep_live start r.now client x.admin until in
              rw (set, limited, same) ((a, w, p, all, omega (arith, kept)), omega (arith, kept))
          | inr free ↦
              let few = since-live start r.now client x.admin until in
              let free' : is_limited client r.now x.admin ≡ false = rw same at free in
              let spent : since start client x.admin < x.admin.auth_attempts = ground arith in
              rw (set, free)
                (
                  (a, w, p, ((same, from, until_t, wrong), all), omega (arith, spent, a)),
                  omega arith,
                )
        ]
      ]

  checked-Kept :
      (now : ℕ) (o : Try Bool) (rest : List Guess) (x : Calls)
      → start ≤ now
      → now < start + x.admin.auth_window
      → o ≢ done true
      → All (IsGuessing start client t) rest
      → length x.in_flight ≡ length rest + 1
      → Within most start client t x
      → let y = password_checked client now o x.admin in
        Kept most start client t x (some y.0, record { admin = y.1; in_flight = rest })
  unfolding password_checked failed_attempt
  checked-Kept now (done true) rest x from until wrong all l h = absurd (wrong refl)
  checked-Kept now (done false) rest x from until wrong all l (a, w, p, old, b) =
      let more = since-failed_attempt start now client x.admin from until in
      ((a, w, p, all, omega (arith, more)), omega (arith, more))
  checked-Kept now gave_up rest x from until wrong all l (a, w, p, old, b) =
      ((a, w, p, all, omega arith), omega arith)
  checked-Kept now raised rest x from until wrong all l (a, w, p, old, b) =
      ((a, w, p, all, omega arith), omega arith)

  deeper :
      (x : Guess) (gs : List Guess) (g : Guess) (rest : List Guess)
      (o : Option (Guess × List Guess))
      → ((h : Guess) (more : List Guess)
          → o ≡ some (h, more)
          → IsGuessing start client t h
            × All (IsGuessing start client t) more
            × (length gs ≡ length more + 1))
      → IsGuessing start client t x
      → put_back x o ≡ some (g, rest)
      → IsGuessing start client t g
        × All (IsGuessing start client t) rest
        × (length (x ∷ gs) ≡ length rest + 1)
  deeper x gs g rest none known first e = cc
  deeper x gs g rest (some (h, more)) known first e =
      let (one, all, l) = known h more refl in
      let same : h ≡ g = cc in
      let longer : x ∷ more ≡ rest = cc in
      (
        subst (IsGuessing start client t) same one,
        subst (All (IsGuessing start client t)) longer (first, all),
        omega (arith, ap (λ (l : List Guess). length l) longer),
      )

  taken :
      (n : ℕ) (gs : List Guess) (g : Guess) (rest : List Guess)
      → take_out n gs ≡ some (g, rest)
      → All (IsGuessing start client t) gs
      → IsGuessing start client t g
        × All (IsGuessing start client t) rest
        × (length gs ≡ length rest + 1)
  taken n [] g rest e h = cc
  taken zero (x ∷ gs) g rest e (first, others) =
      let q : x ≡ g = cc in
      let q2 : gs ≡ rest = cc in
      (
        subst (IsGuessing start client t) q first,
        subst (All (IsGuessing start client t)) q2 others,
        omega (arith, ap (λ (l : List Guess). length l) q2),
      )
  taken (suc n) (x ∷ gs) g rest e (first, others) =
      deeper x gs g rest (take_out n gs) (λ h more q. taken n gs h more q others) first e

  settled-Kept :
      (n : ℕ) (o : Option (Guess × List Guess)) (x : Calls)
      → take_out n x.in_flight ≡ o
      → Within most start client t x
      → Kept most start client t x (settled o x)
  unfolding settled password_settled
  settled-Kept n none x e h = (h, omega arith)
  settled-Kept n (some ((r, candidate), rest)) x e (a, w, p, all, b) =
      let ((same, from, until, wrong), others, l) = taken n x.in_flight (r, candidate) rest e all in
      rw same (
        checked-Kept r.now (is_same candidate x.admin.personal_password) rest x from (rw w until)
          (λ q. wrong ((is_same-true candidate x.admin.personal_password q).0 ∙ p)) others l
          (a, w, p, all, b))

  step-Kept :
      (c : Step) (x : Calls)
      → IsGuess start client t c
      → Within most start client t x
      → Kept most start client t x (step workers c x)
  unfolding step
  step-Kept (entering (r, candidate)) x g h = elim (Bool-cases (leb workers (length x.in_flight))) [
    | inl full ↦ rw full (h, omega arith)
    | inr spare ↦ rw spare (gate-Kept r candidate x g (ground arith) h)
  ]
  step-Kept (settling n) x g h = settled-Kept n (take_out n x.in_flight) x refl h

  guesses-left :
      (steps : List Step) (x : Calls)
      → All (IsGuess start client t) steps
      → Within most start client t x
      → since start client x.admin + wrong_answers workers steps x ≤ most
  unfolding wrong_answers
  guesses-left [] x g (a, w, p, all, b) = omega arith
  guesses-left (c ∷ steps) x (g, gs) h =
      let (kept, counted) = step-Kept c x g h in
      let rest = guesses-left steps (step workers c x).1 gs kept in omega (arith, counted, rest)

-- Whatever one client tries within one window of the attempts, unless it tries the password itself,
-- and however its calls interleave on `workers` threads, at most `auth_attempts - 1 + workers` of its
-- tries are answered with 401, after the password was compared.
pub guesses_limited :
    (workers start : ℕ) (client : Text) (steps : List Step) (s : Admin)
    → All (IsGuess start client s) steps
    → wrong_answers workers steps (record { admin = s; in_flight = [] })
      ≤ s.auth_attempts - 1 + workers
guesses_limited workers start client steps s g =
    let before = since start client s in
    let left =
      guesses-left workers (s.auth_attempts - 1 + workers + before) start client s (omega arith)
        steps (record { admin = s; in_flight = [] }) g (refl, refl, refl, tt, omega arith) in
    omega (arith, left)
