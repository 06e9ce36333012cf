-- ===== src/Acl/Curve.antt =====
-- P-256 in backend/app/acl_management.py: points, multiplication by a scalar and the verification of
-- signatures. The modular inverse `pow(x, -1, m)` (`none` is its ValueError) and SHA-256 are parameters.
use smart_gatekeeper.Common.{
  ℕ, zero, suc, ◌+◌, ◌-◌, ◌*◌, ◌/◌, ◌%◌, ◌<◌, ◌≢◌, Bool, false, ◌&&◌, ◌||◌, not, Option, none, some,
  if◌then◌else◌, ltb, leb, ◌==◌, length, take, drop, arith, Bool-cases, inl, inr,
}
use smart_gatekeeper.Common.Try.{Try, done, gave_up, raised, given, ◌>>=◌}
use smart_gatekeeper.Acl.{Bytes, prime, parse_public_key, from_bytes}

-- `none` is the point at infinity.
abbrev pub Point : Type 0
Point = Option (ℕ × ℕ)

-- N, the order of the group
unfoldable pub order : ℕ
order = 115792089210356248762697446949407573529996955224135760342422259061068512044369

-- G
abbrev pub base : Point
base = some (
  48439561293906451759052585252797914202762949526041747995844080717082404635286,
  36134250956749795798585127919587881956611106672985015071877198253568414405109,
)

-- (a - b) % P
abbrev pub sub_mod : ℕ → ℕ → ℕ
sub_mod a b = (a + (prime - b % prime)) % prime

-- What the loop of `_scalar_mult` comes to.
pub data Loop : Type 0 where
  finished : Point → Loop
  no_inverse out_of_fuel : Loop

abbrev pub pow2 : ℕ → ℕ
pow2 zero = 1
pow2 (suc n) = 2 * pow2 n

module _ (inverse : ℕ → ℕ → Option ℕ) where
  abbrev slope : ℕ → ℕ → ℕ → ℕ → Option ℕ
  slope x1 y1 x2 y2 =
      if x1 == x2 && y1 == y2
      then (elim (inverse (2 * y1) prime) [
        | none ↦ none
        | some i ↦ some (((3 * x1 * x1 + (prime - 3)) * i) % prime)
      ])
      else (elim (inverse (sub_mod x2 x1) prime) [
        | none ↦ none
        | some i ↦ some ((sub_mod y2 y1 * i) % prime)
      ])

  abbrev along : ℕ → ℕ → ℕ → Option ℕ → Option Point
  along x1 y1 x2 none = none
  along x1 y1 x2 (some m) =
      let x3 = sub_mod (sub_mod (m * m) x1) x2 in some (some (x3, sub_mod (m * sub_mod x1 x3) y1))

  -- `_point_add`
  unfoldable pub point_add : Point → Point → Option Point
  point_add none q = some q
  point_add (some p) none = some (some p)
  point_add (some (x1, y1)) (some (x2, y2)) =
      if x1 == x2 && (y1 + y2) % prime == 0 then some none else along x1 y1 x2 (slope x1 y1 x2 y2)

  abbrev continue : Option Point → Option Point → (Point → Point → Loop) → Loop
  continue (some r) (some a) k = k r a
  continue _ _ k = no_inverse

  -- `while scalar:`, with fuel for its rounds
  unfoldable pub mult_rounds : ℕ → ℕ → Point → Point → Loop
  mult_rounds zero scalar result addend = if scalar == 0 then finished result else out_of_fuel
  mult_rounds (suc f) scalar result addend =
      if scalar == 0
      then finished result
      else continue (if scalar % 2 == 1 then point_add result addend else some result)
          (point_add addend addend) (λ r a. mult_rounds f (scalar / 2) r a)

  -- `_scalar_mult`
  unfoldable pub scalar_mult : ℕ → Point → Loop
  scalar_mult scalar point = mult_rounds 256 scalar none point

  abbrev pub of_loop : Loop → Try Point
  of_loop (finished p) = done p
  of_loop no_inverse = gave_up
  of_loop out_of_fuel = raised

  abbrev is_signed_by : ℕ → Point → Bool
  is_signed_by r none = false
  is_signed_by r (some (x, y)) = x % order == r

  -- `gave_up` is a ValueError of the inverse.
  candidate : ℕ → ℕ → ℕ → ℕ × ℕ → Try Bool
  candidate digest r s point = do
    i ← given (inverse s order)
    left ← of_loop (scalar_mult ((digest * i) % order) base)
    right ← of_loop (scalar_mult ((r * i) % order) (some point))
    sum ← given (point_add left right)
    done (is_signed_by r sum)

  keyed : ℕ → ℕ → ℕ → Option (ℕ × ℕ) → Try Bool
  unfolding candidate
  keyed digest r s none = done false
  keyed digest r s (some point) = candidate digest r s point

  unfoldable pub verify_raw64 : (Bytes → Bytes) → Bytes → Bytes → Bytes → Try Bool
  unfolding keyed
  verify_raw64 sha256 public_key message signature =
      let r = from_bytes 0 (take 32 signature) in
      let s = from_bytes 0 (drop 32 signature) in
      if not (length signature == 64)
        || not (leb 1 r && ltb r order && leb 1 s && leb s (order / 2))
      then done false
      else keyed (from_bytes 0 (sha256 message)) r s (parse_public_key public_key)

  continue-fuel :
      (r a : Option Point) (k : Point → Point → Loop)
      → ((r a : Point) → k r a ≢ out_of_fuel)
      → continue r a k ≢ out_of_fuel
  continue-fuel (some r) (some a) k h = h r a
  continue-fuel none a k h = λ e. cc
  continue-fuel (some r) none k h = λ e. cc

  mult_rounds-fuel :
      (f scalar : ℕ) (result addend : Point)
      → scalar < pow2 f
      → mult_rounds f scalar result addend ≢ out_of_fuel
  unfolding mult_rounds
  mult_rounds-fuel zero scalar result addend h = ground arith
  mult_rounds-fuel (suc f) scalar result addend h = elim (Bool-cases (scalar == 0)) [
    | inl over ↦ rw over (λ e. cc)
    | inr more ↦ rw more (
        continue-fuel (if scalar % 2 == 1 then point_add result addend else some result)
          (point_add addend addend) (λ r a. mult_rounds f (scalar / 2) r a)
          (λ r a. mult_rounds-fuel f (scalar / 2) r a (omega arith)))
  ]

  -- For every inverse, the loop of `_scalar_mult` ends within 256 rounds on a scalar below 2 ^ 256, with
  -- a point or with the ValueError of an inverse.
  pub scalar_mult_ends :
      (scalar : ℕ) (point : Point) → scalar < pow2 256 → scalar_mult scalar point ≢ out_of_fuel
  unfolding scalar_mult
  scalar_mult_ends scalar point h = mult_rounds-fuel 256 scalar none point h
