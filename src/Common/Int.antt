-- ===== src/Common/Int.antt =====
-- Signed integers over the native numbers, and their decimal texts.
use smart_gatekeeper.Common.{
  ℕ, ◌+◌, ◌-◌, ◌*◌, Bool, true, false, ◌&&◌, Option, none, some, [], ◌∷◌, leb, ◌==◌, if◌then◌else◌,
  every,
}
use smart_gatekeeper.Common.Text.{Text, is_digit}

-- `negsuc n` is -(n + 1).
pub data ℤ : Type 0 where
  pos : ℕ → ℤ
  negsuc : ℕ → ℤ

abbrev pub leb_ℤ : ℤ → ℤ → Bool
leb_ℤ (pos a) (pos b) = leb a b
leb_ℤ (pos a) (negsuc b) = false
leb_ℤ (negsuc a) (pos b) = true
leb_ℤ (negsuc a) (negsuc b) = leb b a

abbrev pub negate : ℕ → ℤ
negate n = if n == 0 then pos 0 else negsuc (n - 1)

abbrev decimal : ℕ → Text → ℕ
decimal acc [] = acc
decimal acc (c ∷ t) = decimal (acc * 10 + (c - 48)) t

-- (?:0|[1-9][0-9]*)
natural : Text → Option ℕ
natural [] = none
natural (c ∷ []) = if is_digit c then some (c - 48) else none
natural (c ∷ d ∷ t) =
    if leb b'1' c && leb c b'9' && every is_digit (d ∷ t)
    then some (decimal 0 (c ∷ d ∷ t))
    else none

signed : (ℕ → ℤ) → Option ℕ → Option ℤ
signed f none = none
signed f (some n) = some (f n)

-- int(raw), where ^-?(?:0|[1-9][0-9]*)$ matches raw
unfoldable pub parse_integer : Text → Option ℤ
unfolding natural signed
parse_integer [] = none
parse_integer (c ∷ t) =
    if c == b'-' then signed negate (natural t) else signed (λ n. pos n) (natural (c ∷ t))
