-- ===== src/Common/Strings.antt =====
-- `str.strip()` and `str.encode("utf-8")` on texts as lists of code points.
use smart_gatekeeper.Common.{
  ℕ, ◌+◌, ◌/◌, ◌%◌, Bool, ◌&&◌, ◌||◌, Option, none, some, List, [], ◌∷◌, ◌++◌, if◌then◌else◌, leb,
  ltb, ◌==◌,
}
use smart_gatekeeper.Common.Text.{Text}

-- str.isspace()
abbrev pub is_white : ℕ → Bool
is_white c =
    leb 9 c && leb c 13
    || leb 28 c && leb c 32
    || c == 133
    || c == 160
    || c == 5760
    || leb 8192 c && leb c 8202
    || c == 8232
    || c == 8233
    || c == 8239
    || c == 8287
    || c == 12288

unfoldable pub lstrip : Text → Text
lstrip [] = []
lstrip (c ∷ t) = if is_white c then lstrip t else c ∷ t

abbrev pub unless_white : ℕ → Text → Text
unless_white c [] = if is_white c then [] else c ∷ []
unless_white c (d ∷ t) = c ∷ d ∷ t

unfoldable pub rstrip : Text → Text
rstrip [] = []
rstrip (c ∷ t) = unless_white c (rstrip t)

unfoldable pub strip : Text → Text
strip t = rstrip (lstrip t)

-- The bytes of a code point; `none` is the UnicodeEncodeError of a surrogate.
unfoldable pub utf8_point : ℕ → Option (List ℕ)
utf8_point c =
    if ltb c 128
    then some (c ∷ [])
    else if ltb c 2048
    then some ((192 + c / 64) ∷ (128 + c % 64) ∷ [])
    else if leb 55296 c && leb c 57343
    then none
    else if ltb c 65536
    then some ((224 + c / 4096) ∷ (128 + (c / 64) % 64) ∷ (128 + c % 64) ∷ [])
    else some
        ((240 + c / 262144) ∷ (128 + (c / 4096) % 64) ∷ (128 + (c / 64) % 64) ∷ (128 + c % 64) ∷ [])

abbrev pub both : Option (List ℕ) → Option (List ℕ) → Option (List ℕ)
both (some a) (some b) = some (a ++ b)
both _ _ = none

unfoldable pub utf8 : Text → Option (List ℕ)
utf8 [] = some []
utf8 (c ∷ t) = both (utf8_point c) (utf8 t)
