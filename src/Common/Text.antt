-- ===== src/Common/Text.antt =====
-- Texts and byte strings as lists of numbers, and the patterns that the backend matches them with.
use Prim.Native.Char.{code}
use Prim.Native.String.{String}
use smart_gatekeeper.Common.{
  ℕ, ◌≡◌, refl, ap, ◌∙◌, Bool, true, false, ◌&&◌, ◌||◌, Option, none, some, List, [], ◌∷◌, ◌++◌,
  arith, leb, ltb, ◌==◌, if◌then◌else◌, length, every, list_beq, list_beq_iff, nat_eq, Bool-cases,
  inl, inr, list_eq, beq_refl, ◌≢◌, ◌↔◌, length-append,
}

abbrev pub Text : Type 0
Text = List ℕ

abbrev pub codes : String → Text
codes String.[] = []
codes (String.◌∷◌ c s) = code c ∷ codes s

abbrev pub is_digit : ℕ → Bool
is_digit c = leb b'0' c && leb c b'9'

abbrev pub is_letter : ℕ → Bool
is_letter c = leb b'a' c && leb c b'z' || leb b'A' c && leb c b'Z'

-- [A-Za-z0-9_-]{1,64}
unfoldable pub is_target_id : Text → Bool
is_target_id t =
    ltb 0 (length t)
    && leb (length t) 64
    && every (λ c. is_letter c || is_digit c || c == b'_' || c == b'-') t

abbrev pub is_hex : ℕ → Bool
is_hex c = is_digit c || leb b'a' c && leb c b'f'

-- [0-9a-f]{n}
unfoldable pub is_lower_hex : ℕ → Text → Bool
is_lower_hex n t = length t == n && every is_hex t

unfoldable pub strip_prefix : Text → Text → Option Text
strip_prefix [] t = some t
strip_prefix (c ∷ p) [] = none
strip_prefix (c ∷ p) (d ∷ t) = if c == d then strip_prefix p t else none

abbrev pub prepend : ℕ → Option Text → Option Text
prepend c none = none
prepend c (some t) = some (c ∷ t)

unfoldable pub strip_suffix : Text → Text → Option Text
strip_suffix s [] = if list_beq [] s then some [] else none
strip_suffix s (c ∷ t) =
    let rest = prepend c (strip_suffix s t) in if list_beq (c ∷ t) s then some [] else rest

abbrev pub only_if : (Text → Bool) → Option Text → Option Text
only_if p none = none
only_if p (some t) = if p t then some t else none

abbrev strip_rest : Text → Option Text → Option Text
strip_rest s none = none
strip_rest s (some t) = strip_suffix s t

-- The group of `prefix([A-Za-z0-9_-]{1,64})suffix`, matched against the whole text.
unfoldable pub match_topic : Text → Text → Text → Option Text
match_topic prefix suffix topic =
    only_if is_target_id (strip_rest suffix (strip_prefix prefix topic))

pub strip_prefix-append : (p t : Text) → strip_prefix p (p ++ t) ≡ some t
unfolding strip_prefix
strip_prefix-append [] t = refl
strip_prefix-append (c ∷ p) t = ground (arith, strip_prefix-append p t)

pub strip_prefix-eq : (p t r : Text) → strip_prefix p t ≡ some r → t ≡ p ++ r
unfolding strip_prefix
strip_prefix-eq [] t r h = ground arith
strip_prefix-eq (c ∷ p) [] r h = cc
strip_prefix-eq (c ∷ p) (d ∷ t) r h = ground (arith, strip_prefix-eq p t r)

length-longer : (t s : Text) → length t ≢ length s → list_beq t s ≡ false
length-longer t s h = ground (arith, list_beq_iff t s)

strip_suffix-append : (t s : Text) → strip_suffix s (t ++ s) ≡ some t
unfolding strip_suffix
strip_suffix-append [] [] = refl
strip_suffix-append [] (c ∷ s) = rw (beq_refl (c ∷ s)) refl
strip_suffix-append (c ∷ t) s =
    rw (length-longer (c ∷ (t ++ s)) s (omega (arith, length-append t s)), strip_suffix-append t s)
      refl

prepend-eq :
    (c : ℕ) (r : Text) (o : Option Text)
    → prepend c o ≡ some r
    → (r' : Text) × (o ≡ some r') × (r ≡ c ∷ r')
prepend-eq c r none h = cc
prepend-eq c r (some t) h = (t, refl, ground arith)

strip_suffix-eq : (s t r : Text) → strip_suffix s t ≡ some r → t ≡ r ++ s
unfolding strip_suffix
strip_suffix-eq s [] r h = ground (arith, list_beq_iff [] s)
strip_suffix-eq s (c ∷ t) r h = elim (Bool-cases (list_beq (c ∷ t) s)) [
  | inl whole ↦
      let none_left : r ≡ [] = ground arith in rw none_left ((list_beq_iff (c ∷ t) s).0 whole)
  | inr part ↦
      let (r', rest, e) = prepend-eq c r (strip_suffix s t) (rw part at h) in
      rw e (ap (λ (l : Text). c ∷ l) (strip_suffix-eq s t r' rest))
]

only_if-eq :
    (p : Text → Bool) (o : Option Text) (r : Text)
    → only_if p o ≡ some r
    → (o ≡ some r) × (p r ≡ true)
only_if-eq p none r h = cc
only_if-eq p (some t) r h = elim (Bool-cases (p t)) [
  | inl yes' ↦ let e : t ≡ r = ground arith in (ap (λ (l : Text). some l) e, rw (← e) yes')
  | inr no' ↦ absurd (ground arith)
]

matched :
    (prefix suffix topic id : Text) (o : Option Text)
    → strip_prefix prefix topic ≡ o
    → only_if is_target_id (strip_rest suffix o) ≡ some id
    → (topic ≡ prefix ++ (id ++ suffix)) × (is_target_id id ≡ true)
matched prefix suffix topic id none e h = cc
matched prefix suffix topic id (some t) e h =
    let (s, valid) = only_if-eq is_target_id (strip_suffix suffix t) id h in
    (
      strip_prefix-eq prefix topic t e
          ∙ ap (λ (l : Text). prefix ++ l) (strip_suffix-eq suffix t id s),
      valid,
    )

-- The match succeeds with `id` exactly on the topic that is built from `id`, if `id` is a target id.
pub match_topic_iff :
    (prefix suffix topic id : Text)
    → (match_topic prefix suffix topic ≡ some id)
      ↔ ((topic ≡ prefix ++ (id ++ suffix)) × (is_target_id id ≡ true))
unfolding match_topic
match_topic_iff prefix suffix topic id = (
  λ h. matched prefix suffix topic id (strip_prefix prefix topic) refl h,
  λ h. rw (h.0, strip_prefix-append prefix (id ++ suffix), strip_suffix-append id suffix, h.1) refl,
)
