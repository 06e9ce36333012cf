-- ===== src/Common/Json.antt =====
-- JSON documents as Python's `json.loads` returns them. The decoder itself, UTF-8 included, is a
-- parameter wherever it is used.
use Prim.Native.String.{String}
use text.Mathlib.Text.{◌==◌ as str_eq}
use smart_gatekeeper.Common.{
  ℕ, Bool, Option, false, ◌&&◌, ◌||◌, none, some, List, [], ◌∷◌, every, if◌then◌else◌,
}
use smart_gatekeeper.Common.Text.{Text}

mutual
  pub data Json : Type 0 where
    null : Json
    bool : Bool → Json
    int : ℕ → Json
    negative : ℕ → Json
    real : ℕ → Json
    str : Text → Json
    arr : Items → Json
    obj : Fields → Json

  pub data Items : Type 0 where
    nil : Items
    cons : Json → Items → Items

  pub data Fields : Type 0 where
    end : Fields
    field : String → Json → Fields → Fields

-- document.get(key): a missing key is `None`, like a null.
unfoldable pub get : String → Fields → Json
get k end = null
get k (field j v fs) = if str_eq j k then v else get k fs

-- isinstance(document, dict)
abbrev pub as_object : Option Json → Option Fields
as_object (some (obj fs)) = some fs
as_object _ = none

-- isinstance(value, str)
abbrev pub as_text : Json → Option Text
as_text (str t) = some t
as_text _ = none

-- An int that is no bool and not negative; the callers' range checks refuse negative ones.
abbrev pub as_nat : Json → Option ℕ
as_nat (int n) = some n
as_nat _ = none

abbrev pub names : Fields → List String
names end = []
names (field k v fs) = k ∷ names fs

abbrev pub is_in : String → List String → Bool
is_in k [] = false
is_in k (j ∷ ks) = str_eq j k || is_in k ks

-- set(document) == {names}
unfoldable pub has_exactly : List String → Fields → Bool
has_exactly ks fs = every (λ k. is_in k (names fs)) ks && every (λ k. is_in k ks) (names fs)
