-- ===== src/Common/Try.antt =====
-- Checks that may give up, which the source answers with a refusal, or raise, which it does not catch.
use smart_gatekeeper.Common.{
  Bool, true, false, ◌&&◌, Option, none, some, if◌then◌else◌, every, ltb, list_beq, nat_eq, ◌≡◌,
  list_beq_iff, arith,
}
use smart_gatekeeper.Common.Text.{Text}

pub data Try {ℓ} (A : Type ℓ) : Type ℓ where
  done : A → Try A
  gave_up : Try A
  raised : Try A

infixl 5 ◌>>=◌ ◌>>◌
abbrev pub ◌>>=◌ {ℓ κ} : {A : Type ℓ} {B : Type κ} → Try A → (A → Try B) → Try B
done a >>= f = f a
gave_up >>= f = gave_up
raised >>= f = raised

abbrev pub ◌>>◌ {ℓ} : {B : Type ℓ} → Try (Unit {0}) → Try B → Try B
m >> k = m >>= λ _. k

abbrev pub given {ℓ} : {A : Type ℓ} → Option A → Try A
given none = gave_up
given (some a) = done a

abbrev pub check : Bool → Try (Unit {0})
check true = done tt
check false = gave_up

abbrev pub is_ascii : Text → Bool
is_ascii t = every (λ c. ltb c 128) t

-- `secrets.compare_digest` (and `hmac.compare_digest`) of two texts: it takes ASCII texts only, and
-- raises a TypeError on any other.
unfoldable pub compare_digest : Text → Text → Try Bool
compare_digest a b = if is_ascii a && is_ascii b then done (list_beq a b) else raised

-- Two texts that compare as equal are equal.
pub compare_digest-done : (a b : Text) → compare_digest a b ≡ done true → a ≡ b
unfolding compare_digest
compare_digest-done a b h = ground (arith, list_beq_iff a b)
