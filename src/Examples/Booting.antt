-- ===== src/Examples/Booting.antt =====
-- The boot registry on concrete inputs.
use smart_gatekeeper.Common.{◌≡◌, refl, false, Option, some, [], ◌∷◌, list_eq, nat_eq, pair_eq}
use smart_gatekeeper.Common.Text.{
  Text, codes, is_target_id, is_lower_hex, strip_prefix, strip_suffix, match_topic,
}
use smart_gatekeeper.Common.Dict.{lookup}
use smart_gatekeeper.Common.Json.{Json, obj, str, int, field, end, get}
use smart_gatekeeper.Common.Try.{compare_digest}
use smart_gatekeeper.Targets.BootRegistry.Message.{parse, boot_topic}
use smart_gatekeeper.Targets.BootRegistry.{
  Table, Database, type_error, refresh, transact, current_boot_id,
}
use smart_gatekeeper.Targets.BootRegistry.Monotone.{
  Follows, Message, handle_all, registry_never_goes_back,
}
use smart_gatekeeper.Targets.BootRegistry.Topics.{
  boot_of, current_after_refresh, non_ascii_target_raises,
}

abbrev boot : Text
boot = codes "0123456789abcdef0123456789abcdef"

abbrev target : Text
target = codes "T1"

abbrev booted : Text → Option Json
booted payload = some (
    obj (
      field "target_id" (str target) (field "boot_id" (str boot) (field "boot_count" (int 7) end))))

abbrev known : Table
known = (target, record { boot_id = codes "00"; boot_count = 6; updated_at = 1 }) ∷ []

abbrev sound : Database
sound = record { clock = 50; fails = false }

abbrev message : Message booted
message = record {
  db = sound;
  topic = boot_of target;
  payload = [];
  from_status = false;
  retained = false;
}

registry_never_goes_back_example :
    Follows (lookup target known) (lookup target (handle_all booted (message ∷ []) known))
registry_never_goes_back_example = registry_never_goes_back booted (message ∷ []) known target

current_after_refresh_example :
    current_boot_id sound target (refresh booted sound (boot_of target) [] known).1 ≡ some boot
unfolding parse boot_topic match_topic strip_prefix strip_suffix is_target_id is_lower_hex get
    compare_digest refresh transact lookup
current_after_refresh_example =
    current_after_refresh booted sound sound (boot_of target) [] target boot 7 known refl (λ p. cc)
      refl

abbrev foreign : Text → Option Json
foreign payload = some (obj (field "target_id" (str (233 ∷ [])) end))

non_ascii_target_raises_example :
    refresh foreign sound (boot_of target) [] known ≡ (type_error, known)
unfolding is_target_id get
non_ascii_target_raises_example =
    non_ascii_target_raises foreign sound target [] (233 ∷ [])
      (field "target_id" (str (233 ∷ [])) end) known refl refl refl refl
