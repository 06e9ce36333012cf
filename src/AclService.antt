-- ===== src/AclService.antt =====
-- `AclManagementService` of backend/app/acl_management.py over the store's tables. A method takes the
-- world and gives its result or its exception and the world after: what was committed stays committed
-- when an exception leaves a method. The clock, the random source, the publisher, SHA-256, HMAC and the
-- signing function are parameters; the publish lock makes the methods that hold it take turns.
pub mod Enrolling
pub mod Signing
pub mod Publishing
pub mod Revoking
pub mod Reading
pub mod Binds
pub mod Traces
pub mod Requests
use smart_gatekeeper.Common.{
  ℕ, ◌+◌, Bool, true, false, ◌||◌, ◌&&◌, Option, none, some, List, [], ◌∷◌, ◌++◌, if◌then◌else◌,
  leb, ◌==◌, list_eq, nat_eq, list_beq, some_of, keep, length, map, not,
}
use smart_gatekeeper.Common.Dict.{Dict}
use smart_gatekeeper.Common.Text.{Text, codes}
use smart_gatekeeper.Common.Json.{Json}
use smart_gatekeeper.Common.Try.{Try, compare_digest}
use smart_gatekeeper.Acl.{Bytes, hex_bytes}
use smart_gatekeeper.Acl.Envelope.{Envelope, to_hex}
use smart_gatekeeper.AclStore.{
  Dialect, Error, Result, ok, failed, lookup_error, permission_error, value_error, runtime_error,
  type_error, TenantStatus, active, disabled, Db,
}
use smart_gatekeeper.AclStore.Tenants.{
  tenant_exists, tenant_status, legacy_tenant_is_active, is_enabled,
}
use smart_gatekeeper.AclStore.Snapshots.{append_audit}
use smart_gatekeeper.AclStore.Transitions.{disable_tenant_and_queue}

-- A signer: its key id, its public key and `sign`
pub record Signer : Type 0 where
  pub signing_key_id : ℕ
  pub public_key_sec1 : Bytes
  pub sign : Bytes → Bytes

pub record Config : Type 0 where
  pub dialect : Dialect
  pub signer : Signer
  pub transition_signers : List Signer
  pub lease_seconds : ℕ
  pub legacy_lookup_enabled : Bool
  pub legacy_hmac_key : Bytes
  -- the n-th reading of the clock
  pub clock : ℕ → ℕ
  -- `secrets.token_bytes(size)`, the n-th
  pub token_bytes : ℕ → ℕ → Bytes
  -- the n-th call of `publisher.publish`; `none` is an exception
  pub push : ℕ → Option Bool
  pub sha256 : Bytes → Bytes
  -- of the key and the message
  pub hmac : Bytes → Bytes → Bytes
  -- `pow(a, -1, m)`, by the modulus and the number
  pub inverse : ℕ → ℕ → Option ℕ

abbrev pub key_ids : Config → List ℕ
key_ids c = c.signer.signing_key_id ∷ map (λ s. s.signing_key_id) c.transition_signers

-- len(ids) == len(set(ids))
abbrev pub are_unique : List ℕ → Bool
are_unique [] = true
are_unique (x ∷ xs) = not (some_of (λ y. y == x) xs) && are_unique xs

-- `__init__`: the configuration, or a ValueError
unfoldable pub configured : Config → Result Config
configured c =
    if not (leb 1 c.lease_seconds && leb c.lease_seconds 3600)
    then failed value_error
    else if c.legacy_lookup_enabled && length c.legacy_hmac_key == 0
    then failed value_error
    else if not (are_unique (key_ids c))
    then failed value_error
    else if some_of (λ s. leb s.signing_key_id c.signer.signing_key_id) c.transition_signers
    then failed value_error
    else ok c

pub record World : Type 0 where
  pub db : Db
  pub clock_reads : ℕ
  pub draws : ℕ
  -- what the publisher was given, the newest first
  pub pushed : List (Text × Envelope)

abbrev pub Action : Type 0 → Type 0
Action A = World → Result A × World

module _ {A : Type 0} where
  unfoldable pub pure : A → Action A
  pure a w = (ok a, w)

  unfoldable pub raise : Error → Action A
  raise e w = (failed e, w)

  -- a query of the store
  unfoldable pub look : (Db → A) → Action A
  look f w = (ok (f w.db), w)

  -- a transaction of the store that commits
  unfoldable pub write : (Db → A × Db) → Action A
  write f w = let (a, db) = f w.db in (ok a, record w { db = db })

  -- a transaction of the store that may raise
  unfoldable pub transact : (Db → Result A × Db) → Action A
  transact f w = let (r, db) = f w.db in (r, record w { db = db })

  unfoldable pub or_raise : Option A → Error → Action A
  or_raise none e w = (failed e, w)
  or_raise (some a) e w = (ok a, w)

infixl 5 ◌>>=◌ ◌>>◌
unfoldable pub ◌>>=◌ : {A B : Type 0} → Action A → (A → Action B) → Action B
◌>>=◌ m f w = let (r, w') = m w in elim r [ ok a ↦ f a w' | failed e ↦ (failed e, w') ]

abbrev pub ◌>>◌ : {A B : Type 0} → Action A → Action B → Action B
m >> k = m >>= λ _. k

unfoldable pub update : (Db → Db) → Action (Unit {0})
update f w = (ok tt, record w { db = f w.db })

unfoldable pub require : Bool → Error → Action (Unit {0})
require true e w = (ok tt, w)
require false e w = (failed e, w)

unfoldable pub of_try : Try Bool → Action Bool
of_try (Try.done b) w = (ok b, w)
of_try Try.gave_up w = (failed value_error, w)
of_try Try.raised w = (failed type_error, w)

-- `hmac.compare_digest`
unfoldable pub compare : Text → Text → Action Bool
compare a b = of_try (compare_digest a b)

unfoldable pub is_hex_of : Text → ℕ → Action (Unit {0})
is_hex_of value size = or_raise (hex_bytes value size) value_error >>= λ bytes. pure tt

-- The metadata that an audit row may hold
abbrev pub audited : List Text
audited =
    codes "legacy_device_ref"
    ∷ codes "acl_version"
    ∷ codes "door_id"
    ∷ codes "target_ref"
    ∷ codes "status"
    ∷ codes "component"
    ∷ codes "version"
    ∷ codes "artifact_sha256"
    ∷ []

unfoldable pub redacted : Dict Text Json → Dict Text Json
redacted metadata = keep (λ entry. some_of (λ key. list_beq key entry.0) audited) metadata

-- `_tenant`
unfoldable pub existing_tenant : Text → Action (Unit {0})
existing_tenant tenant_id = do
  is_hex_of tenant_id 16
  known ← look (tenant_exists tenant_id)
  require known lookup_error

-- `_authorize_tenant`
unfoldable pub authorize_tenant : Text → Option Text → Action (Unit {0})
authorize_tenant tenant_id none = pure tt
authorize_tenant tenant_id (some actor_tenant_id) = do
  same ← compare tenant_id actor_tenant_id
  require same permission_error

module _ (c : Config) where
  -- self.clock()
  unfoldable pub time : Action ℕ
  time w = (ok (c.clock w.clock_reads), record w { clock_reads = w.clock_reads + 1 })

  -- secrets.token_bytes(size).hex()
  unfoldable pub token : ℕ → Action Text
  token size w = (ok (to_hex (c.token_bytes w.draws size)), record w { draws = w.draws + 1 })

  -- self.publisher.publish(topic, envelope)
  unfoldable pub push : Text → Envelope → Action Bool
  unfolding or_raise
  push topic envelope w =
      or_raise (c.push (length w.pushed)) runtime_error
        (record w { pushed = (topic, envelope) ∷ w.pushed })

  -- `_audit`
  unfoldable pub audit : Text → Text → Text → Option Text → Dict Text Json → Action (Unit {0})
  audit tenant_id actor_ref action credential_id metadata = do
    now ← time
    update (append_audit tenant_id actor_ref action credential_id (redacted metadata) now)

  unfoldable pub reconcile_by : Text → Option Bool → Action (Unit {0})
  reconcile_by tenant_id (some false) = do
    now ← time
    result ← write (
        disable_tenant_and_queue c.dialect tenant_id (codes "LEGACY_TENANT_DISABLED") now
          (codes "system:legacy-tenant-disable"))
    or_raise result lookup_error
    pure tt
  reconcile_by tenant_id _ = pure tt

  -- `_reconcile_legacy_disable`
  unfoldable pub reconcile_legacy_disable : Text → Action (Unit {0})
  unfolding reconcile_by
  reconcile_legacy_disable tenant_id = do
    legacy ← look (legacy_tenant_is_active c.dialect tenant_id)
    reconcile_by tenant_id legacy

  -- `_active_tenant`
  unfoldable pub active_tenant : Text → Action (Unit {0})
  active_tenant tenant_id = do
    existing_tenant tenant_id
    reconcile_legacy_disable tenant_id
    status ← look (tenant_status tenant_id)
    require (is_enabled status) permission_error
