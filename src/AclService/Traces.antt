-- ===== src/AclService/Traces.antt =====
-- Every action of the service changes the database by a run of transactions, whether it returns or
-- raises.
pub mod Owners
pub mod Enrolling
pub mod Storing
pub mod Publishing
use mathlib.Core.Path.{subst}
use smart_gatekeeper.Common.{
  ℕ, ◌≡◌, refl, sym, Bool, true, false, ◌&&◌, Option, none, some, ◌∷◌, list_eq, nat_eq, Bool-cases,
  inl, inr,
}
use smart_gatekeeper.Common.Dict.{Dict}
use smart_gatekeeper.Common.Text.{Text, codes}
use smart_gatekeeper.Common.Json.{Json}
use smart_gatekeeper.Common.Try.{Try, compare_digest}
use smart_gatekeeper.Acl.{hex_bytes}
use smart_gatekeeper.Acl.Envelope.{Envelope}
use smart_gatekeeper.AclStore.{Dialect, Error, Result, ok, failed, lookup_error, Db}
use smart_gatekeeper.AclStore.Tenants.{legacy_tenant_is_active}
use smart_gatekeeper.AclStore.History.{
  IsSameHistory, Step, aside, tenant_disabled, Run, stop, next, Run-append,
}
use smart_gatekeeper.AclStore.History.Frames.{IsSameHistory-refl, append_audit-IsSameHistory}
use smart_gatekeeper.AclService.{
  Config, World, Action, pure, raise, look, write, transact, or_raise, ◌>>=◌, ◌>>◌, update, require,
  of_try, compare, is_hex_of, existing_tenant, authorize_tenant, time, token, push, audit,
  reconcile_by, reconcile_legacy_disable, active_tenant, redacted,
}

-- From any world
unfoldable pub IsTraced : Config → {A : Type 0} → Action A → Type 0
IsTraced c m = (w : World) → Run c.dialect w.db (m w).1.db

-- The run that an action made
pub reached :
    (c : Config) {A : Type 0} (m : Action A) (w : World) {r : Result A} {w' : World}
    → IsTraced c m
    → m w ≡ (r, w')
    → Run c.dialect w.db w'.db
unfolding IsTraced
reached c m w h q = subst (λ x. Run c.dialect w.db x.1.db) q (h w)

pub raise-IsTraced : (c : Config) (A : Type 0) (e : Error) → IsTraced c {A = A} (raise e)
unfolding IsTraced raise
raise-IsTraced c A e w = stop w.db

module _ (c : Config) {A B : Type 0} where
  pub >>=-IsTraced :
      (m : Action A) (f : A → Action B)
      → IsTraced c m
      → ((a : A) → IsTraced c (f a))
      → IsTraced c (m >>= f)
  unfolding IsTraced ◌>>=◌
  >>=-IsTraced m f h k w = by_first (m w).0 refl
    where
      by_first :
          (r : Result A)
          → (m w).0 ≡ r
          → let s : Result B × World = elim r [
            | ok a ↦ f a (m w).1
            | failed e ↦ (failed e, (m w).1)
          ] in
            Run c.dialect w.db s.1.db
      by_first (ok a) q = Run-append (h w) (k a (m w).1)
      by_first (failed e) q = h w

module _ (c : Config) {A : Type 0} where
  pub pure-IsTraced : (a : A) → IsTraced c (pure a)
  unfolding IsTraced pure
  pure-IsTraced a w = stop w.db

  pub look-IsTraced : (f : Db → A) → IsTraced c (look f)
  unfolding IsTraced look
  look-IsTraced f w = stop w.db

  pub or_raise-IsTraced : (o : Option A) (e : Error) → IsTraced c (or_raise o e)
  unfolding IsTraced or_raise
  or_raise-IsTraced none e w = stop w.db
  or_raise-IsTraced (some a) e w = stop w.db

  -- A transaction that is a step of the history
  pub write-IsTraced :
      (f : Db → A × Db) → ((a : Db) → Step c.dialect a (f a).1) → IsTraced c (write f)
  unfolding IsTraced write
  write-IsTraced f h w = next w.db (f w.db).1 (f w.db).1 (h w.db) (stop (f w.db).1)

  pub transact-IsTraced :
      (f : Db → Result A × Db) → ((a : Db) → Step c.dialect a (f a).1) → IsTraced c (transact f)
  unfolding IsTraced transact
  transact-IsTraced f h w = next w.db (f w.db).1 (f w.db).1 (h w.db) (stop (f w.db).1)

module _ (c : Config) where
  pub update-IsTraced : (f : Db → Db) → ((a : Db) → IsSameHistory a (f a)) → IsTraced c (update f)
  unfolding IsTraced update
  update-IsTraced f h w = next w.db (f w.db) (f w.db) (aside w.db (f w.db) (h w.db)) (stop (f w.db))

  pub require-IsTraced : (b : Bool) (e : Error) → IsTraced c (require b e)
  unfolding IsTraced require
  require-IsTraced true e w = stop w.db
  require-IsTraced false e w = stop w.db

  pub of_try-IsTraced : (t : Try Bool) → IsTraced c (of_try t)
  unfolding IsTraced of_try
  of_try-IsTraced (Try.done b) w = stop w.db
  of_try-IsTraced Try.gave_up w = stop w.db
  of_try-IsTraced Try.raised w = stop w.db

  pub compare-IsTraced : (a b : Text) → IsTraced c (compare a b)
  unfolding compare
  compare-IsTraced a b = of_try-IsTraced (compare_digest a b)

  pub is_hex_of-IsTraced : (value : Text) (size : ℕ) → IsTraced c (is_hex_of value size)
  unfolding is_hex_of
  is_hex_of-IsTraced value size =
      >>=-IsTraced c _ _ (or_raise-IsTraced c _ _) (λ bytes. pure-IsTraced c tt)

  pub time-IsTraced : IsTraced c (time c)
  unfolding IsTraced time
  time-IsTraced w = stop w.db

  pub token-IsTraced : (size : ℕ) → IsTraced c (token c size)
  unfolding IsTraced token
  token-IsTraced size w = stop w.db

  pub push-IsTraced : (topic : Text) (envelope : Envelope) → IsTraced c (push c topic envelope)
  unfolding IsTraced push
  push-IsTraced topic envelope w =
      or_raise-IsTraced c _ _ (record w { pushed = (topic, envelope) ∷ w.pushed })

  pub audit-IsTraced :
      (tenant_id actor_ref action : Text) (credential_id : Option Text) (metadata : Dict Text Json)
      → IsTraced c (audit c tenant_id actor_ref action credential_id metadata)
  unfolding audit
  audit-IsTraced tenant_id actor_ref action credential_id metadata =
      >>=-IsTraced c _ _ time-IsTraced (λ now. update-IsTraced _ (
        append_audit-IsSameHistory tenant_id actor_ref action credential_id (redacted metadata)
          now))

pub ruleset traced = (
  >>=-IsTraced, pure-IsTraced, raise-IsTraced, look-IsTraced, or_raise-IsTraced, require-IsTraced,
  of_try-IsTraced, compare-IsTraced, is_hex_of-IsTraced, time-IsTraced, token-IsTraced,
  push-IsTraced, audit-IsTraced,
)

module _ (c : Config) where
  pub existing_tenant-IsTraced : (tenant_id : Text) → IsTraced c (existing_tenant tenant_id)
  unfolding existing_tenant
  existing_tenant-IsTraced tenant_id = search traced

  pub authorize_tenant-IsTraced :
      (tenant_id : Text) (actor : Option Text) → IsTraced c (authorize_tenant tenant_id actor)
  unfolding authorize_tenant
  authorize_tenant-IsTraced tenant_id none = search traced
  authorize_tenant-IsTraced tenant_id (some actor) = search traced

  reconcile_by-IsTraced :
      (tenant_id : Text) (legacy : Option Bool) → IsTraced c (reconcile_by c tenant_id legacy)
  unfolding reconcile_by
  reconcile_by-IsTraced tenant_id (some false) = >>=-IsTraced c _ _ (time-IsTraced c) (λ now.
      >>=-IsTraced c _ _ (write-IsTraced c _ (tenant_disabled tenant_id _ now _))
        (λ result. search traced))
  reconcile_by-IsTraced tenant_id (some true) = search traced
  reconcile_by-IsTraced tenant_id none = search traced

  pub reconcile-IsTraced : (tenant_id : Text) → IsTraced c (reconcile_legacy_disable c tenant_id)
  unfolding reconcile_legacy_disable
  reconcile-IsTraced tenant_id = search (traced, reconcile_by-IsTraced)

  pub active_tenant-IsTraced : (tenant_id : Text) → IsTraced c (active_tenant c tenant_id)
  unfolding active_tenant
  active_tenant-IsTraced tenant_id = search (traced, existing_tenant-IsTraced, reconcile-IsTraced)

pub ruleset tenant_traced = (
  traced, existing_tenant-IsTraced, authorize_tenant-IsTraced, reconcile-IsTraced,
  active_tenant-IsTraced,
)
