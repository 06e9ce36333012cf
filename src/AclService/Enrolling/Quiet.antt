-- ===== src/AclService/Enrolling/Quiet.antt =====
-- The checks of a tenant leave the enrollment challenges alone, and only read the clock.
use smart_gatekeeper.Common.{
  ℕ, ◌+◌, ◌≤◌, ◌≡◌, ap, ◌∙◌, Bool, true, false, Option, none, some, arith, Bool-cases, inl, inr,
  list_eq, nat_eq,
}
use smart_gatekeeper.Common.Text.{Text, codes}
use smart_gatekeeper.AclStore.{ok, Error}
use smart_gatekeeper.AclStore.Tenants.{legacy_tenant_is_active}
use smart_gatekeeper.AclStore.History.Effects.Disabling.{disable-IsTenantWrite}
use smart_gatekeeper.AclService.{
  Config, World, pure, ◌>>=◌, require, compare, is_hex_of, existing_tenant, authorize_tenant,
  reconcile_by, reconcile_legacy_disable, active_tenant,
}
use smart_gatekeeper.Acl.Receipts.{is_blank}
use smart_gatekeeper.AclService.Enrolling.{legacy_ref, legacy_ref_of}
use smart_gatekeeper.AclService.Binds.{
  >>=-ok, or_raise->>=, look->>=, write->>=, require->>=, pure-ok, time->>=, of_try->>=,
}

-- From one world to a later one
abbrev pub IsQuiet : World → World → Type 0
IsQuiet w w' = (w.db.challenges ≡ w'.db.challenges) × (w.clock_reads ≤ w'.clock_reads)

is_hex_of-same :
    (value : Text) (size : ℕ) (w : World) (u : Unit {0}) (w' : World)
    → is_hex_of value size w ≡ (ok u, w')
    → w ≡ w'
unfolding is_hex_of
is_hex_of-same value size w u w' h =
    let (bytes, e, k) = or_raise->>= _ _ _ w u w' h in (pure-ok _ w u w' k).1

pub require-same :
    (b : Bool) (e : Error) (w : World) (u : Unit {0}) (w' : World)
    → require b e w ≡ (ok u, w')
    → w ≡ w'
unfolding require
require-same true e w u w' h = cc
require-same false e w u w' h = absurd cc

moved : (w w' : World) → w ≡ w' → IsQuiet w w'
moved w w' h = (ap (λ x. x.db.challenges) h, omega (arith, ap (λ x. x.clock_reads) h))

existing_tenant-IsQuiet :
    (tenant_id : Text) (w : World) (u : Unit {0}) (w' : World)
    → existing_tenant tenant_id w ≡ (ok u, w')
    → IsQuiet w w'
unfolding existing_tenant
existing_tenant-IsQuiet tenant_id w u w' h =
    let (u1, w1, h1, k1) = >>=-ok _ _ w u w' h in
    let k2 = look->>= _ _ w1 u w' k1 in
    moved w w' (is_hex_of-same tenant_id 16 w u1 w1 h1 ∙ require-same _ _ w1 u w' k2)

pub authorize_tenant-IsQuiet :
    (tenant_id : Text) (actor : Option Text) (w : World) (u : Unit {0}) (w' : World)
    → authorize_tenant tenant_id actor w ≡ (ok u, w')
    → IsQuiet w w'
unfolding authorize_tenant compare
authorize_tenant-IsQuiet tenant_id none w u w' h = moved w w' (pure-ok _ w u w' h).1
authorize_tenant-IsQuiet tenant_id (some actor) w u w' h =
    let (same, e, k) = of_try->>= _ _ w u w' h in moved w w' (require-same same _ w u w' k)

module _ (c : Config) where
  legacy_ref-same :
      (device_id : Text) (w : World) (ref : Text) (w' : World)
      → legacy_ref c device_id w ≡ (ok ref, w')
      → w ≡ w'
  unfolding legacy_ref
  legacy_ref-same device_id w ref w' h =
      let (given, k1) = require->>= _ _ _ w ref w' h in
      let (message, e, k2) = or_raise->>= _ _ _ w ref w' k1 in (pure-ok _ w ref w' k2).1

  pub legacy_ref_of-same :
      (device : Option Text) (w : World) (ref : Option Text) (w' : World)
      → legacy_ref_of c device w ≡ (ok ref, w')
      → w ≡ w'
  legacy_ref_of-same none w ref w' h = (pure-ok _ w ref w' h).1
  legacy_ref_of-same (some device_id) w ref w' h = elim (Bool-cases (is_blank device_id)) [
    | inl blank ↦ let h' : pure none w ≡ (ok ref, w') = rw blank at h in (pure-ok _ w ref w' h').1
    | inr given ↦
        let h' : (legacy_ref c device_id >>= λ found. pure (some found)) w ≡ (ok ref, w') =
          rw given at h in
        let (found, w1, h1, k1) = >>=-ok _ _ w ref w' h' in
        legacy_ref-same device_id w found w1 h1 ∙ (pure-ok _ w1 ref w' k1).1
  ]

  reconcile_by-IsQuiet :
      (tenant_id : Text) (legacy : Option Bool) (w : World) (u : Unit {0}) (w' : World)
      → reconcile_by c tenant_id legacy w ≡ (ok u, w')
      → IsQuiet w w'
  unfolding reconcile_by
  reconcile_by-IsQuiet tenant_id none w u w' h = moved w w' (pure-ok _ w u w' h).1
  reconcile_by-IsQuiet tenant_id (some true) w u w' h = moved w w' (pure-ok _ w u w' h).1
  reconcile_by-IsQuiet tenant_id (some false) w u w' h =
      let k1 = time->>= c _ w u w' h in
      let k2 = write->>= _ _ (record w { clock_reads = w.clock_reads + 1 }) u w' k1 in
      let (result, e, k3) = or_raise->>= _ _ _ _ u w' k2 in
      let same = (pure-ok _ _ u w' k3).1 in
      let kept =
        disable-IsTenantWrite c.dialect tenant_id (codes "LEGACY_TENANT_DISABLED")
          (c.clock w.clock_reads) (codes "system:legacy-tenant-disable") w.db in
      (kept.1.0 ∙ ap (λ x. x.db.challenges) same, omega (arith, ap (λ x. x.clock_reads) same))

  pub active_tenant-IsQuiet :
      (tenant_id : Text) (w : World) (u : Unit {0}) (w' : World)
      → active_tenant c tenant_id w ≡ (ok u, w')
      → IsQuiet w w'
  unfolding active_tenant reconcile_legacy_disable
  active_tenant-IsQuiet tenant_id w u w' h =
      let (u1, w1, h1, k1) = >>=-ok _ _ w u w' h in
      let (u2, w2, h2, k2) = >>=-ok _ _ w1 u w' k1 in
      let k3 = look->>= _ _ w2 u w' k2 in
      let a = existing_tenant-IsQuiet tenant_id w u1 w1 h1 in
      let b =
        reconcile_by-IsQuiet tenant_id (legacy_tenant_is_active c.dialect tenant_id w1.db) w1 u2 w2
          (look->>= _ _ w1 u2 w2 h2) in
      let d = moved w2 w' (require-same _ _ w2 u w' k3) in
      (a.0 ∙ b.0 ∙ d.0, omega (arith, a.1, b.1, d.1))
