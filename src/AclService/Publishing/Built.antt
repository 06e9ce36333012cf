-- ===== src/AclService/Publishing/Built.antt =====
-- What a published snapshot is made of: the parts of a successful `_publish_snapshot_locked` of
-- backend/app/acl_management.py.
use smart_gatekeeper.Common.{ℕ, ◌≡◌, sym, none, some, List, ap}
use smart_gatekeeper.Common.Text.{Text, codes}
use smart_gatekeeper.Acl.{Entry}
use smart_gatekeeper.Acl.Envelope.{Envelope}
use smart_gatekeeper.AclStore.{ok, Db}
use smart_gatekeeper.AclStore.Grants.{list_granted_credentials}
use smart_gatekeeper.AclStore.Snapshots.{
  allocate_snapshot_version, door_owner, insert_snapshot, append_audit,
}
use smart_gatekeeper.AclService.{Config, World, redacted}
use smart_gatekeeper.AclStore.History.{Run, Run-append}
use smart_gatekeeper.AclService.Traces.{
  reached, existing_tenant-IsTraced, reconcile-IsTraced, is_hex_of-IsTraced,
}
use smart_gatekeeper.AclService.Traces.Owners.{owned_by-IsTraced}
use smart_gatekeeper.AclService.Binds.{
  audit->>=, push->>=, pure-ok, or_raise->>=, transact->>=, require->>=, look->>=, time->>=, >>=-ok,
}
use smart_gatekeeper.AclService.Signing.{
  entries_of, sort_entries, fields_of, sign_explicit_snapshot,
}
use smart_gatekeeper.AclService.Publishing.{
  store_rows, build_snapshot, publish_snapshot, published_metadata,
}

module _ (c : Config) (tenant_id door_id : Text) (min_protocol max_protocol : ℕ) where
  -- A snapshot built in a world
  pub record Built (w : World) (e : Envelope) (w' : World) : Type 0 where
    pub version : ℕ
    pub entries : List Entry
    pub allocated : (allocate_snapshot_version c.dialect tenant_id door_id w.db).0 ≡ ok version
    pub sorted :
        sort_entries (
          entries_of min_protocol max_protocol (c.clock w.clock_reads) (
            list_granted_credentials tenant_id door_id
              (allocate_snapshot_version c.dialect tenant_id door_id w.db).1))
        ≡ some entries
    pub signed :
        sign_explicit_snapshot c
          (fields_of c door_id version (c.clock w.clock_reads) min_protocol max_protocol entries)
        ≡ some e
    pub inserted :
        (insert_snapshot tenant_id door_id version e
          (c.clock w.clock_reads)
          (allocate_snapshot_version c.dialect tenant_id door_id w.db).1).0
        ≡ ok tt
    pub database :
        w'.db
        ≡ (insert_snapshot tenant_id door_id version e
            (c.clock w.clock_reads)
            (allocate_snapshot_version c.dialect tenant_id door_id w.db).1).1
    pub pushed_kept : w'.pushed ≡ w.pushed

  pub build_snapshot-Built :
      (w : World) (e : Envelope) (w' : World)
      → build_snapshot c tenant_id door_id min_protocol max_protocol w ≡ (ok e, w')
      → Built w e w'
  unfolding build_snapshot store_rows
  build_snapshot-Built w e w' h =
      let k1 = time->>= c _ w e w' h in
      let (version, allocated, k2) = transact->>= _ _ _ e w' k1 in
      let k3 = look->>= _ _ _ e w' k2 in
      let (entries, sorted, k4) = or_raise->>= _ _ _ _ e w' k3 in
      let (envelope, signed, k5) = or_raise->>= _ _ _ _ e w' k4 in
      let (u, inserted, k6) = transact->>= _ _ _ e w' k5 in
      let (is_e, is_w) = pure-ok envelope _ e w' k6 in
      record {
        version = version;
        entries = entries;
        allocated = allocated;
        sorted = sorted;
        signed = rw is_e at signed;
        inserted = rw is_e at inserted;
        database = (rw is_e at (ap {B = Db} (λ x. x.db) (sym is_w)));
        pushed_kept = ap (λ x. x.pushed) (sym is_w);
      }

  -- A snapshot published from one world to another: it is built in between, and what follows writes only
  -- the audit row.
  pub record Published (w : World) (e : Envelope) (w' : World) : Type 0 where
    pub before : World
    pub start : Run c.dialect w.db before.db
    pub after : World
    pub built : Built before e after
    pub actor_ref : Text
    pub audited_at : ℕ
    pub database :
        w'.db
        ≡ append_audit tenant_id actor_ref
            (codes "ACL_SNAPSHOT_PUBLISHED")
            none
            (redacted (published_metadata c e.fields.acl_version door_id))
            audited_at
            after.db

  pub publish_snapshot-Published :
      (actor_ref : Text) (w : World) (e : Envelope) (w' : World)
      → publish_snapshot c tenant_id door_id actor_ref min_protocol max_protocol w ≡ (ok e, w')
      → Published w e w'
  unfolding publish_snapshot
  publish_snapshot-Published actor_ref w e w' h =
      let (u1, w1, h1, k1) = >>=-ok _ _ w e w' h in
      let (u2, w2, h2, k2) = >>=-ok _ _ w1 e w' k1 in
      let (u3, w3, h3, k3) = >>=-ok _ _ w2 e w' k2 in
      let (fits, k4) = require->>= _ _ _ w3 e w' k3 in
      let k5 = look->>= _ _ _ e w' k4 in
      let (u5, w5, h5, k6) = >>=-ok _ _ w3 e w' k5 in
      let (envelope, w6, h6, k7) = >>=-ok _ _ w5 e w' k6 in
      let k8 = audit->>= c _ _ _ _ _ _ w6 e w' k7 in
      let (sent, accepted, k9) = push->>= c _ _ _ _ e w' k8 in
      let (is_sent, k10) = require->>= _ _ _ _ e w' k9 in
      let (is_e, is_w) = pure-ok envelope _ e w' k10 in
      record {
        before = w5;
        start = Run-append (reached c _ _ (existing_tenant-IsTraced c tenant_id) h1) (
            Run-append (reached c _ _ (reconcile-IsTraced c tenant_id) h2) (
              Run-append (reached c _ _ (is_hex_of-IsTraced c door_id 16) h3)
                (reached c _ _ (owned_by-IsTraced c tenant_id (door_owner door_id w3.db)) h5)));
        after = w6;
        built = build_snapshot-Built w5 e w6 (rw is_e at h6);
        actor_ref = actor_ref;
        audited_at = c.clock w6.clock_reads;
        database = rw is_e at (ap {B = Db} (λ x. x.db) (sym is_w));
      }
