-- ===== src/AclService/Binds.antt =====
-- What the success of a chain of actions of the service says of its first action.
use smart_gatekeeper.Common.{ℕ, ◌+◌, ◌≡◌, refl, Bool, true, false, Option, none, some, ◌∷◌, length}
use smart_gatekeeper.AclStore.{Error, Result, ok, failed, runtime_error, Db}
use smart_gatekeeper.AclStore.Snapshots.{append_audit}
use smart_gatekeeper.Common.Dict.{Dict}
use smart_gatekeeper.Common.Text.{Text}
use smart_gatekeeper.Common.Json.{Json}
use smart_gatekeeper.Acl.Envelope.{Envelope, to_hex}
use smart_gatekeeper.Common.Try.{Try}
use smart_gatekeeper.AclService.{
  Config, World, Action, pure, or_raise, require, transact, write, look, time, of_try, token,
  update, push, audit, redacted, ◌>>=◌,
}

module _ {A B : Type 0} where
  -- The action ran, and its continuation gave the result.
  pub >>=-ok :
      (m : Action A) (f : A → Action B) (w : World) (b : B) (w' : World)
      → (m >>= f) w ≡ (ok b, w')
      → (a : A) × (w1 : World) × (m w ≡ (ok a, w1)) × (f a w1 ≡ (ok b, w'))
  unfolding ◌>>=◌
  >>=-ok m f w b w' h = by_first (m w).0 (m w).1 refl refl h
    where
      by_first :
          (r : Result A) (w1 : World)
          → (m w).0 ≡ r
          → (m w).1 ≡ w1
          → (elim r [ ok a ↦ f a w1 | failed e ↦ (failed e, w1) ]) ≡ (ok b, w')
          → (a : A) × (w1 : World) × (m w ≡ (ok a, w1)) × (f a w1 ≡ (ok b, w'))
      by_first (ok a) w1 r s h = (a, w1, cc, h)
      by_first (failed e) w1 r s h = cc

  pub or_raise->>= :
      (o : Option A) (e : Error) (f : A → Action B) (w : World) (b : B) (w' : World)
      → (or_raise o e >>= f) w ≡ (ok b, w')
      → (a : A) × (o ≡ some a) × (f a w ≡ (ok b, w'))
  unfolding ◌>>=◌ or_raise
  or_raise->>= none e f w b w' h = cc
  or_raise->>= (some a) e f w b w' h = (a, refl, h)

  pub transact->>= :
      (g : Db → Result A × Db) (f : A → Action B) (w : World) (b : B) (w' : World)
      → (transact g >>= f) w ≡ (ok b, w')
      → (a : A) × ((g w.db).0 ≡ ok a) × (f a (record w { db = (g w.db).1 }) ≡ (ok b, w'))
  unfolding ◌>>=◌ transact
  transact->>= g f w b w' h = by_result (g w.db).0 refl h
    where
      by_result :
          (r : Result A)
          → (g w.db).0 ≡ r
          → (elim r [
            | ok a ↦ f a (record w { db = (g w.db).1 })
            | failed e ↦ (failed e, record w { db = (g w.db).1 })
          ])
            ≡ (ok b, w')
          → (a : A) × ((g w.db).0 ≡ ok a) × (f a (record w { db = (g w.db).1 }) ≡ (ok b, w'))
      by_result (ok a) q h = (a, q, h)
      by_result (failed e) q h = cc

  pub look->>= :
      (g : Db → A) (f : A → Action B) (w : World) (b : B) (w' : World)
      → (look g >>= f) w ≡ (ok b, w')
      → f (g w.db) w ≡ (ok b, w')
  unfolding ◌>>=◌ look
  look->>= g f w b w' h = h

  pub write->>= :
      (g : Db → A × Db) (f : A → Action B) (w : World) (b : B) (w' : World)
      → (write g >>= f) w ≡ (ok b, w')
      → f (g w.db).0 (record w { db = (g w.db).1 }) ≡ (ok b, w')
  unfolding ◌>>=◌ write
  write->>= g f w b w' h = h

pub require-ok :
    (c : Bool) (e : Error) (w : World) (u : Unit {0}) (w' : World)
    → require c e w ≡ (ok u, w')
    → c ≡ true
unfolding require
require-ok true e w u w' h = refl
require-ok false e w u w' h = absurd cc

module _ {B : Type 0} where
  pub pure-ok :
      (a : B) (w : World) (b : B) (w' : World) → pure a w ≡ (ok b, w') → (a ≡ b) × (w ≡ w')
  unfolding pure
  pure-ok a w b w' h = (cc, cc)

  pub require->>= :
      (c : Bool) (e : Error) (f : Unit {0} → Action B) (w : World) (b : B) (w' : World)
      → (require c e >>= f) w ≡ (ok b, w')
      → (c ≡ true) × (f tt w ≡ (ok b, w'))
  unfolding ◌>>=◌ require
  require->>= true e f w b w' h = (refl, h)
  require->>= false e f w b w' h = cc

  pub time->>= :
      (c : Config) (f : ℕ → Action B) (w : World) (b : B) (w' : World)
      → (time c >>= f) w ≡ (ok b, w')
      → f (c.clock w.clock_reads) (record w { clock_reads = w.clock_reads + 1 }) ≡ (ok b, w')
  unfolding ◌>>=◌ time
  time->>= c f w b w' h = h

  pub audit->>= :
      (c : Config) (tenant_id actor_ref action : Text) (credential_id : Option Text)
      (metadata : Dict Text Json) (f : Unit {0} → Action B) (w : World) (b : B) (w' : World)
      → (audit c tenant_id actor_ref action credential_id metadata >>= f) w ≡ (ok b, w')
      → f tt (record w {
        db =
            append_audit tenant_id actor_ref action credential_id
              (redacted metadata)
              (c.clock w.clock_reads)
              w.db;
        clock_reads = w.clock_reads + 1;
      })
        ≡ (ok b, w')
  unfolding ◌>>=◌ audit time update
  audit->>= c tenant_id actor_ref action credential_id metadata f w b w' h = h

  pub push->>= :
      (c : Config) (topic : Text) (envelope : Envelope) (f : Bool → Action B) (w : World) (b : B)
      (w' : World)
      → (push c topic envelope >>= f) w ≡ (ok b, w')
      → (sent : Bool) × (c.push (length w.pushed) ≡ some sent)
        × (f sent (record w { pushed = (topic, envelope) ∷ w.pushed }) ≡ (ok b, w'))
  unfolding ◌>>=◌ push or_raise
  push->>= c topic envelope f w b w' h = by_answer (c.push (length w.pushed)) h
    where
      by_answer :
          (o : Option Bool)
          → (let (r, w1) =
                or_raise o runtime_error (record w { pushed = (topic, envelope) ∷ w.pushed }) in
              elim r [ ok a ↦ f a w1 | failed e ↦ (failed e, w1) ])
            ≡ (ok b, w')
          → (sent : Bool) × (o ≡ some sent)
            × (f sent (record w { pushed = (topic, envelope) ∷ w.pushed }) ≡ (ok b, w'))
      by_answer none h = cc
      by_answer (some sent) h = (sent, refl, h)

  pub of_try->>= :
      (t : Try Bool) (f : Bool → Action B) (w : World) (b : B) (w' : World)
      → (of_try t >>= f) w ≡ (ok b, w')
      → (r : Bool) × (t ≡ Try.done r) × (f r w ≡ (ok b, w'))
  unfolding ◌>>=◌ of_try
  of_try->>= (Try.done r) f w b w' h = (r, refl, h)
  of_try->>= Try.gave_up f w b w' h = absurd cc
  of_try->>= Try.raised f w b w' h = absurd cc

  pub token->>= :
      (c : Config) (size : ℕ) (f : Text → Action B) (w : World) (b : B) (w' : World)
      → (token c size >>= f) w ≡ (ok b, w')
      → f (to_hex (c.token_bytes w.draws size)) (record w { draws = w.draws + 1 }) ≡ (ok b, w')
  unfolding ◌>>=◌ token
  token->>= c size f w b w' h = h
