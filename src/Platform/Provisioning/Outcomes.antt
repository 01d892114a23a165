-- ===== src/Platform/Provisioning/Outcomes.antt =====
-- How `complete` ends.
use karmevo_erp.Platform.Registry.{
  Uuid, Registry, Tenant, DatabaseStatus, ready, failed, get_tenant,
}
use karmevo_erp.Platform.Servers.{Outside, Trouble, TenantDatabase, World, is_at, find}
use karmevo_erp.Platform.Servers.Commands.{Admin}
use karmevo_erp.Platform.Servers.Keeping.{Kept, SamePlaces}
use karmevo_erp.Platform.Servers.Frames.{Kept-IsFrame, SamePlaces-IsFrame}
use karmevo_erp.Platform.Provisioning.{prepare, describe, record_state, settle, complete}
use karmevo_erp.Platform.Provisioning.Completion.{
  recorded, get_tenant-record, IsServing, create_missing-Kept, create_missing-SamePlaces,
  prepare_keeps, prepare-IsServing,
}
use karmevo_erp.Prelude.{
  String, Option, none, some, ◌≡◌, ◌≢◌, refl, arith, ◌==◌, nat_key, find_first-All, All-Any, Any,
  any, Result, ok, raise, ap, subst,
}

-- A settled run: the row of the tenant says how it ended; the rows of the others are as they were, and
-- every database that was there still is, with the owner it had.
pub record IsSettled (t : Uuid) (row : Tenant) (w w' : World) : Type 0 where
  pub own : get_tenant w'.registry t ≡ some row
  pub others : (id : Uuid) → id ≢ t → get_tenant w'.registry id ≡ get_tenant w.registry id
  pub databases :
      (s n : String) (d : TenantDatabase)
      → find s n w.databases ≡ some d
      → (d' : TenantDatabase) × (find s n w'.databases ≡ some d')
        × ((u : Uuid) → d.bound ≡ some u → d'.bound ≡ some u)

module _ (out : Outside) (admin : Admin) (show : Uuid → String) where
  abbrev pub Settled : Uuid → Tenant → World → Result Trouble (Option String) × World → Type 0
  Settled t tenant w (ok r, w') =
      (r ≡ some out.head)
      × IsSettled t (recorded ready r none tenant) w w'
      × IsServing out admin t tenant.database_server tenant.database_name w'
  Settled t tenant w (raise e, w') =
      IsSettled t (recorded failed none (some (describe show e)) tenant) w w'

  record_state-IsSettled :
      (t : Uuid) (tenant : Tenant) (status : DatabaseStatus) (revision error : Option String)
      (w w' : World)
      → get_tenant w.registry t ≡ some tenant
      → Kept w w'
      → IsSettled t
          (recorded status revision error tenant)
          w
          (record_state t status revision error w')
  unfolding record_state
  record_state-IsSettled t tenant status revision error w w' known kept = record {
    own = ground (
      arith,
      known,
      ap (λ db. get_tenant db t) kept.registry,
      get_tenant-record t t status revision error w'.registry,
    );
    others = λ id other. ground (
      arith,
      other,
      ap (λ db. get_tenant db id) kept.registry,
      get_tenant-record id t status revision error w'.registry,
    );
    databases = kept.databases;
  }

  get_tenant-id :
      (db : Registry) (t : Uuid) (tenant : Tenant)
      → get_tenant db t ≡ some tenant
      → tenant.tenant_id ≡ t
  unfolding get_tenant
  get_tenant-id db t tenant h =
      let (there, same) =
        find_first-All (λ (x : Tenant). Any (λ y. y ≡ x) db.tenants)
          (λ (x : Tenant). x.tenant_id == t) db.tenants (All-Any db.tenants) h in
      ground (arith, same)

  settle-Settled :
      (t : Uuid) (tenant : Tenant) (w : World)
      → get_tenant w.registry t ≡ some tenant
      → (r : Result Trouble (Option String) × World) → prepare out admin tenant w ≡ r
      → Settled t tenant w (settle out admin show t r)
  unfolding settle record_state
  settle-Settled t tenant w known (ok r, w') e =
      let kept =
        subst (λ x. Kept w x.1) e
          (prepare_keeps out admin tenant Kept Kept-IsFrame (create_missing-Kept out admin tenant)
            w) in
      let (serving, head) = prepare-IsServing out admin tenant w e in
      (
        head,
        record_state-IsSettled t tenant ready r none w w' known kept,
        moved (
            subst (λ u. IsServing out admin u tenant.database_server tenant.database_name w')
              (get_tenant-id w.registry t tenant known) serving),
      )
    where
      moved :
          IsServing out admin t tenant.database_server tenant.database_name w'
          → IsServing out admin t tenant.database_server tenant.database_name
              (record_state t ready r none w')
      moved s = record {
        database = s.database;
        found = s.found;
        revision = s.revision;
        owned = s.owned;
        closed = s.closed;
        granted = s.granted;
      }
  settle-Settled t tenant w known (raise x, w') e =
      record_state-IsSettled t tenant failed none (some (describe show x)) w w' known (
        subst (λ x. Kept w x.1) e
          (prepare_keeps out admin tenant Kept Kept-IsFrame (create_missing-Kept out admin tenant)
            w))

  -- For a known tenant, whatever statement or migration fails, `complete` either returns the head of
  -- the migrations, and then the row is ready at that revision and the database is migrated to it,
  -- bound to the tenant, closed to PUBLIC and open to the runtime roles; or it raises, and then the
  -- row is failed with the description of the exception. Rows of other tenants are unchanged, and no
  -- database is dropped or given to another owner.
  pub complete_lem :
      (t : Uuid) (tenant : Tenant) (w : World)
      → get_tenant w.registry t ≡ some tenant
      → Settled t tenant w (complete out admin show t w)
  unfolding complete
  complete_lem t tenant w known =
      rw (known, complete) (settle-Settled t tenant w known (prepare out admin tenant w) refl)

  -- A tenant that was migrated before is never given a new database: after `complete` exactly those
  -- databases are there that were there before, also where the tenant's own is missing.
  pub complete-SamePlaces :
      (t : Uuid) (tenant : Tenant) (revision : String) (w : World)
      → get_tenant w.registry t ≡ some tenant
      → tenant.schema_revision ≡ some revision
      → (s n : String)
      → any (is_at s n) (complete out admin show t w).1.databases ≡ any (is_at s n) w.databases
  unfolding complete record_state
  complete-SamePlaces t tenant revision w known migrated =
      rw (known, complete)
        (settled (prepare out admin tenant w) (
          prepare_keeps out admin tenant SamePlaces SamePlaces-IsFrame
            (λ found w. create_missing-SamePlaces out admin tenant revision migrated found w) w))
    where
      settled :
          (r : Result Trouble (Option String) × World)
          → SamePlaces w r.1
          → SamePlaces w (settle out admin show t r).1
      settled (ok x, w') same = same
      settled (raise x, w') same = same
