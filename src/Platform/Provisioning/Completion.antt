-- ===== src/Platform/Provisioning/Completion.antt =====
-- One run of `complete`.
use karmevo_erp.Platform.Registry.{
  Uuid, Registry, Tenant, DatabaseStatus, get_tenant, record_database_state,
}
use karmevo_erp.Platform.Servers.{Outside, TenantDatabase, World, pure, find}
use karmevo_erp.Platform.Servers.Commands.{
  Admin, admin_url, exists, grant_connect, insert_bound, upgrade, bind_owner,
}
use karmevo_erp.Platform.Servers.Keeping.{Keeps, Keeps-bind, Kept, Kept-refl, SamePlaces}
use karmevo_erp.Platform.Servers.Frames.{
  IsFrame, exists_keeps, grant_connect_keeps, admin_url_keeps, upgrade_keeps, bind_owner_keeps,
  create-Kept,
}
use karmevo_erp.Platform.Servers.Effects.{
  bind-eq-ok, admin_url-eq-ok, grant_connect-eq-ok, upgrade-eq-ok, bind_owner-eq-ok,
}
use karmevo_erp.Platform.Provisioning.{create_missing, prepare}
use karmevo_erp.Prelude.{
  String, Bool, true, false, List, [], ◌∷◌, ◌++◌, map, Option, none, some, ◌≡◌, refl, arith,
  if◌then◌else◌, ◌==◌, nat_key, string_key, contains, contains-append, find_first, ok, Option-cases,
  inl, inr, sym, ◌∙◌, subst,
}

-- The row of a tenant after `record_database_state`.
abbrev pub recorded : DatabaseStatus → (revision error : Option String) → Tenant → Tenant
recorded status revision error t = record t {
  database_status = status;
  last_migration_error = error;
  schema_revision = (elim revision [ none ↦ t.schema_revision | some r ↦ some r ]);
}

get_recorded_from :
    (id t : Uuid) (status : DatabaseStatus) (revision error : Option String) (rows : List Tenant)
    → find_first
        (λ (x : Tenant). x.tenant_id == id)
        (map
          (λ (x : Tenant). if x.tenant_id == t then recorded status revision error x else x)
          rows)
      ≡ (elim (find_first (λ (x : Tenant). x.tenant_id == id) rows) [
        | none ↦ none
        | some x ↦ some (if id == t then recorded status revision error x else x)
      ])
unfolding find_first
get_recorded_from id t status revision error [] = refl
get_recorded_from id t status revision error (x ∷ rows) =
    ground (arith, get_recorded_from id t status revision error rows)

-- Only the row of the tenant changes.
pub get_tenant-record :
    (id t : Uuid) (status : DatabaseStatus) (revision error : Option String) (db : Registry)
    → get_tenant (record_database_state t status revision error db) id ≡ (elim (get_tenant db id) [
      | none ↦ none
      | some x ↦ some (if id == t then recorded status revision error x else x)
    ])
unfolding get_tenant record_database_state
get_tenant-record id t status revision error db =
    get_recorded_from id t status revision error db.tenants

-- The database of a tenant is there, at the head of the migrations, bound to the tenant, closed to
-- PUBLIC and open to the runtime roles.
pub record IsServing (out : Outside) (admin : Admin) (t : Uuid) (s n : String) (w : World)
    : Type 0 where
  pub database : TenantDatabase
  pub found : find s n w.databases ≡ some database
  pub revision : database.revision ≡ some out.head
  pub owned : database.bound ≡ some t
  pub closed : database.public_connect ≡ false
  pub granted :
      (role : String)
      → contains role admin.runtime_roles ≡ true
      → contains role database.granted ≡ true

pure-eq-ok :
    {A : Type 0} (a : A) (w : World) {b : A} {w' : World}
    → pure a w ≡ (ok b, w')
    → (a ≡ b) × (w ≡ w')
pure-eq-ok a w h = (cc h, cc h)

module _ (out : Outside) (admin : Admin) (tenant : Tenant) where
  pub create_missing-Kept : (found : Bool) → Keeps Kept (create_missing out admin tenant found)
  unfolding create_missing
  create_missing-Kept true w = Kept-refl w
  create_missing-Kept false w = elim (Option-cases tenant.schema_revision) [
    | inl fresh ↦
        rw (fresh, create_missing)
          (create-Kept out admin tenant.database_server tenant.database_name w)
    | inr (r, migrated) ↦ rw (migrated, create_missing) (Kept-refl w)
  ]

  -- Never an empty database in place of one that was migrated.
  pub create_missing-SamePlaces :
      (r : String)
      → tenant.schema_revision ≡ some r
      → (found : Bool) → (w : World) → SamePlaces w (create_missing out admin tenant found w).1
  unfolding create_missing
  create_missing-SamePlaces r migrated true w = λ s n. refl
  create_missing-SamePlaces r migrated false w = rw (migrated, create_missing) (λ s n. refl)

  pub prepare_keeps :
      (R : World → World → Type 0)
      → IsFrame R
      → ((found : Bool) → Keeps R (create_missing out admin tenant found))
      → Keeps R (prepare out admin tenant)
  unfolding prepare
  prepare_keeps R frame creating =
      Keeps-bind R frame.trans (exists out admin tenant.database_server tenant.database_name) _
        (exists_keeps R frame out admin tenant.database_server tenant.database_name)
        (λ found.
          Keeps-bind R frame.trans (create_missing out admin tenant found) _ (creating found) (λ u.
            Keeps-bind R frame.trans
              (grant_connect out admin tenant.database_server tenant.database_name) _
              (grant_connect_keeps R frame out admin tenant.database_server tenant.database_name)
              (λ u.
                Keeps-bind R frame.trans
                  (admin_url admin tenant.database_server tenant.database_name) _
                  (admin_url_keeps R frame out admin tenant.database_server tenant.database_name)
                  (λ u.
                    Keeps-bind R frame.trans
                      (upgrade out tenant.database_server tenant.database_name) _
                      (upgrade_keeps R frame out tenant.database_server tenant.database_name)
                      (λ r.
                        Keeps-bind R frame.trans
                          (bind_owner out admin tenant.database_server tenant.database_name
                            tenant.tenant_id)
                          _
                          (bind_owner_keeps R frame out admin tenant.database_server
                            tenant.database_name tenant.tenant_id)
                          (λ u. frame.same))))))

  served :
      (d : TenantDatabase) (w : World)
      → find tenant.database_server tenant.database_name w.databases
        ≡ some (
            insert_bound out admin tenant.tenant_id (record d {
              public_connect = false;
              granted = d.granted ++ admin.runtime_roles;
              revision = some out.head;
            }))
      → (insert_bound out admin tenant.tenant_id (record d {
        public_connect = false;
        granted = d.granted ++ admin.runtime_roles;
        revision = some out.head;
      })).bound
        ≡ some tenant.tenant_id
      → IsServing out admin tenant.tenant_id tenant.database_server tenant.database_name w
  served d w there owned = record {
    database = insert_bound out admin tenant.tenant_id (record d {
      public_connect = false;
      granted = d.granted ++ admin.runtime_roles;
      revision = some out.head;
    });
    found = there;
    revision = ground arith;
    owned = owned;
    closed = ground arith;
    granted =
        λ role there. ground (arith, there, contains-append role d.granted admin.runtime_roles);
  }

  pub prepare-IsServing :
      (w : World) {r : Option String} {w' : World}
      → prepare out admin tenant w ≡ (ok r, w')
      → IsServing out admin tenant.tenant_id tenant.database_server tenant.database_name w'
        × (r ≡ some out.head)
  unfolding prepare
  prepare-IsServing w {r} {w'} h =
      let s = tenant.database_server in
      let n = tenant.database_name in
      let (found, w1, looked, h1) = bind-eq-ok (exists out admin s n) _ w h in
      let (u2, w2, created, h2) = bind-eq-ok (create_missing out admin tenant found) _ w1 h1 in
      let (u3, w3, granted, h3) = bind-eq-ok (grant_connect out admin s n) _ w2 h2 in
      let (d, at3, _) = grant_connect-eq-ok out admin s n w2 granted in
      let d3 = record d { public_connect = false; granted = d.granted ++ admin.runtime_roles } in
      let (u4, w4, url_ok, h4) = bind-eq-ok (admin_url admin s n) _ w3 h3 in
      let at4 =
        subst (λ x. find s n x.databases ≡ some d3) (sym (admin_url-eq-ok admin s n w3 url_ok))
          at3 in
      let (r5, w5, upgraded, h5) = bind-eq-ok (upgrade out s n) _ w4 h4 in
      let (at5, head) = upgrade-eq-ok out admin s n w4 d3 at4 upgraded in
      let d5 = record d3 { revision = some out.head } in
      let (u6, w6, bound, h6) = bind-eq-ok (bind_owner out admin s n tenant.tenant_id) _ w5 h5 in
      let (at6, owned) = bind_owner-eq-ok out admin s n tenant.tenant_id w5 d5 at5 bound in
      let (result, same) = pure-eq-ok r5 w6 h6 in
      (
        served d w'
            (subst (λ x. find s n x.databases ≡ some (insert_bound out admin tenant.tenant_id d5))
              same at6)
            owned,
        sym result ∙ head,
      )
