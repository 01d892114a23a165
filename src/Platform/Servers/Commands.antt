-- ===== src/Platform/Servers/Commands.antt =====
-- `TenantDatabaseAdmin` and `TenantMigrator` of backend/src/erp/modules/platform/provisioning.py.
use karmevo_erp.Core.Databases.{ValueError, TenantDbLocator, DbCredentials, Url, safe, url}
use karmevo_erp.Platform.Registry.{Uuid}
use karmevo_erp.Platform.Servers.{
  select_database, create_database, revoke_public, upgrade_head, read_revision, grant_role,
  insert_owner, Outside, belongs_to, server_error, TenantDatabase, M, ◌>>=◌, ◌>>◌, pure, checked,
  is_at, find, change, perform, alter,
}
use karmevo_erp.Prelude.{
  String, Bool, true, false, not, List, [], ◌∷◌, ◌++◌, Option, none, some, if◌then◌else◌, ◌==◌,
  string_key, nat_key, any, Result, ok, raise,
}

pub record Admin : Type 0 where
  pub locator : TenantDbLocator
  pub owner : DbCredentials
  pub runtime_roles : List String

abbrev pub and_then :
    {A B : Type 0} → Result ValueError A → (A → Result ValueError B) → Result ValueError B
and_then (ok a) f = f a
and_then (raise e) f = raise e

unfoldable pub safe_all : List String → Result ValueError (List String)
safe_all [] = ok []
safe_all (r ∷ rs) = and_then (safe r) (λ role. and_then (safe_all rs) (λ roles. ok (role ∷ roles)))

-- `TenantDatabaseAdmin(…)`
unfoldable pub new_admin : TenantDbLocator → DbCredentials → List String → Result ValueError Admin
new_admin locator owner roles = and_then (safe owner.user) (λ user.
    and_then (safe_all roles) (λ safe_roles. ok (record {
      locator = locator;
      owner = record { user = user; password = owner.password };
      runtime_roles = safe_roles;
    })))

-- `_server_connection`
abbrev pub connect : Admin → String → M Url
connect admin server = checked (url admin.locator server "postgres" admin.owner)

-- `TenantDatabaseAdmin.url`
unfoldable pub admin_url : Admin → String → String → M Url
admin_url admin server database w =
    (do name ← checked (safe database); checked (url admin.locator server name admin.owner)) w

module _ (out : Outside) (admin : Admin) where
  unfoldable pub exists : String → String → M Bool
  exists server database = do
    connect admin server
    perform out (select_database server database)
    λ w. (ok (any (is_at server database) w.databases), w)

  abbrev pub new_database : String → String → TenantDatabase
  new_database server name = record {
    server = server;
    name = name;
    owner_role = admin.owner.user;
    public_connect = true;
    granted = [];
    revision = none;
    bound = none;
  }

  unfoldable pub add_database : TenantDatabase → M (Unit {0})
  add_database d w =
      if any (is_at d.server d.name) w.databases
      then (raise (server_error "ProgrammingError: database already exists"), w)
      else (ok tt, record w { databases = w.databases ++ d ∷ [] })

  unfoldable pub create : String → String → M (Unit {0})
  create server database = do
    name ← checked (safe database)
    connect admin server
    perform out (create_database server name)
    add_database (new_database server name)

  unfoldable pub grant_all : String → String → List String → M (Unit {0})
  grant_all server name [] = pure tt
  grant_all server name (role ∷ roles) = do
    perform out (grant_role server name role)
    alter out server name (λ d. record d { granted = d.granted ++ role ∷ [] })
    grant_all server name roles

  unfoldable pub grant_connect : String → String → M (Unit {0})
  grant_connect server database = do
    name ← checked (safe database)
    connect admin server
    perform out (revoke_public server name)
    alter out server name (λ d. record d { public_connect = false })
    grant_all server name admin.runtime_roles

  -- `BIND_OWNER`, which leaves an owner that is there
  abbrev pub insert_bound : Uuid → TenantDatabase → TenantDatabase
  insert_bound tenant_id d = elim d.bound [
    | none ↦ record d { bound = some tenant_id }
    | some owner ↦ d
  ]

  -- `BOUND_OWNER`, and the test of `bind_owner`
  unfoldable pub read_bound : String → String → Uuid → M (Unit {0})
  read_bound server name tenant_id w = elim (find server name w.databases) [
    | none ↦ (raise (server_error "OperationalError: database does not exist"), w)
    | some d ↦ elim d.bound [
      | none ↦ (raise (server_error "no owner"), w)
      | some owner ↦
          if not (owner == tenant_id) then (raise (belongs_to name owner), w) else (ok tt, w)
    ]
  ]

  unfoldable pub bind_owner : String → String → Uuid → M (Unit {0})
  bind_owner server database tenant_id = do
    admin_url admin server database
    perform out (insert_owner server database tenant_id)
    alter out server database (insert_bound tenant_id)
    read_bound server database tenant_id

module _ (out : Outside) where
  unfoldable pub revision_of : String → String → M (Option String)
  revision_of server name w = elim (find server name w.databases) [
    | none ↦ (raise (server_error "OperationalError: database does not exist"), w)
    | some d ↦ (ok d.revision, w)
  ]

  -- `TenantMigrator.current_revision`
  unfoldable pub current_revision : String → String → M (Option String)
  current_revision server name = do perform out (read_revision server name); revision_of server name

  -- `command.upgrade(config, "head")`
  unfoldable pub run_migrations : String → String → M (Unit {0})
  run_migrations server name w =
      let logged = record w { log = w.log ++ upgrade_head server name ∷ [] } in
      elim (out.fault w.log (upgrade_head server name)) [
        | none ↦ alter out server name (λ d. record d { revision = some out.head }) logged
        | some text ↦ (
          raise (server_error text),
          record logged {
            databases =
                change server name (λ d. record d { revision = out.left_at w.log d.revision })
                  w.databases;
          },
        )
      ]

  -- `TenantMigrator.upgrade`
  unfoldable pub upgrade : String → String → M (Option String)
  upgrade server name = do run_migrations server name; current_revision server name
