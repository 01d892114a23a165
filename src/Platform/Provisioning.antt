-- ===== src/Platform/Provisioning.antt =====
-- `TenantProvisioner` of backend/src/erp/modules/platform/provisioning.py, over the servers and the
-- registry.
pub mod Completion
pub mod Upgrades
pub mod Outcomes
use Prim.Native.String.{◌++◌ as concat}
use karmevo_erp.Core.Databases.{database_name}
use karmevo_erp.Platform.Registry.{
  Uuid, Registry, Tenant, DatabaseStatus, provisioning, ready, failed, active, Failure, get_tenant,
  with_database_status, record_database_state, add,
}
use karmevo_erp.Platform.Servers.{
  Op, Outside, Trouble, not_found, missing_tenant_database, belongs_to, value_error, server_error,
  not_added, World, M, after, ◌>>=◌, ◌>>◌, pure, throw, checked,
}
use karmevo_erp.Platform.Servers.Commands.{
  Admin, admin_url, exists, create, grant_connect, upgrade, bind_owner,
}
use karmevo_erp.Prelude.{
  String, Bool, true, false, List, [], ◌∷◌, Option, none, some, take_chars, Result, ok, raise,
}

module _ (out : Outside) (admin : Admin) where
  -- The `if` of `complete`.
  unfoldable pub create_missing : Tenant → Bool → M (Unit {0})
  create_missing tenant true = pure tt
  create_missing tenant false = elim tenant.schema_revision [
    | some revision ↦ throw (missing_tenant_database tenant.database_name)
    | none ↦ create out admin tenant.database_server tenant.database_name
  ]

  -- The block that `complete` tries.
  unfoldable pub prepare : Tenant → M (Option String)
  prepare tenant = do
    found ← exists out admin tenant.database_server tenant.database_name
    create_missing tenant found
    grant_connect out admin tenant.database_server tenant.database_name
    admin_url admin tenant.database_server tenant.database_name
    revision ← upgrade out tenant.database_server tenant.database_name
    bind_owner out admin tenant.database_server tenant.database_name tenant.tenant_id
    pure revision

-- `f"{type(exc).__name__}: {exc}"`; the `show` of a UUID is a parameter of the program's texts.
unfoldable pub trouble_text : (show : Uuid → String) → Trouble → String
trouble_text show not_found = "NotFoundError: unknown tenant"
trouble_text show (missing_tenant_database name) =
    concat "MissingTenantDatabaseError: "
      (concat name " is missing; restore it from backup instead of re-creating it")
trouble_text show (belongs_to name owner) =
    concat "RuntimeError: " (concat name (concat " already belongs to " (show owner)))
trouble_text show (value_error text) = concat "ValueError: " text
trouble_text show (server_error text) = text
trouble_text show (not_added failure) = "IntegrityError"

-- `_describe`
unfoldable pub describe : (show : Uuid → String) → Trouble → String
describe show exc = take_chars 1000 (trouble_text show exc)

-- `_record`
unfoldable pub record_state :
    Uuid → DatabaseStatus → (revision error : Option String) → World → World
record_state tenant_id status revision error w = record w {
  registry = record_database_state tenant_id status revision error w.registry;
}

pub record MigrationOutcome : Type 0 where
  pub tenant_id : Uuid
  pub revision : Option String
  pub error : Option String

module _ (out : Outside) (admin : Admin) (show : Uuid → String) where
  -- What follows the `try` of `complete`.
  unfoldable pub settle :
      Uuid → Result Trouble (Option String) × World → Result Trouble (Option String) × World
  settle tenant_id (ok revision, w) = (ok revision, record_state tenant_id ready revision none w)
  settle tenant_id (raise exc, w) =
      (raise exc, record_state tenant_id failed none (some (describe show exc)) w)

  unfoldable pub complete : Uuid → M (Option String)
  unfolding settle
  complete tenant_id w = elim (get_tenant w.registry tenant_id) [
    | none ↦ (raise not_found, w)
    | some tenant ↦ settle tenant_id (prepare out admin tenant w)
  ]

  -- The row of `provision`.
  abbrev pub new_tenant : Uuid → (account_number tenant_name server name : String) → Tenant
  new_tenant tenant_id account_number tenant_name server name = record {
    tenant_id = tenant_id;
    account_number = account_number;
    tenant_name = tenant_name;
    tenant_status = active;
    database_server = server;
    database_name = name;
    database_status = provisioning;
    schema_revision = none;
    last_migration_error = none;
  }

  unfoldable pub insert_tenant : Tenant → M (Unit {0})
  insert_tenant tenant w = elim (add tenant w.registry) [
    | raise failure ↦ (raise (not_added failure), w)
    | ok registry ↦ (ok tt, record w { registry = registry })
  ]

  -- `new_id` is the `uuidv7()` of the database.
  unfoldable pub provision : (new_id : Uuid) (server account_number tenant_name : String) → M Uuid
  provision new_id server account_number tenant_name = do
    name ← checked (database_name admin.locator new_id)
    insert_tenant (new_tenant new_id account_number tenant_name server name)
    complete new_id
    pure new_id

  -- The `try` of `upgrade_all`.
  unfoldable pub upgrade_tenant : Tenant → M (Option String)
  upgrade_tenant tenant = do
    admin_url admin tenant.database_server tenant.database_name
    upgrade out tenant.database_server tenant.database_name

  -- One round of its loop.
  unfoldable pub outcome_of :
      Tenant → Result Trouble (Option String) × World → MigrationOutcome × World
  outcome_of tenant (ok revision, w) = (
    record { tenant_id = tenant.tenant_id; revision = revision; error = none },
    record_state tenant.tenant_id ready revision none w,
  )
  outcome_of tenant (raise exc, w) = (
    record { tenant_id = tenant.tenant_id; revision = none; error = some (describe show exc) },
    record_state tenant.tenant_id failed none (some (describe show exc)) w,
  )

  unfoldable pub upgrade_each : List Tenant → World → List MigrationOutcome × World
  unfolding outcome_of upgrade_tenant
  upgrade_each [] w = ([], w)
  upgrade_each (tenant ∷ tenants) w =
      let (outcome, w') = outcome_of tenant (upgrade_tenant tenant w) in
      let (outcomes, last) = upgrade_each tenants w' in (outcome ∷ outcomes, last)

  unfoldable pub upgrade_all : World → List MigrationOutcome × World
  upgrade_all w = upgrade_each (with_database_status ready w.registry) w
