-- ===== src/Examples/Provisioning.antt =====
-- A new tenant, its database, and servers that fail at one statement.
use karmevo_erp.Core.Databases.{
  TenantDbLocator, safe, matches, matches_rest, url, partition, port_of, int, int_from,
  database_name, hex,
}
use karmevo_erp.Core.Databases.Identifiers.{IsIdentifier, safe_iff}
use karmevo_erp.Core.Databases.Names.{database_name_total, database_name_injective}
use karmevo_erp.Platform.Registry.{
  Uuid, Tenant, active, provisioning, ready, get_tenant, with_database_status,
  record_database_state,
}
use karmevo_erp.Platform.Servers.{
  Op, grant_role, Outside, World, server_error, find, change, perform, alter, is_at,
}
use karmevo_erp.Platform.Servers.Commands.{
  Admin, admin_url, exists, add_database, create, grant_all, grant_connect, read_bound, bind_owner,
  revision_of, current_revision, run_migrations, upgrade,
}
use karmevo_erp.Platform.Provisioning.{
  MigrationOutcome, create_missing, prepare, trouble_text, describe, record_state, settle, complete,
  upgrade_tenant, outcome_of, upgrade_each, upgrade_all,
}
use karmevo_erp.Platform.Provisioning.Outcomes.{Settled, complete_lem, complete-SamePlaces}
use karmevo_erp.Platform.Provisioning.Upgrades.{Agrees, upgrade_all_lem}
use karmevo_erp.Prelude.{
  ℕ, ◌+◌, ◌≤◌, Option, String, false, List, [], ◌∷◌, map, none, some, ◌≡◌, ◌↔◌, refl, ok, raise,
  lookup, any, find_first, count, contains, keep, sort_by, insert_by, string_dec, string_key,
  nat_key, take_chars, arith, All,
}
use Prim.Native.String.{◌++◌ as concat, count as char_count}
use native.Mathlib.Decide.{ℕ_discrete}

-- Opens all that a completion goes through.
unfoldable provisioning_program : Unit {0}
unfolding safe matches matches_rest url partition port_of int int_from get_tenant
    with_database_status record_database_state find change perform alter admin_url exists
    add_database create grant_all grant_connect read_bound bind_owner revision_of current_revision
    run_migrations upgrade create_missing prepare trouble_text describe record_state settle complete
    upgrade_tenant outcome_of upgrade_each upgrade_all lookup any find_first count contains keep
    sort_by insert_by string_dec take_chars ℕ_discrete
provisioning_program = tt

abbrev locator : TenantDbLocator
locator = record { servers = ("default", "localhost:55432") ∷ []; prefix = "erp_t_" }

abbrev admin : Admin
admin = record {
  locator = locator;
  owner = record { user = "erp_owner"; password = "secret" };
  runtime_roles = "erp_app" ∷ "erp_relay" ∷ [];
}

abbrev show : Uuid → String
show t = "a tenant"

abbrev acme : Tenant
acme = record {
  tenant_id = 7;
  account_number = "100001";
  tenant_name = "Acme";
  tenant_status = active;
  database_server = "default";
  database_name = "erp_t_7";
  database_status = provisioning;
  schema_revision = none;
  last_migration_error = none;
}

abbrev sound : Outside
sound = record { fault = λ log op. none; head = "t0004"; left_at = λ log r. r }

-- Every grant fails.
abbrev no_grants : List Op → Op → Option String
no_grants log (grant_role s n r) = some "OperationalError: role does not exist"
no_grants log _ = none

abbrev broken : Outside
broken = record { fault = no_grants; head = "t0004"; left_at = λ log r. r }

abbrev before : World
before = record {
  registry = record { tenants = acme ∷ []; identities = []; memberships = []; tenant_modules = [] };
  databases = [];
  log = [];
}

abbrev migrated : World
migrated = record before {
  registry = record {
    tenants = record acme { schema_revision = some "t0003"; database_status = ready } ∷ [];
    identities = [];
    memberships = [];
    tenant_modules = [];
  };
}

completed : (complete sound admin show 7 before).0 ≡ ok (some "t0004")
unfolding provisioning_program
completed = refl

not_granted :
    (complete broken admin show 7 before).0
    ≡ raise (server_error "OperationalError: role does not exist")
unfolding provisioning_program
not_granted = refl

complete_example : Settled broken admin show 7 acme before (complete broken admin show 7 before)
unfolding get_tenant find_first ℕ_discrete
complete_example = complete_lem broken admin show 7 acme before refl

complete-SamePlaces_example :
    any (is_at "default" "erp_t_7") (complete sound admin show 7 migrated).1.databases
    ≡ any (is_at "default" "erp_t_7") migrated.databases
unfolding get_tenant find_first ℕ_discrete
complete-SamePlaces_example =
    complete-SamePlaces sound admin show 7
      (record acme { schema_revision = some "t0003"; database_status = ready }) "t0003" migrated
      refl refl "default" "erp_t_7"

one_ready :
    (i : Uuid)
    → count i (map (λ (t : Tenant). t.tenant_id) (with_database_status ready migrated.registry)) ≤ 1
unfolding provisioning_program
one_ready i = ground arith

upgrade_all_example :
    (map (λ (o : MigrationOutcome). o.tenant_id) (upgrade_all sound admin show migrated).0
      ≡ map (λ (t : Tenant). t.tenant_id) (with_database_status ready migrated.registry))
    × All
        (Agrees sound admin show (upgrade_all sound admin show migrated).1.registry)
        (upgrade_all sound admin show migrated).0
    × ((id : Uuid)
        → contains id
            (map (λ (t : Tenant). t.tenant_id) (with_database_status ready migrated.registry))
          ≡ false
        → get_tenant (upgrade_all sound admin show migrated).1.registry id
          ≡ get_tenant migrated.registry id)
upgrade_all_example = upgrade_all_lem sound admin show migrated one_ready

abbrev erp_name : String
erp_name = "erp_t_7"

safe_iff_example : (safe erp_name ≡ ok erp_name) ↔ ((erp_name ≡ erp_name) × IsIdentifier erp_name)
safe_iff_example = safe_iff erp_name erp_name

prefix-IsIdentifier : IsIdentifier locator.prefix
unfolding ℕ_discrete
prefix-IsIdentifier = record {
  starts = refl;
  words = (refl, (refl, (refl, (refl, (refl, (refl, tt))))));
  short = omega arith;
}

database_name_total_example :
    (database_name locator 7 ≡ ok (concat "erp_t_" (hex 7)))
    × IsIdentifier (concat "erp_t_" (hex 7))
    × (char_count (concat "erp_t_" (hex 7)) ≡ char_count "erp_t_" + 32)
database_name_total_example = database_name_total locator prefix-IsIdentifier 7 (omega arith)

database_name_injective_example : ◌≡◌ {A = ℕ} 7 7
database_name_injective_example =
    database_name_injective locator prefix-IsIdentifier 7 7 (concat "erp_t_" (hex 7)) (omega arith)
      (omega arith) (database_name_total locator prefix-IsIdentifier 7 (omega arith)).0
      (database_name_total locator prefix-IsIdentifier 7 (omega arith)).0
