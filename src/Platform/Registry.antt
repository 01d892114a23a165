-- ===== src/Platform/Registry.antt =====
-- The registry database: the tables of backend/src/erp/modules/platform/registry_models.py and the
-- queries of registry_repository.py. A table is the list of its rows, a query is what it selects.
-- Row-level security follows backend/src/erp/core/rls.py and the registry migrations: a row of
-- "TenantModules" is seen and written only in the context of its tenant, a row of "Memberships"
-- is seen also in the context of its identity.
use Prim.Native.String.{count as char_count}
use karmevo_erp.Core.Errors.{DomainError}
use karmevo_erp.Core.Modules.{CatalogError}
use karmevo_erp.Prelude.{
  not, ◌||◌, string_key, keep, true, sort_by, ℕ, String, Bool, false, ◌&&◌, List, [], ◌∷◌, ◌++◌,
  map, Option, none, some, nat_key, string_key, if◌then◌else◌, ◌==◌, any, find_first, leb, Result,
  ok, raise,
}

abbrev pub Uuid : Type 0
Uuid = ℕ

pub data TenantStatus : Type 0 where
  active suspended : TenantStatus

pub data DatabaseStatus : Type 0 where
  provisioning ready failed : DatabaseStatus

pub data MembershipKind : Type 0 where
  staff buyer service : MembershipKind

pub data MembershipStatus : Type 0 where
  active suspended : MembershipStatus

pub record Tenant : Type 0 where
  pub tenant_id : Uuid
  pub account_number : String
  pub tenant_name : String
  pub tenant_status : TenantStatus
  pub database_server : String
  pub database_name : String
  pub database_status : DatabaseStatus
  pub schema_revision : Option String
  pub last_migration_error : Option String

pub record Identity : Type 0 where
  pub identity_id : Uuid
  pub issuer : String
  pub subject : String

pub record Membership : Type 0 where
  pub membership_id : Uuid
  pub tenant_id : Uuid
  pub identity_id : Uuid
  pub membership_kind : MembershipKind
  pub membership_status : MembershipStatus

pub record TenantModule : Type 0 where
  pub tenant_id : Uuid
  pub module_key : String
  pub is_enabled : Bool
  pub changed_at : ℕ

pub record Registry : Type 0 where
  pub tenants : List Tenant
  pub identities : List Identity
  pub memberships : List Membership
  pub tenant_modules : List TenantModule

-- What the statements of the platform may raise.
pub data Failure : Type 0 where
  domain : DomainError → Failure
  catalog : CatalogError → Failure
  value_error database_error missing_database : String → Failure

-- The transaction-local settings `app.tenant_id` and `app.identity_id`.
pub record Context : Type 0 where
  pub tenant : Option Uuid
  pub identity : Option Uuid

-- `Database.tenant_session` and `Database.platform_session`
abbrev pub tenant_session : Uuid → Context
tenant_session tenant_id = record { tenant = some tenant_id; identity = none }

abbrev pub platform_session : Option Uuid → Context
platform_session identity_id = record { tenant = none; identity = identity_id }

-- `column = nullif(current_setting(…), '')::uuid`, with no context never true
abbrev pub is_context : Option Uuid → Uuid → Bool
is_context none id = false
is_context (some current) id = id == current

-- The block of a session is one transaction: what it wrote is kept if it returns, and undone if it
-- raises.
abbrev pub transaction : {S A : Type 0} → S → Result Failure (A × S) → Result Failure A × S
transaction before (ok (a, after)) = (ok a, after)
transaction before (raise e) = (raise e, before)

-- TenantRepository

unfoldable pub get_tenant : Registry → Uuid → Option Tenant
get_tenant db tenant_id = find_first (λ t. t.tenant_id == tenant_id) db.tenants

-- `lock`: whether there is a row to lock
unfoldable pub lock : Registry → Uuid → Bool
lock db tenant_id = any (λ t. t.tenant_id == tenant_id) db.tenants

-- TenantModuleRepository

-- `enabled_keys`
unfoldable pub enabled_keys : Context → Uuid → List TenantModule → List String
enabled_keys ctx tenant_id [] = []
enabled_keys ctx tenant_id (r ∷ rows) =
    if is_context ctx.tenant r.tenant_id && r.tenant_id == tenant_id && r.is_enabled
    then r.module_key ∷ enabled_keys ctx tenant_id rows
    else enabled_keys ctx tenant_id rows

-- The rows after the statement of `upsert`, if it is allowed: the row of the primary key
-- ("tenantId", "moduleKey") is changed if there is one, and added otherwise.
unfoldable pub set_enabled : Uuid → String → Bool → ℕ → List TenantModule → List TenantModule
set_enabled tenant_id key is_enabled now rows =
    if any (λ r. r.tenant_id == tenant_id && r.module_key == key) rows
    then map
        (λ r.
          if r.tenant_id == tenant_id && r.module_key == key
          then record r { is_enabled = is_enabled; changed_at = now }
          else r)
        rows
    else rows
      ++ record {
        tenant_id = tenant_id;
        module_key = key;
        is_enabled = is_enabled;
        changed_at = now;
      }
        ∷ []

-- `upsert`, under the policy's WITH CHECK and the width of the column "moduleKey".
unfoldable pub upsert :
    Context → ℕ → Uuid → String → Bool → List TenantModule → Result Failure (List TenantModule)
upsert ctx now tenant_id key is_enabled rows =
    if is_context ctx.tenant tenant_id
    then (if leb (char_count key) 64
        then ok (set_enabled tenant_id key is_enabled now rows)
        else raise (database_error "value too long"))
    else raise (database_error "row-level security")

-- The rest of TenantRepository

abbrev pub same_status : DatabaseStatus → DatabaseStatus → Bool
same_status provisioning provisioning = true
same_status ready ready = true
same_status failed failed = true
same_status _ _ = false

-- `with_database_status`
unfoldable pub with_database_status : DatabaseStatus → Registry → List Tenant
with_database_status status db =
    sort_by (λ (a : Tenant) (b : Tenant). leb a.tenant_id b.tenant_id)
      (keep (λ (t : Tenant). same_status t.database_status status) db.tenants)

-- `record_database_state`
unfoldable pub record_database_state :
    Uuid → DatabaseStatus → (revision error : Option String) → Registry → Registry
record_database_state tenant_id status revision error db = record db {
  tenants =
      map
        (λ (t : Tenant).
          if t.tenant_id == tenant_id
          then record t {
            database_status = status;
            last_migration_error = error;
            schema_revision = (elim revision [ none ↦ t.schema_revision | some r ↦ some r ]);
          }
          else t)
        db.tenants;
}

-- The row that `Tenant(…)` is with the defaults of its columns, and `add`: the keys are unique and the
-- texts fit.
unfoldable pub add : Tenant → Registry → Result Failure Registry
add tenant db =
    if any
      (λ (t : Tenant).
        t.tenant_id == tenant.tenant_id
        || t.account_number == tenant.account_number
        || t.database_name == tenant.database_name)
      db.tenants
    then raise (database_error "duplicate key")
    else if not (
        leb (char_count tenant.account_number) 32
        && leb (char_count tenant.tenant_name) 200
        && leb (char_count tenant.database_server) 64
        && leb (char_count tenant.database_name) 63)
    then raise (database_error "value too long")
    else ok (record db { tenants = db.tenants ++ tenant ∷ [] })
