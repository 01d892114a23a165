-- ===== src/Platform/ModuleState.antt =====
-- backend/src/erp/modules/platform/module_state.py: the modules that each tenant has enabled.
-- A method is a transaction on the registry: it returns its result and the registry after it.
-- `now` is the `func.now()` of the database. The row lock of `_lock` keeps the changes of one
-- tenant from overlapping, so a method runs as one step.
pub mod Enabled
pub mod Changes
pub mod Effects
pub mod Closed
pub mod Guards
pub mod Refinement
use Prim.Native.String.{◌++◌ as concat}
use karmevo_erp.Core.Errors.{
  DomainError, ErrorClass, forbidden_error, conflict_error, not_found_error, error_of, error_with,
}
use karmevo_erp.Core.Modules.{
  ModuleManifest, ModuleCatalog, CatalogError, get, iterate, core_keys, dependencies, dependents,
}
use karmevo_erp.Platform.Registry.{
  Uuid, Registry, TenantModule, Failure, domain, catalog, Context, tenant_session, transaction,
  lock, enabled_keys, upsert,
}
use karmevo_erp.Prelude.{
  ℕ, String, Bool, true, false, not, ◌&&◌, List, [], ◌∷◌, ◌++◌, map, some, none, if◌then◌else◌,
  contains, keep, string_key, Result, ok, raise, ◌>>=◌, ◌>>◌,
}

abbrev pub module_disabled_error : ErrorClass
module_disabled_error = record forbidden_error { code = "MODULE_DISABLED" }

abbrev pub module_change_rejected_error : ErrorClass
module_change_rejected_error = record conflict_error { code = "MODULE_CHANGE_REJECTED" }

abbrev pub in_catalog : {A : Type 0} → Result CatalogError A → Result Failure A
in_catalog (ok a) = ok a
in_catalog (raise e) = raise (catalog e)

abbrev pub reject : {A : Type 0} → ErrorClass → String → Result Failure A
reject cls detail = raise (domain (error_of cls detail))

-- `", ".join(names)`
unfoldable pub join : List String → String
join [] = ""
join (x ∷ []) = x
join (x ∷ y ∷ xs) = concat x (concat ", " (join (y ∷ xs)))

abbrev pub is_nil : List String → Bool
is_nil [] = true
is_nil (x ∷ xs) = false

-- `_enabled`
unfoldable pub enabled_in : ModuleCatalog → Context → Uuid → Registry → Result Failure (List String)
enabled_in cat ctx tenant_id db = do
  manifests ← in_catalog (iterate cat)
  let installed = map (λ (m : ModuleManifest). m.key) manifests
  let stored = enabled_keys ctx tenant_id db.tenant_modules
  ok (core_keys cat ++ keep (λ k. contains k installed) stored)

-- `_lock`
unfoldable pub lock_tenant : Uuid → Registry → Result Failure (Unit {0})
lock_tenant tenant_id db =
    if lock db tenant_id
    then ok tt
    else raise (domain (error_with not_found_error "unknown tenant" (some "TENANT_NOT_FOUND")))

-- `for module_key in newly_enabled: modules.upsert(…, is_enabled=True)`
unfoldable pub upsert_all :
    Context → ℕ → Uuid → List String → List TenantModule → Result Failure (List TenantModule)
upsert_all ctx now tenant_id [] rows = ok rows
upsert_all ctx now tenant_id (k ∷ ks) rows = do
  rows' ← upsert ctx now tenant_id k true rows
  upsert_all ctx now tenant_id ks rows'

module _ (cat : ModuleCatalog) where
  unfoldable pub enabled : Uuid → Registry → Result Failure (List String)
  unfolding enabled_in
  enabled tenant_id db = enabled_in cat (tenant_session tenant_id) tenant_id db

  unfoldable pub require : Uuid → String → Registry → Result Failure (Unit {0})
  unfolding enabled
  require tenant_id key db = do
    current ← enabled tenant_id db
    if contains key current then ok tt else do
      m ← in_catalog (get cat key)
      reject module_disabled_error
          (concat "the " (concat m.name " module is not enabled for this account"))

  -- The block of `enable` from the test of `missing` on.
  unfoldable pub enable_missing :
      ℕ
      → Uuid
      → String
      → Bool
      → Registry
      → (current needed : List String) → Result Failure (List String × Registry)
  enable_missing now tenant_id key with_dependencies db current needed =
      let missing = keep (λ d. not (contains d current)) needed in
      let newly_enabled = missing ++ (if contains key current then [] else key ∷ []) in
      if not (is_nil missing) && not with_dependencies
      then reject module_change_rejected_error
          (concat key (concat " requires " (concat (join missing) " to be enabled first")))
      else do
        rows ← upsert_all (tenant_session tenant_id) now tenant_id newly_enabled db.tenant_modules
        ok (newly_enabled, record db { tenant_modules = rows })

  -- The block of `enable` inside its transaction.
  unfoldable pub enable_block :
      ℕ → Uuid → String → Bool → Registry → Result Failure (List String × Registry)
  enable_block now tenant_id key with_dependencies db = do
    lock_tenant tenant_id db
    current ← enabled_in cat (tenant_session tenant_id) tenant_id db
    needed ← in_catalog (dependencies cat key)
    enable_missing now tenant_id key with_dependencies db current needed

  unfoldable pub enable :
      ℕ → Uuid → String → Bool → Registry → Result Failure (List String) × Registry
  unfolding enable_block enable_missing
  enable now tenant_id key with_dependencies db =
      transaction db
        (in_catalog (get cat key) >> enable_block now tenant_id key with_dependencies db)

  -- The block of `disable` inside its transaction.
  unfoldable pub disable_block : ℕ → Uuid → String → Registry → Result Failure (Unit {0} × Registry)
  disable_block now tenant_id key db = do
    let ctx = tenant_session tenant_id
    lock_tenant tenant_id db
    current ← enabled_in cat ctx tenant_id db
    above ← in_catalog (dependents cat key)
    let blocking = keep (λ d. contains d current) above
    if not (is_nil blocking)
        then reject module_change_rejected_error
            (concat "disable " (concat (join blocking) (concat " before " key)))
        else if contains key current
        then (do
          rows ← upsert ctx now tenant_id key false db.tenant_modules
          ok (tt, record db { tenant_modules = rows }))
        else ok (tt, db)

  unfoldable pub disable : ℕ → Uuid → String → Registry → Result Failure (Unit {0}) × Registry
  unfolding disable_block
  disable now tenant_id key db = transaction db (do
    m ← in_catalog (get cat key)
    if m.core
        then reject module_change_rejected_error
            (concat key " is a core module and cannot be disabled")
        else disable_block now tenant_id key db)
