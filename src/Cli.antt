-- ===== src/Cli.antt =====
-- backend/src/erp/cli.py: the operator's commands. argparse makes a `Command` of the arguments; `show`
-- prints a UUID and `describe_error` the error of a refused change, `str(exc)`. What a run prints and
-- its exit code are a value. `finally: registry.dispose()` closes connections, which have no state
-- here.
pub mod Exits
use Prim.Native.String.{◌++◌ as concat}
use karmevo_erp.Core.Modules.{ModuleCatalog, CatalogError}
use karmevo_erp.Platform.ModuleState.{enable, disable, join}
use karmevo_erp.Platform.Provisioning.{MigrationOutcome, provision, upgrade_all}
use karmevo_erp.Platform.Registry.{
  Uuid, Registry, Failure, domain, catalog, value_error, database_error, missing_database,
}
use karmevo_erp.Platform.Servers.{Outside, Trouble, World}
use karmevo_erp.Platform.Servers.Commands.{Admin}
use karmevo_erp.Prelude.{
  ℕ, String, Bool, true, false, List, [], ◌∷◌, map, Option, none, some, if◌then◌else◌, any, Result,
  ok, raise,
}

pub data Command : Type 0 where
  provision_tenant : (account_number name : String) → Command
  upgrade_tenants : Command
  enable_module : (tenant : Uuid) (module_key : String) (with_dependencies : Bool) → Command
  disable_module : (tenant : Uuid) (module_key : String) → Command

pub record Exit : Type 0 where
  pub code : ℕ
  pub out : List String
  pub err : List String

-- What leaves `run` as an exception.
pub data CliError : Type 0 where
  provisioning_failed : Trouble → CliError
  catalog_failed : CatalogError → CliError
  change_failed : Failure → CliError

-- `x or y` of texts
abbrev pub text_or : String → String → String
text_or String.[] other = other
text_or (String.◌∷◌ c s) other = String.◌∷◌ c s

abbrev pub text_of : Option String → String
text_of none = "None"
text_of (some s) = s

-- A text as a condition
abbrev pub is_text : String → Bool
is_text String.[] = false
is_text (String.◌∷◌ c s) = true

-- `o.error` as a condition
abbrev pub is_failure : MigrationOutcome → Bool
is_failure o = elim o.error [ none ↦ false | some s ↦ is_text s ]

-- `outcome.revision or f"FAILED {outcome.error}"`
abbrev pub result_of : MigrationOutcome → String
result_of o = elim o.revision [
  | none ↦ concat "FAILED " (text_of o.error)
  | some revision ↦ text_or revision (concat "FAILED " (text_of o.error))
]

-- `_upgrade`, from what `upgrade_all` returns
unfoldable pub upgrade_exit : (show : Uuid → String) → List MigrationOutcome → Exit
upgrade_exit show outcomes = record {
  code = (if any is_failure outcomes then 1 else 0);
  out =
      map (λ (o : MigrationOutcome). concat (show o.tenant_id) (concat " " (result_of o))) outcomes;
  err = [];
}

-- The errors that `_change_module` turns into an exit code.
abbrev pub is_refusal : Failure → Bool
is_refusal (domain e) = true
is_refusal (catalog e) = true
is_refusal (value_error s) = false
is_refusal (database_error s) = false
is_refusal (missing_database s) = false

abbrev pub printed : String → Exit
printed line = record { code = 0; out = line ∷ []; err = [] }

-- What `run` prints of a new tenant.
abbrev pub provisioned :
    (show : Uuid → String) → Result Trouble Uuid × World → Result CliError Exit × World
provisioned show (ok tenant_id, w) = (ok (printed (show tenant_id)), w)
provisioned show (raise e, w) = (raise (provisioning_failed e), w)

abbrev pub with_catalog :
    Result CatalogError ModuleCatalog
    → World
    → (ModuleCatalog → Result CliError Exit × World)
    → Result CliError Exit × World
with_catalog (ok cat) w next = next cat
with_catalog (raise e) w next = (raise (catalog_failed e), w)

module _ (describe_error : Failure → String) where
  -- The `try` of `_change_module`: what it prints if the change succeeds, and the `except`.
  unfoldable pub changed :
      {A : Type 0}
      → (A → String)
      → World
      → Result Failure A × Registry
      → Result CliError Exit × World
  changed line w (ok a, db) = (ok (printed (line a)), record w { registry = db })
  changed line w (raise e, db) = (
    (if is_refusal e
        then ok (record { code = 2; out = []; err = describe_error e ∷ [] })
        else raise (change_failed e)),
    record w { registry = db },
  )

  unfoldable pub enable_from :
      ModuleCatalog → ℕ → Uuid → String → Bool → World → Result CliError Exit × World
  unfolding changed
  enable_from cat now tenant module_key with_dependencies w =
      changed (λ names. concat "enabled: " (text_or (join names) "nothing new")) w
        (enable cat now tenant module_key with_dependencies w.registry)

  unfoldable pub disable_from :
      ModuleCatalog → ℕ → Uuid → String → World → Result CliError Exit × World
  unfolding changed
  disable_from cat now tenant module_key w =
      changed (λ _. concat "disabled: " module_key) w (disable cat now tenant module_key w.registry)

  -- `run`, where `installed` is `InstalledModules.catalog()`
  module _ (out : Outside) (admin : Admin) (show : Uuid → String)
      (installed : Result CatalogError ModuleCatalog) (new_id : Uuid) (now : ℕ) where
    unfoldable pub run_command : Command → World → Result CliError Exit × World
    unfolding upgrade_exit enable_from disable_from
    run_command (provision_tenant account_number name) w =
        provisioned show (provision out admin show new_id "default" account_number name w)
    run_command upgrade_tenants w =
        let (outcomes, w') = upgrade_all out admin show w in (ok (upgrade_exit show outcomes), w')
    run_command (enable_module tenant module_key with_dependencies) w =
        with_catalog installed w (λ cat. enable_from cat now tenant module_key with_dependencies w)
    run_command (disable_module tenant module_key) w =
        with_catalog installed w (λ cat. disable_from cat now tenant module_key w)
