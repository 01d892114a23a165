-- ===== src/Examples/ModuleState.antt =====
-- Modules of tenants, as in backend/tests/platform/test_module_state.py, over the catalogue of
-- Examples/Modules.
use karmevo_erp.Core.Modules.{dependents}
use karmevo_erp.Core.Modules.Dependencies.{Reaches, direct, dependents_lem}
use karmevo_erp.Examples.Modules.{catalogue_program, catalogue, catalogue-IsCatalogue}
use karmevo_erp.Platform.Registry.{
  Tenant, Registry, active, ready, lock, enabled_keys, set_enabled, upsert,
}
use karmevo_erp.Platform.ModuleState.{
  enabled_in, lock_tenant, upsert_all, require, enable, enable_block, enable_missing, disable,
  disable_block,
}
use karmevo_erp.Platform.ModuleState.Enabled.{is_on, stored}
use karmevo_erp.Platform.ModuleState.Effects.{
  IsEnabling, IsDisabling, enable_lem, disable_lem, is_on-installed,
}
use karmevo_erp.Platform.ModuleState.Closed.{
  Change, enabling, disabling, change_all, IsClosed, change_all-IsClosed, fresh-IsClosed,
}
use karmevo_erp.Platform.ModuleState.Refinement.{Runs, view, successes, change_all-Runs}
use karmevo_erp.Platform.ModuleState.Guards.{
  Refuses, require_lem, enable-Refuses, enable_total, disable-Refuses, disable_total,
}
use karmevo_erp.Prelude.{
  String, true, false, List, [], ◌∷◌, none, ◌≡◌, refl, any, ok, inr, contains, string_key,
  string_dec, keys, leb, All-contains, ok-injective, sym, ◌∙◌,
}
use Prim.Native.String.{count as char_count}
use mathlib.Core.Bool.{false≢true}
use native.Mathlib.Decide.{ℕ_discrete}

abbrev acme : Tenant
acme = record {
  tenant_id = 7;
  account_number = "acme";
  tenant_name = "Acme";
  tenant_status = active;
  database_server = "db1";
  database_name = "tenant_acme";
  database_status = ready;
  schema_revision = none;
  last_migration_error = none;
}

abbrev new_registry : Registry
new_registry = record {
  tenants = acme ∷ [];
  identities = [];
  memberships = [];
  tenant_modules = [];
}

-- Opens all that a change of modules goes through.
unfoldable pub module_program : Unit {0}
unfolding catalogue_program enabled_in lock_tenant lock upsert_all upsert set_enabled enabled_keys
    require enable enable_block enable_missing disable disable_block any is_on stored ℕ_discrete
module_program = tt

abbrev selling : Registry
selling = (enable catalogue 5 7 "sales" true new_registry).1

abbrev stocked : Registry
stocked = (disable catalogue 6 7 "sales" selling).1

enabled_sales :
    enable catalogue 5 7 "sales" true new_registry
    ≡ (ok ("catalog" ∷ "inventory" ∷ "sales" ∷ []), selling)
unfolding module_program
enabled_sales = refl

disabled_sales : disable catalogue 6 7 "sales" selling ≡ (ok tt, stocked)
unfolding module_program
disabled_sales = refl

enable_example :
    IsEnabling catalogue 7 "sales" new_registry selling ("catalog" ∷ "inventory" ∷ "sales" ∷ [])
enable_example =
    enable_lem catalogue catalogue-IsCatalogue 5 7 "sales" new_registry selling true
      ("catalog" ∷ "inventory" ∷ "sales" ∷ []) enabled_sales

disable_example : IsDisabling catalogue 7 "sales" selling stocked
disable_example =
    disable_lem catalogue catalogue-IsCatalogue 6 7 "sales" selling stocked disabled_sales

new-IsClosed : IsClosed catalogue new_registry
new-IsClosed = fresh-IsClosed catalogue catalogue-IsCatalogue new_registry refl

abbrev calls : List Change
calls =
    enabling 1 7 "pos" false
    ∷ enabling 2 7 "sales" true
    ∷ disabling 3 7 "inventory"
    ∷ enabling 4 7 "pos" false
    ∷ disabling 5 7 "pos"
    ∷ []

change_all-IsClosed_example : IsClosed catalogue (change_all catalogue calls new_registry)
change_all-IsClosed_example =
    change_all-IsClosed catalogue catalogue-IsCatalogue calls new_registry
      (fresh-IsClosed catalogue catalogue-IsCatalogue new_registry refl)

require_example : require catalogue 7 "sales" selling ≡ ok tt
unfolding module_program
require_example = require_lem catalogue catalogue-IsCatalogue 7 "sales" selling refl

enable-Refuses_example :
    Refuses 409 "MODULE_CHANGE_REJECTED" (enable catalogue 1 7 "inventory" false new_registry).0
    × ((enable catalogue 1 7 "inventory" false new_registry).1 ≡ new_registry)
unfolding module_program
enable-Refuses_example =
    enable-Refuses catalogue catalogue-IsCatalogue 7 "inventory" new_registry 1 refl refl "catalog"
      (direct "catalog" refl) refl

enable_total_example :
    (newly : List String) × (db' : Registry) × (enable catalogue 1 7 "pos" true new_registry
      ≡ (ok newly, db'))
unfolding module_program
enable_total_example =
    enable_total catalogue catalogue-IsCatalogue 7 "pos" new_registry 1 refl refl (λ k h.
      All-contains (λ j. leb (char_count j) 64 ≡ true) k (keys catalogue.modules)
        (refl, (refl, (refl, (refl, (refl, tt))))) h)

disable-Refuses_example :
    Refuses 409 "MODULE_CHANGE_REJECTED" (disable catalogue 6 7 "inventory" selling).0
    × ((disable catalogue 6 7 "inventory" selling).1 ≡ selling)
unfolding module_program
disable-Refuses_example =
    disable-Refuses catalogue catalogue-IsCatalogue 7 "inventory" selling 6 refl refl
      (inr ("sales", refl, direct "inventory" refl))

nothing_above_pos : dependents catalogue "pos" ≡ ok []
unfolding module_program
nothing_above_pos = refl

none_above_pos :
    (k : String)
    → is_on catalogue 7 k selling.tenant_modules ≡ true
    → ¬ Reaches catalogue.modules k "pos"
unfolding contains string_dec
none_above_pos k on r =
    let (ds, ok_ds, exact) = dependents_lem catalogue catalogue-IsCatalogue "pos" refl in
    let none : ds ≡ [] = ok-injective (sym ok_ds ∙ nothing_above_pos) in
    let there =
      is_on-installed catalogue catalogue-IsCatalogue 6 7 "pos" selling selling
        selling.tenant_modules k on in
    false≢true (rw none at (exact k).1 (there, r))

disable_total_example : (db' : Registry) × (disable catalogue 6 7 "pos" selling ≡ (ok tt, db'))
unfolding module_program
disable_total_example =
    disable_total catalogue catalogue-IsCatalogue 7 "pos" selling 6 refl refl refl refl
      none_above_pos

change_all-Runs_example :
    Runs catalogue
      (view catalogue new_registry)
      calls
      (successes catalogue calls new_registry)
      (view catalogue (change_all catalogue calls new_registry))
change_all-Runs_example = change_all-Runs catalogue catalogue-IsCatalogue calls new_registry
