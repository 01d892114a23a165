-- ===== src/Examples/Modules.antt =====
-- The catalogue of backend/tests/core/test_modules.py.
use karmevo_erp.Core.Modules.{
  ModuleManifest, ModuleCatalog, duplicate_key, unknown_dependency, dependency_cycle,
  core_on_optional, construct, dependencies, dependents, get, at_key, index_manifests,
  validate_dependencies, validate_all, topological_order, order_loop, after_round, ready, unblocked,
  delete_all, difference_update, difference, dependency_sets, collect, edges, dependents_among,
  iterate, iterate_from, core_keys,
}
use karmevo_erp.Core.Modules.Order.{deps_of}
use karmevo_erp.Core.Modules.Catalogue.{IsCatalogue, construct-IsCatalogue}
use karmevo_erp.Core.Modules.Faults.{IsFault, construct-Outcome}
use karmevo_erp.Core.Modules.Acceptance.{IsInstallable, construct-accepts}
use karmevo_erp.Core.Modules.Dependencies.{
  Reaches, IsDependencies, dependencies_lem, dependents_lem,
}
use karmevo_erp.Prelude.{
  String, Bool, true, false, List, [], ◌∷◌, ◌≡◌, ◌↔◌, refl, contains, count, keep, lookup, put,
  delete, insert_by, sort_by, string_dec, keys, ok, raise, Outcome, arith, ℕ, ite, ◌≢◌, string_key,
}
use mathlib.Core.Bool.{false≢true}
use text.Mathlib.TextEquality.{eq_iff}

-- Opens all that a run of the catalogue goes through.
unfoldable pub catalogue_program : Unit {0}
unfolding construct index_manifests validate_dependencies validate_all topological_order order_loop
    after_round ready unblocked delete_all difference_update difference dependency_sets contains
    keep lookup put delete insert_by sort_by string_dec dependencies dependents get at_key collect
    edges dependents_among iterate iterate_from core_keys count deps_of
catalogue_program = tt

abbrev pub manifest : String → List String → Bool → ModuleManifest
manifest key depends_on core = record {
  key = key;
  name = key;
  depends_on = depends_on;
  core = core;
  controllers = [];
}

abbrev pub manifests : List ModuleManifest
manifests =
    manifest "platform" [] true
    ∷ manifest "sales" ("inventory" ∷ "catalog" ∷ []) false
    ∷ manifest "inventory" ("catalog" ∷ []) false
    ∷ manifest "catalog" ("platform" ∷ []) false
    ∷ manifest "pos" ("sales" ∷ []) false
    ∷ []

abbrev pub catalogue : ModuleCatalog
catalogue = record {
  modules =
      ("platform", manifest "platform" [] true)
      ∷ ("sales", manifest "sales" ("inventory" ∷ "catalog" ∷ []) false)
      ∷ ("inventory", manifest "inventory" ("catalog" ∷ []) false)
      ∷ ("catalog", manifest "catalog" ("platform" ∷ []) false)
      ∷ ("pos", manifest "pos" ("sales" ∷ []) false)
      ∷ [];
  order = "platform" ∷ "catalog" ∷ "inventory" ∷ "sales" ∷ "pos" ∷ [];
}

pub built : construct manifests ≡ ok catalogue
unfolding catalogue_program
built = refl

dependencies-pos :
    dependencies catalogue "pos" ≡ ok ("platform" ∷ "catalog" ∷ "inventory" ∷ "sales" ∷ [])
unfolding catalogue_program
dependencies-pos = refl

dependents-inventory : dependents catalogue "inventory" ≡ ok ("sales" ∷ "pos" ∷ [])
unfolding catalogue_program
dependents-inventory = refl

construct_cycle :
    construct (manifest "a" ("b" ∷ []) false ∷ manifest "b" ("a" ∷ []) false ∷ [])
    ≡ raise (dependency_cycle ("a" ∷ "b" ∷ []))
unfolding catalogue_program
construct_cycle = refl

construct_faults :
    (construct (manifest "a" [] false ∷ manifest "a" [] false ∷ []) ≡ raise (duplicate_key "a"))
    × (construct (manifest "sales" ("inventory" ∷ []) false ∷ [])
        ≡ raise (unknown_dependency "sales" "inventory"))
    × (construct (manifest "sales" [] false ∷ manifest "platform" ("sales" ∷ []) true ∷ [])
        ≡ raise (core_on_optional "platform" "sales"))
unfolding catalogue_program
construct_faults = (refl, refl, refl)

construct-IsCatalogue_example : IsCatalogue catalogue
construct-IsCatalogue_example = construct-IsCatalogue manifests catalogue built

construct-Outcome_example : Outcome IsCatalogue (IsFault manifests) (construct manifests)
construct-Outcome_example = construct-Outcome manifests

abbrev rank : String → ℕ
rank k = ite (string_dec k "sales") 1 0

abbrev pair : List ModuleManifest
pair = manifest "sales" ("catalog" ∷ []) false ∷ manifest "catalog" [] false ∷ []

two_names : ◌≢◌ {A = String} "catalog" "sales"
two_names e = false≢true ((eq_iff "catalog" "sales").1 e)

only_catalog : (d : String) → contains d ("catalog" ∷ []) ≡ true → d ≡ "catalog"
unfolding contains
only_catalog d h = ground arith

pair-IsInstallable : IsInstallable rank pair
unfolding contains count
pair-IsInstallable = record {
  distinct = λ k. ground (arith, two_names);
  known = (λ d h. ground (arith, h), (λ d h. cc h, tt));
  core_on_core = (λ h. cc h, (λ h. cc h, tt));
  ranked = (λ d h. ground (arith, only_catalog d h, two_names), (λ d h. cc h, tt));
}

construct-accepts_example : (c : ModuleCatalog) × (construct pair ≡ ok c) × IsCatalogue c
construct-accepts_example = construct-accepts rank pair pair-IsInstallable

pub catalogue-IsCatalogue : IsCatalogue catalogue
catalogue-IsCatalogue = construct-IsCatalogue manifests catalogue built

dependencies_example :
    (ds : List String) × (dependencies catalogue "pos" ≡ ok ds)
    × IsDependencies catalogue catalogue-IsCatalogue "pos" ds
unfolding contains string_dec
dependencies_example = dependencies_lem catalogue catalogue-IsCatalogue "pos" refl

dependents_example :
    (ds : List String) × (dependents catalogue "inventory" ≡ ok ds)
    × ((x : String)
        → (contains x ds ≡ true) ↔ (
            (contains x (keys catalogue.modules) ≡ true) × Reaches catalogue.modules x "inventory"))
unfolding contains string_dec
dependents_example = dependents_lem catalogue catalogue-IsCatalogue "inventory" refl
