-- ===== src/Core/Modules/Acceptance.antt =====
-- Manifests without a fault make a catalogue.
use karmevo_erp.Core.Modules.{
  ModuleManifest, ModuleCatalog, CatalogError, duplicate_key, unknown_module, key_error,
  fuel_exhausted, unknown_dependency, core_on_optional, dependency_cycle, construct,
}
use karmevo_erp.Core.Modules.Catalogue.{IsCatalogue}
use karmevo_erp.Core.Modules.Faults.{given_keys, IsFault, construct-Outcome}
use karmevo_erp.Prelude.{
  ℕ, zero, suc, ◌≤◌, ◌<◌, String, true, List, [], ◌∷◌, ◌≡◌, arith, contains, count, Any, All,
  All-contains, All-and-Any, Result, ok, raise, Outcome, string_key, refl,
}

-- Manifests that may be installed together: `rank` shows that there is no cycle.
pub record IsInstallable (rank : String → ℕ) (ms : List ModuleManifest) : Type 0 where
  pub distinct : (k : String) → count k (given_keys ms) ≤ 1
  pub known :
      All
        (λ m. (d : String) → contains d m.depends_on ≡ true → contains d (given_keys ms) ≡ true)
        ms
  pub core_on_core :
      All
        (λ m.
          m.core ≡ true
          → (d : String) → contains d m.depends_on ≡ true
          → All (λ n. n.key ≡ d → n.core ≡ true) ms)
        ms
  pub ranked : All (λ m. (d : String) → contains d m.depends_on ≡ true → rank d < rank m.key) ms

no_descent :
    (rank : String → ℕ) (ks : List String) (bound : ℕ) (k : String)
    → All (λ j. (d : String) × (rank d < rank j) × (contains d ks ≡ true)) ks
    → contains k ks ≡ true
    → rank k < bound
    → ⊥
no_descent rank ks zero k h c lt = omega arith
no_descent rank ks (suc bound) k h c lt =
    let (d, less, there) =
      All-contains (λ j. (d : String) × (rank d < rank j) × (contains d ks ≡ true)) k ks h c in
    no_descent rank ks bound d h there (omega (arith, less, lt))

contains-head : (k : String) (ks : List String) → contains k (k ∷ ks) ≡ true
unfolding contains
contains-head k ks = ground arith

module _ (rank : String → ℕ) (ms : List ModuleManifest) (ok_to : IsInstallable rank ms) where
  descents :
      (ks js : List String)
      → All
          (λ k.
            (d : String) × Any (λ m. (m.key ≡ k) × (contains d m.depends_on ≡ true)) ms
            × (contains d ks ≡ true))
          js
      → All (λ k. (d : String) × (rank d < rank k) × (contains d ks ≡ true)) js
  descents ks [] h = tt
  descents ks (j ∷ js) h = (
    let (d, declared, there) = h.0 in
        let (m, lower, is_j) = All-and-Any _ _ ms ok_to.ranked declared in
        (d, rw (← is_j.0) (lower d is_j.1), there),
    descents ks js h.1,
  )

  no_fault : (e : CatalogError) → IsFault ms e → ⊥
  no_fault (duplicate_key k) f = omega (arith, f, ok_to.distinct k)
  no_fault (unknown_module k) f = f
  no_fault (key_error k) f = f
  no_fault fuel_exhausted f = f
  no_fault (unknown_dependency k d) (declared, absent) =
      let (m, known, declares) = All-and-Any _ _ ms ok_to.known declared in
      ground (arith, absent, known d declares.1)
  no_fault (core_on_optional k d) (core, optional) =
      let (m, rule, declares) = All-and-Any _ _ ms ok_to.core_on_core core in
      let (n, core_n, is_d) = All-and-Any _ _ ms (rule declares.1 d declares.2) optional in
      ground (arith, core_n is_d.0, is_d.1)
  no_fault (dependency_cycle []) (some_left, group) = some_left refl
  no_fault (dependency_cycle (k ∷ ks)) (some_left, group) =
      no_descent rank (k ∷ ks) (suc (rank k)) k (descents (k ∷ ks) (k ∷ ks) group)
        (contains-head k ks) (omega arith)

  accepted :
      (r : Result CatalogError ModuleCatalog)
      → Outcome IsCatalogue (IsFault ms) r
      → (c : ModuleCatalog) × (r ≡ ok c) × IsCatalogue c
  accepted (ok c) h = (c, refl, h)
  accepted (raise e) h = absurd (no_fault e h)

-- Manifests with distinct keys, whose dependencies are all among them, whose core modules depend on
-- core modules only, and whose dependencies can be ranked below them, are accepted.
pub construct-accepts :
    (rank : String → ℕ) (ms : List ModuleManifest)
    → IsInstallable rank ms
    → (c : ModuleCatalog) × (construct ms ≡ ok c) × IsCatalogue c
construct-accepts rank ms h = accepted rank ms h (construct ms) (construct-Outcome ms)
