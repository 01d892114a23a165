-- ===== src/Core/Modules/Faults.antt =====
-- Every error that `ModuleCatalog(manifests)` raises names a real fault of the manifests.
use karmevo_erp.Core.Modules.{
  ModuleManifest, CatalogError, duplicate_key, unknown_dependency, core_on_optional,
  dependency_cycle, unknown_module, key_error, fuel_exhausted, index_manifests,
  validate_dependencies, validate_all, topological_order, construct,
}
use karmevo_erp.Core.Modules.Order.{deps_of, topological_order-Ends, LoopInv}
use karmevo_erp.Core.Modules.Rounds.{Ends}
use karmevo_erp.Core.Modules.Catalogue.{
  IsCatalogue, IsIndexed, put-IsIndexed, IsIndexed-nil, validate_all-IsValidated, validated-closed,
  construct-IsCatalogue,
}
use karmevo_erp.Core.Modules.Cycles.{deadlocked}
use karmevo_erp.Prelude.{
  ◌+◌, ◌≤◌, String, Bool, true, false, not, List, [], ◌∷◌, map, ◌≡◌, ◌≢◌, some, none, arith,
  contains, count, All, Any, Any-map, All-Any, All-map, Dict, lookup, put, keys, values, string_key,
  refl, Result, ok, raise, Outcome, Outcome-bind, Bool-cases, Option-cases, inl, inr,
  count-keys-put, count-pos, All-put, All-lookup, contains_of-count, lookup_of-contains,
  All-of-contains, ◌&&◌, ap, if◌then◌else◌, sort_by, string_leb,
}

abbrev pub given_keys : List ModuleManifest → List String
given_keys = map (λ m. m.key)

module _ (ms : List ModuleManifest) where
  -- One of the manifests has the key `k` and declares `d`.
  abbrev pub Declares : String → String → Type 0
  Declares k d = Any (λ m. (m.key ≡ k) × (contains d m.depends_on ≡ true)) ms

  abbrev pub IsFault : CatalogError → Type 0
  IsFault (duplicate_key k) = 2 ≤ count k (given_keys ms)
  IsFault (unknown_dependency k d) = Declares k d × (contains d (given_keys ms) ≡ false)
  IsFault (core_on_optional k d) =
      Any (λ m. (m.key ≡ k) × (m.core ≡ true) × (contains d m.depends_on ≡ true)) ms
      × Any (λ n. (n.key ≡ d) × (n.core ≡ false)) ms
  IsFault (dependency_cycle ks) =
      (ks ≢ []) × All (λ k. (d : String) × Declares k d × (contains d ks ≡ true)) ks
  IsFault _ = ⊥

  abbrev Given : ModuleManifest → Type 0
  Given m = Any (λ n. n ≡ m) ms

  -- The dictionary after the first loop holds exactly the given manifests.
  record Holds (modules : Dict String ModuleManifest) (rest : List ModuleManifest) : Type 0 where
    indexed : IsIndexed modules
    given : All (λ x. Given x.1) modules
    counted :
        (k : String) → count k (keys modules) + count k (given_keys rest) ≡ count k (given_keys ms)

  Holds-put :
      (modules : Dict String ModuleManifest) (m : ModuleManifest) (rest : List ModuleManifest)
      → contains m.key (keys modules) ≡ false
      → Given m
      → Holds modules (m ∷ rest)
      → Holds (put m.key m modules) rest
  unfolding count
  Holds-put modules m rest new g h = record {
    indexed = put-IsIndexed modules m new h.indexed;
    given = All-put (λ x. Given x.1) m.key m modules g h.given;
    counted = λ k. ground (arith, h.counted k, count-keys-put m.key k m modules new);
  }

  index_manifests-Outcome :
      (modules : Dict String ModuleManifest) (rest : List ModuleManifest)
      → All Given rest
      → Holds modules rest
      → Outcome (λ out. Holds out []) IsFault (index_manifests modules rest)
  unfolding index_manifests contains
  index_manifests-Outcome modules [] g h = h
  index_manifests-Outcome modules (m ∷ rest) g h =
      elim (Bool-cases (contains m.key (keys modules))) [
        | inl old ↦ rw (old, index_manifests) (twice old)
        | inr new ↦
            rw (new, index_manifests)
              (index_manifests-Outcome (put m.key m modules) rest g.1
                (Holds-put modules m rest new g.0 h))
      ]
    where
      head_there : contains m.key (given_keys (m ∷ rest)) ≡ true
      head_there = ground arith

      twice : contains m.key (keys modules) ≡ true → 2 ≤ count m.key (given_keys ms)
      twice old = omega (
        arith,
        h.counted m.key,
        count-pos {K = String} m.key (given_keys (m ∷ rest)) head_there,
        count-pos {K = String} m.key (keys modules) old,
      )

  module _ (modules : Dict String ModuleManifest) (h : Holds modules []) where
    Given-lookup :
        (k : String) (m : ModuleManifest) → lookup k modules ≡ some m → Given m × (m.key ≡ k)
    Given-lookup k m found = (
      All-lookup (λ x. Given x.1) k m modules h.given found,
      All-lookup (λ x. x.1.key ≡ x.0) k m modules h.indexed.named found,
    )

    not_given : (d : String) → lookup d modules ≡ none → contains d (given_keys ms) ≡ false
    unfolding count
    not_given d missing = elim (Bool-cases (contains d (given_keys ms))) [
      | inl there ↦ absurd (
          ground (
            arith,
            missing,
            lookup_of-contains d modules (
                contains_of-count d (keys modules)
                  (omega (arith, h.counted d, count-pos {K = String} d (given_keys ms) there))),
          ))
      | inr absent ↦ absent
    ]

    validate_dependencies-Outcome :
        (m : ModuleManifest) (ds : List String)
        → Given m
        → All (λ d. contains d m.depends_on ≡ true) ds
        → Outcome (λ _. Unit {0}) IsFault (validate_dependencies modules m ds)
    unfolding validate_dependencies
    validate_dependencies-Outcome m [] g c = tt
    validate_dependencies-Outcome m (d ∷ ds) g c = elim (Option-cases (lookup d modules)) [
      | inl missing ↦
          rw (missing, validate_dependencies)
            (
              Any-map (λ n. n ≡ m) (λ n. (n.key ≡ m.key) × (contains d n.depends_on ≡ true)) ms
                  (λ n e. (ap (λ (x : ModuleManifest). x.key) e, rw e c.0)) g,
              not_given d missing,
            )
      | inr (n, found) ↦
          rw (found, validate_dependencies)
            (core_rule n found (m.core) (n.core) refl refl
              (validate_dependencies-Outcome m ds g c.1))
    ]
      where
        core_rule :
            (n : ModuleManifest)
            → lookup d modules ≡ some n
            → (a b : Bool) → m.core ≡ a
            → n.core ≡ b
            → Outcome (λ _. Unit {0}) IsFault (validate_dependencies modules m ds)
            → Outcome
                (λ _. Unit {0})
                IsFault
                (if a && not b
                  then raise (core_on_optional m.key d)
                  else validate_dependencies modules m ds)
        core_rule n found true false em en rest = (
          Any-map (λ x. x ≡ m)
              (λ x. (x.key ≡ m.key) × (x.core ≡ true) × (contains d x.depends_on ≡ true)) ms
              (λ x e. (ap (λ (y : ModuleManifest). y.key) e, rw e em, rw e c.0)) g,
          Any-map (λ x. x ≡ n) (λ x. (x.key ≡ d) × (x.core ≡ false)) ms
              (λ x e. (rw e (Given-lookup d n found).1, rw e en)) (Given-lookup d n found).0,
        )
        core_rule n found true true em en rest = rest
        core_rule n found false b em en rest = rest

    validate_all-Outcome :
        (xs : List ModuleManifest)
        → All Given xs
        → Outcome (λ _. Unit {0}) IsFault (validate_all modules xs)
    unfolding validate_all
    validate_all-Outcome [] g = tt
    validate_all-Outcome (m ∷ xs) g =
        Outcome-bind (λ _. Unit {0}) (λ _. Unit {0}) IsFault _ _
          (validate_dependencies-Outcome m m.depends_on g.0
            (All-of-contains _ m.depends_on (λ d c. c)))
          (λ _ _ _. validate_all-Outcome xs g.1)

    Declares-of-deps_of : (k d : String) → contains d (deps_of modules k) ≡ true → Declares k d
    unfolding deps_of contains
    Declares-of-deps_of k d c = elim (Option-cases (lookup k modules)) [
      | inl missing ↦ absurd (ground (arith, c, missing))
      | inr (m, found) ↦
          let there : contains d m.depends_on ≡ true = ground (arith, c, found) in
          let (given, named) = Given-lookup k m found in
          Any-map (λ n. n ≡ m) (λ n. (n.key ≡ k) × (contains d n.depends_on ≡ true)) ms
            (λ n e. (rw e named, rw e there)) given
    ]

    order_result :
        (r : Result CatalogError (List String))
        → Ends (LoopInv modules) r
        → Outcome (λ _. Unit {0}) IsFault r
    order_result (ok order) e = tt
    order_result (raise (dependency_cycle ks)) (g, order, inv, left, stuck, same) =
        let dead = deadlocked modules g order inv left stuck in
        rw same (
          dead.inhabited,
          All-map _ _ (sort_by string_leb (keys g))
              (λ k w. (w.0, Declares-of-deps_of k w.0 w.1, w.2)) dead.waiting,
        )
    order_result (raise (duplicate_key k)) e = absurd e
    order_result (raise (unknown_module k)) e = absurd e
    order_result (raise (key_error k)) e = absurd e
    order_result (raise (unknown_dependency k d)) e = absurd e
    order_result (raise (core_on_optional k d)) e = absurd e
    order_result (raise fuel_exhausted) e = absurd e

Holds-start : (ms : List ModuleManifest) → Holds ms [] ms
unfolding count
Holds-start ms = record { indexed = IsIndexed-nil; given = tt; counted = λ k. omega arith }

values-All :
    (P : ModuleManifest → Type 0) (d : Dict String ModuleManifest)
    → All (λ x. P x.1) d
    → All P (values d)
values-All P [] h = tt
values-All P (x ∷ d) h = (h.0, values-All P d h.1)

-- `ModuleCatalog(manifests)` either returns a catalogue or names a real fault: a key given twice,
-- a dependency that no manifest has, a core module that depends on an optional one, or a group of
-- modules each of which depends on another of the group. It always ends: no other error, the end
-- of the model's fuel among them, is possible.
pub construct-Outcome : (ms : List ModuleManifest) → Outcome IsCatalogue (IsFault ms) (construct ms)
unfolding construct
construct-Outcome ms =
    Outcome-bind (λ out. Holds ms out []) IsCatalogue (IsFault ms) (index_manifests [] ms) _
      (index_manifests-Outcome ms [] ms (All-Any ms) (Holds-start ms))
      λ modules indexed h.
        Outcome-bind (λ _. Unit {0}) IsCatalogue (IsFault ms)
          (validate_all modules (values modules)) _
          (validate_all-Outcome ms modules h (values modules)
            (values-All (Given ms) modules h.given))
          λ _ valid _.
            Outcome-bind (λ _. Unit {0}) IsCatalogue (IsFault ms) (topological_order modules) _
              (order_result ms modules h (topological_order modules) (
                topological_order-Ends modules h.indexed.distinct (
                  validated-closed modules
                    (validate_all-IsValidated modules (values modules) valid))))
              λ order ordered _.
                construct-IsCatalogue ms (record { modules = modules; order = order })
                  (ground (arith, indexed, valid, ordered))
