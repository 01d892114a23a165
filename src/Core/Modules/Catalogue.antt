-- ===== src/Core/Modules/Catalogue.antt =====
-- What `ModuleCatalog(manifests)` guarantees of the object that it builds.
use karmevo_erp.Core.Modules.{
  ModuleManifest, ModuleCatalog, index_manifests, validate_dependencies, validate_all,
  topological_order, construct,
}
use karmevo_erp.Core.Modules.Rounds.{Ends}
use karmevo_erp.Core.Modules.Order.{deps_of, IsOrdered, LoopInv, topological_order-Ends}
use karmevo_erp.Prelude.{
  ◌+◌, ◌≤◌, String, true, false, List, [], ◌∷◌, ◌≡◌, some, arith, contains, contains_of-count,
  contains_of-lookup, count, All, ite, string_dec, subst, ok-injective, Option-cases, All-contains,
  Dict, lookup, put, keys, values, string_key, refl, Bool-cases, inl, inr, ok, >>=-eq-ok,
  lookup-put, count-keys-put, All-put, All-values, All-lookup,
}

-- The dictionary that the first loop builds.
pub record IsIndexed (modules : Dict String ModuleManifest) : Type 0 where
  pub distinct : (k : String) → count k (keys modules) ≤ 1
  pub named : All (λ x. x.1.key ≡ x.0) modules

pub put-IsIndexed :
    (modules : Dict String ModuleManifest) (m : ModuleManifest)
    → contains m.key (keys modules) ≡ false
    → IsIndexed modules
    → IsIndexed (put m.key m modules)
unfolding count
put-IsIndexed modules m new h = record {
  distinct = λ k. room k (h.distinct k) (count-keys-put m.key k m modules new);
  named = All-put (λ x. x.1.key ≡ x.0) m.key m modules refl h.named;
}
  where
    room :
        (k : String)
        → count k (keys modules) ≤ 1
        → count k (keys (put m.key m modules))
          ≡ count k (keys modules) + ite (string_dec k m.key) 1 0
        → count k (keys (put m.key m modules)) ≤ 1
    room k le e = elim (string_dec k m.key) [
      | yes q ↦ ground (arith, le, e, rw (← q) at new, contains_of-count k (keys modules))
      | no q ↦ ground (arith, le, e)
    ]

-- An induction over the first loop: each step puts a manifest under a new key.
module _ (P : Dict String ModuleManifest → Type 0)
    (step : (modules : Dict String ModuleManifest) (m : ModuleManifest)
      → contains m.key (keys modules) ≡ false
      → P modules
      → P (put m.key m modules)) where
  pub index_manifests_induction :
      (modules : Dict String ModuleManifest) (ms : List ModuleManifest)
      {out : Dict String ModuleManifest}
      → index_manifests modules ms ≡ ok out
      → P modules
      → P out
  unfolding index_manifests
  index_manifests_induction modules [] e h = subst P (ok-injective e) h
  index_manifests_induction modules (m ∷ ms) e h =
      elim (Bool-cases (contains m.key (keys modules))) [
        | inl old ↦ absurd (ground (arith, e, old))
        | inr new ↦
            index_manifests_induction (put m.key m modules) ms (rw new at e) (step modules m new h)
      ]

-- A stored manifest stays, and each manifest given is stored under its key.
pub index_manifests-lookup :
    (modules : Dict String ModuleManifest) (ms : List ModuleManifest)
    {out : Dict String ModuleManifest} (k : String) (m : ModuleManifest)
    → index_manifests modules ms ≡ ok out
    → lookup k modules ≡ some m
    → lookup k out ≡ some m
index_manifests-lookup modules ms k m =
    index_manifests_induction (λ d. lookup k d ≡ some m)
      (λ d n new h. ground (arith, new, h, lookup-put n.key k n d, contains_of-lookup k m d))
      modules ms

pub index_manifests-stores :
    (modules : Dict String ModuleManifest) (ms : List ModuleManifest)
    {out : Dict String ModuleManifest}
    → index_manifests modules ms ≡ ok out
    → All (λ m. lookup m.key out ≡ some m) ms
unfolding index_manifests
index_manifests-stores modules [] e = tt
index_manifests-stores modules (m ∷ ms) e = elim (Bool-cases (contains m.key (keys modules))) [
  | inl old ↦ absurd (ground (arith, e, old))
  | inr new ↦ (
    index_manifests-lookup (put m.key m modules) ms m.key m (rw new at e)
        (ground (arith, lookup-put m.key m.key m modules)),
    index_manifests-stores (put m.key m modules) ms (rw new at e),
  )
]

-- What `_validate_dependencies` accepts of one manifest.
pub record IsValidated (modules : Dict String ModuleManifest) (m : ModuleManifest) (d : String)
    : Type 0 where
  pub dependency : ModuleManifest
  pub installed : lookup d modules ≡ some dependency
  pub core_kept : m.core ≡ true → dependency.core ≡ true

validate_dependencies-IsValidated :
    (modules : Dict String ModuleManifest) (m : ModuleManifest) (ds : List String)
    → validate_dependencies modules m ds ≡ ok tt
    → All (IsValidated modules m) ds
unfolding validate_dependencies
validate_dependencies-IsValidated modules m [] e = tt
validate_dependencies-IsValidated modules m (d ∷ ds) e = elim (Option-cases (lookup d modules)) [
  | inl missing ↦ absurd (ground (arith, e, missing))
  | inr (n, found) ↦ (
    record { dependency = n; installed = found; core_kept = λ c. ground (arith, e, found, c) },
    validate_dependencies-IsValidated modules m ds (ground (arith, e, found)),
  )
]

pub validate_all-IsValidated :
    (modules : Dict String ModuleManifest) (ms : List ModuleManifest)
    → validate_all modules ms ≡ ok tt
    → All (λ m. All (IsValidated modules m) m.depends_on) ms
unfolding validate_all
validate_all-IsValidated modules [] e = tt
validate_all-IsValidated modules (m ∷ ms) e =
    let (_, first, rest) = >>=-eq-ok (validate_dependencies modules m m.depends_on) _ e in
    (
      validate_dependencies-IsValidated modules m m.depends_on first,
      validate_all-IsValidated modules ms rest,
    )

-- A catalogue that can be relied on.
pub record IsCatalogue (c : ModuleCatalog) : Type 0 where
  pub distinct : (k : String) → count k (keys c.modules) ≤ 1
  pub named : All (λ x. x.1.key ≡ x.0) c.modules
  pub closed :
      (k d : String) → contains d (deps_of c.modules k) ≡ true → contains d (keys c.modules) ≡ true
  pub core_closed :
      (k d : String) (m n : ModuleManifest)
      → lookup k c.modules ≡ some m
      → m.core ≡ true
      → contains d m.depends_on ≡ true
      → lookup d c.modules ≡ some n
      → n.core ≡ true
  pub complete : (k : String) → count k c.order ≡ count k (keys c.modules)
  pub ordered : IsOrdered c.modules [] c.order

module _ (modules : Dict String ModuleManifest)
    (valid : All (λ m. All (IsValidated modules m) m.depends_on) (values modules)) where
  validated :
      (k d : String) (m : ModuleManifest)
      → lookup k modules ≡ some m
      → contains d m.depends_on ≡ true
      → IsValidated modules m d
  validated k d m found c =
      All-contains (IsValidated modules m) d m.depends_on
        (All-lookup (λ x. All (IsValidated modules x.1) x.1.depends_on) k m modules
          (All-values (λ n. All (IsValidated modules n) n.depends_on) modules valid) found)
        c

  pub validated-closed :
      (k d : String) → contains d (deps_of modules k) ≡ true → contains d (keys modules) ≡ true
  unfolding deps_of contains
  validated-closed k d c = elim (Option-cases (lookup k modules)) [
    | inl missing ↦ absurd (ground (arith, c, missing))
    | inr (m, found) ↦
        let v = validated k d m found (ground (arith, c, found)) in
        contains_of-lookup d v.dependency modules v.installed
  ]

  validated-core_closed :
      (k d : String) (m n : ModuleManifest)
      → lookup k modules ≡ some m
      → m.core ≡ true
      → contains d m.depends_on ≡ true
      → lookup d modules ≡ some n
      → n.core ≡ true
  validated-core_closed k d m n found core c there =
      let v = validated k d m found c in ground (arith, v.core_kept core, v.installed, there)

-- The three steps of the constructor.
pub construct-eq-ok :
    (ms : List ModuleManifest) {c : ModuleCatalog}
    → construct ms ≡ ok c
    → (index_manifests [] ms ≡ ok c.modules)
      × (validate_all c.modules (values c.modules) ≡ ok tt)
      × (topological_order c.modules ≡ ok c.order)
unfolding construct
construct-eq-ok ms e = ground (arith, e)

pub IsIndexed-nil : IsIndexed []
unfolding count
IsIndexed-nil = record { distinct = λ k. omega arith; named = tt }

-- A catalogue that the constructor returns names each module once and under its own key, contains
-- the dependencies of each, has core modules depend on core modules only, and its enable order
-- holds each module exactly once and behind all its dependencies.
pub construct-IsCatalogue :
    (ms : List ModuleManifest) (c : ModuleCatalog) → construct ms ≡ ok c → IsCatalogue c
unfolding count
construct-IsCatalogue ms c e =
    let (indexed, valid, ordered) = construct-eq-ok ms e in
    let i = index_manifests_induction IsIndexed put-IsIndexed [] ms indexed IsIndexed-nil in
    let v = validate_all-IsValidated c.modules (values c.modules) valid in
    let closed = validated-closed c.modules v in
    let inv =
      subst (Ends (LoopInv c.modules)) ordered
        (topological_order-Ends c.modules i.distinct closed) in
    record {
      distinct = i.distinct;
      named = i.named;
      closed = closed;
      core_closed = validated-core_closed c.modules v;
      complete = λ k. counted c k (inv.counted k);
      ordered = inv.ordered;
    }
  where
    counted :
        (c : ModuleCatalog) (k : String)
        → count k c.order + count k (keys {V = List String} []) ≡ count k (keys c.modules)
        → count k c.order ≡ count k (keys c.modules)
    counted c k h = omega (arith, h)
