-- ===== src/Core/Modules/Dependencies.antt =====
-- What `dependencies` and `dependents` return, against the relation of transitive dependency.
use karmevo_erp.Core.Modules.{
  ModuleManifest, ModuleCatalog, unknown_module, get, collect, edges, dependencies,
  dependents_among, dependents,
}
use karmevo_erp.Core.Modules.Order.{deps_of, IsOrdered}
use karmevo_erp.Core.Modules.Catalogue.{IsCatalogue}
use karmevo_erp.Core.Modules.Closure.{
  Collecting, collect-Collecting, uncollected-nil, length-reverse, contains-reverse, deps_of_found,
}
use karmevo_erp.Prelude.{
  ◌+◌, String, true, false, List, [], ◌∷◌, ◌≡◌, ◌↔◌, some, none, arith, reverse, contains,
  count-pos, contains_of-count, keep, contains-keep, length, Dict, lookup, keys, string_key, refl,
  ok, raise, Option-cases, Bool-cases, inl, inr, if◌then◌else◌, lookup_of-contains,
  contains_of-lookup, string_dec, Bool, subst,
}

-- `d` is a direct or indirect dependency of `k`.
pub data Reaches (modules : Dict String ModuleManifest) (k : String) : String → Type 0 where
  direct : (d : String) → contains d (deps_of modules k) ≡ true → Reaches modules k d
  further :
      (d x : String)
      → Reaches modules k d
      → contains x (deps_of modules d) ≡ true
      → Reaches modules k x

IsOrdered-keep :
    (modules : Dict String ModuleManifest) (p : String → Bool)
    → ((k d : String) → p k ≡ true → contains d (deps_of modules k) ≡ true → p d ≡ true)
    → (seen ks : List String) → IsOrdered modules seen ks
    → IsOrdered modules (keep p seen) (keep p ks)
unfolding keep
IsOrdered-keep modules p down seen [] h = tt
IsOrdered-keep modules p down seen (k ∷ ks) h = elim (Bool-cases (p k)) [
  | inl kept ↦
      rw (kept, keep)
        (
          λ d c. ground (arith, contains-keep p d seen, h.0 d c, down k d kept c),
          rw kept at (IsOrdered-keep modules p down (k ∷ seen) ks h.1),
        )
  | inr dropped ↦
      rw (dropped, keep) (rw dropped at (IsOrdered-keep modules p down (k ∷ seen) ks h.1))
]

module _ (c : ModuleCatalog) (valid : IsCatalogue c) where
  pub Reaches-installed :
      {k d : String} → Reaches c.modules k d → contains d (keys c.modules) ≡ true
  Reaches-installed (direct d h) = valid.closed _ d h
  Reaches-installed (further d x r h) = valid.closed d x h

  pub in_order : (k : String) → contains k (keys c.modules) ≡ true → contains k c.order ≡ true
  in_order k h =
      contains_of-count k c.order
        (omega (arith, valid.complete k, count-pos {K = String} k (keys c.modules) h))

  pub in_keys : (k : String) → contains k c.order ≡ true → contains k (keys c.modules) ≡ true
  in_keys k h =
      contains_of-count k (keys c.modules)
        (omega (arith, valid.complete k, count-pos {K = String} k c.order h))

  -- What `dependencies` may return.
  pub record IsDependencies (key : String) (ds : List String) : Type 0 where
    pub exact : (x : String) → (contains x ds ≡ true) ↔ Reaches c.modules key x
    pub in_enable_order : IsOrdered c.modules [] ds

  abbrev Done : String → List String → Type 0
  Done key needed =
      Collecting c.modules valid.closed (Reaches c.modules key) further
        (reverse (deps_of c.modules key)) needed []

  module _ (key : String) (needed : List String) (h : Done key needed) where
    needed_of-Reaches : {x : String} → Reaches c.modules key x → contains x needed ≡ true
    unfolding contains
    needed_of-Reaches (direct x d) =
        ground (arith, h.rooted x, contains-reverse x (deps_of c.modules key), d)
    needed_of-Reaches (further d x r e) = ground (arith, h.follows d x (needed_of-Reaches r) e)

    Reaches-of-needed : (x : String) → contains x needed ≡ true → Reaches c.modules key x
    unfolding contains
    Reaches-of-needed x n = h.sound x (ground (arith, n))

    from_needed : IsDependencies key (keep (λ k. contains k needed) c.order)
    unfolding contains keep
    from_needed = record {
      exact = λ x. (
        λ d.
            Reaches-of-needed x
              (ground (arith, d, contains-keep (λ k. contains k needed) x c.order)),
        λ r. ground (
          arith,
          contains-keep (λ k. contains k needed) x c.order,
          in_order x (Reaches-installed r),
          needed_of-Reaches r,
        ),
      );
      in_enable_order =
          IsOrdered-keep c.modules (λ k. contains k needed)
            (λ k d n e. needed_of-Reaches (further k d (Reaches-of-needed k n) e)) [] c.order
            valid.ordered;
    }

  start :
      (key : String)
      → Collecting c.modules valid.closed
          (Reaches c.modules key)
          further
          (reverse (deps_of c.modules key))
          []
          (reverse (deps_of c.modules key))
  unfolding contains
  start key = record {
    installed = λ x d. valid.closed key x (rw contains-reverse at d);
    sound = λ x d. direct x (rw contains-reverse at d);
    follows = λ x y n e. cc n;
    rooted = λ x d. d;
  }

  collect_deps :
      (key : String)
      → (needed : List String) × (collect
            (length (deps_of c.modules key) + edges c.modules)
            c.modules
            (reverse (deps_of c.modules key))
            []
          ≡ ok needed)
        × Done key needed
  collect_deps key =
      collect-Collecting c.modules valid.closed (Reaches c.modules key) further
        (reverse (deps_of c.modules key)) (length (deps_of c.modules key) + edges c.modules)
        (reverse (deps_of c.modules key)) []
        (omega (arith, length-reverse (deps_of c.modules key), uncollected-nil c.modules))
        (start key)

  dependencies-eq :
      (key : String) (m : ModuleManifest) (needed : List String)
      → lookup key c.modules ≡ some m
      → collect (length m.depends_on + edges c.modules) c.modules (reverse m.depends_on) []
        ≡ ok needed
      → dependencies c key ≡ ok (keep (λ k. contains k needed) c.order)
  unfolding dependencies get
  dependencies-eq key m needed found collected = rw (found, get, collected)

  -- For an installed module `dependencies` returns; the result holds exactly the modules that the
  -- module depends on, directly or not, each behind its own dependencies.
  pub dependencies_lem :
      (key : String)
      → contains key (keys c.modules) ≡ true
      → (ds : List String) × (dependencies c key ≡ ok ds) × IsDependencies key ds
  dependencies_lem key there =
      let (m, found) = lookup_of-contains key c.modules there in
      let (needed, collected, done) = collect_deps key in
      (
        keep (λ k. contains k needed) c.order,
        dependencies-eq key m needed found (
            subst (λ l. collect (length l + edges c.modules) c.modules (reverse l) [] ≡ ok needed)
              (deps_of_found c.modules key m found) collected),
        from_needed key needed done,
      )

  -- What the comprehension of `dependents` keeps of the names `ks`.
  abbrev Among : String → List String → List String → Type 0
  Among key ks ds =
      (x : String) → (contains x ds ≡ true) ↔ ((contains x ks ≡ true) × Reaches c.modules x key)

  Among-cons :
      (key k : String) (ks needed rest : List String)
      → ((contains key needed ≡ true) ↔ Reaches c.modules k key)
      → Among key ks rest
      → Among key (k ∷ ks) (if contains key needed then k ∷ rest else rest)
  unfolding contains
  Among-cons key k ks needed rest exact within x = elim (Bool-cases (contains key needed)) [
    | inl yes_key ↦ rw yes_key (
      λ h. elim (string_dec x k) [
        | yes same ↦ (ground arith, rw same (exact.0 yes_key))
        | no differs ↦ let (a, b) = (within x).0 (ground (arith, h)) in (ground (arith, a), b)
      ],
      λ (h, r). elim (string_dec x k) [
        | yes same ↦ ground arith
        | no differs ↦ ground (arith, (within x).1 (ground (arith, h), r))
      ],
    )
    | inr no_key ↦ rw no_key (
      λ h. let (a, b) = (within x).0 h in (ground (arith, a), b),
      λ (h, r). elim (string_dec x k) [
        | yes same ↦ absurd (ground (arith, no_key, exact.1 (rw same at r)))
        | no differs ↦ (within x).1 (ground (arith, h), r)
      ],
    )
  ]

  dependents_among_lem :
      (key : String) (ks : List String)
      → ((k : String) → contains k ks ≡ true → contains k (keys c.modules) ≡ true)
      → (ds : List String) × (dependents_among c key ks ≡ ok ds) × Among key ks ds
  unfolding dependents_among contains
  dependents_among_lem key [] there = ([], refl, λ x. (λ h. cc h, λ h. cc h.0))
  dependents_among_lem key (k ∷ ks) there =
      let (needed, first, d) = dependencies_lem k (there k (ground arith)) in
      let (rest, others, within) =
        dependents_among_lem key ks (λ j h. there j (ground (arith, h))) in
      (
        if contains key needed then k ∷ rest else rest,
        rw (first, others),
        Among-cons key k ks needed rest (d.exact key) within,
      )

  -- For an installed module `dependents` returns; the result holds exactly the installed modules
  -- that depend on it, directly or not.
  pub dependents_lem :
      (key : String)
      → contains key (keys c.modules) ≡ true
      → (ds : List String) × (dependents c key ≡ ok ds)
        × ((x : String)
            → (contains x ds ≡ true)
              ↔ ((contains x (keys c.modules) ≡ true) × Reaches c.modules x key))
  unfolding dependents get
  dependents_lem key there =
      let (m, found) = lookup_of-contains key c.modules there in
      let (ds, e, among) = dependents_among_lem key c.order in_keys in
      (
        ds,
        rw (found, get) e,
        λ x. (
          λ h. let (a, r) = (among x).0 h in (in_keys x a, r),
          λ (h, r). (among x).1 (in_order x h, r),
        ),
      )

  missing_key : (key : String) → contains key (keys c.modules) ≡ false → lookup key c.modules ≡ none
  missing_key key absent = elim (Option-cases (lookup key c.modules)) [
    | inl e ↦ e
    | inr (m, found) ↦ absurd (ground (arith, absent, contains_of-lookup key m c.modules found))
  ]

  -- Both raise `unknown module` for a key that is not installed.
  pub unknown_key :
      (key : String)
      → contains key (keys c.modules) ≡ false
      → (dependencies c key ≡ raise (unknown_module key))
        × (dependents c key ≡ raise (unknown_module key))
  unfolding dependencies dependents get
  unknown_key key absent = (rw (missing_key key absent, get), rw (missing_key key absent, get))
