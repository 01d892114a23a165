-- ===== src/Core/Modules/Order.antt =====
-- The enable order: what the loop of `_topological_order` keeps true.
use karmevo_erp.Core.Modules.{
  ModuleManifest, Graph, ready, difference, dependency_sets, after_round, delete_all,
  topological_order,
}
use karmevo_erp.Core.Modules.Rounds.{
  count-ready-le, keys-difference_update, count-keys-delete_all, contains-keys-delete_all,
  All-after_round, All-ready, contains-difference, Ends, order_loop-Ends,
}
use karmevo_erp.Prelude.{
  ◌+◌, ◌≤◌, String, true, false, ◌||◌, List, [], ◌∷◌, ◌++◌, ◌≡◌, none, some, arith, contains, count,
  All, All-map, Dict, lookup, keys, string_key, contains-append, count-append, refl,
  All-lookup_self,
}

-- The dependencies that a manifest of the dictionary declares.
unfoldable pub deps_of : Dict String ModuleManifest → String → List String
deps_of modules k = elim (lookup k modules) [ none ↦ [] | some m ↦ m.depends_on ]

keys-dependency_sets :
    (modules : Dict String ModuleManifest) → keys (dependency_sets modules) ≡ keys modules
unfolding dependency_sets
keys-dependency_sets [] = refl
keys-dependency_sets ((k, m) ∷ d) = rw (keys-dependency_sets d)

All-dependency_sets :
    (P : String × List String → Type 0) (d : Dict String ModuleManifest)
    → All (λ x. P (x.0, x.1.depends_on)) d
    → All P (dependency_sets d)
unfolding dependency_sets
All-dependency_sets P [] h = tt
All-dependency_sets P ((k, m) ∷ d) h = (h.0, All-dependency_sets P d h.1)

module _ (modules : Dict String ModuleManifest) where
  -- Every module of the list stands behind its dependencies; those in `seen` stand before it.
  abbrev pub IsOrdered : List String → List String → Type 0
  IsOrdered seen [] = Unit
  IsOrdered seen (k ∷ ks) =
      ((d : String) → contains d (deps_of modules k) ≡ true → contains d seen ≡ true)
      × IsOrdered (k ∷ seen) ks

  IsOrdered-of-All :
      (seen ks : List String)
      → All (λ k. (d : String) → contains d (deps_of modules k) ≡ true → contains d seen ≡ true) ks
      → IsOrdered seen ks
  unfolding contains
  IsOrdered-of-All seen [] h = tt
  IsOrdered-of-All seen (k ∷ ks) h =
      (h.0, IsOrdered-of-All (k ∷ seen) ks (All-map _ _ ks (λ j f d c. ground (arith, f d c)) h.1))

  IsOrdered-append :
      (seen xs ys : List String)
      → IsOrdered seen xs
      → All
          (λ k.
            (d : String)
            → contains d (deps_of modules k) ≡ true
            → contains d seen || contains d xs ≡ true)
          ys
      → IsOrdered seen (xs ++ ys)
  unfolding contains
  IsOrdered-append seen [] ys h all =
      IsOrdered-of-All seen ys (All-map _ _ ys (λ k f d c. ground (arith, f d c)) all)
  IsOrdered-append seen (x ∷ xs) ys h all = (
    h.0,
    IsOrdered-append (x ∷ seen) xs ys h.1 (All-map _ _ ys (λ k f d c. ground (arith, f d c)) all),
  )

  -- What is left of an entry's dependencies, `placed` being the order so far and `left` the keys of
  -- `remaining`.
  pub record Pending (placed left : List String) (x : String × List String) : Type 0 where
    pub met :
        (d : String)
        → contains d (deps_of modules x.0) ≡ true
        → contains d x.1 ≡ false
        → contains d placed ≡ true
    pub declared : (d : String) → contains d x.1 ≡ true → contains d (deps_of modules x.0) ≡ true
    pub unplaced : (d : String) → contains d x.1 ≡ true → contains d left ≡ true

  pub record LoopInv (g : Graph) (order : List String) : Type 0 where
    pub pending : All (Pending order (keys g)) g
    pub counted : (k : String) → count k order + count k (keys g) ≡ count k (keys modules)
    pub ordered : IsOrdered [] order

  keys-after_round : (g : Graph) → keys (after_round g) ≡ keys (delete_all (ready g) g)
  unfolding after_round
  keys-after_round g = keys-difference_update (ready g) (delete_all (ready g) g)

  Pending-round :
      (g : Graph) (order : List String) (k : String) (deps : List String)
      → Pending order (keys g) (k, deps)
      → Pending (order ++ ready g) (keys (after_round g)) (k, difference deps (ready g))
  Pending-round g order k deps p = record {
    met = λ d c h.
        grind (
          arith,
          p.met d c,
          contains-difference d deps (ready g),
          contains-append d order (ready g),
        );
    declared = λ d h. p.declared d (ground (arith, contains-difference d deps (ready g)));
    unplaced = λ d h. rw (keys-after_round g) (
        grind (
          arith,
          p.unplaced d,
          contains-difference d deps (ready g),
          contains-keys-delete_all d (ready g) g,
        ));
  }

  pub LoopInv-round :
      (g : Graph) (order : List String)
      → LoopInv g order
      → LoopInv (after_round g) (order ++ ready g)
  unfolding contains
  LoopInv-round g order inv = record {
    pending =
        All-after_round (Pending order (keys g)) (Pending (order ++ ready g) (keys (after_round g)))
          g (λ k deps. Pending-round g order k deps) inv.pending;
    counted = λ k. rw (keys-after_round g) (
        omega (
          arith,
          inv.counted k,
          count-keys-delete_all k (ready g) g,
          count-append k order (ready g),
          count-ready-le k g,
        ));
    ordered = IsOrdered-append [] order (ready g) inv.ordered (
        All-map _ _ (ready g) (λ k p d c. p.met d c refl)
          (All-ready (Pending order (keys g)) g inv.pending));
  }

  -- The loop starts from the declared dependencies.
  LoopInv-start :
      ((k : String) → count k (keys modules) ≤ 1)
      → ((k d : String) → contains d (deps_of modules k) ≡ true → contains d (keys modules) ≡ true)
      → LoopInv (dependency_sets modules) []
  unfolding deps_of contains count
  LoopInv-start distinct closed = record {
    pending =
        All-dependency_sets (Pending [] (keys (dependency_sets modules))) modules
          (All-map _ _ modules pending (All-lookup_self modules distinct));
    counted = λ k. rw (keys-dependency_sets modules) (omega arith);
    ordered = tt;
  }
    where
      pending :
          (x : String × ModuleManifest)
          → lookup x.0 modules ≡ some x.1
          → Pending [] (keys (dependency_sets modules)) (x.0, x.1.depends_on)
      pending x found = record {
        met = λ d c h. ground (arith, c, h, found);
        declared = λ d h. ground (arith, h, found);
        unplaced =
            λ d h. rw (keys-dependency_sets modules) (closed x.0 d (ground (arith, h, found)));
      }

  -- What the whole loop returns: an order of exactly the keys, each behind its dependencies, or
  -- the keys of a part in which nothing is ready; never the end of the fuel.
  pub topological_order-Ends :
      ((k : String) → count k (keys modules) ≤ 1)
      → ((k d : String) → contains d (deps_of modules k) ≡ true → contains d (keys modules) ≡ true)
      → Ends LoopInv (topological_order modules)
  unfolding topological_order
  topological_order-Ends distinct closed =
      order_loop-Ends LoopInv LoopInv-round _ (dependency_sets modules) [] (omega arith)
        (LoopInv-start distinct closed)
