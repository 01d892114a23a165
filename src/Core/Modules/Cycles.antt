-- ===== src/Core/Modules/Cycles.antt =====
-- When `ModuleCatalog(manifests)` reports a dependency cycle, and when it does not.
use karmevo_erp.Core.Modules.{ModuleManifest, Graph, ready, unblocked}
use karmevo_erp.Core.Modules.Order.{deps_of, Pending, LoopInv}
use karmevo_erp.Prelude.{
  String, true, List, [], ◌∷◌, ◌≡◌, ◌≢◌, arith, contains, All, All-map, All-sort_by, Dict, keys,
  string_key, refl, string_leb, sort_by, contains-sort_by, insert_by,
}

-- A group of modules each of which waits for another one of the group.
pub record IsDeadlocked (modules : Dict String ModuleManifest) (ks : List String) : Type 0 where
  pub inhabited : ks ≢ []
  pub waiting :
      All (λ k. (d : String) × (contains d (deps_of modules k) ≡ true) × (contains d ks ≡ true)) ks

insert_by-ne-nil : (x : String) (xs : List String) → insert_by string_leb x xs ≢ []
unfolding insert_by
insert_by-ne-nil x [] e = cc
insert_by-ne-nil x (y ∷ xs) e = ground (arith, e)

sort_by-ne-nil : (x : String) (xs : List String) → sort_by string_leb (x ∷ xs) ≢ []
unfolding sort_by
sort_by-ne-nil x xs = insert_by-ne-nil x (sort_by string_leb xs)

not_ready : (g : Graph) → ready g ≡ [] → unblocked g ≡ []
unfolding ready
not_ready g = go (unblocked g)
  where
    go : (l : List String) → sort_by string_leb l ≡ [] → l ≡ []
    go [] e = refl
    go (x ∷ xs) e = absurd (sort_by-ne-nil x xs e)

keys-All : (P : String → Type 0) (g : Graph) → All (λ x. P x.0) g → All P (keys g)
keys-All P [] h = tt
keys-All P (x ∷ g) h = (h.0, keys-All P g h.1)

module _ (modules : Dict String ModuleManifest) (placed left : List String) where
  abbrev Waits : String → Type 0
  Waits k = (d : String) × (contains d (deps_of modules k) ≡ true) × (contains d left ≡ true)

  Waits-of-unblocked :
      (g : Graph) → unblocked g ≡ [] → All (Pending modules placed left) g → All (λ x. Waits x.0) g
  unfolding unblocked contains
  Waits-of-unblocked [] e h = tt
  Waits-of-unblocked ((k, []) ∷ g) e h = cc
  Waits-of-unblocked ((k, d ∷ deps) ∷ g) e h = (
    (d, h.0.declared d (ground arith), h.0.unplaced d (ground arith)),
    Waits-of-unblocked g e h.1,
  )

pub deadlocked :
    (modules : Dict String ModuleManifest) (g : Graph) (order : List String)
    → LoopInv modules g order
    → g ≢ []
    → ready g ≡ []
    → IsDeadlocked modules (sort_by string_leb (keys g))
deadlocked modules [] order inv left stuck = absurd (left refl)
deadlocked modules (x ∷ g) order inv left stuck = record {
  inhabited = sort_by-ne-nil x.0 (keys g);
  waiting = All-sort_by string_leb _ (keys (x ∷ g)) (
      keys-All _ (x ∷ g) (
        All-map _ _ (x ∷ g) (λ y w. (w.0, w.1, rw contains-sort_by w.2))
          (Waits-of-unblocked modules order (keys (x ∷ g)) (x ∷ g) (not_ready (x ∷ g) stuck)
            inv.pending)));
}
