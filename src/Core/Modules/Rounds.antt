-- ===== src/Core/Modules/Rounds.antt =====
-- One round of `_topological_order`, and a proof rule for its loop.
use karmevo_erp.Core.Modules.{
  Graph, CatalogError, dependency_cycle, is_empty, unblocked, ready, delete_all, difference,
  difference_update, after_round, order_loop,
}
use karmevo_erp.Prelude.{
  ℕ, zero, suc, ◌-◌, ◌≤◌, ◌<◌, String, true, false, not, ◌&&◌, List, [], ◌∷◌, ◌++◌, ◌≡◌, ◌≢◌, refl,
  arith, if◌then◌else◌, contains, count, length, All, keys, delete, Result, ok, raise, string_leb,
  sort_by, string_key, count-sort_by, All-sort_by, contains-keep, contains-keys-delete_ne,
  count-keys-delete, length-delete, length-delete-le, All-delete, contains_of-count, count-pos,
}

pub count-unblocked-le : (k : String) (g : Graph) → count k (unblocked g) ≤ count k (keys g)
unfolding count unblocked
count-unblocked-le k [] = omega arith
count-unblocked-le k ((j, deps) ∷ g) = ground (arith, count-unblocked-le k g)

pub count-ready-le : (k : String) (g : Graph) → count k (ready g) ≤ count k (keys g)
unfolding ready
count-ready-le k g = rw count-sort_by (count-unblocked-le k g)

pub contains_of-ready :
    (k : String) (g : Graph) → contains k (ready g) ≡ true → contains k (keys g) ≡ true
contains_of-ready k g h =
    contains_of-count k (keys g)
      (omega (arith, count-pos {K = String} k (ready g) h, count-ready-le k g))

pub keys-difference_update :
    (done : List String) (g : Graph) → keys (difference_update done g) ≡ keys g
unfolding difference_update
keys-difference_update done [] = refl
keys-difference_update done ((k, deps) ∷ g) = rw (keys-difference_update done g)

length-difference_update :
    (done : List String) (g : Graph) → length (difference_update done g) ≡ length g
unfolding difference_update
length-difference_update done [] = refl
length-difference_update done ((k, deps) ∷ g) = rw (length-difference_update done g)

pub count-keys-delete_all :
    (j : String) (ks : List String) (g : Graph)
    → count j (keys (delete_all ks g)) ≡ count j (keys g) - count j ks
unfolding delete_all count
count-keys-delete_all j [] g = omega arith
count-keys-delete_all j (k ∷ ks) g =
    ground (arith, count-keys-delete_all j ks (delete k g), count-keys-delete k j g)

pub contains-keys-delete_all :
    (j : String) (ks : List String) (g : Graph)
    → contains j ks ≡ false
    → contains j (keys (delete_all ks g)) ≡ contains j (keys g)
unfolding delete_all contains
contains-keys-delete_all j [] g h = refl
contains-keys-delete_all j (k ∷ ks) g h =
    grind (arith, contains-keys-delete_all j ks (delete k g), contains-keys-delete_ne k j g)

length-delete_all-le : (ks : List String) (g : Graph) → length (delete_all ks g) ≤ length g
unfolding delete_all
length-delete_all-le [] g = omega arith
length-delete_all-le (k ∷ ks) g =
    omega (arith, length-delete_all-le ks (delete k g), length-delete-le k g)

All-delete_all :
    (P : String × List String → Type 0) (ks : List String) (g : Graph)
    → All P g
    → All P (delete_all ks g)
unfolding delete_all
All-delete_all P [] g h = h
All-delete_all P (k ∷ ks) g h = All-delete_all P ks (delete k g) (All-delete P k g h)

All-difference_update :
    (P Q : String × List String → Type 0) (done : List String) (g : Graph)
    → ((k : String) (deps : List String) → P (k, deps) → Q (k, difference deps done))
    → All P g
    → All Q (difference_update done g)
unfolding difference_update
All-difference_update P Q done [] f h = tt
All-difference_update P Q done ((k, deps) ∷ g) f h =
    (f k deps h.0, All-difference_update P Q done g f h.1)

-- What holds of the entries after a round follows from what held before it.
pub All-after_round :
    (P Q : String × List String → Type 0) (g : Graph)
    → ((k : String) (deps : List String) → P (k, deps) → Q (k, difference deps (ready g)))
    → All P g
    → All Q (after_round g)
unfolding after_round
All-after_round P Q g f h =
    All-difference_update P Q (ready g) (delete_all (ready g) g) f (All-delete_all P (ready g) g h)

All-unblocked :
    (P : String × List String → Type 0) (g : Graph) → All P g → All (λ k. P (k, [])) (unblocked g)
unfolding unblocked
All-unblocked P [] h = tt
All-unblocked P ((k, []) ∷ g) h = (h.0, All-unblocked P g h.1)
All-unblocked P ((k, d ∷ deps) ∷ g) h = All-unblocked P g h.1

pub All-ready :
    (P : String × List String → Type 0) (g : Graph) → All P g → All (λ k. P (k, [])) (ready g)
unfolding ready
All-ready P g h = All-sort_by string_leb (λ k. P (k, [])) (unblocked g) (All-unblocked P g h)

pub contains-difference :
    (d : String) (deps done : List String)
    → contains d (difference deps done) ≡ contains d deps && not (contains d done)
unfolding difference
contains-difference d deps done = contains-keep (λ x. not (contains x done)) d deps

-- A round that finds something ready makes `remaining` shorter.
length-after_round :
    (g : Graph) (r : String) (rs : List String)
    → ready g ≡ r ∷ rs
    → length (after_round g) < length g
unfolding after_round delete_all contains
length-after_round g r rs e =
    omega (arith, length-difference_update (ready g) (delete_all (ready g) g), shorter)
  where
    contains-head : contains r (r ∷ rs) ≡ true
    contains-head = ground arith

    there : contains r (keys g) ≡ true
    there = contains_of-ready r g (rw e contains-head)

    shorter : length (delete_all (ready g) g) < length g
    shorter = rw e (omega (arith, length-delete_all-le rs (delete r g), length-delete r g there))

-- A result that the loop may have: it is not the end of the fuel, an order comes from the empty
-- `remaining`, and a cycle from a `remaining` in which nothing is ready.
abbrev pub Ends : (Graph → List String → Type 0) → Result CatalogError (List String) → Type 0
Ends P (ok order) = P [] order
Ends P (raise (dependency_cycle ks)) =
    (g : Graph) × (order : List String) × P g order
    × (g ≢ [])
    × (ready g ≡ [])
    × (ks ≡ sort_by string_leb (keys g))
Ends P (raise _) = ⊥

module _ (P : Graph → List String → Type 0)
    (round : (g : Graph) (order : List String)
      → P g order
      → P (after_round g) (order ++ ready g)) where
  after_test :
      (g : Graph) (order done : List String) (e : ready g ≡ done)
      → g ≢ []
      → P g order
      → (rest : Result CatalogError (List String)) → (is_empty done ≡ false → Ends P rest)
      → Ends P
          (if is_empty done then raise (dependency_cycle (sort_by string_leb (keys g))) else rest)
  after_test g order [] e some p rest r = (g, order, p, some, e, refl)
  after_test g order (d ∷ ds) e some p rest r = r refl

  pub order_loop-Ends :
      (fuel : ℕ) (g : Graph) (order : List String)
      → length g ≤ fuel
      → P g order
      → Ends P (order_loop fuel g order)
  unfolding order_loop
  order_loop-Ends fuel [] order h p = p
  order_loop-Ends zero (e ∷ g) order h p = absurd (omega arith)
  order_loop-Ends (suc fuel) (e ∷ g) order h p =
      after_test (e ∷ g) order (ready (e ∷ g)) refl (λ q. cc q) p _
        λ found.
          order_loop-Ends fuel (after_round (e ∷ g)) (order ++ ready (e ∷ g))
            (shorter (ready (e ∷ g)) refl found) (round (e ∷ g) order p)
    where
      shorter :
          (done : List String)
          → ready (e ∷ g) ≡ done
          → is_empty done ≡ false
          → length (after_round (e ∷ g)) ≤ fuel
      shorter [] q found = cc
      shorter (r ∷ rs) q found = omega (arith, length-after_round (e ∷ g) r rs q)
