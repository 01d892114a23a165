-- ===== src/Prelude/Sort.antt =====
-- A stable sort by a test, for `sorted` and `ORDER BY`.
use Prim.Native.Nat.{Ordering, suc}
use Prim.Native.String.{String, compare}
use mathlib.Core.Bool.{Bool, true, false}
use mathlib.Core.List.{List, [], ◌∷◌}
use mathlib.Core.Path.{◌≡◌, refl}
use native.Mathlib.Omega.{arith}
use karmevo_erp.Prelude.Keys.{Key, contains}
use karmevo_erp.Prelude.Lists.{All, count, length}
use karmevo_erp.Prelude.Tests.{if◌then◌else◌}

-- `s <= t` of two texts
abbrev pub string_leb : String → String → Bool
string_leb s t = elim (compare s t) [ Ordering.gt ↦ false | _ ↦ true ]

module _ {ℓ} {A : Type ℓ} (le : A → A → Bool) where
  unfoldable pub insert_by : A → List A → List A
  insert_by x [] = x ∷ []
  insert_by x (y ∷ ys) = if le x y then x ∷ y ∷ ys else y ∷ insert_by x ys

  unfoldable pub sort_by : List A → List A
  unfolding insert_by
  sort_by [] = []
  sort_by (x ∷ xs) = insert_by x (sort_by xs)

  All-insert_by {κ} :
      (P : A → Type κ) (x : A) (xs : List A) → P x → All P xs → All P (insert_by x xs)
  unfolding insert_by
  All-insert_by P x [] p h = (p, tt)
  All-insert_by P x (y ∷ ys) p h =
      elim (le x y) as (λ b. All P (if b then x ∷ y ∷ ys else y ∷ insert_by x ys)) [
        | true ↦ (p, h)
        | false ↦ (h.0, All-insert_by P x ys p h.1)
      ]

  pub All-sort_by {κ} : (P : A → Type κ) (xs : List A) → All P xs → All P (sort_by xs)
  unfolding sort_by
  All-sort_by P [] h = tt
  All-sort_by P (x ∷ xs) h = All-insert_by P x (sort_by xs) h.0 (All-sort_by P xs h.1)

  length-insert_by : (x : A) (xs : List A) → length (insert_by x xs) ≡ suc (length xs)
  unfolding insert_by
  length-insert_by x [] = refl
  length-insert_by x (y ∷ ys) = ground (arith, length-insert_by x ys)

  pub length-sort_by : (xs : List A) → length (sort_by xs) ≡ length xs
  unfolding sort_by
  length-sort_by [] = refl
  length-sort_by (x ∷ xs) = omega (arith, length-insert_by x (sort_by xs), length-sort_by xs)

module _ {K : Type 0} ⦃e : Key K⦄ (le : K → K → Bool) where
  count-insert_by : (x y : K) (xs : List K) → count x (insert_by le y xs) ≡ count x (y ∷ xs)
  unfolding insert_by count
  count-insert_by x y [] = refl
  count-insert_by x y (z ∷ xs) = ground (arith, count-insert_by x y xs)

  pub count-sort_by : (x : K) (xs : List K) → count x (sort_by le xs) ≡ count x xs
  unfolding sort_by count
  count-sort_by x [] = refl
  count-sort_by x (y ∷ xs) = ground (arith, count-insert_by x y (sort_by le xs), count-sort_by x xs)

  contains-insert_by :
      (x y : K) (xs : List K) → contains x (insert_by le y xs) ≡ contains x (y ∷ xs)
  unfolding insert_by contains
  contains-insert_by x y [] = refl
  contains-insert_by x y (z ∷ xs) = ground (arith, contains-insert_by x y xs)

  pub contains-sort_by : (x : K) (xs : List K) → contains x (sort_by le xs) ≡ contains x xs
  unfolding sort_by contains
  contains-sort_by x [] = refl
  contains-sort_by x (y ∷ xs) =
      ground (arith, contains-insert_by x y (sort_by le xs), contains-sort_by x xs)
