-- ===== src/Prelude/Ascending.antt =====
-- Lists in strictly ascending order of a number of each element: sorted tables, and where a page of
-- one ends.
use Prim.Native.Nat.{ℕ, zero, suc, ◌≤◌, ◌<◌}
use mathlib.Core.Bool.{Bool, true, false}
use mathlib.Core.List.{List, [], ◌∷◌, ◌++◌}
use mathlib.Core.Logic.{◌≢◌}
use mathlib.Core.Path.{◌≡◌, refl}
use native.Mathlib.Omega.{arith}
use karmevo_erp.Prelude.Lists.{
  All, All-map, All-keep, All-append, any, keep, keep-every, take, drop, get_last_or,
  All-get_last_or, All-take,
}
use karmevo_erp.Prelude.Keys.{◌==◌, nat_key}
use karmevo_erp.Prelude.Sort.{insert_by, sort_by, All-sort_by}
use karmevo_erp.Prelude.Tests.{if◌then◌else◌, ltb, leb, leb→le}

lt_of_leb : {m n : ℕ} → n ≢ m → leb m n ≡ true → m < n
lt_of_leb {m} {n} d h = ground arith

lt_of_not_leb : {m n : ℕ} → leb m n ≡ false → n < m
lt_of_not_leb {m} {n} h = ground arith

module _ {A : Type 0} (number : A → ℕ) where
  abbrev pub by_number : A → A → Bool
  by_number a b = leb (number a) (number b)

  abbrev pub AllDistinct : List A → Type 0
  AllDistinct [] = Unit
  AllDistinct (x ∷ xs) = All (λ y. number y ≢ number x) xs × AllDistinct xs

  abbrev pub IsAscending : List A → Type 0
  IsAscending [] = Unit
  IsAscending (x ∷ xs) = All (λ y. number x < number y) xs × IsAscending xs

  All-insert_by-lt :
      (m : ℕ) (x : A) (xs : List A)
      → m < number x
      → All (λ y. m < number y) xs
      → All (λ y. m < number y) (insert_by by_number x xs)
  unfolding insert_by
  All-insert_by-lt m x [] h k = (h, tt)
  All-insert_by-lt m x (y ∷ ys) h k = ground (arith, All-insert_by-lt m x ys)

  insert_by-IsAscending :
      (x : A) (xs : List A)
      → All (λ y. number y ≢ number x) xs
      → IsAscending xs
      → IsAscending (insert_by by_number x xs)
  unfolding insert_by
  insert_by-IsAscending x [] d h = (tt, tt)
  insert_by-IsAscending x (y ∷ ys) d h =
      (elim (leb (number x) (number y))
          as (λ b.
            leb (number x) (number y) ≡ b
            → IsAscending (if b then x ∷ y ∷ ys else y ∷ insert_by by_number x ys)) [
              | true ↦ λ q. (
                (
                  lt_of_leb d.0 q,
                  All-map (λ z. number y < number z) (λ z. number x < number z) ys
                      (λ z k. omega (arith, k, lt_of_leb d.0 q)) h.0,
                ),
                h,
              )
              | false ↦ λ q. (
                All-insert_by-lt (number y) x ys (lt_of_not_leb q) h.0,
                insert_by-IsAscending x ys d.1 h.1,
              )
            ])
        refl

  pub sort_by-IsAscending : (xs : List A) → AllDistinct xs → IsAscending (sort_by by_number xs)
  unfolding sort_by
  sort_by-IsAscending [] d = tt
  sort_by-IsAscending (x ∷ xs) d =
      insert_by-IsAscending x (sort_by by_number xs)
        (All-sort_by by_number (λ y. number y ≢ number x) xs d.0) (sort_by-IsAscending xs d.1)

  pub keep-IsAscending : (p : A → Bool) (xs : List A) → IsAscending xs → IsAscending (keep p xs)
  unfolding keep
  keep-IsAscending p [] h = tt
  keep-IsAscending p (x ∷ xs) h =
      elim (p x) as (λ b. IsAscending (if b then x ∷ keep p xs else keep p xs)) [
        | true ↦ (All-keep (λ y. number x < number y) p xs h.0, keep-IsAscending p xs h.1)
        | false ↦ keep-IsAscending p xs h.1
      ]

  pub keep-AllDistinct : (p : A → Bool) (xs : List A) → AllDistinct xs → AllDistinct (keep p xs)
  unfolding keep
  keep-AllDistinct p [] h = tt
  keep-AllDistinct p (x ∷ xs) h =
      elim (p x) as (λ b. AllDistinct (if b then x ∷ keep p xs else keep p xs)) [
        | true ↦ (All-keep (λ y. number y ≢ number x) p xs h.0, keep-AllDistinct p xs h.1)
        | false ↦ keep-AllDistinct p xs h.1
      ]

  pub AllDistinct-append :
      (xs : List A) (x : A)
      → AllDistinct xs
      → any (λ y. number y == number x) xs ≡ false
      → AllDistinct (xs ++ x ∷ [])
  unfolding any
  AllDistinct-append [] x d h = (tt, tt)
  AllDistinct-append (y ∷ ys) x d h = (
    All-append (λ z. number z ≢ number y) ys (x ∷ []) d.0 (ground (arith, h), tt),
    AllDistinct-append ys x d.1 (ground (arith, h)),
  )

  pub not_any-All :
      (n : ℕ) (xs : List A) → any (λ y. number y == n) xs ≡ false → All (λ y. number y ≢ n) xs
  unfolding any
  not_any-All n [] h = tt
  not_any-All n (y ∷ ys) h = (ground (arith, h), not_any-All n ys (ground (arith, h)))

  insert_by_comm :
      (x y : A) (xs : List A)
      → number x ≢ number y
      → insert_by by_number x (insert_by by_number y xs)
        ≡ insert_by by_number y (insert_by by_number x xs)
  unfolding insert_by
  insert_by_comm x y [] d = ground (arith, d)
  insert_by_comm x y (z ∷ zs) d = ground (arith, d, insert_by_comm x y zs d)

  -- A new last element is sorted in.
  pub sort_by-append :
      (xs : List A) (x : A)
      → All (λ y. number y ≢ number x) xs
      → sort_by by_number (xs ++ x ∷ []) ≡ insert_by by_number x (sort_by by_number xs)
  unfolding sort_by
  sort_by-append [] x d = refl
  sort_by-append (y ∷ ys) x d =
      rw (sort_by-append ys x d.1) (insert_by_comm y x (sort_by by_number ys) d.0)

  -- An element that comes before all of a list is inserted before it.
  insert_by-front :
      (x : A) (xs : List A) → All (λ y. number x ≤ number y) xs → insert_by by_number x xs ≡ x ∷ xs
  unfolding insert_by
  insert_by-front x [] h = refl
  insert_by-front x (y ∷ ys) (here, h) = ground arith

  keep-insert_by :
      (p : A → Bool) (x : A) (xs : List A)
      → IsAscending xs
      → keep p (insert_by by_number x xs)
        ≡ (if p x then insert_by by_number x (keep p xs) else keep p xs)
  unfolding insert_by keep
  keep-insert_by p x [] h = refl
  keep-insert_by p x (y ∷ ys) h =
      (elim (leb (number x) (number y))
          as (λ b.
            leb (number x) (number y) ≡ b
            → keep p (if b then x ∷ y ∷ ys else y ∷ insert_by by_number x ys)
              ≡ (if p x then insert_by by_number x (keep p (y ∷ ys)) else keep p (y ∷ ys))) [
                | true ↦ λ q. ground (
                  arith,
                  insert_by-front x (keep p (y ∷ ys)) (
                      All-keep (λ z. number x ≤ number z) p (y ∷ ys)
                        (
                          leb→le (number x) (number y) q,
                          All-map (λ z. number y < number z) (λ z. number x ≤ number z) ys
                              (λ z k. omega (arith, k, leb→le (number x) (number y) q)) h.0,
                        )),
                )
                | false ↦ λ q. ground (arith, q, keep-insert_by p x ys h.1)
              ])
        refl

  pub keep-sort_by :
      (p : A → Bool) (xs : List A)
      → AllDistinct xs
      → keep p (sort_by by_number xs) ≡ sort_by by_number (keep p xs)
  unfolding sort_by keep
  keep-sort_by p [] d = refl
  keep-sort_by p (x ∷ xs) d = ground (
    arith,
    keep-insert_by p x (sort_by by_number xs) (sort_by-IsAscending xs d.1),
    keep-sort_by p xs d.1,
  )

  -- What comes after the last element of a page is what the page leaves.
  pub keep-after :
      (n : ℕ) (x : A) (xs : List A)
      → IsAscending (x ∷ xs)
      → keep (λ y. ltb (number (get_last_or x (take n xs))) (number y)) (x ∷ xs) ≡ drop n xs
  unfolding keep
  keep-after zero x xs h = ground (
    arith,
    keep-every (λ y. ltb (number x) (number y)) xs
        (All-map (λ y. number x < number y) (λ y. ltb (number x) (number y) ≡ true) xs
          (λ y k. ground arith) h.0),
  )
  keep-after (suc n) x [] h = ground arith
  keep-after (suc n) x (y ∷ ys) h = ground (
    arith,
    keep-after n y ys h.1,
    All-get_last_or (λ z. number x < number z) y (take n ys) h.0.0
        (All-take (λ z. number x < number z) n ys h.0.1),
  )
