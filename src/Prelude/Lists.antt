-- ===== src/Prelude/Lists.antt =====
-- Lists: what the program does with them, measured by native numbers.
use Prim.Native.Nat.{ℕ, zero, suc, ◌+◌, ◌≤◌, min, max}
use mathlib.Core.Bool.{Bool, true, false, ◌&&◌, ◌||◌}
use mathlib.Core.List.{List, [], ◌∷◌, ◌++◌}
use mathlib.Core.Logic.{ite, ◌⊎◌, inl, inr}
use mathlib.Core.Option.{Option, none, some}
use mathlib.Core.Path.{◌≡◌, refl, subst, ap}
use native.Mathlib.Omega.{arith}
use karmevo_erp.Prelude.Keys.{Key, contains}
use karmevo_erp.Prelude.Tests.{if◌then◌else◌, some-eq}

module _ {ℓ} {A : Type ℓ} where
  abbrev pub length : List A → ℕ
  length [] = 0
  length (x ∷ xs) = suc (length xs)

  abbrev pub take : ℕ → List A → List A
  take zero xs = []
  take (suc n) [] = []
  take (suc n) (x ∷ xs) = x ∷ take n xs

  abbrev pub drop : ℕ → List A → List A
  drop zero xs = xs
  drop (suc n) [] = []
  drop (suc n) (x ∷ xs) = drop n xs

  abbrev pub get_last_or : A → List A → A
  get_last_or d [] = d
  get_last_or d (x ∷ xs) = get_last_or x xs

  -- `[x for x in xs if p(x)]`
  unfoldable pub keep : (A → Bool) → List A → List A
  keep p [] = []
  keep p (x ∷ xs) = if p x then x ∷ keep p xs else keep p xs

  -- `any(p(x) for x in xs)`
  unfoldable pub any : (A → Bool) → List A → Bool
  any p [] = false
  any p (x ∷ xs) = p x || any p xs

  -- The first element that passes the test.
  unfoldable pub find_first : (A → Bool) → List A → Option A
  find_first p [] = none
  find_first p (x ∷ xs) = if p x then some x else find_first p xs

  -- A predicate of every element, as a tuple.
  abbrev pub All {κ} : (A → Type κ) → List A → Type κ
  All P [] = Unit
  All P (x ∷ xs) = P x × All P xs

  pub All-map {κ μ} :
      (P : A → Type κ) (Q : A → Type μ) (xs : List A) → ((x : A) → P x → Q x) → All P xs → All Q xs
  All-map P Q [] f h = tt
  All-map P Q (x ∷ xs) f h = (f x h.0, All-map P Q xs f h.1)

  pub All-always {κ} : {P : A → Type κ} → ((x : A) → P x) → (xs : List A) → All P xs
  All-always f [] = tt
  All-always f (x ∷ xs) = (f x, All-always f xs)

  pub All-append {κ} : (P : A → Type κ) (xs ys : List A) → All P xs → All P ys → All P (xs ++ ys)
  All-append P [] ys first second = second
  All-append P (x ∷ xs) ys (here, first) second = (here, All-append P xs ys first second)

  pub All-split {κ} : (P : A → Type κ) (xs ys : List A) → All P (xs ++ ys) → All P xs × All P ys
  All-split P [] ys h = (tt, h)
  All-split P (x ∷ xs) ys (here, h) =
      let (first, second) = All-split P xs ys h in ((here, first), second)

  pub length-append : (xs ys : List A) → length (xs ++ ys) ≡ length xs + length ys
  length-append [] ys = omega arith
  length-append (x ∷ xs) ys = omega (arith, length-append xs ys)

  pub length-keep-le : (p : A → Bool) (xs : List A) → length (keep p xs) ≤ length xs
  unfolding keep
  length-keep-le p [] = omega arith
  length-keep-le p (x ∷ xs) = ground (arith, length-keep-le p xs)

  pub length-take : (n : ℕ) (xs : List A) → length (take n xs) ≡ min n (length xs)
  length-take zero xs = omega arith
  length-take (suc n) [] = omega arith
  length-take (suc n) (x ∷ xs) = omega (arith, length-take n xs)

  pub All-keep {κ} : (P : A → Type κ) (p : A → Bool) (xs : List A) → All P xs → All P (keep p xs)
  unfolding keep
  All-keep P p [] h = tt
  All-keep P p (x ∷ xs) h = elim (p x) as (λ b. All P (if b then x ∷ keep p xs else keep p xs)) [
    | true ↦ (h.0, All-keep P p xs h.1)
    | false ↦ All-keep P p xs h.1
  ]

  pub All-take {κ} : (P : A → Type κ) (n : ℕ) (xs : List A) → All P xs → All P (take n xs)
  All-take P zero xs h = tt
  All-take P (suc n) [] h = tt
  All-take P (suc n) (x ∷ xs) h = (h.0, All-take P n xs h.1)

  pub All-get_last_or {κ} :
      (P : A → Type κ) (x : A) (xs : List A) → P x → All P xs → P (get_last_or x xs)
  All-get_last_or P x [] p h = p
  All-get_last_or P x (y ∷ ys) p h = All-get_last_or P y ys h.0 h.1

  pub append-take-drop : (n : ℕ) (xs : List A) → take n xs ++ drop n xs ≡ xs
  append-take-drop zero xs = refl
  append-take-drop (suc n) [] = refl
  append-take-drop (suc n) (x ∷ xs) = ap (λ ys. x ∷ ys) (append-take-drop n xs)

  pub length-drop : (n : ℕ) (xs : List A) → n + length (drop n xs) ≡ max n (length xs)
  length-drop zero xs = omega arith
  length-drop (suc n) [] = omega arith
  length-drop (suc n) (x ∷ xs) = omega (arith, length-drop n xs)

  pub take-all : (n : ℕ) (xs : List A) → length xs ≤ n → take n xs ≡ xs
  take-all zero [] h = refl
  take-all zero (x ∷ xs) h = absurd (omega arith)
  take-all (suc n) [] h = refl
  take-all (suc n) (x ∷ xs) h = ap (λ ys. x ∷ ys) (take-all n xs (omega arith))

  pub take-take-suc : (n : ℕ) (xs : List A) → take n (take (suc n) xs) ≡ take n xs
  take-take-suc zero xs = refl
  take-take-suc (suc n) [] = refl
  take-take-suc (suc n) (x ∷ xs) = ap (λ ys. x ∷ ys) (take-take-suc n xs)

  pub keep-keep :
      (p q : A → Bool) (xs : List A)
      → ((x : A) → q x ≡ true → p x ≡ true)
      → keep q (keep p xs) ≡ keep q xs
  unfolding keep
  keep-keep p q [] f = refl
  keep-keep p q (x ∷ xs) f = ground (arith, f x, keep-keep p q xs f)

  pub keep-every : (p : A → Bool) (xs : List A) → All (λ x. p x ≡ true) xs → keep p xs ≡ xs
  unfolding keep
  keep-every p [] h = refl
  keep-every p (x ∷ xs) (here, h) = ground (arith, keep-every p xs h)

  pub All-both {κ μ} :
      (P : A → Type κ) (Q : A → Type μ) (xs : List A)
      → All P xs
      → All Q xs
      → All (λ x. P x × Q x) xs
  All-both P Q [] h k = tt
  All-both P Q (x ∷ xs) h k = ((h.0, k.0), All-both P Q xs h.1 k.1)

  pub find_first-All {κ} :
      (P : A → Type κ) (p : A → Bool) (xs : List A) {x : A}
      → All P xs
      → find_first p xs ≡ some x
      → P x × (p x ≡ true)
  unfolding find_first
  find_first-All P p [] h e = cc
  find_first-All P p (y ∷ xs) {x} h e =
      (elim (p y)
          as (λ b.
            p y ≡ b → (if b then some y else find_first p xs) ≡ some x → P x × (p x ≡ true)) [
              | true ↦ λ q r. subst (λ z. P z × (p z ≡ true)) (some-eq r) (h.0, q)
              | false ↦ λ q r. find_first-All P p xs h.1 r
            ])
        refl e

  pub find_first-any :
      (p : A → Bool) (xs : List A)
      → any p xs ≡ (elim (find_first p xs) [ none ↦ false | some x ↦ true ])
  unfolding find_first any
  find_first-any p [] = refl
  find_first-any p (x ∷ xs) = ground (arith, find_first-any p xs)

  -- What passes the test of `keep` holds of each element kept.
  pub All-keep_test : (p : A → Bool) (xs : List A) → All (λ x. p x ≡ true) (keep p xs)
  unfolding keep
  All-keep_test p [] = tt
  All-keep_test p (x ∷ xs) = ground (arith, All-keep_test p xs)

module _ {K : Type 0} ⦃e : Key K⦄ where
  unfoldable pub count : K → List K → ℕ
  count x [] = 0
  count x (y ∷ ys) = ite (e.dec x y) (suc (count x ys)) (count x ys)

  pub count-append : (x : K) (xs ys : List K) → count x (xs ++ ys) ≡ count x xs + count x ys
  unfolding count
  count-append x [] ys = omega arith
  count-append x (y ∷ xs) ys = ground (arith, count-append x xs ys)

  pub count-keep-le : (p : K → Bool) (x : K) (xs : List K) → count x (keep p xs) ≤ count x xs
  unfolding count keep
  count-keep-le p x [] = omega arith
  count-keep-le p x (y ∷ xs) = ground (arith, count-keep-le p x xs)

  pub count-pos : (x : K) (xs : List K) → contains x xs ≡ true → 1 ≤ count x xs
  unfolding count contains
  count-pos x [] h = cc
  count-pos x (y ∷ xs) h = ground (arith, count-pos x xs)

  pub contains_of-count : (x : K) (xs : List K) → 1 ≤ count x xs → contains x xs ≡ true
  unfolding count contains
  contains_of-count x [] h = absurd (omega arith)
  contains_of-count x (y ∷ xs) h = ground (arith, contains_of-count x xs)

  pub contains-keep :
      (p : K → Bool) (x : K) (xs : List K) → contains x (keep p xs) ≡ contains x xs && p x
  unfolding contains keep
  contains-keep p x [] = refl
  contains-keep p x (y ∷ xs) = ground (arith, contains-keep p x xs)

  -- `All` at an element that is there.
  pub All-contains {κ} :
      (P : K → Type κ) (x : K) (xs : List K) → All P xs → contains x xs ≡ true → P x
  unfolding contains
  All-contains P x [] h c = cc
  All-contains P x (y ∷ xs) h c =
      (elim (e.dec x y) as (λ d. ite d true (contains x xs) ≡ true → P x) [
        | yes p ↦ λ _. rw p h.0
        | no _ ↦ λ c'. All-contains P x xs h.1 c'
      ])
        c

  pub All-of-contains {κ} :
      (P : K → Type κ) (xs : List K) → ((x : K) → contains x xs ≡ true → P x) → All P xs
  unfolding contains
  All-of-contains P [] f = tt
  All-of-contains P (x ∷ xs) f =
      (f x (ground arith), All-of-contains P xs (λ y h. f y (ground arith)))

module _ {A : Type 0} where
  -- Some element satisfies the predicate.
  abbrev pub Any : (A → Type 0) → List A → Type 0
  Any P [] = ⊥
  Any P (x ∷ xs) = P x ⊎ Any P xs

  pub Any-map : (P Q : A → Type 0) (xs : List A) → ((x : A) → P x → Q x) → Any P xs → Any Q xs
  Any-map P Q [] f h = absurd h
  Any-map P Q (x ∷ xs) f (inl p) = inl (f x p)
  Any-map P Q (x ∷ xs) f (inr h) = inr (Any-map P Q xs f h)

  pub All-Any : (xs : List A) → All (λ x. Any (λ y. y ≡ x) xs) xs
  All-Any [] = tt
  All-Any (x ∷ xs) = (
    inl refl,
    All-map (λ y. Any (λ z. z ≡ y) xs) (λ y. Any (λ z. z ≡ y) (x ∷ xs)) xs (λ y h. inr h)
        (All-Any xs),
  )

  -- An element that satisfies both.
  pub All-and-Any : (P Q : A → Type 0) (xs : List A) → All P xs → Any Q xs → (x : A) × P x × Q x
  All-and-Any P Q [] h q = absurd q
  All-and-Any P Q (x ∷ xs) h (inl q) = (x, h.0, q)
  All-and-Any P Q (x ∷ xs) h (inr q) = All-and-Any P Q xs h.1 q
