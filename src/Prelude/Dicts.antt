-- ===== src/Prelude/Dicts.antt =====
-- Python's dictionaries, as association lists in insertion order.
use mathlib.Core.Bool.{true, false}
use mathlib.Core.List.{List, [], ◌∷◌, map}
use mathlib.Core.Logic.{ite}
use mathlib.Core.Option.{Option, none, some}
use mathlib.Core.Path.{◌≡◌, refl}
use native.Mathlib.Omega.{arith}
use Prim.Native.Nat.{◌+◌, ◌-◌, ◌≤◌}
use karmevo_erp.Prelude.Tests.{some-eq}
use karmevo_erp.Prelude.Keys.{Key, contains}
use karmevo_erp.Prelude.Lists.{All, All-map, count, count-pos, length}

abbrev pub Dict : Type 0 → Type 0 → Type 0
Dict K V = List (K × V)

module _ {K V : Type 0} where
  abbrev pub keys : Dict K V → List K
  keys = map (λ e. e.0)

  abbrev pub values : Dict K V → List V
  values = map (λ e. e.1)

module _ {K V : Type 0} ⦃e : Key K⦄ where
  -- `d.get(k)`
  unfoldable pub lookup : K → Dict K V → Option V
  lookup k [] = none
  lookup k ((j, v) ∷ d) = ite (e.dec k j) (some v) (lookup k d)

  -- `d[k] = v`: an old key keeps its place, a new one goes to the end
  unfoldable pub put : K → V → Dict K V → Dict K V
  put k v [] = (k, v) ∷ []
  put k v ((j, w) ∷ d) = ite (e.dec k j) ((j, v) ∷ d) ((j, w) ∷ put k v d)

  -- `del d[k]`
  unfoldable pub delete : K → Dict K V → Dict K V
  delete k [] = []
  delete k ((j, w) ∷ d) = ite (e.dec k j) d ((j, w) ∷ delete k d)

  pub lookup-put :
      (k j : K) (v : V) (d : Dict K V)
      → lookup j (put k v d) ≡ ite (e.dec j k) (some v) (lookup j d)
  unfolding lookup put
  lookup-put k j v [] = refl
  lookup-put k j v ((i, w) ∷ d) = ground (arith, lookup-put k j v d)

  pub lookup-delete_ne : (k j : K) (d : Dict K V) → ¬ (j ≡ k) → lookup j (delete k d) ≡ lookup j d
  unfolding lookup delete
  lookup-delete_ne k j [] h = refl
  lookup-delete_ne k j ((i, w) ∷ d) h = ground (arith, lookup-delete_ne k j d h)

  pub contains-keys-delete_ne :
      (k j : K) (d : Dict K V) → ¬ (j ≡ k) → contains j (keys (delete k d)) ≡ contains j (keys d)
  unfolding contains delete
  contains-keys-delete_ne k j [] h = refl
  contains-keys-delete_ne k j ((i, w) ∷ d) h = ground (arith, contains-keys-delete_ne k j d h)

  pub count-keys-delete :
      (k j : K) (d : Dict K V)
      → count j (keys (delete k d)) ≡ count j (keys d) - ite (e.dec j k) 1 0
  unfolding count delete
  count-keys-delete k j [] = ground arith
  count-keys-delete k j ((i, w) ∷ d) = ground (arith, count-keys-delete k j d)

  pub length-delete :
      (k : K) (d : Dict K V) → contains k (keys d) ≡ true → length (delete k d) + 1 ≡ length d
  unfolding contains delete
  length-delete k [] h = cc
  length-delete k ((i, w) ∷ d) h = ground (arith, length-delete k d)

  pub length-delete-le : (k : K) (d : Dict K V) → length (delete k d) ≤ length d
  unfolding delete
  length-delete-le k [] = omega arith
  length-delete-le k ((i, w) ∷ d) = ground (arith, length-delete-le k d)

  pub All-delete {κ} : (P : K × V → Type κ) (k : K) (d : Dict K V) → All P d → All P (delete k d)
  unfolding delete
  All-delete P k [] h = tt
  All-delete P k ((i, w) ∷ d) h = elim (e.dec k i) as (λ t. All P (ite t d ((i, w) ∷ delete k d))) [
    | yes _ ↦ h.1
    | no _ ↦ (h.0, All-delete P k d h.1)
  ]

  pub All-lookup {κ} :
      (P : K × V → Type κ) (k : K) (v : V) (d : Dict K V) → All P d → lookup k d ≡ some v → P (k, v)
  unfolding lookup
  All-lookup P k v [] h p = cc
  All-lookup P k v ((i, w) ∷ d) h p =
      (elim (e.dec k i) as (λ t. ite t (some w) (lookup k d) ≡ some v → P (k, v)) [
        | yes q ↦ λ r. rw (q, ← some-eq r) h.0
        | no _ ↦ All-lookup P k v d h.1
      ])
        p

  pub contains_of-lookup :
      (k : K) (v : V) (d : Dict K V) → lookup k d ≡ some v → contains k (keys d) ≡ true
  unfolding lookup contains
  contains_of-lookup k v [] h = cc
  contains_of-lookup k v ((i, w) ∷ d) h = ground (arith, contains_of-lookup k v d)

  pub lookup_of-contains :
      (k : K) (d : Dict K V) → contains k (keys d) ≡ true → (v : V) × (lookup k d ≡ some v)
  unfolding lookup contains
  lookup_of-contains k [] h = cc
  lookup_of-contains k ((i, w) ∷ d) h =
      elim (e.dec k i) as (λ t. (v : V) × (ite t (some w) (lookup k d) ≡ some v)) [
        | yes _ ↦ (w, refl)
        | no q ↦ lookup_of-contains k d (ground arith)
      ]

  -- Where no key stands twice, every entry is the one that a lookup of its key finds.
  pub All-lookup_self :
      (d : Dict K V) → ((k : K) → count k (keys d) ≤ 1) → All (λ x. lookup x.0 d ≡ some x.1) d
  unfolding lookup count
  All-lookup_self [] h = tt
  All-lookup_self ((i, w) ∷ d) h = (
    ground arith,
    All-map (λ x. lookup x.0 d ≡ some x.1) (λ x. lookup x.0 ((i, w) ∷ d) ≡ some x.1) d
        (λ x p. passed x p) (All-lookup_self d (λ k. ground (arith, h k))),
  )
    where
      passed : (x : K × V) → lookup x.0 d ≡ some x.1 → lookup x.0 ((i, w) ∷ d) ≡ some x.1
      passed x p = ground (arith, p, h x.0, count-pos x.0 (keys d) (contains_of-lookup x.0 x.1 d p))

  pub count-keys-put :
      (k j : K) (v : V) (d : Dict K V)
      → contains k (keys d) ≡ false
      → count j (keys (put k v d)) ≡ count j (keys d) + ite (e.dec j k) 1 0
  unfolding put count contains
  count-keys-put k j v [] h = ground arith
  count-keys-put k j v ((i, w) ∷ d) h = ground (arith, count-keys-put k j v d)

  pub All-put {κ} :
      (P : K × V → Type κ) (k : K) (v : V) (d : Dict K V) → P (k, v) → All P d → All P (put k v d)
  unfolding put
  All-put P k v [] p h = (p, tt)
  All-put P k v ((i, w) ∷ d) p h =
      elim (e.dec k i) as (λ t. All P (ite t ((i, v) ∷ d) ((i, w) ∷ put k v d))) [
        | yes q ↦ (rw q at p, h.1)
        | no _ ↦ (h.0, All-put P k v d p h.1)
      ]

module _ {K V : Type 0} where
  pub All-values {κ} : (P : V → Type κ) (d : Dict K V) → All P (values d) → All (λ x. P x.1) d
  All-values P [] h = tt
  All-values P (x ∷ d) h = (h.0, All-values P d h.1)
