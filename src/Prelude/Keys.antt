-- ===== src/Prelude/Keys.antt =====
-- Types whose values the program compares by `==`: texts and identifiers.
use Prim.Native.Nat.{ℕ}
use Prim.Native.String.{String}
use mathlib.Core.Bool.{Bool, true, false, ◌||◌}
use mathlib.Core.List.{List, [], ◌∷◌, ◌++◌}
use mathlib.Core.Logic.{ite}
use mathlib.Core.Path.{◌≡◌, refl}
use native.Mathlib.Decide.{ℕ_discrete}
use native.Mathlib.Omega.{arith}
use text.Mathlib.Text.{◌==◌ as text_eq}
use text.Mathlib.TextEquality.{eq_iff}

pub record Key (K : Type 0) : Type 0 where
  pub dec : Discrete K

refute : (s t : String) → (text_eq s t) ≡ false → ¬ (s ≡ t)
refute s t e p = ground (arith, eq_iff s t)

decide_eq : (s t : String) (b : Bool) → (text_eq s t) ≡ b → Dec (s ≡ t)
decide_eq s t true e = yes ((eq_iff s t).0 e)
decide_eq s t false e = no (refute s t e)

-- Shut, so that a proof meets it as a decision; a test unfolds it.
unfoldable pub string_dec : Discrete String
unfolding decide_eq refute
string_dec s t = decide_eq s t (text_eq s t) refl

instance abbrev pub string_key : Key String
string_key = record { dec = string_dec }

instance abbrev pub nat_key : Key ℕ
nat_key = record { dec = ℕ_discrete }

-- Python's `x in xs`
module _ {K : Type 0} ⦃e : Key K⦄ where
  unfoldable pub contains : K → List K → Bool
  contains x [] = false
  contains x (y ∷ ys) = ite (e.dec x y) true (contains x ys)

  pub contains-append :
      (x : K) (xs ys : List K) → contains x (xs ++ ys) ≡ contains x xs || contains x ys
  unfolding contains
  contains-append x [] ys = refl
  contains-append x (y ∷ xs) ys = ground (arith, contains-append x xs ys)

  -- `a == b`
  infix 50 ◌==◌
  abbrev pub ◌==◌ : K → K → Bool
  a == b = ite (e.dec a b) true false
