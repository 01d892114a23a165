-- ===== src/Prelude/Results.antt =====
-- Calls that return a value or raise an exception.
use mathlib.Core.Path.{◌≡◌, refl}

pub data Result (E A : Type 0) : Type 0 where
  ok : A → Result E A
  raise : E → Result E A

infixl 5 ◌>>=◌ ◌>>◌
abbrev pub ◌>>=◌ : {E A B : Type 0} → Result E A → (A → Result E B) → Result E B
raise failure >>= next = raise failure
ok value >>= next = next value

abbrev pub ◌>>◌ : {E A B : Type 0} → Result E A → Result E B → Result E B
first >> after = first >>= λ ignored. after

-- What a successful chain went through.
pub >>=-eq-ok :
    {E A B : Type 0} (call : Result E A) (next : A → Result E B) {result : B}
    → (call >>= next) ≡ ok result
    → (value : A) × (call ≡ ok value) × (next value ≡ ok result)
>>=-eq-ok (ok value) next returned = (value, refl, returned)
>>=-eq-ok (raise failure) next returned = cc

pub ok-injective : {E A : Type 0} {a b : A} → ◌≡◌ {A = Result E A} (ok a) (ok b) → a ≡ b
ok-injective h = cc h

-- `P` of what is returned, `Q` of what is raised.
abbrev pub Outcome : {E A : Type 0} → (A → Type 0) → (E → Type 0) → Result E A → Type 0
Outcome P Q (ok a) = P a
Outcome P Q (raise e) = Q e

pub Outcome-bind :
    {E A B : Type 0} (P : A → Type 0) (R : B → Type 0) (Q : E → Type 0) (m : Result E A)
    (f : A → Result E B)
    → Outcome P Q m
    → ((a : A) → m ≡ ok a → P a → Outcome R Q (f a))
    → Outcome R Q (m >>= f)
Outcome-bind P R Q (ok a) f h k = k a refl h
Outcome-bind P R Q (raise e) f h k = h
