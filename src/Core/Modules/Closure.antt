-- ===== src/Core/Modules/Closure.antt =====
-- The worklist loop of `dependencies`: it always ends, and it collects what can be reached.
use karmevo_erp.Core.Modules.{ModuleManifest, at_key, collect, edges}
use karmevo_erp.Core.Modules.Order.{deps_of}
use karmevo_erp.Prelude.{
  ℕ, zero, suc, ◌+◌, ◌≤◌, String, true, false, ◌||◌, List, [], ◌∷◌, ◌++◌, ◌≡◌, some, arith, reverse,
  contains, length, Dict, lookup, keys, string_key, refl, ok, Bool-cases, inl, inr, if◌then◌else◌,
  lookup_of-contains, contains-append, length-append, string_dec, Bool, ap, ◌∙◌,
}
use mathlib.Core.List.{reverse-cons}

pub contains-reverse : (x : String) (xs : List String) → contains x (reverse xs) ≡ contains x xs
unfolding contains
contains-reverse x [] = refl
contains-reverse x (y ∷ xs) =
    rw (reverse-cons)
      (ground (arith, contains-append x (reverse xs) (y ∷ []), contains-reverse x xs))

pub length-reverse : (xs : List String) → length (reverse xs) ≡ length xs
length-reverse [] = refl
length-reverse (y ∷ xs) =
    rw (reverse-cons) (omega (arith, length-append (reverse xs) (y ∷ []), length-reverse xs))

-- The dependencies declared by the modules that are not collected yet.
pub uncollected : List String → Dict String ModuleManifest → ℕ
uncollected needed [] = 0
uncollected needed ((k, m) ∷ d) =
    (if contains k needed then 0 else length m.depends_on) + uncollected needed d

pub uncollected-nil : (d : Dict String ModuleManifest) → uncollected [] d ≡ edges d
unfolding uncollected edges contains
uncollected-nil [] = refl
uncollected-nil ((k, m) ∷ d) = rw (uncollected-nil d)

uncollected-cons-le :
    (x : String) (needed : List String) (d : Dict String ModuleManifest)
    → uncollected (x ∷ needed) d ≤ uncollected needed d
unfolding uncollected contains
uncollected-cons-le x needed [] = omega arith
uncollected-cons-le x needed ((k, m) ∷ d) = ground (arith, uncollected-cons-le x needed d)

-- Collecting a module pays for the dependencies that it pushes.
uncollected-cons :
    (x : String) (needed : List String) (d : Dict String ModuleManifest) (m : ModuleManifest)
    → contains x needed ≡ false
    → lookup x d ≡ some m
    → uncollected (x ∷ needed) d + length m.depends_on ≤ uncollected needed d
unfolding uncollected contains lookup
uncollected-cons x needed [] m new found = cc
uncollected-cons x needed ((k, n) ∷ d) m new found =
    ground (arith, uncollected-cons-le x needed d, uncollected-cons x needed d m new)

pub deps_of_found :
    (modules : Dict String ModuleManifest) (d : String) (m : ModuleManifest)
    → lookup d modules ≡ some m
    → deps_of modules d ≡ m.depends_on
unfolding deps_of
deps_of_found modules d m found = rw (found, deps_of)

module _ (modules : Dict String ModuleManifest)
    (closed : (k d : String)
      → contains d (deps_of modules k) ≡ true
      → contains d (keys modules) ≡ true)
    (Goal : String → Type 0)
    (step : (k d : String) → Goal k → contains d (deps_of modules k) ≡ true → Goal d)
    (roots : List String) where
  -- What the loop keeps true of `needed` and `stack`.
  pub record Collecting (needed stack : List String) : Type 0 where
    pub installed : (x : String) → contains x stack ≡ true → contains x (keys modules) ≡ true
    pub sound : (x : String) → contains x needed || contains x stack ≡ true → Goal x
    pub follows :
        (x y : String)
        → contains x needed ≡ true
        → contains y (deps_of modules x) ≡ true
        → contains y needed || contains y stack ≡ true
    pub rooted :
        (x : String) → contains x roots ≡ true → contains x needed || contains x stack ≡ true

  contains-head : (d : String) (stack : List String) → contains d (d ∷ stack) ≡ true
  unfolding contains
  contains-head d stack = ground arith

  room :
      (d : String) (m : ModuleManifest) (stack needed : List String) (fuel : ℕ)
      → contains d needed ≡ false
      → lookup d modules ≡ some m
      → length (d ∷ stack) + uncollected needed modules ≤ suc fuel
      → length (reverse m.depends_on ++ stack) + uncollected (d ∷ needed) modules ≤ fuel
  room d m stack needed fuel new found le = omega (
    arith,
    le,
    length-append (reverse m.depends_on) stack,
    length-reverse m.depends_on,
    uncollected-cons d needed modules m new found,
  )

  skip :
      (d : String) (needed stack : List String)
      → contains d needed ≡ true
      → Collecting needed (d ∷ stack)
      → Collecting needed stack
  unfolding contains
  skip d needed stack old h = record {
    installed = λ x c. h.installed x (ground (arith, c));
    sound = λ x c. h.sound x (ground (arith, c));
    follows = λ x y c e. ground (arith, old, h.follows x y c e);
    rooted = λ x c. ground (arith, old, h.rooted x c);
  }

  expand :
      (d : String) (m : ModuleManifest) (needed stack : List String)
      → lookup d modules ≡ some m
      → Collecting needed (d ∷ stack)
      → Collecting (d ∷ needed) (reverse m.depends_on ++ stack)
  unfolding contains
  expand d m needed stack found h = record {
    installed = λ x c. grind (arith, pushed x, closed d x, h.installed x);
    sound = λ x c. elim (Bool-cases (contains x (deps_of modules d))) [
      | inl new ↦ step d x (h.sound d (ground arith)) new
      | inr other ↦ elim (string_dec x d) [
        | yes same ↦ rw same (h.sound d (ground arith))
        | no differs ↦ h.sound x (ground (arith, pushed x, c, other))
      ]
    ];
    follows = λ x y c e. elim (string_dec x d) [
      | yes same ↦ ground (arith, pushed y, rw same at e)
      | no differs ↦ ground (arith, pushed y, h.follows x y (ground (arith, c)) e)
    ];
    rooted = λ x c. ground (arith, pushed x, h.rooted x c);
  }
    where
      pushed :
          (x : String)
          → contains x (reverse m.depends_on ++ stack)
            ≡ contains x (deps_of modules d) || contains x stack
      pushed x = rw (deps_of_found modules d m found) (
          contains-append x (reverse m.depends_on) stack
          ∙ ap (λ (b : Bool). b || contains x stack) (contains-reverse x m.depends_on))

  -- With enough fuel the loop returns, and the stack is empty.
  pub collect-Collecting :
      (fuel : ℕ) (stack needed : List String)
      → length stack + uncollected needed modules ≤ fuel
      → Collecting needed stack
      → (out : List String) × (collect fuel modules stack needed ≡ ok out) × Collecting out []
  unfolding collect at_key
  collect-Collecting fuel [] needed le h = (needed, refl, h)
  collect-Collecting zero (d ∷ stack) needed le h = absurd (omega arith)
  collect-Collecting (suc fuel) (d ∷ stack) needed le h = elim (Bool-cases (contains d needed)) [
    | inl old ↦
        rw old (collect-Collecting fuel stack needed (omega arith) (skip d needed stack old h))
    | inr new ↦
        let (m, found) = lookup_of-contains d modules (h.installed d (contains-head d stack)) in
        rw (new, at_key, found)
          (collect-Collecting fuel (reverse m.depends_on ++ stack) (d ∷ needed)
            (room d m stack needed fuel new found le) (expand d m needed stack found h))
  ]
