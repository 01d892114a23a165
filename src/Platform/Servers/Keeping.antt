-- ===== src/Platform/Servers/Keeping.antt =====
-- What no step on the servers changes: the registry, which databases exist, and who owns them.
use karmevo_erp.Core.Databases.{ValueError}
use karmevo_erp.Platform.Registry.{Uuid}
use karmevo_erp.Platform.Servers.{
  Trouble, TenantDatabase, World, M, after, ◌>>=◌, checked, is_at, find, change,
}
use karmevo_erp.Prelude.{
  String, List, [], ◌∷◌, ◌++◌, some, ◌≡◌, refl, arith, if◌then◌else◌, string_key, nat_key, any,
  find_first, Result, ok, raise, Bool-cases, inl, inr, ◌∙◌,
}

-- A relation of the worlds before and after, for steps that are made of others.
module _ (R : World → World → Type 0) where
  abbrev pub Keeps : {A : Type 0} → M A → Type 0
  Keeps m = (w : World) → R w (m w).1

  module _ (trans : (a b c : World) → R a b → R b c → R a c) where
    Keeps-after :
        {A B : Type 0} (f : A → M B) (w : World) (r : Result Trouble A × World)
        → R w r.1
        → ((a : A) → Keeps (f a))
        → R w (after f r).1
    Keeps-after f w (ok a, w') first rest = trans w w' (f a w').1 first (rest a w')
    Keeps-after f w (raise e, w') first rest = first

    pub Keeps-bind :
        {A B : Type 0} (m : M A) (f : A → M B) → Keeps m → ((a : A) → Keeps (f a)) → Keeps (m >>= f)
    Keeps-bind m f first rest w = Keeps-after f w (m w) (first w) rest

  pub Keeps-checked :
      {A : Type 0} → ((w : World) → R w w) → (r : Result ValueError A) → Keeps (checked r)
  Keeps-checked same (ok a) w = same w
  Keeps-checked same (raise e) w = same w

module _ (server name s n : String) (f : TenantDatabase → TenantDatabase)
    (placed : (d : TenantDatabase) → is_at s n (f d) ≡ is_at s n d) where
  pub any-change :
      (ds : List TenantDatabase) → any (is_at s n) (change server name f ds) ≡ any (is_at s n) ds
  unfolding change any
  any-change [] = refl
  any-change (d ∷ ds) = ground (arith, placed d, any-change ds)

  pub find-change :
      (ds : List TenantDatabase) (d : TenantDatabase)
      → find s n ds ≡ some d
      → find s n (change server name f ds) ≡ some (if is_at server name d then f d else d)
  unfolding change find find_first
  find-change [] d h = cc
  find-change (x ∷ ds) d h = elim (Bool-cases (is_at s n x)) [
    | inl here ↦ ground (arith, h, here, placed x)
    | inr later ↦ ground (arith, h, later, placed x, find-change ds d)
  ]

pub find-append :
    (s n : String) (ds : List TenantDatabase) (new d : TenantDatabase)
    → find s n ds ≡ some d
    → find s n (ds ++ new ∷ []) ≡ some d
unfolding find find_first
find-append s n [] new d h = cc
find-append s n (x ∷ ds) new d h = ground (arith, h, find-append s n ds new d)

-- The registry is as it was, every database is still there, and one that belongs to a tenant still
-- belongs to it.
pub record Kept (w w' : World) : Type 0 where
  pub registry : w'.registry ≡ w.registry
  pub databases :
      (s n : String) (d : TenantDatabase)
      → find s n w.databases ≡ some d
      → (d' : TenantDatabase) × (find s n w'.databases ≡ some d')
        × ((u : Uuid) → d.bound ≡ some u → d'.bound ≡ some u)

-- No database is created or dropped.
abbrev pub SamePlaces : World → World → Type 0
SamePlaces w w' = (s n : String) → any (is_at s n) w'.databases ≡ any (is_at s n) w.databases

pub Kept-refl : (w : World) → Kept w w
Kept-refl w = record { registry = refl; databases = λ s n d h. (d, h, λ u e. e) }

pub Kept-trans : (a b c : World) → Kept a b → Kept b c → Kept a c
Kept-trans a b c p q = record {
  registry = q.registry ∙ p.registry;
  databases = λ s n d h.
      let (d', found, owner) = p.databases s n d h in
      let (d'', found', owner') = q.databases s n d' found in
      (d'', found', λ u e. owner' u (owner u e));
}

pub SamePlaces-trans : (a b c : World) → SamePlaces a b → SamePlaces b c → SamePlaces a c
SamePlaces-trans a b c p q s n = q s n ∙ p s n
