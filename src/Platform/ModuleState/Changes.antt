-- ===== src/Platform/ModuleState/Changes.antt =====
-- What `enable` and `disable` do to the set of enabled modules.
use karmevo_erp.Core.Modules.{ModuleManifest, ModuleCatalog, get, dependencies, dependents}
use karmevo_erp.Core.Modules.Order.{deps_of, IsOrdered}
use karmevo_erp.Platform.Registry.{
  Uuid, Registry, TenantModule, Failure, tenant_session, transaction, set_enabled, upsert,
}
use karmevo_erp.Platform.ModuleState.{
  enabled_in, in_catalog, upsert_all, enable_missing, enable_block, disable_block,
}
use karmevo_erp.Platform.ModuleState.Enabled.{
  stored, stored-set_enabled_self, stored-set_enabled_other,
}
use karmevo_erp.Prelude.{
  ℕ, String, Bool, true, false, not, ◌&&◌, ◌||◌, List, [], ◌∷◌, ◌++◌, some, ◌≡◌, inl, inr, ite,
  arith, ap, if◌then◌else◌, contains, contains-append, contains-keep, keep, lookup, string_key,
  string_dec, nat_key, ◌==◌, Result, ok, raise, ◌>>=◌, >>=-eq-ok, Bool-cases, Option-cases,
  ok-injective,
}

-- A permitted `upsert` is the change of the row of its own tenant and key.
pub upsert-eq-ok :
    (now : ℕ) (t : Uuid) (k : String) (b : Bool) (rows : List TenantModule)
    {out : List TenantModule}
    → upsert (tenant_session t) now t k b rows ≡ ok out
    → set_enabled t k b now rows ≡ out
unfolding upsert
upsert-eq-ok now t k b rows e = ground (arith, e)

pub upsert_all-stored :
    (now : ℕ) (t s : Uuid) (j : String) (ks : List String) (rows : List TenantModule)
    {out : List TenantModule}
    → upsert_all (tenant_session t) now t ks rows ≡ ok out
    → stored s j out ≡ stored s j rows || (s == t && contains j ks)
unfolding upsert_all contains
upsert_all-stored now t s j [] rows e = rw (← ok-injective e) (ground arith)
upsert_all-stored now t s j (k ∷ ks) rows e =
    let (rows', first, rest) = >>=-eq-ok (upsert (tenant_session t) now t k true rows) _ e in
    ground (
      arith,
      upsert-eq-ok now t k true rows first,
      upsert_all-stored now t s j ks rows' rest,
      stored-set_enabled_self t k true now rows,
      stored-set_enabled_other t s k j true now rows,
    )

-- The names that `enable` adds, from the enabled ones and the dependencies.
abbrev pub additions : String → (current needed : List String) → List String
additions key current needed =
    keep (λ d. not (contains d current)) needed ++ (if contains key current then [] else key ∷ [])

pub transaction-eq-ok :
    {S A : Type 0} (before : S) (r : Result Failure (A × S)) {a : A} {after : S}
    → transaction before r ≡ (ok a, after)
    → r ≡ ok (a, after)
transaction-eq-ok before (ok (x, s)) e = ground (arith, e)
transaction-eq-ok before (raise f) e = cc (ap (λ (p : Result Failure _ × _). p.0) e)

module _ (cat : ModuleCatalog) (now : ℕ) (t : Uuid) (key : String) (db : Registry) where
  pub installed_of-get :
      {A : Type 0} (f : ModuleManifest → Result Failure A) {a : A}
      → (in_catalog (get cat key) >>= f) ≡ ok a
      → (m : ModuleManifest) × (lookup key cat.modules ≡ some m) × (f m ≡ ok a)
  unfolding get
  installed_of-get f e = elim (Option-cases (lookup key cat.modules)) [
    | inl missing ↦ absurd (ground (arith, missing, e))
    | inr (m, found) ↦ (m, found, ground (arith, found, e))
  ]

  enable_missing-eq-ok :
      (current needed : List String) (wd : Bool) {newly : List String} {db' : Registry}
      → enable_missing cat now t key wd db current needed ≡ ok (newly, db')
      → (newly ≡ additions key current needed)
        × (upsert_all (tenant_session t) now t newly db.tenant_modules ≡ ok db'.tenant_modules)
  unfolding enable_missing
  enable_missing-eq-ok current needed wd e =
      let tried =
        upsert_all (tenant_session t) now t (additions key current needed) db.tenant_modules in
      ground (arith, e)

  pub enable_block-eq-ok :
      (current needed : List String) (wd : Bool) {newly : List String} {db' : Registry}
      → enabled_in cat (tenant_session t) t db ≡ ok current
      → dependencies cat key ≡ ok needed
      → enable_block cat now t key wd db ≡ ok (newly, db')
      → (newly ≡ additions key current needed)
        × (upsert_all (tenant_session t) now t newly db.tenant_modules ≡ ok db'.tenant_modules)
  unfolding enable_block
  enable_block-eq-ok current needed wd {newly} {db'} e1 e2 e =
      enable_missing-eq-ok current needed wd {newly = newly} {db' = db'} (ground (arith, e1, e2, e))

  pub disable_block-eq-ok :
      (current above : List String) {db' : Registry}
      → enabled_in cat (tenant_session t) t db ≡ ok current
      → dependents cat key ≡ ok above
      → disable_block cat now t key db ≡ ok (tt, db')
      → (keep (λ d. contains d current) above ≡ [])
        × (db'.tenant_modules ≡ (
            if contains key current
            then set_enabled t key false now db.tenant_modules
            else db.tenant_modules))
  unfolding disable_block upsert
  disable_block-eq-ok current above e1 e2 e = ground (arith, e1, e2, e)

-- What `additions` holds, given the sets that the code has read.
module _ (cat : ModuleCatalog) (key : String) (current needed : List String) where
  pub contains-additions :
      (k : String)
      → contains k (additions key current needed)
        ≡ ((contains k needed || ite (string_dec k key) true false) && not (contains k current))
  unfolding contains
  contains-additions k = ground (
    arith,
    contains-append k (keep (λ d. not (contains d current)) needed)
        (if contains key current then [] else key ∷ []),
    contains-keep (λ d. not (contains d current)) k needed,
  )

  -- In a list ordered behind nothing, what is not on is ordered behind what is on.
  pub IsOrdered-additions :
      (seen ks : List String)
      → IsOrdered cat.modules seen ks
      → (before : List String)
      → ((d : String) → contains d current || contains d seen ≡ true → contains d before ≡ true)
      → ((d : String)
          → contains d (deps_of cat.modules key) ≡ true
          → contains d seen || contains d ks ≡ true)
      → IsOrdered cat.modules before (
          keep (λ d. not (contains d current)) ks
          ++ (if contains key current then [] else key ∷ []))
  unfolding keep contains
  IsOrdered-additions seen [] h before sub last = elim (Bool-cases (contains key current)) [
    | inl on ↦ rw on tt
    | inr off ↦ rw off ((λ d e. sub d (ground (arith, last d e))), tt)
  ]
  IsOrdered-additions seen (k ∷ ks) h before sub last = elim (Bool-cases (contains k current)) [
    | inl on ↦ rw on (
        IsOrdered-additions (k ∷ seen) ks h.1 before
          (λ d e. elim (string_dec d k) [
            | yes same ↦ sub d (rw same (ground (arith, on)))
            | no other ↦ sub d (ground (arith, e))
          ])
          (λ d e. ground (arith, last d e)))
    | inr off ↦ rw off (
      λ d e. sub d (ground (arith, h.0 d e)),
      IsOrdered-additions (k ∷ seen) ks h.1 (k ∷ before)
          (λ d e. elim (string_dec d k) [
            | yes same ↦ ground arith
            | no other ↦ ground (arith, sub d (ground (arith, e)))
          ])
          (λ d e. ground (arith, last d e)),
    )
  ]
