-- ===== src/Platform/ModuleState/Closed.antt =====
-- Sequences of calls that enable and disable modules.
use karmevo_erp.Core.Modules.{ModuleCatalog, core_keys}
use karmevo_erp.Core.Modules.Catalogue.{IsCatalogue}
use karmevo_erp.Core.Modules.Dependencies.{Reaches, direct, further}
use karmevo_erp.Platform.Registry.{Uuid, Registry, TenantModule, Failure, transaction}
use karmevo_erp.Platform.ModuleState.{enable, disable}
use karmevo_erp.Platform.ModuleState.Enabled.{stored, is_on, core_keys-closed}
use karmevo_erp.Platform.ModuleState.Effects.{IsEnabling, IsDisabling, enable_lem, disable_lem}
use karmevo_erp.Prelude.{
  ℕ, String, Bool, true, List, [], ◌∷◌, ◌≡◌, inl, inr, refl, arith, contains, string_key,
  string_dec, nat_key, Result, ok, raise, Bool-cases, subst, sym, ◌∙◌,
}
use native.Mathlib.Decide.{ℕ_discrete}

-- A call of the operator.
pub data Change : Type 0 where
  enabling : (now : ℕ) (tenant_id : Uuid) (key : String) (with_dependencies : Bool) → Change
  disabling : (now : ℕ) (tenant_id : Uuid) (key : String) → Change

-- The registry after the call, whether it returns or raises.
unfoldable pub change : ModuleCatalog → Change → Registry → Registry
change cat (enabling now t key wd) db = (enable cat now t key wd db).1
change cat (disabling now t key) db = (disable cat now t key db).1

unfoldable pub change_all : ModuleCatalog → List Change → Registry → Registry
change_all cat [] db = db
change_all cat (c ∷ cs) db = change_all cat cs (change cat c db)

-- Every module that is on for a tenant has all that it depends on turned on for that tenant.
abbrev pub IsClosed : ModuleCatalog → Registry → Type 0
IsClosed cat db =
    (t : Uuid) (k d : String)
    → is_on cat t k db.tenant_modules ≡ true
    → Reaches cat.modules k d
    → is_on cat t d db.tenant_modules ≡ true

module _ (cat : ModuleCatalog) (db db' : Registry) (t : Uuid) (key : String)
    (h : IsClosed cat db) where
  IsClosed-enabling : (newly : List String) → IsEnabling cat t key db db' newly → IsClosed cat db'
  IsClosed-enabling newly eff s k d on r = elim (ℕ_discrete s t) [
    | no other ↦
        ground (arith, eff.others s d other, h s k d (ground (arith, eff.others s k other, on)) r)
    | yes same ↦ rw same (own k d (rw same at on) r)
  ]
    where
      turned_on : (d : String) → Reaches cat.modules key d → is_on cat t d db'.tenant_modules ≡ true
      turned_on d r = elim (Bool-cases (is_on cat t d db.tenant_modules)) [
        | inl already ↦ ground (arith, eff.exact d, already)
        | inr off ↦ ground (arith, eff.exact d, off, (eff.added d).1 (inr r, off))
      ]

      joined :
          {a b : String}
          → Reaches cat.modules key a
          → Reaches cat.modules a b
          → Reaches cat.modules key b
      joined p (direct b e) = further _ b p e
      joined p (further c b q e) = further c b (joined p q) e

      own :
          (k d : String)
          → is_on cat t k db'.tenant_modules ≡ true
          → Reaches cat.modules k d
          → is_on cat t d db'.tenant_modules ≡ true
      own k d on r = elim (Bool-cases (contains k newly)) [
        | inl new ↦ elim ((eff.added k).0 new).0 [
          | inl is_key ↦ turned_on d (subst (λ x. Reaches cat.modules x d) is_key r)
          | inr below ↦ turned_on d (joined below r)
        ]
        | inr old ↦ ground (arith, eff.exact d, h t k d (ground (arith, eff.exact k, on, old)) r)
      ]

  IsClosed-disabling : IsDisabling cat t key db db' → IsClosed cat db'
  IsClosed-disabling eff s k d on r = elim (ℕ_discrete s t) [
    | no other ↦
        ground (arith, eff.others s d other, h s k d (ground (arith, eff.others s k other, on)) r)
    | yes same ↦ rw same (own (rw same at on))
  ]
    where
      own : is_on cat t k db'.tenant_modules ≡ true → is_on cat t d db'.tenant_modules ≡ true
      own on' =
          let on_before : is_on cat t k db.tenant_modules ≡ true =
            ground (arith, eff.exact k, on') in
          elim (string_dec d key) [
            | yes q ↦ absurd (eff.unneeded k on_before (subst (λ x. Reaches cat.modules k x) q r))
            | no q ↦ ground (arith, eff.exact d, h t k d on_before r, q)
          ]

kept_or_undone :
    {A : Type 0} (P : Registry → Type 0) (db : Registry) (r : Result Failure (A × Registry))
    → P db
    → ((a : A) (db' : Registry) → transaction db r ≡ (ok a, db') → P db')
    → P (transaction db r).1
kept_or_undone P db (ok (a, db')) h f = f a db' refl
kept_or_undone P db (raise e) h f = h

module _ (cat : ModuleCatalog) (valid : IsCatalogue cat) where
  change-IsClosed : (c : Change) (db : Registry) → IsClosed cat db → IsClosed cat (change cat c db)
  unfolding change enable disable
  change-IsClosed (enabling now t key wd) db h = kept_or_undone (IsClosed cat) db _ h λ newly db' e.
      IsClosed-enabling cat db db' t key h newly (enable_lem cat valid now t key db db' wd newly e)
  change-IsClosed (disabling now t key) db h =
      kept_or_undone (IsClosed cat) db _ h
        λ u db' e. IsClosed-disabling cat db db' t key h (disable_lem cat valid now t key db db' e)

  -- If every enabled module has all its transitive dependencies enabled, for every tenant, this
  -- still holds after any calls of `enable` and `disable`, successful or not.
  pub change_all-IsClosed :
      (cs : List Change) (db : Registry) → IsClosed cat db → IsClosed cat (change_all cat cs db)
  unfolding change_all
  change_all-IsClosed [] db h = h
  change_all-IsClosed (c ∷ cs) db h =
      change_all-IsClosed cs (change cat c db) (change-IsClosed c db h)

  core_below :
      {k d : String}
      → contains k (core_keys cat) ≡ true
      → Reaches cat.modules k d
      → contains d (core_keys cat) ≡ true
  core_below c (direct d e) = core_keys-closed cat valid _ d c e
  core_below c (further x d r e) = core_keys-closed cat valid x d (core_below c r) e

  none_on :
      (t : Uuid) (x : String) (rows : List TenantModule)
      → rows ≡ []
      → is_on cat t x rows ≡ contains x (core_keys cat)
  unfolding is_on stored
  none_on t x rows e = rw e (ground arith)

  -- Where no module has been enabled yet, only core modules are on, and they need core modules only.
  pub fresh-IsClosed : (db : Registry) → db.tenant_modules ≡ [] → IsClosed cat db
  unfolding is_on stored
  fresh-IsClosed db none_yet t k d on r =
      let only_core : (x : String) → is_on cat t x db.tenant_modules ≡ contains x (core_keys cat) =
        λ x. none_on t x db.tenant_modules none_yet in
      only_core d ∙ core_below (sym (only_core k) ∙ on) r
