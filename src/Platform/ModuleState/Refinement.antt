-- ===== src/Platform/ModuleState/Refinement.antt =====
-- The modules of tenants as their users see them: which module is on for which tenant, without rows,
-- transactions or lists of keys; and that the code keeps to it.
use karmevo_erp.Core.Modules.{ModuleCatalog}
use karmevo_erp.Core.Modules.Catalogue.{IsCatalogue}
use karmevo_erp.Core.Modules.Dependencies.{Reaches}
use karmevo_erp.Platform.ModuleState.{enable, disable}
use karmevo_erp.Platform.ModuleState.Closed.{Change, enabling, disabling, change, change_all}
use karmevo_erp.Platform.ModuleState.Effects.{IsEnabling, IsDisabling, enable_lem, disable_lem}
use karmevo_erp.Platform.ModuleState.Enabled.{is_on}
use karmevo_erp.Platform.Registry.{Uuid, Registry, Failure, transaction}
use karmevo_erp.Prelude.{
  ℕ, String, Bool, true, false, List, [], ◌∷◌, ◌≡◌, ◌≢◌, ◌⊎◌, ◌↔◌, inl, inr, refl, Result, ok,
  raise, string_key, Bool-cases, arith,
}

abbrev pub View : Type 0
View = Uuid → String → Bool

abbrev pub view : ModuleCatalog → Registry → View
view cat db t k = is_on cat t k db.tenant_modules

-- What a change does to the view, if it returns and if it raises.
abbrev pub Moves : ModuleCatalog → View → Change → Bool → View → Type 0
Moves cat s c false s' = (t : Uuid) (k : String) → s' t k ≡ s t k
Moves cat s (enabling now t key with_dependencies) true s' =
    ((k : String) → (s' t k ≡ true) ↔ ((s t k ≡ true) ⊎ ((k ≡ key) ⊎ Reaches cat.modules key k)))
    × ((u : Uuid) (k : String) → u ≢ t → s' u k ≡ s u k)
Moves cat s (disabling now t key) true s' =
    ((k : String) → (s' t k ≡ true) ↔ ((s t k ≡ true) × (k ≢ key)))
    × ((k : String) → s t k ≡ true → ¬ Reaches cat.modules k key)
    × ((u : Uuid) (k : String) → u ≢ t → s' u k ≡ s u k)

-- Changes one after another, each with whether it returned.
abbrev pub Runs : ModuleCatalog → View → List Change → List Bool → View → Type 0
Runs cat s [] [] s' = (t : Uuid) (k : String) → s' t k ≡ s t k
Runs cat s (c ∷ cs) (b ∷ bs) s' =
    (between : View) × Moves cat s c b between × Runs cat between cs bs s'
Runs cat s _ _ s' = ⊥

abbrev pub returned : {A : Type 0} → Result Failure A × Registry → Bool
returned (ok a, db) = true
returned (raise e, db) = false

unfoldable pub succeeds : ModuleCatalog → Change → Registry → Bool
succeeds cat (enabling now t key deep) db = returned (enable cat now t key deep db)
succeeds cat (disabling now t key) db = returned (disable cat now t key db)

unfoldable pub successes : ModuleCatalog → List Change → Registry → List Bool
successes cat [] db = []
successes cat (c ∷ cs) db = succeeds cat c db ∷ successes cat cs (change cat c db)

module _ (cat : ModuleCatalog) (valid : IsCatalogue cat) where
  moved :
      {A : Type 0} (c : Change) (db : Registry) (block : Result Failure (A × Registry))
      → ((a : A) (db' : Registry)
          → transaction db block ≡ (ok a, db')
          → Moves cat (view cat db) c true (view cat db'))
      → Moves cat
          (view cat db)
          c
          (returned (transaction db block))
          (view cat (transaction db block).1)
  moved c db (ok (a, db')) f = f a db' refl
  moved c db (raise e) f = λ t k. refl

  enabling-Moves :
      (now : ℕ) (t : Uuid) (key : String) (deep : Bool) (db db' : Registry) (newly : List String)
      → IsEnabling cat t key db db' newly
      → Moves cat (view cat db) (enabling now t key deep) true (view cat db')
  enabling-Moves now t key deep db db' newly eff = (λ k. (forth k, back k), eff.others)
    where
      forth :
          (k : String)
          → view cat db' t k ≡ true
          → (view cat db t k ≡ true) ⊎ ((k ≡ key) ⊎ Reaches cat.modules key k)
      forth k on = elim (Bool-cases (view cat db t k)) [
        | inl already ↦ inl already
        | inr off ↦ inr ((eff.added k).0 (ground (arith, eff.exact k, on, off))).0
      ]

      back :
          (k : String)
          → (view cat db t k ≡ true) ⊎ ((k ≡ key) ⊎ Reaches cat.modules key k)
          → view cat db' t k ≡ true
      back k (inl on) = ground (arith, eff.exact k, on)
      back k (inr needed) = elim (Bool-cases (view cat db t k)) [
        | inl on ↦ ground (arith, eff.exact k, on)
        | inr off ↦ ground (arith, eff.exact k, (eff.added k).1 (needed, off))
      ]

  disabling-Moves :
      (now : ℕ) (t : Uuid) (key : String) (db db' : Registry)
      → IsDisabling cat t key db db'
      → Moves cat (view cat db) (disabling now t key) true (view cat db')
  disabling-Moves now t key db db' eff = (
    λ k. (
      (λ on. ((ground (arith, eff.exact k, on)), λ same. ground (arith, eff.exact k, on, same))),
      λ (on, other). ground (arith, eff.exact k, on, other),
    ),
    eff.unneeded,
    eff.others,
  )

  change-Moves :
      (c : Change) (db : Registry)
      → Moves cat (view cat db) c (succeeds cat c db) (view cat (change cat c db))
  unfolding change succeeds enable disable
  change-Moves (enabling now t key deep) db = moved (enabling now t key deep) db _ λ newly db' e.
      enabling-Moves now t key deep db db' newly
        (enable_lem cat valid now t key db db' deep newly e)
  change-Moves (disabling now t key) db =
      moved (disabling now t key) db _
        λ u db' e. disabling-Moves now t key db db' (disable_lem cat valid now t key db db' e)

  -- Any history of calls of `enable` and `disable` is, to its users, one of changes to a table of which
  -- module is on for which tenant: a call that raises changes nothing; one of `enable` that returns
  -- turns on the module and all it depends on; one of `disable` that returns turns off the module,
  -- on which nothing that was on depends; and other tenants see neither.
  pub change_all-Runs :
      (cs : List Change) (db : Registry)
      → Runs cat (view cat db) cs (successes cat cs db) (view cat (change_all cat cs db))
  unfolding change_all successes
  change_all-Runs [] db = λ t k. refl
  change_all-Runs (c ∷ cs) db =
      (view cat (change cat c db), change-Moves c db, change_all-Runs cs (change cat c db))
