-- ===== src/Platform/ModuleState/Effects.antt =====
-- A successful `enable` or `disable`, as a change of the set of enabled modules.
use karmevo_erp.Core.Modules.{ModuleManifest, ModuleCatalog, core_keys}
use karmevo_erp.Core.Modules.Order.{IsOrdered}
use karmevo_erp.Core.Modules.Catalogue.{IsCatalogue}
use karmevo_erp.Core.Modules.Dependencies.{
  Reaches, direct, IsDependencies, dependencies_lem, dependents_lem, Reaches-installed,
}
use karmevo_erp.Platform.Registry.{Uuid, Registry, TenantModule, tenant_session, set_enabled}
use karmevo_erp.Platform.ModuleState.{upsert_all, enable_block, enable, disable}
use karmevo_erp.Platform.ModuleState.Enabled.{
  is_on, stored-set_enabled_self, stored-set_enabled_other, enabled_in_lem, core_keys-lookup,
  core_keys-core,
}
use karmevo_erp.Platform.ModuleState.Changes.{
  additions, upsert_all-stored, transaction-eq-ok, installed_of-get, enable_block-eq-ok,
  disable_block-eq-ok, contains-additions, IsOrdered-additions,
}
use karmevo_erp.Prelude.{
  ℕ, String, Bool, true, false, not, ◌&&◌, ◌||◌, List, [], some, ◌≡◌, ◌≢◌, ◌↔◌, ◌⊎◌, inl, inr, ite,
  arith, ap, if◌then◌else◌, contains, contains-keep, keep, lookup, contains_of-lookup, keys,
  string_key, string_dec, nat_key, ◌==◌, ok, Bool-cases, ◌∙◌,
}

module _ (cat : ModuleCatalog) (t : Uuid) (key : String) (db db' : Registry) where
  abbrev pub On : Uuid → String → Bool
  On s k = is_on cat s k db.tenant_modules

  abbrev pub On' : Uuid → String → Bool
  On' s k = is_on cat s k db'.tenant_modules

  pub record IsEnabling (newly : List String) : Type 0 where
    pub exact : (k : String) → On' t k ≡ On t k || contains k newly
    pub added :
        (k : String)
        → (contains k newly ≡ true) ↔ (((k ≡ key) ⊎ Reaches cat.modules key k) × (On t k ≡ false))
    pub in_order :
        (before : List String) × ((k : String) → contains k before ≡ On t k)
        × IsOrdered cat.modules before newly
    pub others : (s : Uuid) (k : String) → s ≢ t → On' s k ≡ On s k

  pub record IsDisabling : Type 0 where
    pub exact : (k : String) → On' t k ≡ On t k && not (k == key)
    pub optional : contains key (core_keys cat) ≡ false
    pub unneeded : (k : String) → On t k ≡ true → ¬ Reaches cat.modules k key
    pub others : (s : Uuid) (k : String) → s ≢ t → On' s k ≡ On s k

is_on-upsert_all :
    (cat : ModuleCatalog) (now : ℕ) (t : Uuid) (k : String) (newly : List String)
    (db db' : Registry)
    → upsert_all (tenant_session t) now t newly db.tenant_modules ≡ ok db'.tenant_modules
    → (contains k newly ≡ true → contains k (keys cat.modules) ≡ true)
    → is_on cat t k db'.tenant_modules ≡ is_on cat t k db.tenant_modules || contains k newly
unfolding is_on
is_on-upsert_all cat now t k newly db db' written installed =
    grind (arith, upsert_all-stored now t t k newly db.tenant_modules written, installed)

is_on-upsert_all_other :
    (cat : ModuleCatalog) (now : ℕ) (t s : Uuid) (k : String) (newly : List String)
    (db db' : Registry)
    → upsert_all (tenant_session t) now t newly db.tenant_modules ≡ ok db'.tenant_modules
    → s ≢ t
    → is_on cat s k db'.tenant_modules ≡ is_on cat s k db.tenant_modules
unfolding is_on
is_on-upsert_all_other cat now t s k newly db db' written ne =
    ground (arith, upsert_all-stored now t s k newly db.tenant_modules written, ne)

module _ (cat : ModuleCatalog) (valid : IsCatalogue cat) (now : ℕ) (t : Uuid) (key : String)
    (db db' : Registry) where
  enabling :
      (there : contains key (keys cat.modules) ≡ true) (current needed newly : List String)
      → ((k : String) → contains k current ≡ is_on cat t k db.tenant_modules)
      → IsDependencies cat valid key needed
      → newly ≡ additions key current needed
      → upsert_all (tenant_session t) now t newly db.tenant_modules ≡ ok db'.tenant_modules
      → IsEnabling cat t key db db' newly
  unfolding contains
  enabling there current needed newly read deps same written = record {
    exact = λ k. exact k (Bool-cases (contains k newly));
    added = λ k. (added k, added_back k);
    in_order = (
      current,
      read,
      rw same (
          IsOrdered-additions cat key current needed [] needed deps.in_enable_order current
            (λ d e. ground (arith, e)) (λ d e. ground (arith, (deps.exact d).1 (direct d e)))),
    );
    others = λ s k ne. others s k ne;
  }
    where
      in_newly :
          (k : String)
          → contains k newly ≡ (
              (contains k needed || ite (string_dec k key) true false)
              && not (is_on cat t k db.tenant_modules))
      in_newly k = rw (same, ← read k) (contains-additions cat key current needed k)

      added :
          (k : String)
          → contains k newly ≡ true
          → ((k ≡ key) ⊎ Reaches cat.modules key k) × (is_on cat t k db.tenant_modules ≡ false)
      added k e = elim (string_dec k key) [
        | yes q ↦ (inl q, ground (arith, in_newly k, e))
        | no q ↦ (
          inr ((deps.exact k).0 (ground (arith, in_newly k, e, q))),
          ground (arith, in_newly k, e),
        )
      ]

      added_back :
          (k : String)
          → ((k ≡ key) ⊎ Reaches cat.modules key k) × (is_on cat t k db.tenant_modules ≡ false)
          → contains k newly ≡ true
      added_back k (inl q, off) = ground (arith, in_newly k, q, off)
      added_back k (inr r, off) = ground (arith, in_newly k, (deps.exact k).1 r, off)

      installed : (k : String) → contains k newly ≡ true → contains k (keys cat.modules) ≡ true
      installed k e = elim (added k e).0 [
        | inl q ↦ rw q there
        | inr r ↦ Reaches-installed cat valid r
      ]

      exact :
          (k : String)
          → (contains k newly ≡ true) ⊎ (contains k newly ≡ false)
          → is_on cat t k db'.tenant_modules ≡ is_on cat t k db.tenant_modules || contains k newly
      exact k c = is_on-upsert_all cat now t k newly db db' written (installed k)

      others :
          (s : Uuid) (k : String)
          → s ≢ t
          → is_on cat s k db'.tenant_modules ≡ is_on cat s k db.tenant_modules
      others s k ne = is_on-upsert_all_other cat now t s k newly db db' written ne

  -- A successful `enable` turns on the module and those of its transitive dependencies that were
  -- off, and returns exactly these, each behind its own dependencies; nothing else changes, for
  -- this tenant or another.
  pub enable_lem :
      (with_dependencies : Bool) (newly : List String)
      → enable cat now t key with_dependencies db ≡ (ok newly, db')
      → IsEnabling cat t key db db' newly
  unfolding enable
  enable_lem wd newly e =
      let (m, found, block) =
        installed_of-get cat now t key db (λ _. enable_block cat now t key wd db)
          (transaction-eq-ok db _ e) in
      let there = contains_of-lookup key m cat.modules found in
      let (current, read_ok, read) = enabled_in_lem cat valid t db in
      let (needed, deps_ok, deps) = dependencies_lem cat valid key there in
      let (same, written) =
        enable_block-eq-ok cat now t key db current needed wd {newly = newly} {db' = db'} read_ok
          deps_ok block in
      enabling there current needed newly read deps same written

  pub is_on-installed :
      (rows : List TenantModule) (k : String)
      → is_on cat t k rows ≡ true
      → contains k (keys cat.modules) ≡ true
  unfolding is_on
  is_on-installed rows k on = elim (Bool-cases (contains k (core_keys cat))) [
    | inl core ↦
        let (m, found, _) = core_keys-core cat valid k core in
        contains_of-lookup k m cat.modules found
    | inr other ↦ ground (arith, on, other)
  ]

  disabling :
      (m : ModuleManifest) (current above : List String)
      → lookup key cat.modules ≡ some m
      → m.core ≡ false
      → ((k : String) → contains k current ≡ is_on cat t k db.tenant_modules)
      → ((x : String)
          → (contains x above ≡ true)
            ↔ ((contains x (keys cat.modules) ≡ true) × Reaches cat.modules x key))
      → keep (λ d. contains d current) above ≡ []
      → db'.tenant_modules ≡ (
          if contains key current
          then set_enabled t key false now db.tenant_modules
          else db.tenant_modules)
      → IsDisabling cat t key db db'
  unfolding is_on contains
  disabling m current above found optional read upward free written = record {
    exact = λ k. ground (
      arith,
      written,
      read key,
      not_core,
      stored-set_enabled_self t key false now db.tenant_modules,
      stored-set_enabled_other t t key k false now db.tenant_modules,
    );
    optional = not_core;
    unneeded = λ k on r. ground (
      arith,
      ap (λ (l : List String). contains k l) free,
      contains-keep (λ d. contains d current) k above,
      (upward k).1 (is_on-installed db.tenant_modules k on, r),
      read k,
      on,
    );
    others = λ s k ne.
        ground (arith, written, ne, stored-set_enabled_other t s key k false now db.tenant_modules);
  }
    where
      not_core : contains key (core_keys cat) ≡ false
      not_core = core_keys-lookup cat valid key m found ∙ optional

  -- A successful `disable` turns off the module and nothing else; the module is optional, and no
  -- module that is on depends on it, directly or not.
  pub disable_lem : disable cat now t key db ≡ (ok tt, db') → IsDisabling cat t key db db'
  unfolding disable
  disable_lem e =
      let (m, found, block) = installed_of-get cat now t key db _ (transaction-eq-ok db _ e) in
      let there = contains_of-lookup key m cat.modules found in
      let (current, read_ok, read) = enabled_in_lem cat valid t db in
      let (above, up_ok, upward) = dependents_lem cat valid key there in
      elim (Bool-cases m.core) [
        | inl core ↦ absurd (ground (arith, core, block))
        | inr optional ↦
            let (free, written) =
              disable_block-eq-ok cat now t key db current above {db' = db'} read_ok up_ok
                (rw optional at block) in
            disabling m current above found optional read upward free written
      ]
