-- ===== src/Platform/ModuleState/Guards.antt =====
-- When `require`, `enable` and `disable` succeed and when they refuse.
use Prim.Native.String.{count as char_count}
use karmevo_erp.Core.Modules.{
  ModuleManifest, ModuleCatalog, get, core_keys, dependencies, dependents,
}
use karmevo_erp.Core.Modules.Catalogue.{IsCatalogue}
use karmevo_erp.Core.Modules.Dependencies.{
  Reaches, IsDependencies, dependencies_lem, dependents_lem, Reaches-installed,
}
use karmevo_erp.Platform.Registry.{
  Uuid, Registry, TenantModule, Failure, domain, tenant_session, lock, upsert, set_enabled,
}
use karmevo_erp.Platform.ModuleState.{
  enabled_in, is_nil, lock_tenant, upsert_all, require, enable_missing, enable_block, enable,
  disable_block, disable,
}
use karmevo_erp.Platform.ModuleState.Enabled.{is_on, enabled_in_lem, core_keys-lookup}
use karmevo_erp.Platform.ModuleState.Changes.{additions, contains-additions}
use karmevo_erp.Platform.ModuleState.Effects.{is_on-installed}
use karmevo_erp.Prelude.{
  ℕ, String, Bool, true, false, not, List, [], ◌∷◌, some, ◌≡◌, ◌⊎◌, inl, inr, refl, arith, leb,
  contains, contains-keep, keep, lookup, lookup_of-contains, keys, string_key, nat_key, Result, ok,
  raise, Bool-cases, sym, ◌∙◌, string_dec,
}

-- The call raises a domain error with this status and code.
abbrev pub Refuses : {A : Type 0} → ℕ → String → Result Failure A → Type 0
Refuses status code (ok a) = ⊥
Refuses status code (raise (domain e)) = (e.status ≡ status) × (e.code ≡ code)
Refuses status code (raise _) = ⊥

-- The call returns for an enabled module, and refuses for a disabled one.
abbrev pub Answers : Bool → Result Failure (Unit {0}) → Type 0
Answers true r = r ≡ ok tt
Answers false r = Refuses 403 "MODULE_DISABLED" r

module _ (cat : ModuleCatalog) (valid : IsCatalogue cat) (t : Uuid) (key : String)
    (db : Registry) where
  -- `require` of an installed module returns if the module is on for the tenant, and refuses with
  -- 403 MODULE_DISABLED if it is off.
  pub require_lem :
      contains key (keys cat.modules) ≡ true
      → Answers (is_on cat t key db.tenant_modules) (require cat t key db)
  unfolding require get
  require_lem there =
      let (current, read_ok, read) = enabled_in_lem cat valid t db in
      let (m, found) = lookup_of-contains key cat.modules there in
      elim (Bool-cases (is_on cat t key db.tenant_modules)) [
        | inl on ↦ rw on (ground (arith, read_ok, read key, on))
        | inr off ↦ rw off (rw (read_ok, read key, off, found, get) (refl, refl))
      ]

  keep_none :
      (p : String → Bool) (xs : List String)
      → ((x : String) → contains x xs ≡ true → p x ≡ false)
      → keep p xs ≡ []
  unfolding keep contains
  keep_none p [] h = refl
  keep_none p (x ∷ xs) h = rw (h x (ground arith)) (keep_none p xs (λ y e. h y (ground (arith, e))))

  is_nil-false : (x : String) (xs : List String) → contains x xs ≡ true → is_nil xs ≡ false
  unfolding contains
  is_nil-false x [] h = cc
  is_nil-false x (y ∷ ys) h = refl

  module _ (now : ℕ) (locked : lock db t ≡ true)
      (there : contains key (keys cat.modules) ≡ true) where
    additions_installed :
        (current needed : List String)
        → IsDependencies cat valid key needed
        → (k : String) → contains k (additions key current needed) ≡ true
        → contains k (keys cat.modules) ≡ true
    additions_installed current needed deps k h = elim (string_dec k key) [
      | yes same ↦ rw same there
      | no other ↦
          Reaches-installed cat valid (
            (deps.exact k).0
              (ground (arith, contains-additions cat key current needed k, h, other)))
    ]

    upsert_all_total :
        (ks : List String) (rows : List TenantModule)
        → ((k : String) → contains k ks ≡ true → leb (char_count k) 64 ≡ true)
        → (out : List TenantModule) × (upsert_all (tenant_session t) now t ks rows ≡ ok out)
    unfolding upsert_all upsert contains
    upsert_all_total [] rows short = (rows, refl)
    upsert_all_total (k ∷ ks) rows short =
        let fits = short k (ground arith) in
        let (out, rest) =
          upsert_all_total ks (set_enabled t k true now rows)
            (λ j h. short j (ground (arith, h))) in
        (out, ground (arith, fits, rest))

    -- For an installed module and a known tenant, without `with_dependencies`, `enable` refuses with 409 MODULE_CHANGE_REJECTED while a
    -- transitive dependency is off, and changes nothing.
    pub enable-Refuses :
        (d : String)
        → Reaches cat.modules key d
        → is_on cat t d db.tenant_modules ≡ false
        → Refuses 409 "MODULE_CHANGE_REJECTED" (enable cat now t key false db).0
          × ((enable cat now t key false db).1 ≡ db)
    unfolding enable get lock_tenant
    enable-Refuses d r off =
        let (current, read_ok, read) = enabled_in_lem cat valid t db in
        let (m, found) = lookup_of-contains key cat.modules there in
        let (needed, deps_ok, deps) = dependencies_lem cat valid key there in
        let missing : contains d (keep (λ x. not (contains x current)) needed) ≡ true = ground (
          arith,
          contains-keep (λ x. not (contains x current)) d needed,
          read d,
          off,
          (deps.exact d).1 r,
        ) in
        let some_missing = is_nil-false d (keep (λ x. not (contains x current)) needed) missing in
        rw (found, get, locked, read_ok, deps_ok, some_missing) ((refl, refl), refl)

    missing_allowed :
        (current needed : List String) (out : List TenantModule)
        → upsert_all (tenant_session t) now t (additions key current needed) db.tenant_modules
          ≡ ok out
        → enable_missing cat now t key true db current needed
          ≡ ok (additions key current needed, record db { tenant_modules = out })
    unfolding enable_missing
    missing_allowed current needed out e = ground (arith, e)

    enable_runs :
        (m : ModuleManifest) (current needed : List String) (out : List TenantModule)
        → lookup key cat.modules ≡ some m
        → enabled_in cat (tenant_session t) t db ≡ ok current
        → dependencies cat key ≡ ok needed
        → upsert_all (tenant_session t) now t (additions key current needed) db.tenant_modules
          ≡ ok out
        → enable cat now t key true db
          ≡ (ok (additions key current needed), record db { tenant_modules = out })
    unfolding enable get lock_tenant enable_block
    enable_runs m current needed out found read_ok deps_ok written =
        rw (found, get, locked, read_ok, deps_ok) (rw (missing_allowed current needed out written))

    -- For an installed module and a known tenant, with `with_dependencies`, `enable` succeeds if
    -- the keys of the installed modules fit the column.
    pub enable_total :
        ((k : String) → contains k (keys cat.modules) ≡ true → leb (char_count k) 64 ≡ true)
        → (newly : List String) × (db' : Registry) × (enable cat now t key true db
            ≡ (ok newly, db'))
    enable_total short =
        let (current, read_ok, read) = enabled_in_lem cat valid t db in
        let (m, found) = lookup_of-contains key cat.modules there in
        let (needed, deps_ok, deps) = dependencies_lem cat valid key there in
        let (rows, written) =
          upsert_all_total (additions key current needed) db.tenant_modules
            (λ k h. short k (additions_installed current needed deps k h)) in
        (
          additions key current needed,
          record db { tenant_modules = rows },
          enable_runs m current needed rows found read_ok deps_ok written,
        )

    -- For an installed module and a known tenant, `disable` refuses with 409 MODULE_CHANGE_REJECTED for a core module, and for one on which a
    -- module that is on depends, and changes nothing.
    pub disable-Refuses :
        (contains key (core_keys cat) ≡ true)
          ⊎ ((k : String) × (is_on cat t k db.tenant_modules ≡ true) × Reaches cat.modules k key)
        → Refuses 409 "MODULE_CHANGE_REJECTED" (disable cat now t key db).0
          × ((disable cat now t key db).1 ≡ db)
    unfolding disable get lock_tenant disable_block
    disable-Refuses (inl core) =
        let (m, found) = lookup_of-contains key cat.modules there in
        let is_core : m.core ≡ true = sym (core_keys-lookup cat valid key m found) ∙ core in
        rw (found, get, is_core) ((refl, refl), refl)
    disable-Refuses (inr (k, on, r)) =
        let (m, found) = lookup_of-contains key cat.modules there in
        let (current, read_ok, read) = enabled_in_lem cat valid t db in
        let (above, up_ok, upward) = dependents_lem cat valid key there in
        let blocked : contains k (keep (λ x. contains x current) above) ≡ true = ground (
          arith,
          contains-keep (λ x. contains x current) k above,
          read k,
          on,
          (upward k).1 (is_on-installed cat valid now t key db db db.tenant_modules k on, r),
        ) in
        let some_blocking = is_nil-false k (keep (λ x. contains x current) above) blocked in
        elim (Bool-cases m.core) [
          | inl core ↦ rw (found, get, core) ((refl, refl), refl)
          | inr optional ↦
              rw (found, get, optional, locked, read_ok, up_ok, some_blocking) ((refl, refl), refl)
        ]

    upsert_fits :
        (k : String) (b : Bool) (rows : List TenantModule)
        → leb (char_count k) 64 ≡ true
        → upsert (tenant_session t) now t k b rows ≡ ok (set_enabled t k b now rows)
    unfolding upsert
    upsert_fits k b rows short = ground (arith, short)

    disable_on :
        (m : ModuleManifest) (current above : List String)
        → lookup key cat.modules ≡ some m
        → m.core ≡ false
        → enabled_in cat (tenant_session t) t db ≡ ok current
        → dependents cat key ≡ ok above
        → keep (λ x. contains x current) above ≡ []
        → leb (char_count key) 64 ≡ true
        → (db' : Registry) × (disable cat now t key db ≡ (ok tt, db'))
    unfolding disable get lock_tenant disable_block
    disable_on m current above found optional read_ok up_ok free short =
        elim (Bool-cases (contains key current)) [
          | inl on ↦ (
            record db { tenant_modules = set_enabled t key false now db.tenant_modules },
            rw (
              found,
              get,
              optional,
              locked,
              read_ok,
              up_ok,
              free,
              on,
              upsert_fits key false db.tenant_modules short,
            ),
          )
          | inr off ↦ (db, rw (found, get, optional, locked, read_ok, up_ok, free, off))
        ]

    -- For a known tenant, `disable` succeeds for an installed, optional module that no module that is on depends on, directly or
    -- not, if its key fits the column.
    pub disable_total :
        contains key (core_keys cat) ≡ false
        → leb (char_count key) 64 ≡ true
        → ((k : String) → is_on cat t k db.tenant_modules ≡ true → ¬ Reaches cat.modules k key)
        → (db' : Registry) × (disable cat now t key db ≡ (ok tt, db'))
    disable_total optional short free =
        let (m, found) = lookup_of-contains key cat.modules there in
        let (current, read_ok, read) = enabled_in_lem cat valid t db in
        let (above, up_ok, upward) = dependents_lem cat valid key there in
        let off : (x : String) → contains x above ≡ true → contains x current ≡ false = λ x up.
          elim (Bool-cases (is_on cat t x db.tenant_modules)) [
            | inl on ↦ absurd (free x on ((upward x).0 up).1)
            | inr out ↦ read x ∙ out
          ] in
        disable_on m current above found (sym (core_keys-lookup cat valid key m found) ∙ optional)
          read_ok up_ok (keep_none (λ x. contains x current) above off) short
