-- ===== src/Platform/ModuleState/Enabled.antt =====
-- What `_enabled` reads, as a set of names.
use karmevo_erp.Core.Modules.{
  ModuleManifest, ModuleCatalog, iterate, iterate_from, at_key, core_keys, core_from,
}
use karmevo_erp.Core.Modules.Order.{deps_of}
use karmevo_erp.Core.Modules.Catalogue.{IsCatalogue}
use karmevo_erp.Core.Modules.Dependencies.{in_order, in_keys}
use karmevo_erp.Platform.Registry.{
  Uuid, Registry, TenantModule, tenant_session, enabled_keys, set_enabled,
}
use karmevo_erp.Platform.ModuleState.{enabled_in}
use karmevo_erp.Prelude.{
  ℕ, String, Bool, true, false, ◌&&◌, ◌||◌, List, [], ◌∷◌, ◌++◌, map, some, ◌≡◌, inl, inr, refl,
  arith, ap, if◌then◌else◌, contains, contains-append, contains-keep, keep, any, All, All-lookup,
  lookup, lookup_of-contains, Dict, keys, string_key, string_dec, nat_key, ◌==◌, ok, Bool-cases,
  All-lookup_self, ◌∙◌,
}
use karmevo_erp.Core.Modules.Closure.{deps_of_found}

-- Is there a row that enables `k` for the tenant?
unfoldable pub stored : Uuid → String → List TenantModule → Bool
stored tenant_id k [] = false
stored tenant_id k (r ∷ rows) =
    (r.tenant_id == tenant_id && r.module_key == k && r.is_enabled) || stored tenant_id k rows

pub contains-enabled_keys :
    (tenant_id : Uuid) (k : String) (rows : List TenantModule)
    → contains k (enabled_keys (tenant_session tenant_id) tenant_id rows) ≡ stored tenant_id k rows
unfolding enabled_keys stored contains
contains-enabled_keys tenant_id k [] = refl
contains-enabled_keys tenant_id k (r ∷ rows) =
    ground (arith, contains-enabled_keys tenant_id k rows)

abbrev matches : Uuid → String → TenantModule → Bool
matches t k r = r.tenant_id == t && r.module_key == k

abbrev updated : Uuid → String → Bool → ℕ → TenantModule → TenantModule
updated t k b now r = if matches t k r then record r { is_enabled = b; changed_at = now } else r

stored-append :
    (t : Uuid) (k : String) (xs ys : List TenantModule)
    → stored t k (xs ++ ys) ≡ stored t k xs || stored t k ys
unfolding stored
stored-append t k [] ys = refl
stored-append t k (r ∷ xs) ys = ground (arith, stored-append t k xs ys)

-- Without a row for the pair nothing is stored for it.
stored_absent :
    (t : Uuid) (k : String) (rows : List TenantModule)
    → any (matches t k) rows ≡ false
    → stored t k rows ≡ false
unfolding stored any
stored_absent t k [] h = refl
stored_absent t k (r ∷ rows) h = ground (arith, h, stored_absent t k rows)

stored-map_self :
    (t : Uuid) (k : String) (b : Bool) (now : ℕ) (rows : List TenantModule)
    → stored t k (map (updated t k b now) rows) ≡ any (matches t k) rows && b
unfolding stored any
stored-map_self t k b now [] = refl
stored-map_self t k b now (r ∷ rows) = ground (arith, stored-map_self t k b now rows)

stored-map_other :
    (t s : Uuid) (k j : String) (b : Bool) (now : ℕ) (rows : List TenantModule)
    → (s ≡ t → j ≡ k → ⊥)
    → stored s j (map (updated t k b now) rows) ≡ stored s j rows
unfolding stored
stored-map_other t s k j b now [] h = refl
stored-map_other t s k j b now (r ∷ rows) h =
    ground (arith, h, stored-map_other t s k j b now rows h)

-- The statement of `upsert` changes what is stored for its own tenant and key, and nothing else.
pub stored-set_enabled_self :
    (t : Uuid) (k : String) (b : Bool) (now : ℕ) (rows : List TenantModule)
    → stored t k (set_enabled t k b now rows) ≡ b
unfolding set_enabled stored
stored-set_enabled_self t k b now rows = elim (Bool-cases (any (matches t k) rows)) [
  | inl there ↦ rw there (ground (arith, there, stored-map_self t k b now rows))
  | inr absent ↦ rw absent (
      ground (
        arith,
        stored-append t k rows
            (record { tenant_id = t; module_key = k; is_enabled = b; changed_at = now } ∷ []),
        stored_absent t k rows absent,
      ))
]

pub stored-set_enabled_other :
    (t s : Uuid) (k j : String) (b : Bool) (now : ℕ) (rows : List TenantModule)
    → (s ≡ t → j ≡ k → ⊥)
    → stored s j (set_enabled t k b now rows) ≡ stored s j rows
unfolding set_enabled stored
stored-set_enabled_other t s k j b now rows h = elim (Bool-cases (any (matches t k) rows)) [
  | inl there ↦ rw there (stored-map_other t s k j b now rows h)
  | inr absent ↦ rw absent (
      ground (
        arith,
        h,
        stored-append s j rows
            (record { tenant_id = t; module_key = k; is_enabled = b; changed_at = now } ∷ []),
      ))
]

iterate_from-keys :
    (modules : Dict String ModuleManifest) (ks : List String)
    → All (λ x. x.1.key ≡ x.0) modules
    → ((k : String) → contains k ks ≡ true → contains k (keys modules) ≡ true)
    → (ms : List ModuleManifest) × (iterate_from modules ks ≡ ok ms)
      × (map (λ (m : ModuleManifest). m.key) ms ≡ ks)
unfolding iterate_from at_key contains
iterate_from-keys modules [] named there = ([], refl, refl)
iterate_from-keys modules (k ∷ ks) named there =
    let (m, found) = lookup_of-contains k modules (there k (ground arith)) in
    let (ms, rest, same) =
      iterate_from-keys modules ks named (λ j h. there j (ground (arith, h))) in
    let is_k =
      All-lookup (λ (x : String × ModuleManifest). x.1.key ≡ x.0) k m modules named found in
    (m ∷ ms, rw (found, at_key, rest), cc (is_k, same))

-- Is the module on for the tenant: a core module, or an installed one that a row enables?
unfoldable pub is_on : ModuleCatalog → Uuid → String → List TenantModule → Bool
is_on cat tenant_id k rows =
    contains k (core_keys cat) || (stored tenant_id k rows && contains k (keys cat.modules))

-- `_enabled` of a catalogue returns, and holds exactly the modules that are on.
pub enabled_in_lem :
    (cat : ModuleCatalog)
    → IsCatalogue cat
    → (tenant_id : Uuid) (db : Registry)
    → (current : List String) × (enabled_in cat (tenant_session tenant_id) tenant_id db
        ≡ ok current)
      × ((k : String) → contains k current ≡ is_on cat tenant_id k db.tenant_modules)
unfolding enabled_in iterate is_on
enabled_in_lem cat valid tenant_id db =
    let (ms, iterated, same) =
      iterate_from-keys cat.modules cat.order valid.named (in_keys cat valid) in
    let stored_keys = enabled_keys (tenant_session tenant_id) tenant_id db.tenant_modules in
    (
      core_keys cat ++ keep (λ k. contains k (map (λ (m : ModuleManifest). m.key) ms)) stored_keys,
      rw iterated,
      λ k. ground (
        arith,
        contains-append k (core_keys cat)
            (keep (λ j. contains j (map (λ (m : ModuleManifest). m.key) ms)) stored_keys),
        contains-keep (λ j. contains j (map (λ (m : ModuleManifest). m.key) ms)) k stored_keys,
        contains-enabled_keys tenant_id k db.tenant_modules,
        ap (λ (l : List String). contains k l) same,
        installed k,
      ),
    )
  where
    installed : (k : String) → contains k cat.order ≡ contains k (keys cat.modules)
    installed k = elim (Bool-cases (contains k cat.order)) [
      | inl there ↦ ground (arith, there, in_keys cat valid k there)
      | inr absent ↦ elim (Bool-cases (contains k (keys cat.modules))) [
        | inl other ↦ absurd (ground (arith, absent, in_order cat valid k other))
        | inr gone ↦ ground (arith, absent, gone)
      ]
    ]

-- The names of `core_keys` are those of core manifests.
core_from-core :
    (modules d : Dict String ModuleManifest) (k : String)
    → All (λ x. lookup x.0 modules ≡ some x.1) d
    → contains k (core_from d) ≡ true
    → (m : ModuleManifest) × (lookup k modules ≡ some m) × (m.core ≡ true)
unfolding core_from contains
core_from-core modules [] k a c = cc
core_from-core modules ((j, m) ∷ d) k a c = elim (Bool-cases m.core) [
  | inl core ↦ elim (string_dec k j) [
    | yes same ↦ (m, rw same a.0, core)
    | no other ↦ core_from-core modules d k a.1 (ground (arith, c, core, other))
  ]
  | inr optional ↦ core_from-core modules d k a.1 (ground (arith, c, optional))
]

core_from-lookup :
    (d : Dict String ModuleManifest) (k : String) (m : ModuleManifest)
    → lookup k d ≡ some m
    → m.core ≡ true
    → contains k (core_from d) ≡ true
unfolding core_from contains lookup
core_from-lookup [] k m found core = cc
core_from-lookup ((j, n) ∷ d) k m found core = ground (arith, found, core, core_from-lookup d k m)

module _ (cat : ModuleCatalog) (valid : IsCatalogue cat) where
  pub core_keys-core :
      (k : String)
      → contains k (core_keys cat) ≡ true
      → (m : ModuleManifest) × (lookup k cat.modules ≡ some m) × (m.core ≡ true)
  unfolding core_keys
  core_keys-core k c =
      core_from-core cat.modules cat.modules k (All-lookup_self cat.modules valid.distinct) c

  pub core_keys-lookup :
      (k : String) (m : ModuleManifest)
      → lookup k cat.modules ≡ some m
      → contains k (core_keys cat) ≡ m.core
  unfolding core_keys
  core_keys-lookup k m found = elim (Bool-cases (contains k (core_keys cat))) [
    | inl there ↦
        let (n, same, core) = core_keys-core k there in ground (arith, there, same, found, core)
    | inr absent ↦ elim (Bool-cases m.core) [
      | inl core ↦ absurd (ground (arith, absent, core_from-lookup cat.modules k m found core))
      | inr optional ↦ ground (arith, absent, optional)
    ]
  ]

  -- What a core module depends on is core.
  pub core_keys-closed :
      (k d : String)
      → contains k (core_keys cat) ≡ true
      → contains d (deps_of cat.modules k) ≡ true
      → contains d (core_keys cat) ≡ true
  core_keys-closed k d c e =
      let (m, found, core) = core_keys-core k c in
      let (n, installed) = lookup_of-contains d cat.modules (valid.closed k d e) in
      core_keys-lookup d n installed
      ∙ valid.core_closed k d m n found core (rw (deps_of_found cat.modules k m found) at e)
          installed
