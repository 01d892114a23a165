-- ===== src/Application/Mounting.antt =====
-- Which guards stand before the endpoints of each module.
use karmevo_erp.Application.{
  Mounted, health_controller, guards_of, include_all, mount_manifests, mount_modules, build,
}
use karmevo_erp.Core.Controller.{Controller}
use karmevo_erp.Core.Modules.{ModuleManifest, ModuleCatalog, at_key, iterate, iterate_from}
use karmevo_erp.Core.Modules.Catalogue.{IsCatalogue}
use karmevo_erp.Core.Modules.Dependencies.{in_keys}
use karmevo_erp.Core.Security.{JwtLibrary, TokenVerifier}
use karmevo_erp.Platform.ModuleState.Enabled.{is_on}
use karmevo_erp.Platform.Registry.{Registry}
use karmevo_erp.Platform.Requests.{Request, admit}
use karmevo_erp.Platform.Requests.Admission.{IsAdmitted, admit-IsAdmitted}
use karmevo_erp.Platform.TenantContext.{RequestContext}
use karmevo_erp.Prelude.{
  String, Bool, true, false, List, [], ◌∷◌, some, ◌≡◌, ◌⊎◌, inl, inr, refl, subst, ◌∙◌, ok, All,
  All-map, All-append, All-lookup, Any, All-Any, Bool-cases, lookup, lookup_of-contains,
  contains_of-lookup, contains, keys, string_key, arith,
}

guards_of-optional : (m : ModuleManifest) → m.core ≡ false → guards_of m ≡ m.key ∷ []
guards_of-optional m h = rw h refl

module _ (catalog : ModuleCatalog) where
  -- The router belongs to an installed module, and has the guards of that module.
  pub record IsMounted (x : Mounted) : Type 0 where
    pub manifest : ModuleManifest
    pub installed : lookup manifest.key catalog.modules ≡ some manifest
    pub listed : Any (λ c. c ≡ x.controller) manifest.controllers
    pub guarded : x.guards ≡ guards_of manifest

  -- The manifests that iteration gives, each under its key.
  iterate_from-installed :
      (ks : List String)
      → All (λ x. x.1.key ≡ x.0) catalog.modules
      → ((k : String) → contains k ks ≡ true → contains k (keys catalog.modules) ≡ true)
      → (ms : List ModuleManifest) × (iterate_from catalog.modules ks ≡ ok ms)
        × All (λ (m : ModuleManifest). lookup m.key catalog.modules ≡ some m) ms
  unfolding iterate_from at_key contains
  iterate_from-installed [] named there = ([], refl, tt)
  iterate_from-installed (k ∷ ks) named there =
      let (m, found) = lookup_of-contains k catalog.modules (there k (ground arith)) in
      let (ms, rest, installed) =
        iterate_from-installed ks named (λ j h. there j (ground (arith, h))) in
      let is_k =
        All-lookup (λ (x : String × ModuleManifest). x.1.key ≡ x.0) k m catalog.modules named
          found in
      (m ∷ ms, rw (found, at_key, rest), (rw is_k found, installed))

  include_all-IsMounted :
      (m : ModuleManifest) (cs : List Controller)
      → lookup m.key catalog.modules ≡ some m
      → All (λ c. Any (λ d. d ≡ c) m.controllers) cs
      → All IsMounted (include_all (guards_of m) cs)
  include_all-IsMounted m [] installed there = tt
  include_all-IsMounted m (c ∷ cs) installed (here, there) = (
    record { manifest = m; installed = installed; listed = here; guarded = refl },
    include_all-IsMounted m cs installed there,
  )

  mount_manifests-IsMounted :
      (ms : List ModuleManifest)
      → All (λ (m : ModuleManifest). lookup m.key catalog.modules ≡ some m) ms
      → All IsMounted (mount_manifests ms)
  unfolding mount_manifests
  mount_manifests-IsMounted [] h = tt
  mount_manifests-IsMounted (m ∷ ms) (here, h) =
      All-append IsMounted (include_all (guards_of m) m.controllers) (mount_manifests ms)
        (include_all-IsMounted m m.controllers here (All-Any m.controllers))
        (mount_manifests-IsMounted ms h)

  module _ {Key Claims : Type 0} (jwt : JwtLibrary Key Claims) (before : String → String → Bool)
      (verifier : TokenVerifier Key) (db : Registry) where
    -- No request gets to an endpoint of the router in a tenant for which its module is off, but for
    -- modules of the core.
    pub IsGuarded : Mounted → Type 0
    IsGuarded x =
        (m : ModuleManifest) × (lookup m.key catalog.modules ≡ some m)
        × Any (λ c. c ≡ x.controller) m.controllers
        × ((m.core ≡ true)
            ⊎ ((request : Request) (c : RequestContext)
                → admit jwt before verifier catalog db x.guards request ≡ ok c
                → IsAdmitted jwt verifier db request c
                  × (is_on catalog c.tenant_id m.key db.tenant_modules ≡ true)))

    mounted-IsGuarded : IsCatalogue catalog → (x : Mounted) → IsMounted x → IsGuarded x
    unfolding IsGuarded
    mounted-IsGuarded valid x mounted = (
      m,
      mounted.installed,
      mounted.listed,
      elim (Bool-cases m.core) [
        | inl core ↦ inl core
        | inr optional ↦ inr (λ request c passed.
            let (admitted, (on, _)) =
              admit-IsAdmitted jwt before verifier catalog db (m.key ∷ []) request c valid
                (contains_of-lookup m.key m catalog.modules mounted.installed, tt)
                (subst (λ guards. admit jwt before verifier catalog db guards request ≡ ok c)
                  (mounted.guarded ∙ guards_of-optional m optional) passed) in
            (admitted, on))
      ],
    )
      where
        m : ModuleManifest
        m = mounted.manifest

    -- The application of a valid catalogue is built; and each router but that of the probes belongs to
    -- an installed module, which is of the core or whose endpoints run only for requests admitted to a
    -- tenant that has the module on.
    pub build-IsGuarded :
        IsCatalogue catalog
        → (routers : List Mounted) × (build catalog
            ≡ ok (record { controller = health_controller; guards = [] } ∷ routers))
          × All IsGuarded routers
    unfolding build mount_modules iterate
    build-IsGuarded valid =
        let (ms, iterated, installed) =
          iterate_from-installed catalog.order valid.named (in_keys catalog valid) in
        (
          mount_manifests ms,
          rw iterated refl,
          All-map IsMounted IsGuarded (mount_manifests ms) (mounted-IsGuarded valid)
              (mount_manifests-IsMounted ms installed),
        )
