-- ===== src/Application.antt =====
-- backend/src/erp/app.py: the routers of the application, with the guards of each, and its probes.
-- FastAPI serves them; `controller_class()` is the controller.
pub mod Mounting
use karmevo_erp.Core.Controller.{Controller, Route}
use karmevo_erp.Core.Modules.{ModuleManifest, ModuleCatalog, CatalogError, iterate}
use karmevo_erp.Prelude.{
  ℕ, String, Bool, true, false, List, [], ◌∷◌, ◌++◌, Option, none, some, if◌then◌else◌, Result, ok,
  raise, ◌>>=◌,
}

-- `app.include_router(controller.router, dependencies=guards)`
pub record Mounted : Type 0 where
  pub controller : Controller
  pub guards : List String

-- `HealthController`
abbrev pub health_controller : Controller
health_controller = record {
  prefix = "";
  tags = [];
  routes =
      record { path = "/healthz"; endpoint = "healthz"; method = "GET" }
      ∷ record { path = "/readyz"; endpoint = "readyz"; method = "GET" }
      ∷ [];
}

pub record Probe : Type 0 where
  pub status_code : ℕ
  pub status : String

-- `readyz`; `ping` is `select 1`, which may raise
abbrev pub readyz : {R E : Type 0} → (ping : R → Result E (Unit {0})) → Option R → Result E Probe
readyz ping none = ok (record { status_code = 503; status = "not_configured" })
readyz ping (some registry) =
    ping registry >>= λ _. ok (record { status_code = 200; status = "ready" })

abbrev pub guards_of : ModuleManifest → List String
guards_of manifest = if manifest.core then [] else manifest.key ∷ []

abbrev pub include_all : List String → List Controller → List Mounted
include_all guards [] = []
include_all guards (c ∷ cs) = record { controller = c; guards = guards } ∷ include_all guards cs

unfoldable pub mount_manifests : List ModuleManifest → List Mounted
mount_manifests [] = []
mount_manifests (manifest ∷ manifests) =
    include_all (guards_of manifest) manifest.controllers ++ mount_manifests manifests

-- `_mount_modules`
unfoldable pub mount_modules : ModuleCatalog → Result CatalogError (List Mounted)
unfolding mount_manifests
mount_modules catalog = iterate catalog >>= λ manifests. ok (mount_manifests manifests)

-- The routers that `build` includes.
unfoldable pub build : ModuleCatalog → Result CatalogError (List Mounted)
unfolding mount_modules
build catalog = mount_modules catalog >>= λ mounted.
    ok (record { controller = health_controller; guards = [] } ∷ mounted)
