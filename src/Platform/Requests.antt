-- ===== src/Platform/Requests.antt =====
-- backend/src/erp/core/deps.py and backend/src/erp/modules/platform/dependencies.py: what stands before
-- the endpoint of a module, from the bearer token to the guard. FastAPI reads the headers, and finds
-- the verifier, the registry and the catalogue in the application's state.
pub mod Admission
use karmevo_erp.Core.Modules.{ModuleCatalog}
use karmevo_erp.Core.Security.{Trouble, JwtLibrary, TokenVerifier, VerifiedToken, current_token}
use karmevo_erp.Platform.ModuleState.{require}
use karmevo_erp.Platform.Registry.{Uuid, Registry, Failure}
use karmevo_erp.Platform.TenantContext.{RequestContext, resolve}
use karmevo_erp.Prelude.{String, Bool, List, [], ◌∷◌, Option, none, some, Result, ok, raise, ◌>>=◌}

-- What a dependency raises.
pub data RequestError : Type 0 where
  token_error : Trouble → RequestError
  platform_error : Failure → RequestError

abbrev pub in_security : {A : Type 0} → Result Trouble A → Result RequestError A
in_security (ok a) = ok a
in_security (raise e) = raise (token_error e)

abbrev pub in_platform : {A : Type 0} → Result Failure A → Result RequestError A
in_platform (ok a) = ok a
in_platform (raise e) = raise (platform_error e)

-- The headers that the dependencies read.
pub record Request : Type 0 where
  pub credentials : Option String
  pub x_tenant_id : Option Uuid

module _ {Key Claims : Type 0} (jwt : JwtLibrary Key Claims) (before : String → String → Bool)
    (verifier : TokenVerifier Key) (catalog : ModuleCatalog) (registry : Registry) where
  -- `TenantContextProvider.resolve`
  unfoldable pub resolve_context : Request → Result RequestError RequestContext
  resolve_context request = do
    token ← in_security (current_token jwt request.credentials verifier)
    in_platform (resolve before token request.x_tenant_id registry)

  -- `ModuleGuard.__call__`, of the guard of a module
  unfoldable pub module_guard : String → RequestContext → Result RequestError (Unit {0})
  module_guard module_key context =
      in_platform (require catalog context.tenant_id module_key registry)

  -- The context in which an endpoint runs, once the guards of its router have passed.
  unfoldable pub admit : (guards : List String) → Request → Result RequestError RequestContext
  unfolding resolve_context module_guard
  admit [] request = resolve_context request
  admit (module_key ∷ guards) request = do
    context ← resolve_context request
    passed ← module_guard module_key context
    admit guards request
