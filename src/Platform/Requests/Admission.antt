-- ===== src/Platform/Requests/Admission.antt =====
-- Who gets past the dependencies.
use karmevo_erp.Core.Modules.{ModuleCatalog}
use karmevo_erp.Core.Modules.Catalogue.{IsCatalogue}
use karmevo_erp.Core.Security.{Trouble, JwtLibrary, TokenVerifier, VerifiedToken, current_token}
use karmevo_erp.Platform.ModuleState.{require}
use karmevo_erp.Platform.ModuleState.Enabled.{is_on}
use karmevo_erp.Platform.ModuleState.Guards.{Answers, Refuses, require_lem}
use karmevo_erp.Platform.Registry.{Uuid, Registry, Failure}
use karmevo_erp.Platform.Requests.{
  in_security, in_platform, Request, resolve_context, module_guard, admit,
}
use karmevo_erp.Platform.TenantContext.{RequestContext, resolve}
use karmevo_erp.Platform.TenantContext.Resolution.{HasAccess, IsIdentity, Asked, resolve_lem}
use karmevo_erp.Prelude.{
  String, Bool, true, List, [], ◌∷◌, ◌≡◌, subst, Result, ok, raise, >>=-eq-ok, contains, keys,
  string_key, All, Bool-cases, inl, inr, sym, ◌∙◌, ok-injective,
}

in_security-eq-ok :
    {A : Type 0} (call : Result Trouble A) {a : A} → in_security call ≡ ok a → call ≡ ok a
in_security-eq-ok (ok a) h = cc h
in_security-eq-ok (raise e) h = cc h

in_platform-eq-ok :
    {A : Type 0} (call : Result Failure A) {a : A} → in_platform call ≡ ok a → call ≡ ok a
in_platform-eq-ok (ok a) h = cc h
in_platform-eq-ok (raise e) h = cc h

-- What a request has shown that acts in a context.
pub record IsAdmitted {Key Claims : Type 0} (jwt : JwtLibrary Key Claims)
    (verifier : TokenVerifier Key) (db : Registry) (request : Request) (c : RequestContext)
    : Type 0 where
  pub token : VerifiedToken
  pub verified : current_token jwt request.credentials verifier ≡ ok token
  pub identity : IsIdentity db token c.identity_id
  pub access : HasAccess db c.identity_id c.membership_id c.tenant_id
  pub asked : Asked request.x_tenant_id c.tenant_id

module _ {Key Claims : Type 0} (jwt : JwtLibrary Key Claims) (before : String → String → Bool)
    (verifier : TokenVerifier Key) (catalog : ModuleCatalog) (db : Registry) where
  resolve_context-IsAdmitted :
      (request : Request) (c : RequestContext)
      → resolve_context jwt before verifier catalog db request ≡ ok c
      → IsAdmitted jwt verifier db request c
  unfolding resolve_context
  resolve_context-IsAdmitted request c h =
      let (token, secured, rest) =
        >>=-eq-ok (in_security (current_token jwt request.credentials verifier))
          (λ token. in_platform (resolve before token request.x_tenant_id db)) h in
      let (identity, access, asked) =
        resolve_lem before token db request.x_tenant_id c
          (in_platform-eq-ok (resolve before token request.x_tenant_id db) rest) in
      record {
        token = token;
        verified = in_security-eq-ok (current_token jwt request.credentials verifier) secured;
        identity = identity;
        access = access;
        asked = asked;
      }

  require-is_on :
      (t : Uuid) (key : String)
      → IsCatalogue catalog
      → contains key (keys catalog.modules) ≡ true
      → require catalog t key db ≡ ok tt
      → is_on catalog t key db.tenant_modules ≡ true
  require-is_on t key valid there passed =
      elim (Bool-cases (is_on catalog t key db.tenant_modules)) [
        | inl on ↦ on
        | inr off ↦ absurd (
            subst (Refuses 403 "MODULE_DISABLED") passed (
              subst (λ b. Answers b (require catalog t key db)) off
                (require_lem catalog valid t key db there)))
      ]

  admit-is_on :
      (guards : List String) (request : Request) (c : RequestContext)
      → IsCatalogue catalog
      → All (λ key. contains key (keys catalog.modules) ≡ true) guards
      → admit jwt before verifier catalog db guards request ≡ ok c
      → (resolve_context jwt before verifier catalog db request ≡ ok c)
        × All (λ key. is_on catalog c.tenant_id key db.tenant_modules ≡ true) guards
  unfolding admit module_guard
  admit-is_on [] request c valid installed h = (h, tt)
  admit-is_on (key ∷ guards) request c valid (here, installed) h =
      let (context, resolved, rest) =
        >>=-eq-ok (resolve_context jwt before verifier catalog db request) _ h in
      let (_, passed, admitted) =
        >>=-eq-ok (module_guard jwt before verifier catalog db key context)
          (λ _. admit jwt before verifier catalog db guards request) rest in
      let (again, on) = admit-is_on guards request c valid installed admitted in
      (
        again,
        (
          subst (λ (x : RequestContext). is_on catalog x.tenant_id key db.tenant_modules ≡ true)
              (ok-injective (sym resolved ∙ again))
              (require-is_on context.tenant_id key valid here
                (in_platform-eq-ok (require catalog context.tenant_id key db) passed)),
          on,
        ),
      )

  -- With a valid catalogue, and guards of installed modules: an endpoint runs, in a context, only for
  -- a request whose bearer token was verified and belongs to an identity with an active staff
  -- membership in the active tenant of that context, which is the one asked for if one is; and each
  -- module that guards the endpoint is on for the tenant.
  pub admit-IsAdmitted :
      (guards : List String) (request : Request) (c : RequestContext)
      → IsCatalogue catalog
      → All (λ key. contains key (keys catalog.modules) ≡ true) guards
      → admit jwt before verifier catalog db guards request ≡ ok c
      → IsAdmitted jwt verifier db request c
        × All (λ key. is_on catalog c.tenant_id key db.tenant_modules ≡ true) guards
  admit-IsAdmitted guards request c valid installed h =
      let (resolved, on) = admit-is_on guards request c valid installed h in
      (resolve_context-IsAdmitted request c resolved, on)
