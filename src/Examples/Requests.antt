-- ===== src/Examples/Requests.antt =====
-- A token that is good, another that is not, and the requests that bear them.
use karmevo_erp.Application.{Mounted, health_controller, build}
use karmevo_erp.Application.Mounting.{IsGuarded, build-IsGuarded}
use karmevo_erp.Core.Security.{
  VerifiedToken, Trouble, jwt_error, other_error, Expectations, JwtLibrary, TokenVerifier, is_weak,
  new_verifier, decode_checked, decode_token, token_of, verify, current_token,
}
use karmevo_erp.Core.Security.Verification.{IsJwt, IsDecoded, verify_lem}
use karmevo_erp.Core.Security.Refusals.{Is401, IsPassed, current_token-Outcome}
use karmevo_erp.Examples.Modules.{catalogue, catalogue-IsCatalogue}
use karmevo_erp.Examples.ModuleState.{module_program}
use karmevo_erp.Examples.TenantContext.{two_tenants, resolved}
use karmevo_erp.Platform.ModuleState.Enabled.{is_on}
use karmevo_erp.Platform.Registry.{Registry}
use karmevo_erp.Platform.Requests.{Request, resolve_context, module_guard, admit}
use karmevo_erp.Platform.Requests.Admission.{IsAdmitted, admit-IsAdmitted}
use karmevo_erp.Platform.TenantContext.{
  find_id, is_visible, is_row, joined, find_tenant, choose, active_staff_tenants,
  active_memberships, resolve,
}
use karmevo_erp.Prelude.{
  String, true, false, List, [], ◌∷◌, Option, none, some, ◌≡◌, refl, if◌then◌else◌, ◌==◌,
  string_key, Result, ok, raise, Outcome, All, Bool-cases, any, contains, starts_with, string_dec,
  find_first, keep, sort_by, insert_by, string_leb, arith, inl, inr, ◌⊎◌, keys,
}
use native.Mathlib.Decide.{ℕ_discrete}

abbrev same : String → String
same s = s

-- Claims are the issuer, and the subject is always the same.
abbrev claim_by : String → String → Option String
claim_by issuer name = if name == "iss" then some issuer else some "ann"

abbrev decode_good : String → Unit {0} → Expectations → Result Trouble String
decode_good token key e = if token == "good" then ok e.issuer else raise (jwt_error "bad signature")

abbrev jwt : JwtLibrary (Unit {0}) String
jwt = record { alg_of = λ token. ok (some "RS256"); decode = decode_good; claim = claim_by }

decoded_good :
    (token : String) (e : Expectations) (claims : String)
    → decode_good token tt e ≡ ok claims
    → e.issuer ≡ claims
decoded_good token e claims h = ground (arith, h)

claim_present : (claims name : String) → (value : String) × (claim_by claims name ≡ some value)
claim_present claims name = elim (Bool-cases (name == "iss")) [
  | inl h ↦ (claims, rw h refl)
  | inr h ↦ ("ann", rw h refl)
]

each_present :
    (claims : String) (names : List String)
    → All (λ name. (value : String) × (claim_by claims name ≡ some value)) names
each_present claims [] = tt
each_present claims (name ∷ names) = (claim_present claims name, each_present claims names)

issuer_kept :
    (token : String) (e : Expectations) (claims : String)
    → decode_good token tt e ≡ ok claims
    → claim_by claims "iss" ≡ some e.issuer
unfolding string_dec
issuer_kept token e claims h = ground (arith, decoded_good token e claims h)

jwt-IsJwt : IsJwt jwt
jwt-IsJwt = record {
  issuer_checked = λ token key e claims h. issuer_kept token e claims h;
  required_present = λ token key e claims h. each_present claims e.required;
}

abbrev verifier : TokenVerifier (Unit {0})
verifier = record {
  issuer = "idp";
  audience = "erp";
  algorithms = "RS256" ∷ [];
  key_resolver = λ token. ok tt;
  leeway = 30;
}

made : new_verifier same "idp" "erp" ("RS256" ∷ []) (λ token. ok tt) 30 ≡ ok verifier
unfolding new_verifier any starts_with string_dec ℕ_discrete
made = refl

abbrev ann : VerifiedToken
ann = record { issuer = "idp"; subject = "ann" }

verified_good : verify jwt verifier "good" ≡ ok ann
unfolding verify decode_token decode_checked token_of contains string_dec
verified_good = refl

verify_example :
    (claims : String) × (decoded : IsDecoded jwt verifier "good" claims) × (is_weak same
        decoded.algorithm
      ≡ false)
    × (ann.issuer ≡ "idp")
    × (jwt.claim claims "sub" ≡ some ann.subject)
verify_example =
    verify_lem jwt same "idp" "erp" ("RS256" ∷ []) (λ token. ok tt) 30 "good" jwt-IsJwt made
      verified_good

current_token-Outcome_example :
    Outcome
      (λ _. Unit)
      (λ e. Is401 e ⊎ IsPassed jwt verifier (some "bad") e)
      (current_token jwt (some "bad") verifier)
current_token-Outcome_example = current_token-Outcome jwt verifier (some "bad") jwt-IsJwt

-- A library that raises what is not a `PyJWTError`.
abbrev confused : JwtLibrary (Unit {0}) String
confused = record jwt { decode = λ token key e. raise (other_error "TypeError") }

type_error_passes : current_token confused (some "good") verifier ≡ raise (other_error "TypeError")
unfolding current_token verify decode_token decode_checked token_of contains string_dec
type_error_passes = refl

abbrev db : Registry
db = record two_tenants {
  tenant_modules =
      record { tenant_id = 7; module_key = "sales"; is_enabled = true; changed_at = 0 } ∷ [];
}

abbrev request : Request
request = record { credentials = some "good"; x_tenant_id = none }

admitted : admit jwt string_leb verifier catalogue db ("sales" ∷ []) request ≡ ok resolved
unfolding module_program admit resolve_context module_guard current_token verify decode_token
    decode_checked token_of contains string_dec resolve active_memberships active_staff_tenants
    choose find_tenant joined is_row is_visible find_id find_first keep sort_by insert_by ℕ_discrete
admitted = refl

sales_installed : All (λ key. contains key (keys catalogue.modules) ≡ true) ("sales" ∷ [])
unfolding module_program
sales_installed = (refl, tt)

admit-IsAdmitted_example :
    IsAdmitted jwt verifier db request resolved
    × All (λ key. is_on catalogue 7 key db.tenant_modules ≡ true) ("sales" ∷ [])
admit-IsAdmitted_example =
    admit-IsAdmitted jwt string_leb verifier catalogue db ("sales" ∷ []) request resolved
      catalogue-IsCatalogue sales_installed admitted

build-IsGuarded_example :
    (routers : List Mounted) × (build catalogue
      ≡ ok (record { controller = health_controller; guards = [] } ∷ routers))
    × All (IsGuarded catalogue jwt string_leb verifier db) routers
build-IsGuarded_example = build-IsGuarded catalogue jwt string_leb verifier db catalogue-IsCatalogue
