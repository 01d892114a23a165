-- ===== src/Core/Security.antt =====
-- backend/src/erp/core/security.py: the check of a bearer token. The JWT library is a parameter, and
-- so is `lower`, Python's `str.lower`, and the function that finds the key of a token, which may
-- raise anything. An access token's claims are read by name.
pub mod Verification
pub mod Refusals
use karmevo_erp.Core.Errors.{DomainError, unauthenticated_error, error_of}
use karmevo_erp.Prelude.{
  ℕ, String, Bool, true, false, not, ◌||◌, List, [], ◌∷◌, Option, none, some, if◌then◌else◌, ◌==◌,
  string_key, any, contains, starts_with, Result, ok, raise, ◌>>=◌,
}

-- The claims are kept by nothing that reads them.
pub record VerifiedToken : Type 0 where
  pub issuer : String
  pub subject : String

-- What a call may raise: a `DomainError`, a `PyJWTError`, and anything else.
pub data Trouble : Type 0 where
  denied : DomainError → Trouble
  jwt_error : String → Trouble
  other_error : String → Trouble

-- `TokenVerifier.REQUIRED_CLAIMS`
abbrev pub required_claims : List String
required_claims = "exp" ∷ "iat" ∷ "iss" ∷ "aud" ∷ "sub" ∷ []

-- What `jwt.decode` is told to require of a token.
pub record Expectations : Type 0 where
  pub algorithms : List String
  pub audience : String
  pub issuer : String
  pub leeway : ℕ
  pub required : List String

-- `alg_of` is `jwt.get_unverified_header(token).get("alg")`, and `claim` is `claims[name]` if there is
-- one.
pub record JwtLibrary (Key Claims : Type 0) : Type 0 where
  pub alg_of : String → Result Trouble (Option String)
  pub decode : String → Key → Expectations → Result Trouble Claims
  pub claim : Claims → String → Option String

pub record TokenVerifier (Key : Type 0) : Type 0 where
  pub issuer : String
  pub audience : String
  pub algorithms : List String
  pub key_resolver : String → Result Trouble Key
  pub leeway : ℕ

-- An algorithm that is refused.
abbrev pub is_weak : (lower : String → String) → String → Bool
is_weak lower a = lower a == "none" || starts_with "HS" a

abbrev pub is_empty_list : List String → Bool
is_empty_list [] = true
is_empty_list (x ∷ xs) = false

-- `TokenVerifier.__init__`, whose `ValueError` is its message
unfoldable pub new_verifier :
    {Key : Type 0}
    → (lower : String → String) → (issuer audience : String) → (algorithms : List String)
    → (String → Result Trouble Key)
    → (leeway_seconds : ℕ) → Result String (TokenVerifier Key)
new_verifier lower issuer audience algorithms key_resolver leeway_seconds =
    if is_empty_list algorithms || any (is_weak lower) algorithms
    then raise "only asymmetric signing algorithms are allowed"
    else ok (record {
      issuer = issuer;
      audience = audience;
      algorithms = algorithms;
      key_resolver = key_resolver;
      leeway = leeway_seconds;
    })

abbrev pub is_allowed : List String → Option String → Bool
is_allowed algorithms none = false
is_allowed algorithms (some a) = contains a algorithms

-- `except jwt.PyJWTError`
abbrev pub catch_jwt : {A : Type 0} → Result Trouble A → Result Trouble A
catch_jwt (ok a) = ok a
catch_jwt (raise (denied e)) = raise (denied e)
catch_jwt (raise (jwt_error message)) =
    raise (denied (error_of unauthenticated_error "invalid access token"))
catch_jwt (raise (other_error message)) = raise (other_error message)

abbrev pub expectations : {Key : Type 0} → TokenVerifier Key → Expectations
expectations v = record {
  algorithms = v.algorithms;
  audience = v.audience;
  issuer = v.issuer;
  leeway = v.leeway;
  required = required_claims;
}

module _ {Key Claims : Type 0} (jwt : JwtLibrary Key Claims) where
  -- `claims[name]`
  abbrev pub claim_of : Claims → String → Result Trouble String
  claim_of claims name = elim (jwt.claim claims name) [
    | none ↦ raise (other_error name)
    | some value ↦ ok value
  ]

  -- The `try` of `verify`, from the test of the algorithm on, and the whole of it.
  unfoldable pub decode_checked : TokenVerifier Key → String → Option String → Result Trouble Claims
  decode_checked v token algorithm =
      if not (is_allowed v.algorithms algorithm)
      then raise (denied (error_of unauthenticated_error "token algorithm is not allowed"))
      else (v.key_resolver token >>= λ key. jwt.decode token key (expectations v))

  unfoldable pub decode_token : TokenVerifier Key → String → Result Trouble Claims
  unfolding decode_checked
  decode_token v token = jwt.alg_of token >>= decode_checked v token

  -- The token that `verify` makes of the claims.
  unfoldable pub token_of : Claims → Result Trouble VerifiedToken
  token_of claims = do
    issuer ← claim_of claims "iss"
    subject ← claim_of claims "sub"
    ok (record { issuer = issuer; subject = subject })

  -- `TokenVerifier.verify`
  unfoldable pub verify : TokenVerifier Key → String → Result Trouble VerifiedToken
  unfolding decode_token token_of
  verify v token = catch_jwt (decode_token v token) >>= token_of

  -- `Authentication.current_token` (core/deps.py)
  unfoldable pub current_token : Option String → TokenVerifier Key → Result Trouble VerifiedToken
  unfolding verify
  current_token none v = raise (denied (error_of unauthenticated_error "missing bearer token"))
  current_token (some credentials) v = verify v credentials
