-- ===== src/Core/Security/Refusals.antt =====
-- What a caller is told whose token is not verified.
use karmevo_erp.Core.Errors.{unauthenticated_error, error_of}
use karmevo_erp.Core.Security.{
  Trouble, denied, jwt_error, other_error, JwtLibrary, TokenVerifier, catch_jwt, expectations,
  decode_checked, decode_token, token_of, verify, current_token,
}
use karmevo_erp.Prelude.{
  String, true, Option, none, some, ◌≡◌, refl, sym, subst, string_key, ◌⊎◌, inl, inr, Bool-cases,
  contains, Outcome, Result, ok, raise, ◌>>=◌, arith, ap,
}
use karmevo_erp.Core.Security.Verification.{IsJwt, IsDecoded, decode_token-IsDecoded}

-- The answer 401
abbrev pub Is401 : Trouble → Type 0
Is401 (denied e) = e.status ≡ 401
Is401 (jwt_error message) = ⊥
Is401 (other_error message) = ⊥

-- Any error but PyJWT's.
abbrev IsNotJwtError : Trouble → Type 0
IsNotJwtError (denied e) = Unit
IsNotJwtError (jwt_error message) = ⊥
IsNotJwtError (other_error message) = Unit

raise-injective :
    {A : Type 0} {e d : Trouble} → ◌≡◌ {A = Result Trouble A} (raise e) (raise d) → e ≡ d
raise-injective h = cc h

>>=-eq-raise :
    {A B : Type 0} (call : Result Trouble A) (next : A → Result Trouble B) {e : Trouble}
    → (call >>= next) ≡ raise e
    → (call ≡ raise e) ⊎ (a : A) × (call ≡ ok a) × (next a ≡ raise e)
>>=-eq-raise (ok a) next h = inr (a, refl, h)
>>=-eq-raise (raise e) next h = inl (ap (λ x. raise x) (raise-injective h))

module _ {Key Claims : Type 0} (jwt : JwtLibrary Key Claims) where
  -- One of the three calls of code that is not its own made `decode_token` raise the error; the last
  -- two are made for an algorithm that is listed.
  pub data IsRaised (v : TokenVerifier Key) (token : String) (e : Trouble) : Type 0 where
    by_header : jwt.alg_of token ≡ raise e → IsRaised v token e
    by_resolver :
        (a : String)
        → jwt.alg_of token ≡ ok (some a)
        → contains a v.algorithms ≡ true
        → v.key_resolver token ≡ raise e
        → IsRaised v token e
    by_decode :
        (a : String) (key : Key)
        → jwt.alg_of token ≡ ok (some a)
        → contains a v.algorithms ≡ true
        → v.key_resolver token ≡ ok key
        → jwt.decode token key (expectations v) ≡ raise e
        → IsRaised v token e

  -- An error that leaves `verify` as the call raised it.
  abbrev pub IsPassed : TokenVerifier Key → Option String → Trouble → Type 0
  IsPassed v none e = ⊥
  IsPassed v (some token) e = IsNotJwtError e × IsRaised v token e

  decode_checked-IsRaised :
      (v : TokenVerifier Key) (token : String) (algorithm : Option String) {e : Trouble}
      → jwt.alg_of token ≡ ok algorithm
      → decode_checked jwt v token algorithm ≡ raise e
      → Is401 e ⊎ IsRaised v token e
  unfolding decode_checked
  decode_checked-IsRaised v token none header h = inl (subst Is401 (raise-injective h) refl)
  decode_checked-IsRaised v token (some a) {e} header h =
      elim (Bool-cases (contains a v.algorithms)) [
        | inr unlisted ↦
            let refused : ◌≡◌ {A = Result Trouble Claims}
                (raise (denied (error_of unauthenticated_error "token algorithm is not allowed")))
                (raise e) =
              ground (arith, h, unlisted) in
            inl (subst Is401 (raise-injective refused) refl)
        | inl listed ↦
            let decoding : (v.key_resolver token >>= λ key. jwt.decode token key (expectations v))
                ≡ raise e =
              ground (arith, h, listed) in
            (elim (>>=-eq-raise (v.key_resolver token)
              (λ key. jwt.decode token key (expectations v)) decoding) [
                | inl unresolved ↦ inr (by_resolver a header listed unresolved)
                | inr (key, resolved, undecoded) ↦
                    inr (by_decode a key header listed resolved undecoded)
              ])
      ]

  decode_token-IsRaised :
      (v : TokenVerifier Key) (token : String) {e : Trouble}
      → decode_token jwt v token ≡ raise e
      → Is401 e ⊎ IsRaised v token e
  unfolding decode_token
  decode_token-IsRaised v token h =
      elim (>>=-eq-raise (jwt.alg_of token) (decode_checked jwt v token) h) [
        | inl unread ↦ inr (by_header unread)
        | inr (algorithm, header, rest) ↦ decode_checked-IsRaised v token algorithm header rest
      ]

  passed :
      (v : TokenVerifier Key) (token : String) (e : Trouble)
      → IsNotJwtError e
      → Is401 e ⊎ IsRaised v token e
      → Is401 e ⊎ IsPassed v (some token) e
  passed v token e other (inl h) = inl h
  passed v token e other (inr raised) = inr (other, raised)

  named_token :
      (claims : Claims) {issuer subject : String}
      → jwt.claim claims "iss" ≡ some issuer
      → jwt.claim claims "sub" ≡ some subject
      → token_of jwt claims ≡ ok (record { issuer = issuer; subject = subject })
  unfolding token_of
  named_token claims iss sub = ground (arith, iss, sub)

  named_claims :
      (v : TokenVerifier Key) (token : String) (claims : Claims)
      → IsJwt jwt
      → IsDecoded jwt v token claims
      → Outcome (λ _. Unit) Is401 (token_of jwt claims)
  named_claims v token claims is_jwt decoded =
      let (exp, (iat, ((issuer, iss), (aud, ((subject, sub), _))))) =
        is_jwt.required_present token decoded.key (expectations v) claims decoded.accepted in
      subst (Outcome (λ _. Unit) Is401) (sym (named_token claims iss sub)) tt

  -- What `current_token` promises, for each result of `verify`.
  abbrev pub Answered : TokenVerifier Key → Option String → {A : Type 0} → Result Trouble A → Type 0
  Answered v credentials = Outcome (λ _. Unit) (λ e. Is401 e ⊎ IsPassed v credentials e)

  answered :
      (v : TokenVerifier Key) (token : String) {A : Type 0} (call : Result Trouble A)
      → Outcome (λ _. Unit) Is401 call
      → Answered v (some token) call
  answered v token (ok a) h = tt
  answered v token (raise e) h = inl h

  finished :
      (v : TokenVerifier Key) (token : String) (call : Result Trouble Claims)
      → IsJwt jwt
      → decode_token jwt v token ≡ call
      → Answered v (some token) (catch_jwt call >>= token_of jwt)
  finished v token (ok claims) is_jwt e =
      answered v token (token_of jwt claims)
        (named_claims v token claims is_jwt (decode_token-IsDecoded jwt v token e))
  finished v token (raise (denied d)) is_jwt e =
      passed v token (denied d) tt (decode_token-IsRaised v token e)
  finished v token (raise (jwt_error m)) is_jwt e = inl refl
  finished v token (raise (other_error m)) is_jwt e =
      passed v token (other_error m) tt (decode_token-IsRaised v token e)

  -- Whatever it is given, credentials or none, `current_token` returns a token or raises an error that
  -- is answered with 401, or one that is not PyJWT's and that it passes on: then there are
  -- credentials, and reading their header, finding the key or decoding them raised this error, the
  -- last two for an algorithm of the verifier's own. So no error of PyJWT leaves it, and no required
  -- claim is missed after decoding. `jwt` is what PyJWT documents.
  pub current_token-Outcome :
      (v : TokenVerifier Key) (credentials : Option String)
      → IsJwt jwt
      → Outcome
          (λ _. Unit)
          (λ e. Is401 e ⊎ IsPassed v credentials e)
          (current_token jwt credentials v)
  unfolding current_token verify
  current_token-Outcome v none is_jwt = inl refl
  current_token-Outcome v (some token) is_jwt =
      finished v token (decode_token jwt v token) is_jwt refl
