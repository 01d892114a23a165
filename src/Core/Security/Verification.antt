-- ===== src/Core/Security/Verification.antt =====
-- What a verified token has passed.
use karmevo_erp.Core.Security.{
  VerifiedToken, Trouble, denied, jwt_error, other_error, Expectations, JwtLibrary, TokenVerifier,
  is_weak, new_verifier, catch_jwt, expectations, claim_of, decode_checked, decode_token, token_of,
  verify,
}
use karmevo_erp.Prelude.{
  ℕ, String, Bool, true, false, List, [], ◌∷◌, Option, none, some, ◌≡◌, refl, sym, ap, subst, ◌∙◌,
  string_key, any, contains, All, All-contains, Result, ok, raise, ◌>>=◌, >>=-eq-ok, ok-injective,
  arith, some-eq,
}

module _ {Key Claims : Type 0} (jwt : JwtLibrary Key Claims) where
  -- What PyJWT documents: claims that `decode` returns hold the issuer that was asked for and a value
  -- for each claim that was required.
  pub record IsJwt : Type 0 where
    pub issuer_checked :
        (token : String) (key : Key) (e : Expectations) (claims : Claims)
        → jwt.decode token key e ≡ ok claims
        → jwt.claim claims "iss" ≡ some e.issuer
    pub required_present :
        (token : String) (key : Key) (e : Expectations) (claims : Claims)
        → jwt.decode token key e ≡ ok claims
        → All (λ name. (value : String) × (jwt.claim claims name ≡ some value)) e.required

  -- A token that the library decodes with the key found for it.
  pub record IsDecoded (v : TokenVerifier Key) (token : String) (claims : Claims) : Type 0 where
    pub algorithm : String
    pub header : jwt.alg_of token ≡ ok (some algorithm)
    pub is_listed : contains algorithm v.algorithms ≡ true
    pub key : Key
    pub resolved : v.key_resolver token ≡ ok key
    pub accepted : jwt.decode token key (expectations v) ≡ ok claims

  catch_jwt-eq-ok :
      {A : Type 0} (call : Result Trouble A) {a : A} → catch_jwt call ≡ ok a → call ≡ ok a
  catch_jwt-eq-ok (ok a) h = h
  catch_jwt-eq-ok (raise (denied e)) h = h
  catch_jwt-eq-ok (raise (jwt_error m)) h = cc h
  catch_jwt-eq-ok (raise (other_error m)) h = cc h

  decode_checked_lem :
      (v : TokenVerifier Key) (token : String) (algorithm : Option String) {claims : Claims}
      → decode_checked jwt v token algorithm ≡ ok claims
      → (a : String) × (algorithm ≡ some a)
        × (contains a v.algorithms ≡ true)
        × ((v.key_resolver token >>= λ key. jwt.decode token key (expectations v)) ≡ ok claims)
  unfolding decode_checked
  decode_checked_lem v token none h = cc h
  decode_checked_lem v token (some a) h = (a, refl, ground (arith, h), ground (arith, h))

  pub decode_token-IsDecoded :
      (v : TokenVerifier Key) (token : String) {claims : Claims}
      → decode_token jwt v token ≡ ok claims
      → IsDecoded v token claims
  unfolding decode_token
  decode_token-IsDecoded v token h =
      let (algorithm, header, rest) = >>=-eq-ok (jwt.alg_of token) (decode_checked jwt v token) h in
      let (a, named, listed, decoded) = decode_checked_lem v token algorithm rest in
      let (key, resolved, accepted) =
        >>=-eq-ok (v.key_resolver token) (λ key. jwt.decode token key (expectations v)) decoded in
      record {
        algorithm = a;
        header = header ∙ ap (λ x. ok x) named;
        is_listed = listed;
        key = key;
        resolved = resolved;
        accepted = accepted;
      }

  claim_of-eq-ok :
      (claims : Claims) (name : String) {value : String}
      → claim_of jwt claims name ≡ ok value
      → jwt.claim claims name ≡ some value
  claim_of-eq-ok claims name h = ground (arith, h)

  -- What is returned for a token, and why.
  verify-eq-ok :
      (v : TokenVerifier Key) (token : String) {t : VerifiedToken}
      → verify jwt v token ≡ ok t
      → (claims : Claims) × IsDecoded v token claims
        × (jwt.claim claims "iss" ≡ some t.issuer)
        × (jwt.claim claims "sub" ≡ some t.subject)
  unfolding verify token_of
  verify-eq-ok v token {t} h =
      let (claims, caught, named) = >>=-eq-ok (catch_jwt (decode_token jwt v token)) _ h in
      let (issuer, iss, rest) = >>=-eq-ok (claim_of jwt claims "iss") _ named in
      let (subject, sub, made) = >>=-eq-ok (claim_of jwt claims "sub") _ rest in
      (
        claims,
        decode_token-IsDecoded v token (catch_jwt-eq-ok (decode_token jwt v token) caught),
        claim_of-eq-ok claims "iss" iss
            ∙ ap (λ (x : VerifiedToken). some x.issuer) (ok-injective made),
        claim_of-eq-ok claims "sub" sub
            ∙ ap (λ (x : VerifiedToken). some x.subject) (ok-injective made),
      )

  any_none : (p : String → Bool) (xs : List String) → any p xs ≡ false → All (λ x. p x ≡ false) xs
  unfolding any
  any_none p [] h = tt
  any_none p (x ∷ xs) h = (ground (arith, h), any_none p xs (ground (arith, h)))

  -- What a verifier is made of.
  new_verifier-eq-ok :
      (lower : String → String) (issuer audience : String) (algorithms : List String)
      (key_resolver : String → Result Trouble Key) (leeway : ℕ) {v : TokenVerifier Key}
      → new_verifier lower issuer audience algorithms key_resolver leeway ≡ ok v
      → All (λ a. is_weak lower a ≡ false) v.algorithms × (v.issuer ≡ issuer)
  unfolding new_verifier
  new_verifier-eq-ok lower issuer audience algorithms key_resolver leeway {v} h =
      let (strong, made) : (any (is_weak lower) algorithms ≡ false)
          × (record {
            issuer = issuer;
            audience = audience;
            algorithms = algorithms;
            key_resolver = key_resolver;
            leeway = leeway;
          }
              ≡ v) =
        ground (arith, h) in
      (
        subst (λ (w : TokenVerifier Key). All (λ a. is_weak lower a ≡ false) w.algorithms) made
            (any_none (is_weak lower) algorithms strong),
        ap (λ (w : TokenVerifier Key). w.issuer) (sym made),
      )

  -- A verifier that could be made, with whatever algorithms, accepts a token only if the token's header
  -- names one of them, which is not "none", in any case of letters, and does not start with "HS"; and the library decodes the
  -- token with the key found for it; the issuer that is returned is the verifier's own, and the subject
  -- is the token's. `decode` is what PyJWT documents.
  pub verify_lem :
      (lower : String → String) (issuer audience : String) (algorithms : List String)
      (key_resolver : String → Result Trouble Key) (leeway : ℕ) (token : String)
      {v : TokenVerifier Key} {t : VerifiedToken}
      → IsJwt
      → new_verifier lower issuer audience algorithms key_resolver leeway ≡ ok v
      → verify jwt v token ≡ ok t
      → (claims : Claims) × (decoded : IsDecoded v token claims) × (is_weak lower decoded.algorithm
          ≡ false)
        × (t.issuer ≡ issuer)
        × (jwt.claim claims "sub" ≡ some t.subject)
  verify_lem lower issuer audience algorithms key_resolver leeway token {v} is_jwt made verified =
      let (claims, decoded, iss, sub) = verify-eq-ok v token verified in
      let (strong, own) =
        new_verifier-eq-ok lower issuer audience algorithms key_resolver leeway made in
      (
        claims,
        decoded,
        All-contains (λ a. is_weak lower a ≡ false) decoded.algorithm v.algorithms strong
            decoded.is_listed,
        some-eq (
              sym iss
              ∙ is_jwt.issuer_checked token decoded.key (expectations v) claims decoded.accepted)
            ∙ own,
        sub,
      )
