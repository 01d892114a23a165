-- ===== src/Core/Errors.antt =====
-- backend/src/erp/core/errors.py: exceptions with a stable code, and the responses made of them.
-- The class attributes `status`, `code` and `title` are a record, and a subclass is its parent's
-- record with the attributes that it overrides.
use Prim.Native.String.{◌++◌}
use karmevo_erp.Prelude.{
  ℕ, String, List, [], ◌∷◌, Option, none, some, Dict, lookup, put, nat_key, string_key,
  if◌then◌else◌, ◌==◌,
}

pub record ErrorClass : Type 0 where
  pub status : ℕ
  pub code : String
  pub title : String

abbrev pub base_error : ErrorClass
base_error = record { status = 400; code = "BAD_REQUEST"; title = "Bad request" }

abbrev pub unauthenticated_error : ErrorClass
unauthenticated_error = record {
  status = 401;
  code = "UNAUTHENTICATED";
  title = "Authentication required";
}

abbrev pub forbidden_error : ErrorClass
forbidden_error = record { status = 403; code = "FORBIDDEN"; title = "Forbidden" }

abbrev pub not_found_error : ErrorClass
not_found_error = record { status = 404; code = "NOT_FOUND"; title = "Not found" }

abbrev pub conflict_error : ErrorClass
conflict_error = record { status = 409; code = "CONFLICT"; title = "Conflict" }

abbrev pub service_unavailable_error : ErrorClass
service_unavailable_error = record {
  status = 503;
  code = "SERVICE_UNAVAILABLE";
  title = "Service unavailable";
}

-- An instance of `DomainError` or a subclass.
pub record DomainError : Type 0 where
  pub status : ℕ
  pub code : String
  pub title : String
  pub detail : String

-- `DomainError.__init__`: a given `code` hides the one of the class.
abbrev pub error_with : ErrorClass → String → Option String → DomainError
error_with cls detail none = record {
  status = cls.status;
  code = cls.code;
  title = cls.title;
  detail = detail;
}
error_with cls detail (some code) = record {
  status = cls.status;
  code = code;
  title = cls.title;
  detail = detail;
}

abbrev pub error_of : ErrorClass → String → DomainError
error_of cls detail = error_with cls detail none

pub record ErrorItem : Type 0 where
  pub loc : List String
  pub msg : String
  pub kind : String

-- The body of a problem+json response; `kind` is its field "type".
pub record ProblemBody : Type 0 where
  pub kind : String
  pub title : String
  pub status : ℕ
  pub code : String
  pub detail : String
  pub errors : Option (List ErrorItem)

pub record Response : Type 0 where
  pub status_code : ℕ
  pub media_type : String
  pub headers : Dict String String
  pub body : ProblemBody

-- `Problem.response`
unfoldable pub problem_response : ℕ → String → String → String → Option (List ErrorItem) → Response
problem_response status code title detail errors = record {
  status_code = status;
  media_type = "application/problem+json";
  headers = [];
  body = record {
    kind = "about:blank";
    title = title;
    status = status;
    code = code;
    detail = detail;
    errors = errors;
  };
}

-- `ErrorHandlers.STATUS_CODES`
abbrev pub status_codes : Dict ℕ String
status_codes = (404, "NOT_FOUND") ∷ (405, "METHOD_NOT_ALLOWED") ∷ []

unfoldable pub domain_error : DomainError → Response
unfolding problem_response
domain_error exc =
    let response = problem_response exc.status exc.code exc.title exc.detail none in
    if exc.status == 401
    then record response { headers = put "WWW-Authenticate" "Bearer" response.headers }
    else response

unfoldable pub validation_error : List ErrorItem → Response
unfolding problem_response
validation_error errors =
    problem_response 422 "VALIDATION_FAILED" "Validation failed" "Request is invalid" (some errors)

-- Starlette's `HTTPException`.
pub record HttpException : Type 0 where
  pub status_code : ℕ
  pub detail : String
  pub headers : Dict String String

unfoldable pub update_headers : Dict String String → Dict String String → Dict String String
update_headers headers [] = headers
update_headers headers ((k, v) ∷ more) = update_headers (put k v headers) more

-- `show` prints a number and `phrase` is `HTTPStatus(status).phrase`, both of the standard library.
unfoldable pub http_exception : (show phrase : ℕ → String) → HttpException → Response
unfolding problem_response update_headers
http_exception show phrase exc =
    let code : String = elim (lookup exc.status_code status_codes) [
      | none ↦ "HTTP_" ++ show exc.status_code
      | some c ↦ c
    ] in
    let response = problem_response exc.status_code code (phrase exc.status_code) exc.detail none in
    record response { headers = update_headers response.headers exc.headers }

-- The exception is logged and not shown.
unfoldable pub unhandled_error : {X : Type 0} → X → Response
unfolding problem_response
unhandled_error exc =
    problem_response 500 "INTERNAL_ERROR" "Internal Server Error" "An unexpected error occurred"
      none

-- What a request handler may raise, and the handler that `install` registers for it.
pub data Raised (X : Type 0) : Type 0 where
  domain : DomainError → Raised X
  validation : List ErrorItem → Raised X
  http : HttpException → Raised X
  other : X → Raised X

unfoldable pub handle : {X : Type 0} → (show phrase : ℕ → String) → Raised X → Response
unfolding domain_error validation_error http_exception unhandled_error
handle show phrase (domain exc) = domain_error exc
handle show phrase (validation errors) = validation_error errors
handle show phrase (http exc) = http_exception show phrase exc
handle show phrase (other exc) = unhandled_error exc
