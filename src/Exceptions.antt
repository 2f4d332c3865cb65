-- ===== src/Exceptions.antt =====
-- app/exceptions.py (the exception classes) and the result of code that may raise.
use ssh_reports_hub_fast_api.Prelude.{
  ℕ, String, Option, none, some, List, [], ◌∷◌, Bool, true, false, ◌≡◌, refl,
}

abbrev pub Headers : Type 0
Headers = List (String × String)

-- The class hierarchy below `AppBaseException`.
pub data ExceptionClass : Type 0 where
  base not_found authentication permission_denied validation : ExceptionClass
  service_unavailable external_service file_too_large : ExceptionClass

-- The class attribute `status_code`.
unfoldable pub class_status : ExceptionClass → ℕ
class_status base = 500
class_status not_found = 404
class_status authentication = 401
class_status permission_denied = 403
class_status validation = 400
class_status service_unavailable = 503
class_status external_service = 502
class_status file_too_large = 413

-- The class attribute `error_code`.
unfoldable pub class_code : ExceptionClass → String
class_code base = "INTERNAL_ERROR"
class_code not_found = "NOT_FOUND"
class_code authentication = "AUTHENTICATION_FAILED"
class_code permission_denied = "PERMISSION_DENIED"
class_code validation = "VALIDATION_FAILED"
class_code service_unavailable = "SERVICE_UNAVAILABLE"
class_code external_service = "EXTERNAL_SERVICE_FAILED"
class_code file_too_large = "FILE_TOO_LARGE"

-- An `AppBaseException` object after its constructor has run.
pub record AppException : Type 0 where
  pub cls : ExceptionClass
  pub status_code : ℕ
  pub error_code : String
  pub detail : String
  pub headers : Option Headers

-- The keyword arguments of the constructors.
pub record Overrides : Type 0 where
  pub status_code : Option ℕ
  pub error_code : Option String
  pub headers : Option Headers

abbrev pub no_overrides : Overrides
no_overrides = record { status_code = none; error_code = none; headers = none }

abbrev pub get_or {ℓ} : {A : Type ℓ} → Option A → A → A
get_or none d = d
get_or (some a) d = a

-- `kwargs.pop("headers", None) or {"WWW-Authenticate": "Bearer"}`: an empty dict is false too.
unfoldable pub or_challenge : Option Headers → Headers
or_challenge (some (h ∷ hs)) = h ∷ hs
or_challenge _ = ("WWW-Authenticate", "Bearer") ∷ []

unfoldable pub class_headers : ExceptionClass → Option Headers → Option Headers
unfolding or_challenge
class_headers authentication given = some (or_challenge given)
class_headers _ given = given

-- The constructors: an override replaces the class attribute.
unfoldable pub make : ExceptionClass → String → Overrides → AppException
unfolding class_status class_code class_headers
make cls detail given = record {
  cls = cls;
  status_code = get_or given.status_code (class_status cls);
  error_code = get_or given.error_code (class_code cls);
  detail = detail;
  headers = class_headers cls given.headers;
}

-- What a handler may raise: one of the above, FastAPI's `HTTPException`, or anything else, of
-- which only the text is modelled.
pub data Exc : Type 0 where
  app : AppException → Exc
  http : ℕ → String → Option Headers → Exc
  other : String → Exc

pub data Result {ℓ} (A : Type ℓ) : Type ℓ where
  ok : A → Result A
  raise : Exc → Result A

infixl 5 ◌>>=◌ ◌>>◌
-- What follows a step runs only if the step raised nothing.
abbrev pub ◌>>=◌ {ℓ κ} : {X : Type ℓ} {Y : Type κ} → Result X → (X → Result Y) → Result Y
raise exc >>= next = raise exc
ok x >>= next = next x

-- A step whose success is followed by a second step was successful itself.
pub >>=-eq-ok {ℓ κ} :
    {X : Type ℓ} {Y : Type κ} (step : Result X) (next : X → Result Y) {y : Y}
    → (step >>= next) ≡ ok y
    → (x : X) × (step ≡ ok x) × (next x ≡ ok y)
>>=-eq-ok (raise exc) next done = cc
>>=-eq-ok (ok x) next done = (x, refl, done)

abbrev pub ◌>>◌ {ℓ} : {Y : Type ℓ} → Result (Unit {0}) → Result Y → Result Y
step >> next = step >>= λ _. next

-- `raise NotFoundException("...")` and the like.
abbrev pub throw {ℓ} : {A : Type ℓ} → ExceptionClass → String → Result A
throw cls detail = raise (app (make cls detail no_overrides))

-- `raise HTTPException(status_code=..., detail=...)`
abbrev pub throw_http {ℓ} : {A : Type ℓ} → ℕ → String → Result A
throw_http status detail = raise (http status detail none)

-- `if test: raise ...`
abbrev pub raise_if : Bool → Exc → Result (Unit {0})
raise_if true e = raise e
raise_if false e = ok tt
