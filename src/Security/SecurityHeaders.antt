-- ===== src/Security/SecurityHeaders.antt =====
-- `SecurityHeadersMiddleware` of app/security.py. Header names are in lower case, as starlette
-- compares and stores them.
use ssh_reports_hub_fast_api.Prelude.{
  Bool, true, false, not, ◌||◌, ◌≡◌, refl, String, Option, none, some, [], ◌∷◌, ◌++◌, arith, str_eq,
  eq_iff, if◌then◌else◌, is_some,
}
use ssh_reports_hub_fast_api.Text.{has_prefix}
use ssh_reports_hub_fast_api.Exceptions.{Headers}

abbrev pub lookup : String → Headers → Option String
lookup key [] = none
lookup key ((k, v) ∷ hs) = if str_eq k key then some v else lookup key hs

-- `response.headers.setdefault(key, value)`
unfoldable pub setdefault : String → String → Headers → Headers
setdefault key value hs = if is_some (lookup key hs) then hs else hs ++ (key, value) ∷ []

abbrev pub setdefault_if : Bool → String → String → Headers → Headers
setdefault_if true key value hs = setdefault key value hs
setdefault_if false key value hs = hs

-- What the middleware reads of the request.
pub record RequestLine : Type 0 where
  pub path : String
  pub is_https : Bool
  pub forwarded_https : Bool

-- The headers of the response, after `call_next`.
unfoldable pub dispatch : RequestLine → Headers → Headers
dispatch req hs =
    let hs1 = setdefault "x-content-type-options" "nosniff" hs in
    let hs2 = setdefault "x-frame-options" "DENY" hs1 in
    let hs3 = setdefault "referrer-policy" "strict-origin-when-cross-origin" hs2 in
    let hs4 = setdefault "permissions-policy" "camera=(), microphone=(), geolocation=()" hs3 in
    let hs5 =
      setdefault_if (not (has_prefix "/external/api/" req.path)) "cache-control" "no-store" hs4 in
    setdefault_if (req.is_https || req.forwarded_https) "strict-transport-security"
      "max-age=31536000; includeSubDomains" hs5

-- A header that was there, or else the default.
abbrev pub or_default : Option String → String → Option String
or_default none value = some value
or_default (some v) value = some v

lookup-append :
    (key k v : String) (hs : Headers)
    → lookup key (hs ++ (k, v) ∷ [])
      ≡ (if is_some (lookup key hs) then lookup key hs else (if str_eq k key then some v else none))
lookup-append key k v [] = refl
lookup-append key k v ((j, w) ∷ hs) = ground (arith, lookup-append key k v hs)

lookup-setdefault :
    (key k v : String) (hs : Headers)
    → lookup key (setdefault k v hs)
      ≡ (if str_eq k key then or_default (lookup key hs) v else lookup key hs)
unfolding setdefault
lookup-setdefault key k v hs = ground (arith, lookup-append key k v hs, eq_iff k key)

lookup-setdefault_if :
    (b : Bool) (key k v : String) (hs : Headers)
    → lookup key (setdefault_if b k v hs) ≡ (
        if b
        then (if str_eq k key then or_default (lookup key hs) v else lookup key hs)
        else lookup key hs)
lookup-setdefault_if true key k v hs = lookup-setdefault key k v hs
lookup-setdefault_if false key k v hs = refl

lookup-setdefault_kept :
    (key value k v : String) (hs : Headers)
    → lookup key hs ≡ some value
    → lookup key (setdefault k v hs) ≡ some value
lookup-setdefault_kept key value k v hs h = rw (lookup-setdefault key k v hs, h) (ground arith)

lookup-setdefault_if_kept :
    (b : Bool) (key value k v : String) (hs : Headers)
    → lookup key hs ≡ some value
    → lookup key (setdefault_if b k v hs) ≡ some value
lookup-setdefault_if_kept true key value k v hs h = lookup-setdefault_kept key value k v hs h
lookup-setdefault_if_kept false key value k v hs h = h

-- A header that the handler set is sent as it was set: the middleware never replaces one.
pub dispatch-lookup :
    (req : RequestLine) (hs : Headers) (key value : String)
    → lookup key hs ≡ some value
    → lookup key (dispatch req hs) ≡ some value
unfolding dispatch
dispatch-lookup req hs key value h =
    search (lookup-setdefault_kept, lookup-setdefault_if_kept) depth 8

-- A response that reaches the middleware from the application inside of it leaves the middleware with these
-- headers: it forbids content sniffing and framing unless the application chose otherwise; it is marked
-- `no-store` unless its path is below the public `/external/api/` or the application chose otherwise; and
-- it carries the transport security header only if the request came by https, by itself or forwarded, or
-- the application set it.
pub dispatch_defaults :
    (req : RequestLine) (hs : Headers)
    → (lookup "x-content-type-options" (dispatch req hs)
        ≡ or_default (lookup "x-content-type-options" hs) "nosniff")
      × (lookup "x-frame-options" (dispatch req hs)
          ≡ or_default (lookup "x-frame-options" hs) "DENY")
      × (lookup "cache-control" (dispatch req hs) ≡ (
          if has_prefix "/external/api/" req.path
          then lookup "cache-control" hs
          else or_default (lookup "cache-control" hs) "no-store"))
      × (lookup "strict-transport-security" (dispatch req hs) ≡ (
          if req.is_https || req.forwarded_https
          then or_default
              (lookup "strict-transport-security" hs)
              "max-age=31536000; includeSubDomains"
          else lookup "strict-transport-security" hs))
unfolding dispatch
dispatch_defaults req hs = (
  simp (lookup-setdefault_if, lookup-setdefault) (ground arith),
  simp (lookup-setdefault_if, lookup-setdefault) (ground arith),
  simp (lookup-setdefault_if, lookup-setdefault) (ground arith),
  simp (lookup-setdefault_if, lookup-setdefault) (ground arith),
)
