-- ===== src/Security.antt =====
-- The tokens of app/security.py over PyJWT, which is a parameter: `encode`, `decode` and
-- `hmac.compare_digest`, with what the code relies on. Times are whole seconds, as in the claims.
pub mod Tokens
pub mod Telegram
pub mod SecurityHeaders
pub mod Fixtures
mod Tests
use ssh_reports_hub_fast_api.Prelude.{
  ℕ, ◌+◌, ◌*◌, ◌≤◌, ◌<◌, ◌≡◌, Bool, true, false, not, ◌||◌, String, Option, none, some, List, [],
  ◌∷◌, str_eq, ◌==◌, ltb, leb, if◌then◌else◌,
}
use ssh_reports_hub_fast_api.Prelude.Int.{ℤ, pos, negsuc}
use ssh_reports_hub_fast_api.Text.{len}
use ssh_reports_hub_fast_api.Text.Number.{str_of, int_of}
use ssh_reports_hub_fast_api.Settings.{Settings, jwt_is_configured, share_token_secret}
use ssh_reports_hub_fast_api.Exceptions.{
  Result, ok, raise, throw, raise_if, Exc, app, make, no_overrides, authentication,
  service_unavailable, ◌>>=◌, ◌>>◌,
}

-- The JSON values of the claims that the code reads.
pub data Claim : Type 0 where
  null : Claim
  text : String → Claim
  number : ℕ → Claim

abbrev pub Payload : Type 0
Payload = List (String × Claim)

-- `payload.get(key)`, with `null` for a missing key.
abbrev pub get : String → Payload → Claim
get key [] = null
get key ((k, v) ∷ rest) = if str_eq k key then v else get key rest

-- Python's truth value.
abbrev pub truthy : Claim → Bool
truthy null = false
truthy (text s) = not (str_eq s "")
truthy (number n) = not (n == 0)

abbrev pub is_text : String → Claim → Bool
is_text s (text t) = str_eq t s
is_text s _ = false

-- The registered claims that PyJWT checks: not issued in the future, and not expired.
abbrev pub issued_by : ℕ → Claim → Bool
issued_by now (number n) = leb n now
issued_by now _ = true

abbrev pub unexpired_at : ℕ → Claim → Bool
unexpired_at now (number n) = ltb now n
unexpired_at now _ = true

-- PyJWT and `hmac.compare_digest`. `decode` is `none` where PyJWT raises `InvalidTokenError`.
pub record Jwt : Type 1 where
  pub Token : Type 0
  pub encode : Payload → String → String → Token
  pub decode : Token → String → String → ℕ → Option Payload
  pub compare_digest : Token → Token → Bool
  -- A token that was encoded is decoded with the same key and algorithm while its claims allow it.
  pub decode_encode :
      (p : Payload) (key alg : String) (now : ℕ)
      → issued_by now (get "iat" p) ≡ true
      → unexpired_at now (get "exp" p) ≡ true
      → decode (encode p key alg) key alg now ≡ some p
  -- What is decoded is what was encoded.
  pub decode_same :
      (p q : Payload) (key alg : String) (now : ℕ)
      → decode (encode p key alg) key alg now ≡ some q
      → q ≡ p
  -- An expired token is not decoded.
  pub decode_unexpired :
      (t : Token) (key alg : String) (now : ℕ) (p : Payload)
      → decode t key alg now ≡ some p
      → unexpired_at now (get "exp" p) ≡ true
  pub compare_digest_refl : (t : Token) → compare_digest t t ≡ true
  pub compare_digest_sound : (t u : Token) → compare_digest t u ≡ true → t ≡ u

abbrev pub auth_error : String → Exc
auth_error detail = app (make authentication detail no_overrides)

unfoldable pub require_jwt_secret : Settings → Result (Unit {0})
require_jwt_secret s =
    if jwt_is_configured s then ok tt else throw service_unavailable "JWT secret is not configured"

abbrev pub access_payload : ℕ → Settings → ℕ → Payload
access_payload subject s now =
    ("sub", text (str_of subject))
    ∷ ("type", text "access")
    ∷ ("iat", number now)
    ∷ ("exp", number (now + s.access_token_expire_minutes * 60))
    ∷ []

abbrev pub share_payload : ℕ → Settings → ℕ → Payload
share_payload report_id s now =
    ("rid", text (str_of report_id))
    ∷ ("type", text "share")
    ∷ ("iat", number now)
    ∷ ("exp", number (now + s.share_link_expire_days * 86400))
    ∷ []

-- `len(secret) < 32` of the share link functions.
unfoldable pub require_share_secret : Settings → Result (Unit {0})
require_share_secret s =
    if ltb (len (share_token_secret s)) 32
    then throw service_unavailable "Share link secret is not configured"
    else ok tt

-- `int(payload["rid"])`, with `none` for `TypeError` and `ValueError`.
unfoldable pub int_claim : Claim → Option ℤ
int_claim null = none
int_claim (text s) = int_of s
int_claim (number n) = some (pos n)

-- `report_id < 1` raises too.
unfoldable pub positive : Option ℤ → Result ℕ
positive (some (pos n)) = if n == 0 then raise (auth_error "Invalid share link") else ok n
positive _ = raise (auth_error "Invalid share link")

module _ (lib : Jwt) where
  open lib use {Token, encode, decode, compare_digest}

  -- The `try` block of both decoders: the decoded payload must encode to the token itself.
  unfoldable pub decode_canonical : String → Token → String → String → ℕ → Result Payload
  decode_canonical detail token key alg now = elim (decode token key alg now) [
    | none ↦ raise (auth_error detail)
    | some payload ↦
        if compare_digest token (encode payload key alg)
        then ok payload
        else raise (auth_error detail)
  ]

  unfoldable pub create_access_token : ℕ → Settings → ℕ → Result Token
  create_access_token subject s now = do
    require_jwt_secret s
    ok (encode (access_payload subject s now) s.jwt_secret_key s.jwt_algorithm)

  unfoldable pub decode_access_token : Token → Settings → ℕ → Result Payload
  decode_access_token token s now = do
    require_jwt_secret s
    payload ← decode_canonical "Invalid or expired token" token s.jwt_secret_key s.jwt_algorithm now
    raise_if (not (is_text "access" (get "type" payload)) || not (truthy (get "sub" payload)))
        (auth_error "Invalid token")
    ok payload

  unfoldable pub create_share_token : ℕ → Settings → ℕ → Result (Token × ℕ)
  create_share_token report_id s now = do
    require_share_secret s
    ok (
      encode (share_payload report_id s now) (share_token_secret s) s.jwt_algorithm,
      now + s.share_link_expire_days * 86400,
    )

  unfoldable pub decode_share_token : Token → Settings → ℕ → Result ℕ
  decode_share_token token s now = do
    require_share_secret s
    payload ←
        decode_canonical "Invalid or expired share link" token (share_token_secret s)
          s.jwt_algorithm now
    raise_if (not (is_text "share" (get "type" payload)) || not (truthy (get "rid" payload)))
        (auth_error "Invalid share link")
    positive (int_claim (get "rid" payload))
