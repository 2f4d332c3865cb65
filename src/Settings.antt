-- ===== src/Settings.antt =====
-- app/settings.py: the fields that the modelled code reads, the bounds that pydantic checks, and
-- the derived properties.
use Prim.Native.String.{[], ◌∷◌}
use mathlib.Core.List.{[], ◌∷◌}
use ssh_reports_hub_fast_api.Prelude.{
  ℕ, ◌≤◌, ◌*◌, Bool, not, Char, code, String, none, some, List, map, filter, any, str_eq, ◌==◌, leb,
  if◌then◌else◌,
}
use ssh_reports_hub_fast_api.Prelude.Int.{ℤ, int_eq}
use ssh_reports_hub_fast_api.Text.{is_space, strip, split, len}
use ssh_reports_hub_fast_api.Text.Number.{int_of, str_of}
use Prim.Native.String.{◌++◌}

pub record Settings : Type 0 where
  pub app_env : String
  pub jwt_secret_key : String
  pub jwt_algorithm : String
  pub share_link_secret : String
  pub share_link_expire_days : ℕ
  pub access_token_expire_minutes : ℕ
  pub telegram_bot_token : String
  pub telegram_auth_max_age_seconds : ℕ
  pub allow_auth_bypass : Bool
  pub cors_allow_origins : String
  pub allowed_telegram_user_ids : String
  pub admin_log_dir : String
  pub trusted_proxy_hosts : String
  pub redis_host : String
  pub redis_port : ℕ
  pub redis_db : ℕ
  pub redis_password : String

-- The `Field(ge=..., le=...)` bounds.
pub record InBounds (s : Settings) : Type 0 where
  pub share_days_ge : 1 ≤ s.share_link_expire_days
  pub share_days_le : s.share_link_expire_days ≤ 365
  pub minutes_ge : 5 ≤ s.access_token_expire_minutes
  pub minutes_le : s.access_token_expire_minutes ≤ 60 * 24 * 30
  pub max_age_ge : 60 ≤ s.telegram_auth_max_age_seconds
  pub max_age_le : s.telegram_auth_max_age_seconds ≤ 60 * 60 * 24 * 7

abbrev not_empty : String → Bool
not_empty s = not (str_eq s "")

-- `[x.strip() for x in raw.split(",") if x.strip()]`
unfoldable pub comma_list : String → List String
unfolding strip is_space split
comma_list raw = filter not_empty (map (strip is_space) (split b',' raw))

unfoldable pub allowed_origins : Settings → List String
unfolding comma_list
allowed_origins s = comma_list s.cors_allow_origins

unfoldable pub trusted_proxy_host_list : Settings → List String
unfolding comma_list
trusted_proxy_host_list s = comma_list s.trusted_proxy_hosts

abbrev is_char : ℕ → Char → Bool
is_char n c = code c == n

unfoldable pub clean_telegram_bot_token : Settings → String
unfolding strip is_space
clean_telegram_bot_token s =
    strip (is_char 39) (strip (is_char 34) (strip is_space s.telegram_bot_token))

unfoldable pub jwt_is_configured : Settings → Bool
unfolding len
jwt_is_configured s = leb 32 (len s.jwt_secret_key)

unfoldable pub share_token_secret : Settings → String
unfolding strip is_space
share_token_secret s =
    if str_eq (strip is_space s.share_link_secret) ""
    then s.jwt_secret_key
    else strip is_space s.share_link_secret

unfoldable pub redis_url : Settings → String
unfolding str_of
redis_url s =
    let place = s.redis_host ++ ":" ++ str_of s.redis_port ++ "/" ++ str_of s.redis_db in
    if str_eq s.redis_password ""
    then "redis://" ++ place
    else "redis://:" ++ s.redis_password ++ "@" ++ place

unfoldable pub redis_configured : Settings → Bool
redis_configured s = not_empty s.redis_host

-- The loop of `telegram_allowed_user_ids`: empty parts and parts that `int` refuses are skipped.
unfoldable pub read_ids : List String → List ℤ
unfolding strip is_space int_of
read_ids [] = []
read_ids (part ∷ parts) =
    let rest = read_ids parts in
    let value = strip is_space part in
    if str_eq value "" then rest else elim (int_of value) [ none ↦ rest | some n ↦ n ∷ rest ]

-- The set of the allowed ids, as a list that is only searched.
unfoldable pub telegram_allowed_user_ids : Settings → List ℤ
unfolding read_ids split
telegram_allowed_user_ids s =
    let raw = strip is_space s.allowed_telegram_user_ids in
    if str_eq raw "" then [] else read_ids (split b',' raw)

abbrev pub is_allowed : ℤ → List ℤ → Bool
is_allowed n = any (int_eq n)
