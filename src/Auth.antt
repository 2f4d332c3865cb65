-- ===== src/Auth.antt =====
-- Login and authorisation: `auth_telegram` of app/main.py, `get_user_from_token` of
-- app/dependencies.py and `require_admin` of app/routers/admin.py, over the table of `User`
-- (app/models.py).
pub mod Login
mod Tests
use ssh_reports_hub_fast_api.Prelude.{
  ℕ, ◌/◌, Bool, true, false, not, ◌&&◌, ◌||◌, String, Option, none, some, List, [], ◌∷◌, ◌++◌, any,
  str_eq, ◌==◌, if◌then◌else◌,
}
use ssh_reports_hub_fast_api.Prelude.Int.{ℤ, pos, int_eq}
use ssh_reports_hub_fast_api.Text.{is_dev}
use ssh_reports_hub_fast_api.Settings.{
  Settings, telegram_allowed_user_ids, is_allowed, clean_telegram_bot_token,
}
use ssh_reports_hub_fast_api.Exceptions.{
  Result, ok, raise, throw, Exc, app, other, authentication, permission_denied, service_unavailable,
  ◌>>=◌,
}
use ssh_reports_hub_fast_api.Security.{
  Jwt, get, int_claim, auth_error, create_access_token, decode_access_token,
}
use ssh_reports_hub_fast_api.Security.Telegram.{TelegramUser, Crypto, micros, verify_telegram_data}
use Prim.Native.String.{◌++◌ as append}

pub record User : Type 0 where
  pub id : ℕ
  pub first_name : String
  pub last_name : Option String
  pub username : Option String
  pub photo_url : Option String
  pub status : String
  pub is_admin : Bool

-- `db.query(User).filter(User.id == id).first()`
unfoldable pub find_user : ℤ → List User → Option User
find_user id [] = none
find_user id (user ∷ users) =
    let rest = find_user id users in if int_eq (pos user.id) id then some user else rest

-- A new user gets the column defaults: pending, and no administrator.
abbrev pub new_user : TelegramUser → User
new_user u = record {
  id = u.id;
  first_name = u.first_name;
  last_name = u.last_name;
  username = u.username;
  photo_url = u.photo_url;
  status = "pending";
  is_admin = false;
}

abbrev pub refresh : TelegramUser → User → User
refresh u user = record user {
  first_name = u.first_name;
  last_name = u.last_name;
  username = u.username;
  photo_url = u.photo_url;
}

-- The update of the row that `first()` found, or the insert.
unfoldable pub upsert : TelegramUser → List User → User × List User
upsert u [] = (new_user u, new_user u ∷ [])
upsert u (user ∷ users) =
    let (found, rest) = upsert u users in
    if user.id == u.id then (refresh u user, refresh u user ∷ users) else (found, user ∷ rest)

-- The message for a rejected signature.
abbrev pub reject_reason : String → String
reject_reason reason =
    if str_eq reason "Telegram signature mismatch"
    then "Telegram Auth Failed: Telegram signature mismatch. Check that the frontend VITE_TELEGRAM_BOT_USERNAME matches the bot whose token is configured as TELEGRAM_BOT_TOKEN."
    else append "Telegram Auth Failed: " reason

unfoldable pub is_whitelisted : TelegramUser → Settings → Bool
is_whitelisted u s = is_allowed (pos u.id) (telegram_allowed_user_ids s)

abbrev pub is_empty {ℓ} : {A : Type ℓ} → List A → Bool
is_empty [] = true
is_empty (x ∷ xs) = false

unfoldable pub is_bypass : Settings → Bool
is_bypass s = is_dev s.app_env

unfoldable pub user_by_claim : Option ℤ → List User → Result User
user_by_claim none users = raise (other "ValueError")
user_by_claim (some id) users = elim (find_user id users) [
  | none ↦ raise (auth_error "User Not Found")
  | some user ↦
      if str_eq user.status "active"
      then ok user
      else throw permission_denied "User access is not active"
]

module _ (lib : Jwt) where
  open lib use {Token}

  unfoldable pub get_user_from_token : Token → Settings → ℕ → List User → Result User
  get_user_from_token token s now users = do
    payload ← decode_access_token lib token s now
    user_by_claim (int_claim (get "sub" payload)) users

module _ (crypto : Crypto) (lib : Jwt) where
  open lib use {Token}

  -- The checks before the database is touched.
  unfoldable pub check_login : TelegramUser → Settings → ℕ → Result (Unit {0})
  check_login u s now =
      let (valid, reason) = verify_telegram_data crypto u s now in
      let allowed = telegram_allowed_user_ids s in
      let listed : Result (Unit {0}) =
        if not (is_empty allowed) && not (is_allowed (pos u.id) allowed)
        then throw permission_denied "Telegram User Not Allowed"
        else ok tt in
      if not (is_bypass s) && not (is_whitelisted u s)
      then (if str_eq (clean_telegram_bot_token s) ""
          then throw service_unavailable "Telegram bot token is not configured"
          else (if valid then listed else raise (auth_error (reject_reason reason))))
      else listed

  -- The token for the row after the commit.
  unfoldable pub grant : User → Settings → ℕ → Result (Token × User)
  grant user s now =
      if str_eq user.status "active"
      then (do token ← create_access_token lib user.id s (now / micros); ok (token, user))
      else throw permission_denied "Telegram User Approval Required"

  -- The rows are committed before the status is read, so they stay also where the answer is 403.
  unfoldable pub auth_telegram :
      TelegramUser → Settings → ℕ → List User → Result (Token × User) × List User
  auth_telegram u s now users = elim (check_login u s now) [
    | raise e ↦ (raise e, users)
    | ok _ ↦ (grant (upsert u users).0 s now, (upsert u users).1)
  ]

unfoldable pub require_admin : User → Result User
require_admin user =
    if not (str_eq user.status "active") || not user.is_admin
    then throw permission_denied "Admin access required"
    else ok user
