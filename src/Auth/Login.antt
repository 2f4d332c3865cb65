-- ===== src/Auth/Login.antt =====
-- Who gets a token, and what a login changes (app/main.py, app/dependencies.py).
use ssh_reports_hub_fast_api.Prelude.{
  ℕ, ◌+◌, ◌*◌, ◌/◌, ◌≤◌, ◌<◌, Bool, true, false, ◌&&◌, ◌||◌, ◌≡◌, refl, sym, ap, ◌∙◌, String, some,
  List, [], ◌∷◌, ◌++◌, map, any, str_eq, arith, ◌==◌, if◌then◌else◌,
}
use ssh_reports_hub_fast_api.Prelude.Int.{ℤ, pos}
use ssh_reports_hub_fast_api.Text.Number.{int_of-str_of}
use ssh_reports_hub_fast_api.Settings.{
  Settings, telegram_allowed_user_ids, clean_telegram_bot_token, jwt_is_configured,
}
use ssh_reports_hub_fast_api.Exceptions.{Result, ok, raise}
use ssh_reports_hub_fast_api.Security.{
  Jwt, create_access_token, decode_access_token, access_payload, require_jwt_secret, int_claim,
}
use ssh_reports_hub_fast_api.Security.Tokens.{decode-create_access_token}
use ssh_reports_hub_fast_api.Security.Telegram.{
  TelegramUser, Crypto, micros, verify_telegram_data, verify_telegram_data_iff,
}
use ssh_reports_hub_fast_api.Auth.{
  User, find_user, upsert, is_whitelisted, is_bypass, is_empty, check_login, grant, auth_telegram,
  user_by_claim, get_user_from_token, require_admin,
}

abbrev pub is_ok {ℓ} : {A : Type ℓ} → Result A → Bool
is_ok (ok a) = true
is_ok (raise e) = false

module _ (crypto : Crypto) (lib : Jwt) where
  valid_configured :
      (u : TelegramUser) (s : Settings) (now : ℕ)
      → (verify_telegram_data crypto u s now).0 ≡ true
      → str_eq (clean_telegram_bot_token s) "" ≡ false
  valid_configured u s now v = ((verify_telegram_data_iff crypto u s now).0 v).configured

  -- A login passes the checks exactly if the user is on the allowed list or there is no list, and
  -- one of these holds: the application runs in development mode, the user is on the list, or the
  -- data carries a valid signature.
  pub check_login_iff :
      (u : TelegramUser) (s : Settings) (now : ℕ)
      → is_ok (check_login crypto lib u s now) ≡ (
          (is_empty (telegram_allowed_user_ids s) || is_whitelisted u s)
          && (is_bypass s || is_whitelisted u s || (verify_telegram_data crypto u s now).0))
  unfolding check_login is_whitelisted
  check_login_iff u s now =
      ground
        (arith, λ (v : (verify_telegram_data crypto u s now).0 ≡ true). valid_configured u s now v)

  -- A user on the allowed list passes the checks, and is granted the same, whatever hash and
  -- timestamp the request carries: the signature of a listed user is never verified.
  pub auth_telegram_unverified :
      (u : TelegramUser) (hash : String) (auth_date : ℤ) (s : Settings) (now : ℕ)
      (users : List User)
      → is_whitelisted u s ≡ true
      → auth_telegram crypto lib (record u { hash = hash; auth_date = auth_date }) s now users
        ≡ auth_telegram crypto lib u s now users
  unfolding auth_telegram check_login is_whitelisted upsert
  auth_telegram_unverified u hash auth_date s now users h = ground arith

  -- A login that does not pass the checks changes no row; one that passes them upserts the row.
  pub auth_telegram-users :
      (u : TelegramUser) (s : Settings) (now : ℕ) (users : List User)
      → (auth_telegram crypto lib u s now users).1
        ≡ (if is_ok (check_login crypto lib u s now) then (upsert u users).1 else users)
  unfolding auth_telegram
  auth_telegram-users u s now users = ground arith

  -- A token is granted only to a user whose row, after the login, is active.
  pub auth_telegram-active :
      (u : TelegramUser) (s : Settings) (now : ℕ) (users : List User)
      → is_ok (auth_telegram crypto lib u s now users).0 ≡ true
      → (is_ok (check_login crypto lib u s now) ≡ true)
        × (str_eq (upsert u users).0.status "active" ≡ true)
  unfolding auth_telegram grant
  auth_telegram-active u s now users h = ground arith

-- What a login leaves of every row that was there: identifier, status and rights.
abbrev pub rights : User → ℕ × String × Bool
rights user = (user.id, user.status, user.is_admin)

abbrev pub has_user : ℕ → List User → Bool
has_user id = any (λ user. user.id == id)

-- A login never changes the identifier, the status or the administrator flag of a row; for an
-- unknown user it adds one row at the end, which is pending and no administrator.
pub upsert-rights :
    (u : TelegramUser) (users : List User)
    → map rights (upsert u users).1 ≡ (
        if has_user u.id users
        then map rights users
        else map rights users ++ (u.id, "pending", false) ∷ [])
unfolding upsert
upsert-rights u [] = refl
upsert-rights u (user ∷ users) = ground (arith, upsert-rights u users)

id-upsert : (u : TelegramUser) (users : List User) → (upsert u users).0.id ≡ u.id
unfolding upsert
id-upsert u [] = refl
id-upsert u (user ∷ users) = ground (arith, id-upsert u users)

find_user-upsert :
    (u : TelegramUser) (users : List User)
    → find_user (pos u.id) (upsert u users).1 ≡ some (upsert u users).0
unfolding find_user upsert
find_user-upsert u [] = ground arith
find_user-upsert u (user ∷ users) = ground (arith, find_user-upsert u users)

user_by_claim-upsert :
    (u : TelegramUser) (users : List User)
    → str_eq (upsert u users).0.status "active" ≡ true
    → user_by_claim (some (pos (upsert u users).0.id)) (upsert u users).1 ≡ ok (upsert u users).0
unfolding user_by_claim
user_by_claim-upsert u users active =
    rw (id-upsert u users) (ground (arith, find_user-upsert u users))

module _ (crypto : Crypto) (lib : Jwt) where
  open lib use {Token}

  auth_telegram-ok :
      (u : TelegramUser) (s : Settings) (now : ℕ) (users : List User) {x : Token × User}
      → (auth_telegram crypto lib u s now users).0 ≡ ok x
      → (grant crypto lib (upsert u users).0 s now ≡ ok x)
        × ((auth_telegram crypto lib u s now users).1 ≡ (upsert u users).1)
  unfolding auth_telegram
  auth_telegram-ok u s now users h = ground arith

  grant-ok :
      (user : User) (s : Settings) (now : ℕ) {token : Token} {v : User}
      → grant crypto lib user s now ≡ ok (token, v)
      → (user ≡ v)
        × (str_eq user.status "active" ≡ true)
        × (create_access_token lib user.id s (now / micros) ≡ ok token)
  unfolding grant
  grant-ok user s now h = ground arith

  create-configured :
      (n : ℕ) (s : Settings) (now : ℕ) {token : Token}
      → create_access_token lib n s now ≡ ok token
      → jwt_is_configured s ≡ true
  unfolding create_access_token require_jwt_secret
  create-configured n s now h = ground arith

  decode-created :
      (n : ℕ) (s : Settings) (now later : ℕ) {token : Token}
      → now ≤ later
      → later < now + s.access_token_expire_minutes * 60
      → create_access_token lib n s now ≡ ok token
      → decode_access_token lib token s later ≡ ok (access_payload n s now)
  decode-created n s now later order fresh made =
      rw made at
        (decode-create_access_token lib s now later order n (create-configured n s now made) fresh)

  get_user-created :
      (u : TelegramUser) (s : Settings) (now later : ℕ) (users : List User) (token : Token)
      → now / micros ≤ later
      → later < now / micros + s.access_token_expire_minutes * 60
      → create_access_token lib (upsert u users).0.id s (now / micros) ≡ ok token
      → (later_users : List User)
      → get_user_from_token lib token s later later_users
        ≡ user_by_claim (some (pos u.id)) later_users
  unfolding get_user_from_token int_claim
  get_user-created u s now later users token order fresh made later_users =
      rw
        (
          decode-created (upsert u users).0.id s (now / micros) later order fresh made,
          int_of-str_of,
        )
        (ap (λ n. user_by_claim (some (pos n)) later_users) (id-upsert u users))

  -- Until it expires and under the same settings, the token of a login stands for the user who logged in:
  -- a request with it gets what `user_by_claim` gives for that user's identifier in the table of that
  -- request, whatever has become of the table; and where the table is as the login left it, it gets the
  -- row that the login returned.
  pub get_user-auth_telegram :
      (u : TelegramUser) (s : Settings) (now later : ℕ) (users later_users : List User)
      (token : Token) (user : User)
      → now / micros ≤ later
      → later < now / micros + s.access_token_expire_minutes * 60
      → (auth_telegram crypto lib u s now users).0 ≡ ok (token, user)
      → (get_user_from_token lib token s later later_users
          ≡ user_by_claim (some (pos u.id)) later_users)
        × (get_user_from_token lib token s later (auth_telegram crypto lib u s now users).1
            ≡ ok user)
  get_user-auth_telegram u s now later users later_users token user order fresh h =
      let (granted, rows) = auth_telegram-ok u s now users h in
      let (same, active, made) = grant-ok (upsert u users).0 s now granted in
      let claimed = get_user-created u s now later users token order fresh made in
      (
        claimed later_users,
        claimed (auth_telegram crypto lib u s now users).1
            ∙ rw rows (
                ap (λ n. user_by_claim (some (pos n)) (upsert u users).1) (sym (id-upsert u users))
                ∙ (user_by_claim-upsert u users active ∙ ap (λ (v : User). ok v) same)),
      )

-- `require_admin` lets through exactly the active administrators.
pub require_admin_iff :
    (user : User) → is_ok (require_admin user) ≡ (str_eq user.status "active" && user.is_admin)
unfolding require_admin
require_admin_iff user = ground arith
