-- ===== src/Auth/Tests.antt =====
-- The theorems about login and authorisation at a concrete table of users.
use ssh_reports_hub_fast_api.Prelude.{
  ◌≡◌, refl, arith, true, false, ◌&&◌, ◌||◌, none, some, [], ◌∷◌, ◌++◌, map, if◌then◌else◌,
}
use ssh_reports_hub_fast_api.Prelude.Int.{pos}
use ssh_reports_hub_fast_api.Text.{is_dev}
use ssh_reports_hub_fast_api.Text.Number.{int_of}
use ssh_reports_hub_fast_api.Settings.{telegram_allowed_user_ids, jwt_is_configured}
use ssh_reports_hub_fast_api.Exceptions.{ok}
use ssh_reports_hub_fast_api.Security.{create_access_token, require_jwt_secret, access_payload}
use ssh_reports_hub_fast_api.Security.Telegram.{TelegramUser, verify_telegram_data}
use ssh_reports_hub_fast_api.Security.Fixtures.{plain_jwt, plain_crypto, test_settings}
use ssh_reports_hub_fast_api.Auth.{
  User, upsert, refresh, is_whitelisted, is_bypass, is_empty, check_login, grant, auth_telegram,
  get_user_from_token, user_by_claim,
}
use ssh_reports_hub_fast_api.Auth.Login.{
  is_ok, check_login_iff, rights, has_user, upsert-rights, get_user-auth_telegram,
}

abbrev listed : TelegramUser
listed = record {
  id = 7;
  first_name = "B";
  last_name = none;
  username = none;
  photo_url = none;
  auth_date = pos 0;
  hash = "";
}

abbrev member : User
member = record {
  id = 7;
  first_name = "A";
  last_name = none;
  username = none;
  photo_url = none;
  status = "active";
  is_admin = true;
}

listed-is_whitelisted : is_whitelisted listed test_settings ≡ true
unfolding is_whitelisted telegram_allowed_user_ids int_of
listed-is_whitelisted = refl

check_login_iff_example : is_ok (check_login plain_crypto plain_jwt listed test_settings 1000) ≡ (
    (is_empty (telegram_allowed_user_ids test_settings) || is_whitelisted listed test_settings)
    && (is_bypass test_settings
        || is_whitelisted listed test_settings
        || (verify_telegram_data plain_crypto listed test_settings 1000).0))
check_login_iff_example = check_login_iff plain_crypto plain_jwt listed test_settings 1000

granted :
    (auth_telegram plain_crypto plain_jwt listed test_settings 1000000000 (member ∷ [])).0
    ≡ ok (
      (access_payload 7 test_settings 1000, test_settings.jwt_secret_key, "HS256"),
      refresh listed member,
    )
unfolding auth_telegram check_login grant upsert create_access_token require_jwt_secret
    jwt_is_configured telegram_allowed_user_ids int_of is_whitelisted is_bypass is_dev
granted = refl

-- The row of the user after an administrator has deactivated it.
abbrev deactivated : User
deactivated = record member { status = "inactive" }

get_user-auth_telegram_example :
    (get_user_from_token plain_jwt
        (access_payload 7 test_settings 1000, test_settings.jwt_secret_key, "HS256")
        test_settings
        2000
        (deactivated ∷ [])
      ≡ user_by_claim (some (pos 7)) (deactivated ∷ []))
    × (get_user_from_token plain_jwt
          (access_payload 7 test_settings 1000, test_settings.jwt_secret_key, "HS256")
          test_settings
          2000
          (auth_telegram plain_crypto plain_jwt listed test_settings 1000000000 (member ∷ [])).1
        ≡ ok (refresh listed member))
get_user-auth_telegram_example =
    get_user-auth_telegram plain_crypto plain_jwt listed test_settings 1000000000 2000 (member ∷ [])
      (deactivated ∷ [])
      (access_payload 7 test_settings 1000, test_settings.jwt_secret_key, "HS256")
      (refresh listed member) (omega arith) (omega arith) granted

upsert-rights_example :
    map rights (upsert listed []).1
    ≡ (if has_user 7 [] then map rights [] else map rights [] ++ (7, "pending", false) ∷ [])
upsert-rights_example = upsert-rights listed []
