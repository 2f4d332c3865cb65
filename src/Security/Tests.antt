-- ===== src/Security/Tests.antt =====
-- The theorems about app/security.py at concrete tokens, login data and responses.
use ssh_reports_hub_fast_api.Prelude.{
  ◌≡◌, refl, arith, true, false, none, some, [], ◌∷◌, ◌↔◌, ◌||◌, if◌then◌else◌, ◌≤◌,
}
use Prim.Native.String.{◌++◌}
use ssh_reports_hub_fast_api.Prelude.Int.{pos}
use ssh_reports_hub_fast_api.Text.{len, join, has_prefix, is_space, strip, lstrip, rstrip}
use ssh_reports_hub_fast_api.Text.Number.{str_of}
use ssh_reports_hub_fast_api.Settings.{jwt_is_configured, share_token_secret}
use ssh_reports_hub_fast_api.Exceptions.{ok}
use ssh_reports_hub_fast_api.Security.{
  require_jwt_secret, decode_canonical, get, is_text, truthy, unexpired_at, access_payload,
  decode_access_token,
}
use ssh_reports_hub_fast_api.Security.Tokens.{decode_access_token_sound}
use ssh_reports_hub_fast_api.Security.Telegram.{
  TelegramUser, verify_telegram_data, IsAuthentic, verify_telegram_data_iff, data_check_string,
  data_check_string_lem, str_of_int, field_line,
}
use ssh_reports_hub_fast_api.Security.SecurityHeaders.{
  RequestLine, dispatch, lookup, or_default, dispatch_defaults,
}
use ssh_reports_hub_fast_api.Security.Fixtures.{plain_jwt, plain_crypto, test_settings}

long : 32 ≤ len (share_token_secret test_settings)
unfolding len share_token_secret strip lstrip rstrip is_space
long = omega arith

accepted :
    decode_access_token plain_jwt
      (access_payload 7 test_settings 1000, test_settings.jwt_secret_key, "HS256")
      test_settings
      2000
    ≡ ok (access_payload 7 test_settings 1000)
unfolding decode_access_token require_jwt_secret str_of jwt_is_configured decode_canonical len
accepted = refl

decode_access_token_sound_example :
    (jwt_is_configured test_settings ≡ true)
    × ((access_payload 7 test_settings 1000, test_settings.jwt_secret_key, "HS256")
        ≡ plain_jwt.encode
            (access_payload 7 test_settings 1000)
            test_settings.jwt_secret_key
            test_settings.jwt_algorithm)
    × (is_text "access" (get "type" (access_payload 7 test_settings 1000)) ≡ true)
    × (truthy (get "sub" (access_payload 7 test_settings 1000)) ≡ true)
    × (unexpired_at 2000 (get "exp" (access_payload 7 test_settings 1000)) ≡ true)
decode_access_token_sound_example =
    decode_access_token_sound plain_jwt
      (access_payload 7 test_settings 1000, test_settings.jwt_secret_key, "HS256") test_settings
      2000 (access_payload 7 test_settings 1000) accepted

abbrev visitor : TelegramUser
visitor = record {
  id = 5;
  first_name = "A";
  last_name = none;
  username = some "a";
  photo_url = none;
  auth_date = pos 1000;
  hash = "auth_date=1000\nfirst_name=A\nid=5\nusername=a";
}

verify_telegram_data_iff_example :
    ((verify_telegram_data plain_crypto visitor test_settings 1000000000).0 ≡ true)
    ↔ IsAuthentic plain_crypto visitor test_settings 1000000000
verify_telegram_data_iff_example =
    verify_telegram_data_iff plain_crypto visitor test_settings 1000000000

data_check_string_example :
    data_check_string visitor
    ≡ join "\n" (
        ("auth_date" ++ "=" ++ str_of_int (pos 1000))
        ∷ ("first_name" ++ "=" ++ "A")
        ∷ ("id" ++ "=" ++ str_of 5)
        ∷ field_line "last_name" none
            (field_line "photo_url" none (field_line "username" (some "a") [])))
data_check_string_example = data_check_string_lem visitor

abbrev line : RequestLine
line = record { path = "/auth/telegram"; is_https = false; forwarded_https = true }

dispatch_defaults_example :
    (lookup "x-content-type-options" (dispatch line [])
      ≡ or_default (lookup "x-content-type-options" []) "nosniff")
    × (lookup "x-frame-options" (dispatch line [])
        ≡ or_default (lookup "x-frame-options" []) "DENY")
    × (lookup "cache-control" (dispatch line []) ≡ (
        if has_prefix "/external/api/" line.path
        then lookup "cache-control" []
        else or_default (lookup "cache-control" []) "no-store"))
    × (lookup "strict-transport-security" (dispatch line []) ≡ (
        if line.is_https || line.forwarded_https
        then or_default
            (lookup "strict-transport-security" [])
            "max-age=31536000; includeSubDomains"
        else lookup "strict-transport-security" []))
dispatch_defaults_example = dispatch_defaults line []
