-- ===== src/Security/Fixtures.antt =====
-- Test data: settings, and a token library and a signature that are computed by functions and meet
-- what the code relies on.
use ssh_reports_hub_fast_api.Prelude.{
  ℕ, Bool, true, false, ◌&&◌, ◌≡◌, refl, ap, String, Option, none, some, [], ◌∷◌, str_eq, eq_iff,
  arith, ◌==◌, ==_iff, if◌then◌else◌,
}
use ssh_reports_hub_fast_api.Settings.{Settings}
use ssh_reports_hub_fast_api.Security.{
  Claim, null, text, number, Payload, get, Jwt, issued_by, unexpired_at,
}
use ssh_reports_hub_fast_api.Security.Telegram.{Crypto}

abbrev claim_eq : Claim → Claim → Bool
claim_eq null null = true
claim_eq (text a) (text b) = str_eq a b
claim_eq (number a) (number b) = a == b
claim_eq _ _ = false

claim_eq_refl : (c : Claim) → claim_eq c c ≡ true
claim_eq_refl null = refl
claim_eq_refl (text a) = ground (arith, eq_iff a a)
claim_eq_refl (number a) = ground (arith, ==_iff a a)

claim_eq_sound : (c d : Claim) → claim_eq c d ≡ true → c ≡ d
claim_eq_sound null null h = refl
claim_eq_sound null (text b) h = absurd (ground arith)
claim_eq_sound null (number b) h = absurd (ground arith)
claim_eq_sound (text a) null h = absurd (ground arith)
claim_eq_sound (text a) (text b) h = ap text ((eq_iff a b).0 h)
claim_eq_sound (text a) (number b) h = absurd (ground arith)
claim_eq_sound (number a) null h = absurd (ground arith)
claim_eq_sound (number a) (text b) h = absurd (ground arith)
claim_eq_sound (number a) (number b) h = ap number ((==_iff a b).0 h)

abbrev payload_eq : Payload → Payload → Bool
payload_eq [] [] = true
payload_eq [] (y ∷ ys) = false
payload_eq (x ∷ xs) [] = false
payload_eq ((k, c) ∷ xs) ((l, d) ∷ ys) = str_eq k l && claim_eq c d && payload_eq xs ys

payload_eq_refl : (p : Payload) → payload_eq p p ≡ true
payload_eq_refl [] = refl
payload_eq_refl ((k, c) ∷ xs) = ground (arith, eq_iff k k, claim_eq_refl c, payload_eq_refl xs)

payload_eq_sound : (p q : Payload) → payload_eq p q ≡ true → p ≡ q
payload_eq_sound [] [] h = refl
payload_eq_sound [] (y ∷ ys) h = absurd (ground arith)
payload_eq_sound (x ∷ xs) [] h = absurd (ground arith)
payload_eq_sound ((k, c) ∷ xs) ((l, d) ∷ ys) h =
    ground (arith, eq_iff k l, claim_eq_sound c d, payload_eq_sound xs ys)

abbrev Signed : Type 0
Signed = Payload × String × String

abbrev signed_eq : Signed → Signed → Bool
signed_eq (p, k, a) (q, l, b) = payload_eq p q && str_eq k l && str_eq a b

abbrev read : Signed → String → String → ℕ → Option Payload
read (p, k, a) key alg now =
    if str_eq k key && str_eq a alg && issued_by now (get "iat" p) && unexpired_at now (get "exp" p)
    then some p
    else none

pub read-sign :
    (p : Payload) (key alg : String) (now : ℕ)
    → issued_by now (get "iat" p) ≡ true
    → unexpired_at now (get "exp" p) ≡ true
    → read (p, key, alg) key alg now ≡ some p
read-sign p key alg now issued fresh = ground (arith, eq_iff key key, eq_iff alg alg)

pub read_same :
    (p q : Payload) (key alg : String) (now : ℕ) → read (p, key, alg) key alg now ≡ some q → q ≡ p
read_same p q key alg now h = ground arith

pub read_unexpired :
    (t : Signed) (key alg : String) (now : ℕ) (p : Payload)
    → read t key alg now ≡ some p
    → unexpired_at now (get "exp" p) ≡ true
read_unexpired t key alg now p h = ground arith

pub signed_eq_refl : (t : Signed) → signed_eq t t ≡ true
signed_eq_refl (p, k, a) = ground (arith, payload_eq_refl p, eq_iff k k, eq_iff a a)

pub signed_eq_sound : (t u : Signed) → signed_eq t u ≡ true → t ≡ u
signed_eq_sound (p, k, a) (q, l, b) h = ground (arith, payload_eq_sound p q, eq_iff k l, eq_iff a b)

-- Tokens that carry their claims, key and algorithm.
abbrev pub plain_jwt : Jwt
plain_jwt = record {
  Token = Signed;
  encode = λ p key alg. (p, key, alg);
  decode = read;
  compare_digest = signed_eq;
  decode_encode = read-sign;
  decode_same = read_same;
  decode_unexpired = read_unexpired;
  compare_digest_refl = signed_eq_refl;
  compare_digest_sound = signed_eq_sound;
}

-- A signature that is the message itself.
abbrev pub plain_crypto : Crypto
plain_crypto = record {
  signature = λ token message. message;
  compare_digest = str_eq;
  compare_digest_sound = λ a b h. (eq_iff a b).0 h;
  compare_digest_refl = λ a. (eq_iff a a).1 refl;
}

abbrev pub test_settings : Settings
test_settings = record {
  app_env = "prod";
  jwt_secret_key = "0123456789abcdef0123456789abcdef";
  jwt_algorithm = "HS256";
  share_link_secret = "";
  share_link_expire_days = 30;
  access_token_expire_minutes = 60;
  telegram_bot_token = "token";
  telegram_auth_max_age_seconds = 86400;
  allow_auth_bypass = false;
  cors_allow_origins = "";
  allowed_telegram_user_ids = "7";
  admin_log_dir = "";
  trusted_proxy_hosts = "";
  redis_host = "";
  redis_port = 6379;
  redis_db = 0;
  redis_password = "";
}
