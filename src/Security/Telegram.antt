-- ===== src/Security/Telegram.antt =====
-- `verify_telegram_data` of app/security.py, over `hashlib` and `hmac`, which are parameters.
use Prim.Native.String.{◌++◌, compare}
use ssh_reports_hub_fast_api.Prelude.{
  ℕ, ◌+◌, ◌*◌, ◌≤◌, ◌≡◌, ◌↔◌, Bool, true, false, ◌||◌, String, Option, none, some, List, [], ◌∷◌,
  arith, str_eq, ltb, ◌==◌, if◌then◌else◌,
}
use text.Mathlib.Text.{is_le}
use ssh_reports_hub_fast_api.Prelude.Int.{ℤ, pos, negsuc}
use ssh_reports_hub_fast_api.Text.{join}
use ssh_reports_hub_fast_api.Text.Number.{str_of}
use ssh_reports_hub_fast_api.Settings.{Settings, clean_telegram_bot_token}

-- `schemas.TelegramUser`
pub record TelegramUser : Type 0 where
  pub id : ℕ
  pub first_name : String
  pub last_name : Option String
  pub username : Option String
  pub photo_url : Option String
  pub auth_date : ℤ
  pub hash : String

-- `str(n)` of a negative number too.
abbrev pub str_of_int : ℤ → String
str_of_int (pos n) = str_of n
str_of_int (negsuc n) = "-" ++ str_of (n + 1)

-- `user_data.model_dump()`: the fields in their order, as texts; `none` for `None`.
unfoldable pub model_dump : TelegramUser → List (String × Option String)
model_dump u =
    ("id", some (str_of u.id))
    ∷ ("first_name", some u.first_name)
    ∷ ("last_name", u.last_name)
    ∷ ("username", u.username)
    ∷ ("photo_url", u.photo_url)
    ∷ ("auth_date", some (str_of_int u.auth_date))
    ∷ ("hash", some u.hash)
    ∷ []

-- `sorted(data.items())`: the keys are distinct, so only they are compared.
unfoldable pub insert_item :
    String × Option String → List (String × Option String) → List (String × Option String)
insert_item item [] = item ∷ []
insert_item item (other ∷ rest) =
    let after = insert_item item rest in
    if is_le (compare item.0 other.0) then item ∷ other ∷ rest else other ∷ after

unfoldable pub sorted_items : List (String × Option String) → List (String × Option String)
unfolding insert_item
sorted_items [] = []
sorted_items (item ∷ items) = insert_item item (sorted_items items)

-- `[f"{key}={value}" ... if key != "hash" and value is not None]`
unfoldable pub data_list : List (String × Option String) → List String
data_list [] = []
data_list ((key, none) ∷ items) = data_list items
data_list ((key, some value) ∷ items) =
    let rest = data_list items in if str_eq key "hash" then rest else (key ++ "=" ++ value) ∷ rest

unfoldable pub data_check_string : TelegramUser → String
unfolding model_dump sorted_items data_list join
data_check_string u = join "\n" (data_list (sorted_items (model_dump u)))

-- `hmac.new(sha256(token).digest(), message, sha256).hexdigest()` and `hmac.compare_digest`.
pub record Crypto : Type 0 where
  pub signature : String → String → String
  pub compare_digest : String → String → Bool
  pub compare_digest_sound : (a b : String) → compare_digest a b ≡ true → a ≡ b
  pub compare_digest_refl : (a : String) → compare_digest a a ≡ true

-- The value of a timestamp that is not negative.
abbrev pub magnitude : ℤ → ℕ
magnitude (pos n) = n
magnitude (negsuc n) = 0

abbrev pub micros : ℕ
micros = 1000000

module _ (lib : Crypto) where
  -- The clock `now` is in microseconds: `time.time()` has a fraction.
  unfoldable pub verify_telegram_data : TelegramUser → Settings → ℕ → Bool × String
  verify_telegram_data u s now =
      let bot_token = clean_telegram_bot_token s in
      let expected = lib.signature bot_token (data_check_string u) in
      if str_eq bot_token ""
      then (false, "TELEGRAM_BOT_TOKEN is not configured")
      else (if str_eq u.hash "" then (false, "Missing Telegram hash") else elim u.auth_date [
        | negsuc n ↦ (false, "Missing Telegram auth_date")
        | pos n ↦
            if n == 0
            then (false, "Missing Telegram auth_date")
            else (if ltb (now + 60 * micros) (n * micros)
                  || ltb (n * micros + s.telegram_auth_max_age_seconds * micros) now
                then (false, "Telegram auth data is expired")
                else (if lib.compare_digest expected u.hash
                    then (true, "")
                    else (false, "Telegram signature mismatch")))
      ])

  -- The contract of the login data.
  pub record IsAuthentic (u : TelegramUser) (s : Settings) (now : ℕ) : Type 0 where
    pub configured : str_eq (clean_telegram_bot_token s) "" ≡ false
    pub signed : str_eq u.hash "" ≡ false
    pub dated : u.auth_date ≡ pos (magnitude u.auth_date)
    pub positive : 1 ≤ magnitude u.auth_date
    pub not_future : magnitude u.auth_date * micros ≤ now + 60 * micros
    pub not_stale : now ≤ magnitude u.auth_date * micros + s.telegram_auth_max_age_seconds * micros
    pub authentic : u.hash ≡ lib.signature (clean_telegram_bot_token s) (data_check_string u)

  accepted :
      (u : TelegramUser) (s : Settings) (now : ℕ)
      → (verify_telegram_data u s now).0 ≡ true
      → IsAuthentic u s now
  unfolding verify_telegram_data
  accepted u s now h =
      let expected = lib.signature (clean_telegram_bot_token s) (data_check_string u) in
      let same = lib.compare_digest_sound expected u.hash in
      record {
        configured = ground arith;
        signed = ground arith;
        dated = ground arith;
        positive = ground arith;
        not_future = ground arith;
        not_stale = ground arith;
        authentic = ground (arith, same);
      }

  complete :
      (u : TelegramUser) (s : Settings) (now : ℕ)
      → IsAuthentic u s now
      → (verify_telegram_data u s now).0 ≡ true
  unfolding verify_telegram_data
  complete u s now h = ground (arith, lib.compare_digest_refl u.hash)

  -- Login data is accepted exactly if the bot token is configured, the hash is there, the timestamp
  -- is positive, at most 60 seconds in the future and at most the maximal age in the past, and the
  -- hash is the signature of the other fields under the bot token.
  pub verify_telegram_data_iff :
      (u : TelegramUser) (s : Settings) (now : ℕ)
      → ((verify_telegram_data u s now).0 ≡ true) ↔ IsAuthentic u s now
  verify_telegram_data_iff u s now = (accepted u s now, complete u s now)

-- One line of the check string, if the field is set, in front of the others.
abbrev pub field_line : String → Option String → List String → List String
field_line key none rest = rest
field_line key (some value) rest = (key ++ "=" ++ value) ∷ rest

-- The check string as Telegram specifies it: the fields that are set, without the hash, in the
-- alphabetical order of their names, one `key=value` to a line.
pub data_check_string_lem :
    (u : TelegramUser)
    → data_check_string u
      ≡ join "\n" (
          ("auth_date" ++ "=" ++ str_of_int u.auth_date)
          ∷ ("first_name" ++ "=" ++ u.first_name)
          ∷ ("id" ++ "=" ++ str_of u.id)
          ∷ field_line "last_name" u.last_name
              (field_line "photo_url" u.photo_url (field_line "username" u.username [])))
unfolding data_check_string
data_check_string_lem u = ground arith
