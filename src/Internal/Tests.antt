-- ===== src/Internal/Tests.antt =====
-- The theorems about the scraper's endpoints at concrete stores and rows.
use Prim.Native.String.{◌++◌ as append}
use ssh_reports_hub_fast_api.Prelude.{
  ◌+◌, ◌≡◌, refl, arith, String, Bool, true, not, ◌&&◌, ◌||◌, Option, none, some, List, [], ◌∷◌,
  length, filter, str_eq, eq_iff,
}
use ssh_reports_hub_fast_api.Internal.{
  holds, ok, http_error, invalidate_cache, invalidate_prefix, invalidate_loop, delete,
  verify_internal_token, get_ls_existing_keys,
}
use ssh_reports_hub_fast_api.Internal.Invalidation.{
  on_page, deleted_keys, is_authorised, is_ok, invalidate_cache-keys,
}

-- A pattern that matches the keys "api:1" and "api:2", and a SCAN that answers the matching keys twice.
abbrev matches : String → String → Bool
matches pattern key = str_eq key "api:1" || str_eq key "api:2"

abbrev scan : String → List String → List (List String)
scan pattern store = filter (matches pattern) store ∷ [] ∷ filter (matches pattern) store ∷ []

abbrev store : List String
store = "api:1" ∷ "limits:7" ∷ "api:2" ∷ []

scan_complete :
    (key : String)
    → (holds key store && on_page key (scan (append "api" ":*") store))
      ≡ (holds key store && matches (append "api" ":*") key)
scan_complete key =
    ground (arith, eq_iff "api:1" key, eq_iff key "api:1", eq_iff "api:2" key, eq_iff key "api:2")

invalidate_cache-keys_example :
    ((key : String)
      → holds key (invalidate_cache scan true "t" (some "t") "api" store).1 ≡ (
          holds key store
          && not (is_authorised "t" (some "t") && true && matches (append "api" ":*") key)))
    × (deleted_keys (invalidate_cache scan true "t" (some "t") "api" store).0
          + length (invalidate_cache scan true "t" (some "t") "api" store).1
        ≡ length store)
    × (is_ok (invalidate_cache scan true "t" (some "t") "api" store).0
        ≡ is_authorised "t" (some "t"))
invalidate_cache-keys_example =
    invalidate_cache-keys scan matches true "t" (some "t") "api" store scan_complete

invalidate_cache_run :
    invalidate_cache scan true "t" (some "t") "api" store ≡ (ok 2, "limits:7" ∷ [])
unfolding invalidate_cache invalidate_prefix invalidate_loop delete verify_internal_token
invalidate_cache_run = refl

abbrev rows : Unit {0} → List (String × Option String)
rows x = ("k1", none) ∷ ("k2", some "Kim") ∷ ("k1", some "Lee") ∷ ("k1", some "Park") ∷ []

get_ls_existing_keys_unconfigured : get_ls_existing_keys rows "" (some "") ≡ http_error 501
unfolding get_ls_existing_keys verify_internal_token
get_ls_existing_keys_unconfigured = refl
