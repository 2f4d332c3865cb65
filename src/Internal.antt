-- ===== src/Internal.antt =====
-- The endpoints of app/routers/external_api.py for the scraper, and `invalidate_prefix` of app/cache.py.
-- Redis is the list of its keys; what SCAN answers and which keys a pattern matches are arguments.
pub mod Invalidation
pub mod Writers
mod Tests
use Prim.Native.String.{◌++◌ as append}
use ssh_reports_hub_fast_api.Prelude.{
  ℕ, ◌+◌, ◌-◌, String, Bool, true, false, not, ◌&&◌, ◌||◌, Option, none, some, List, [], ◌∷◌, ◌++◌,
  filter, any, length, str_eq, if◌then◌else◌,
}

abbrev pub holds : String → List String → Bool
holds key = any (λ other. str_eq other key)

-- What a request with the token gets: the result, or the status of the exception.
pub data Answer {ℓ} (A : Type ℓ) : Type ℓ where
  ok : A → Answer A
  http_error : ℕ → Answer A

-- `_verify_internal_token`: `none` if it passes, or else the status that it raises. The first argument
-- is `INTERNAL_CACHE_TOKEN`, the second the header.
unfoldable pub verify_internal_token : String → Option String → Option ℕ
verify_internal_token token none = some (if str_eq token "" then 501 else 403)
verify_internal_token token (some header) =
    if str_eq token ""
    then some 501
    else (if str_eq header "" || not (str_eq header token) then some 403 else none)

-- `DEL keys`: the keys that are left; the answer is how many were there.
unfoldable pub delete : List String → List String → ℕ × List String
delete keys store =
    let left = filter (λ key. not (holds key keys)) store in (length store - length left, left)

-- The loop over SCAN, as the pages of keys that it answers until its cursor is 0 again. An empty page
-- deletes nothing.
unfoldable pub invalidate_loop : List (List String) → ℕ → List String → ℕ × List String
unfolding delete
invalidate_loop [] count store = (count, store)
invalidate_loop (keys ∷ pages) count store =
    let (deleted, left) = delete keys store in invalidate_loop pages (count + deleted) left

-- `scan pattern store` gives the pages. Without a connection nothing happens.
unfoldable pub invalidate_prefix :
    (String → List String → List (List String)) → Bool → String → List String → ℕ × List String
invalidate_prefix scan connected prefix store =
    if connected then invalidate_loop (scan (append prefix ":*") store) 0 store else (0, store)

unfoldable pub invalidate_cache :
    (String → List String → List (List String))
    → Bool
    → String
    → Option String
    → String
    → List String
    → Answer ℕ × List String
invalidate_cache scan connected token header prefix store =
    elim (verify_internal_token token header) [
      | some status ↦ (http_error status, store)
      | none ↦ (
        ok (invalidate_prefix scan connected prefix store).0,
        (invalidate_prefix scan connected prefix store).1,
      )
    ]

-- A dictionary of texts: `key in dict` and `dict.get(key)`.
unfoldable pub lookup : String → List (String × String) → Option String
lookup key [] = none
lookup key ((other, value) ∷ rest) = if str_eq other key then some value else lookup key rest

abbrev pub or_empty : Option String → String
or_empty none = ""
or_empty (some s) = s

-- `if w and k not in key_writer_map: key_writer_map[k] = w`
unfoldable pub note_writer : String → String → List (String × String) → List (String × String)
note_writer key writer noted =
    if str_eq writer ""
    then noted
    else elim (lookup key noted) [ some other ↦ noted | none ↦ noted ++ (key, writer) ∷ [] ]

-- The loop over the rows: the keys and the writers.
unfoldable pub key_loop :
    List (String × Option String)
    → List String
    → List (String × String)
    → List String × List (String × String)
unfolding note_writer
key_loop [] keys noted = (keys, noted)
key_loop ((key, writer) ∷ rows) keys noted =
    key_loop rows (keys ++ key ∷ []) (note_writer key (or_empty writer) noted)

pub record ExistingKeys : Type 0 where
  pub count : ℕ
  pub keys : List String
  pub key_writer_map : List (String × String)

-- The rows that the query selects are an argument, and asked for only if the token passes.
unfoldable pub get_ls_existing_keys :
    (Unit {0} → List (String × Option String)) → String → Option String → Answer ExistingKeys
get_ls_existing_keys fetch token header = elim (verify_internal_token token header) [
  | some status ↦ http_error status
  | none ↦
      let (keys, noted) = key_loop (fetch tt) [] [] in
      ok (record { count = length keys; keys = keys; key_writer_map = noted })
]
