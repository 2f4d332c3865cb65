-- ===== src/Internal/Writers.antt =====
-- The keys and writers that `get_ls_existing_keys` of app/routers/external_api.py answers.
use mathlib.Core.List.{append-nil, append_assoc}
use ssh_reports_hub_fast_api.Prelude.{
  ◌≡◌, refl, sym, ap, ◌∙◌, arith, String, true, Option, none, some, List, [], ◌∷◌, ◌++◌, map,
  length, length-map, str_eq, eq_iff, if◌then◌else◌,
}
use ssh_reports_hub_fast_api.Internal.Invalidation.{is_authorised}
use ssh_reports_hub_fast_api.Internal.{
  lookup, or_empty, note_writer, key_loop, get_ls_existing_keys, ok, ExistingKeys,
  verify_internal_token,
}

-- The writer of the first row of a key that names one.
abbrev pub first_writer : String → List (String × Option String) → Option String
first_writer key [] = none
first_writer key ((other, writer) ∷ rows) =
    let rest = first_writer key rows in
    if str_eq other key
    then (if str_eq (or_empty writer) "" then rest else some (or_empty writer))
    else rest

abbrev or_else : Option String → Option String → Option String
or_else (some s) o = some s
or_else none o = o

lookup-append :
    (key other value : String) (noted : List (String × String))
    → lookup key (noted ++ (other, value) ∷ [])
      ≡ or_else (lookup key noted) (if str_eq other key then some value else none)
unfolding lookup
lookup-append key other value [] = ground arith
lookup-append key other value ((k, v) ∷ rest) = ground (arith, lookup-append key other value rest)

lookup-note_writer :
    (key other writer : String) (noted : List (String × String))
    → lookup key (note_writer other writer noted)
      ≡ or_else
          (lookup key noted)
          (if str_eq other key then (if str_eq writer "" then none else some writer) else none)
unfolding note_writer
lookup-note_writer key other writer noted =
    ground (arith, lookup-append key other writer noted, eq_iff other key)

lookup-key_loop :
    (key : String) (rows : List (String × Option String)) (keys : List String)
    (noted : List (String × String))
    → lookup key (key_loop rows keys noted).1 ≡ or_else (lookup key noted) (first_writer key rows)
unfolding key_loop
lookup-key_loop key [] keys noted = ground arith
lookup-key_loop key ((other, writer) ∷ rows) keys noted =
    lookup-key_loop key rows (keys ++ other ∷ []) (note_writer other (or_empty writer) noted)
    ∙ ground (arith, lookup-note_writer key other (or_empty writer) noted)

keys-key_loop :
    (rows : List (String × Option String)) (keys : List String) (noted : List (String × String))
    → (key_loop rows keys noted).0 ≡ keys ++ map (λ (row : String × Option String). row.0) rows
unfolding key_loop
keys-key_loop [] keys noted = sym (append-nil keys)
keys-key_loop ((key, writer) ∷ rows) keys noted =
    keys-key_loop rows (keys ++ key ∷ []) (note_writer key (or_empty writer) noted)
    ∙ append_assoc keys (key ∷ []) (map (λ (row : String × Option String). row.0) rows)

verify_authorised :
    (token : String) (header : Option String)
    → is_authorised token header ≡ true
    → verify_internal_token token header ≡ none
unfolding verify_internal_token
verify_authorised token none h = cc
verify_authorised token (some header) h =
    ground (arith, eq_iff header token, eq_iff header "", eq_iff token "")

-- A request with the configured token is answered with the keys of all rows in their order, repeated ones
-- included, their number, and for each key the writer of its first row that names one.
pub get_ls_existing_keys_lem :
    (fetch : Unit {0} → List (String × Option String)) (token : String) (header : Option String)
    → is_authorised token header ≡ true
    → (r : ExistingKeys) × (get_ls_existing_keys fetch token header ≡ ok r)
      × (r.keys ≡ map (λ (row : String × Option String). row.0) (fetch tt))
      × (r.count ≡ length (fetch tt))
      × ((key : String) → lookup key r.key_writer_map ≡ first_writer key (fetch tt))
unfolding get_ls_existing_keys lookup
get_ls_existing_keys_lem fetch token header h =
    let result = key_loop (fetch tt) [] [] in
    let named = keys-key_loop (fetch tt) [] [] in
    (
      record { count = length result.0; keys = result.0; key_writer_map = result.1 },
      rw (verify_authorised token header h, get_ls_existing_keys) refl,
      named,
      ap length named ∙ length-map (λ (row : String × Option String). row.0) (fetch tt),
      λ key. lookup-key_loop key (fetch tt) [] [],
    )
