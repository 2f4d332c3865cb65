-- ===== src/Internal/Invalidation.antt =====
-- Which keys `invalidate_cache` of app/routers/external_api.py deletes.
use Prim.Native.String.{◌++◌ as append}
use ssh_reports_hub_fast_api.Prelude.{
  ℕ, ◌+◌, ◌-◌, ◌≤◌, ◌≡◌, refl, ◌∙◌, arith, String, Bool, true, false, not, ◌&&◌, ◌||◌, Option, none,
  some, List, [], ◌∷◌, filter, length, str_eq, eq_iff,
}
use ssh_reports_hub_fast_api.Internal.{
  holds, Answer, ok, http_error, verify_internal_token, invalidate_loop, invalidate_prefix,
  invalidate_cache,
}

-- Whether a key is on one of the pages.
abbrev pub on_page : String → List (List String) → Bool
on_page key [] = false
on_page key (keys ∷ pages) = holds key keys || on_page key pages

holds-filter :
    (key : String) (p : String → Bool) (store : List String)
    → holds key (filter p store) ≡ (p key && holds key store)
holds-filter key p [] = ground arith
holds-filter key p (other ∷ rest) = ground (arith, holds-filter key p rest, eq_iff other key)

length-filter : (p : String → Bool) (store : List String) → length (filter p store) ≤ length store
length-filter p [] = omega arith
length-filter p (other ∷ rest) = ground (arith, length-filter p rest)

holds-loop :
    (key : String) (pages : List (List String)) (count : ℕ) (store : List String)
    → holds key (invalidate_loop pages count store).1 ≡ (not (on_page key pages) && holds key store)
unfolding invalidate_loop
holds-loop key [] count store = refl
holds-loop key (keys ∷ pages) count store =
    let left = filter (λ k. not (holds k keys)) store in
    holds-loop key pages (count + (length store - length left)) left
    ∙ ground (arith, holds-filter key (λ k. not (holds k keys)) store)

count-loop :
    (pages : List (List String)) (count : ℕ) (store : List String)
    → (invalidate_loop pages count store).0 + length (invalidate_loop pages count store).1
      ≡ count + length store
unfolding invalidate_loop
count-loop [] count store = refl
count-loop (keys ∷ pages) count store =
    let left = filter (λ k. not (holds k keys)) store in
    omega (
      arith,
      count-loop pages (count + (length store - length left)) left,
      length-filter (λ k. not (holds k keys)) store,
    )

-- The number in the answer; an error deletes nothing.
abbrev pub deleted_keys : Answer ℕ → ℕ
deleted_keys (ok n) = n
deleted_keys (http_error status) = 0

-- Whether the request carries the configured token.
abbrev pub is_authorised : String → Option String → Bool
is_authorised token none = false
is_authorised token (some header) = not (str_eq token "") && str_eq header token

abbrev pub is_ok : Answer ℕ → Bool
is_ok (ok n) = true
is_ok (http_error status) = false

module _ (scan : String → List String → List (List String)) (matches : String → String → Bool) where
  prefix-keys :
      (connected : Bool) (prefix key : String) (store : List String)
      → (holds key store && on_page key (scan (append prefix ":*") store))
        ≡ (holds key store && matches (append prefix ":*") key)
      → holds key (invalidate_prefix scan connected prefix store).1
        ≡ (holds key store && not (connected && matches (append prefix ":*") key))
  unfolding invalidate_prefix
  prefix-keys true prefix key store h =
      ground (arith, holds-loop key (scan (append prefix ":*") store) 0 store, h)
  prefix-keys false prefix key store h = ground arith

  prefix-count :
      (connected : Bool) (prefix : String) (store : List String)
      → (invalidate_prefix scan connected prefix store).0
          + length (invalidate_prefix scan connected prefix store).1
        ≡ length store
  unfolding invalidate_prefix
  prefix-count true prefix store =
      ground (arith, count-loop (scan (append prefix ":*") store) 0 store)
  prefix-count false prefix store = ground arith

  -- Where SCAN answers those keys of the store that match the pattern, on whatever pages and however
  -- often, a request with the configured token, while Redis is connected, deletes exactly the keys that
  -- match `prefix:*` and answers their number; any other request deletes nothing, and without the token
  -- it is an error.
  pub invalidate_cache-keys :
      (connected : Bool) (token : String) (header : Option String) (prefix : String)
      (store : List String)
      → ((key : String)
          → (holds key store && on_page key (scan (append prefix ":*") store))
            ≡ (holds key store && matches (append prefix ":*") key))
      → ((key : String)
          → holds key (invalidate_cache scan connected token header prefix store).1 ≡ (
              holds key store
              && not (is_authorised token header && connected && matches (append prefix ":*") key)))
        × (deleted_keys (invalidate_cache scan connected token header prefix store).0
              + length (invalidate_cache scan connected token header prefix store).1
            ≡ length store)
        × (is_ok (invalidate_cache scan connected token header prefix store).0
            ≡ is_authorised token header)
  unfolding invalidate_cache verify_internal_token
  invalidate_cache-keys connected token none prefix store h =
      (λ key. ground arith, ground arith, refl)
  invalidate_cache-keys connected token (some header) prefix store h = (
    λ key. ground (
      arith,
      prefix-keys connected prefix key store (h key),
      eq_iff header token,
      eq_iff header "",
      eq_iff token "",
    ),
    ground (arith, prefix-count connected prefix store),
    ground (arith, eq_iff header token, eq_iff header "", eq_iff token ""),
  )
