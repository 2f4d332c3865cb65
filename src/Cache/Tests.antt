-- ===== src/Cache/Tests.antt =====
-- The theorems about the response cache with numbers as responses and as bytes.
use ssh_reports_hub_fast_api.Prelude.{
  false, Bool, ℕ, ◌+◌, ◌≡◌, ◌⊎◌, refl, arith, true, String, Option, none, some, List, [], ◌∷◌, ltb,
  str_eq, eq_iff, if◌then◌else◌, ◌<◌,
}
use ssh_reports_hub_fast_api.Cache.{
  get_redis, Redis, Calls, cache_key_from_request, cached_value, wrapper,
}
use ssh_reports_hub_fast_api.Cache.Laws.{wrapper_lem, wrapper-wrapper}

abbrev predecessor : ℕ → Option ℕ
predecessor ℕ.zero = none
predecessor (ℕ.suc n) = some n

abbrev Held : Type 0
Held = List (String × ℕ × ℕ)

abbrev find : String → ℕ → Held → Option ℕ
find key now [] = none
find key now ((k, bytes, expires_at) ∷ rest) =
    let other = find key now rest in
    if str_eq k key then (if ltb now expires_at then some bytes else none) else other

pub find_new :
    (key : String) (ttl bytes now later : ℕ) (store : Held)
    → later < now + ttl
    → find key later ((key, bytes, now + ttl) ∷ store) ≡ some bytes
find_new key ttl bytes now later store h = ground (arith, eq_iff key key)

abbrev plain : Redis ℕ
plain = record {
  Bytes = ℕ;
  Store = Held;
  serialize = λ n. some (n + 1);
  deserialize = predecessor;
  digest = λ url. url;
  get = find;
  setex = λ key ttl bytes now store. (key, bytes, now + ttl) ∷ store;
  get-setex = find_new;
}

abbrev working : Calls
working = record { ping = true; connect = true; read = true; write = true }

abbrev held : Held
held = ("api:u", 6, 100) ∷ []

wrapper_example :
    ((wrapper plain true 30 "api" (some "u") true working 50 (λ x. 9) (false, held)).0 ≡ 9)
    ⊎ ((bytes : ℕ) × (find (cache_key_from_request plain "u" "api") 50 held ≡ some bytes)
        × (plain.deserialize bytes
            ≡ some
                (wrapper plain true 30 "api" (some "u") true working 50 (λ x. 9) (false, held)).0)
        × ((wrapper plain true 30 "api" (some "u") true working 50 (λ x. 9) (false, held)).2
            ≡ held))
wrapper_example = wrapper_lem plain true true false 30 50 "api" "u" working (λ x. 9) held

missed : cached_value plain working (cache_key_from_request plain "u" "api") 200 held ≡ none
unfolding cached_value cache_key_from_request
missed = refl

connected : (pool : Bool) → (get_redis true working pool).1 ≡ true
unfolding get_redis
connected true = refl
connected false = refl

-- Another URL was written and the pool was lost in between.
abbrev busy : Held
busy =
    ("api:v", 3, 500)
    ∷ (wrapper plain true 30 "api" (some "u") true working 200 (λ x. 9) (false, held)).2

kept :
    find (cache_key_from_request plain "u" "api") 220 busy
    ≡ find
        (cache_key_from_request plain "u" "api")
        220
        (wrapper plain true 30 "api" (some "u") true working 200 (λ x. 9) (false, held)).2
unfolding cache_key_from_request
kept = refl

wrapper-wrapper_example :
    (wrapper plain true 30 "api" (some "u") true working 220 (λ x. 8) (false, busy)).0 ≡ 9
wrapper-wrapper_example =
    wrapper-wrapper plain 30 200 220 "api" "u" true false false working working (λ x. 9) (λ x. 8)
      held busy 10 (connected false) (connected false) missed refl refl refl refl (omega arith) kept
