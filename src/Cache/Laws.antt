-- ===== src/Cache/Laws.antt =====
-- What a cached endpoint answers (app/cache.py).
use ssh_reports_hub_fast_api.Prelude.{
  ℕ, ◌+◌, ◌<◌, ◌≡◌, ap, ◌∙◌, ◌⊎◌, inl, inr, arith, Bool, true, ◌&&◌, String, none, some, Bool-cases,
  Option-cases,
}
use ssh_reports_hub_fast_api.Cache.{
  Redis, Calls, get_redis, cache_key_from_request, cached_value, store_value, wrapper,
}

module _ {Value : Type 0} (redis : Redis Value) where
  open redis use {Bytes, Store}

  -- Whatever fails, a response is the one of the handler, or it is read from bytes that Redis holds
  -- under the key of the URL and that have not expired, and then nothing is written.
  pub wrapper_lem :
      (enabled configured pool : Bool) (ttl now : ℕ) (prefix url : String) (calls : Calls)
      (origin : Unit {0} → Value) (store : Store)
      → ((wrapper redis enabled ttl prefix (some url) configured calls now origin (pool, store)).0
          ≡ origin tt)
        ⊎ ((bytes : Bytes) × (redis.get (cache_key_from_request redis url prefix) now store
              ≡ some bytes)
            × (redis.deserialize bytes
                ≡ some
                    (wrapper redis enabled ttl prefix
                      (some url)
                      configured
                      calls
                      now
                      origin
                      (pool, store)).0)
            × ((wrapper redis enabled ttl prefix
                  (some url)
                  configured
                  calls
                  now
                  origin
                  (pool, store)).2
                ≡ store))
  unfolding wrapper cached_value
  wrapper_lem enabled configured pool ttl now prefix url calls origin store =
      let key = cache_key_from_request redis url prefix in
      elim (Option-cases (redis.get key now store)) [
        | inl e ↦ inl (ground (arith, e))
        | inr (bytes, e) ↦ elim (Option-cases (redis.deserialize bytes)) [
          | inl f ↦ inl (ground (arith, e, f))
          | inr (value, f) ↦
              elim (Bool-cases (enabled && (get_redis configured calls pool).1 && calls.read)) [
                | inl g ↦ inr (bytes, e, ground (arith, e, f, g), ground (arith, e, f, g))
                | inr g ↦ inl (ground (arith, e, f, g))
              ]
        ]
      ]

  store_value_new :
      (calls : Calls) (key : String) (ttl now : ℕ) (value : Value) (store : Store) (bytes : Bytes)
      → calls.write ≡ true
      → redis.serialize value ≡ some bytes
      → store_value redis calls key ttl now value store ≡ redis.setex key ttl bytes now store
  unfolding store_value
  store_value_new calls key ttl now value store bytes written made = ground (arith, written, made)

  wrapper_stores :
      (ttl now : ℕ) (prefix url : String) (configured pool : Bool) (calls : Calls)
      (origin : Unit {0} → Value) (store : Store) (bytes : Bytes)
      → (get_redis configured calls pool).1 ≡ true
      → cached_value redis calls (cache_key_from_request redis url prefix) now store ≡ none
      → calls.write ≡ true
      → redis.serialize (origin tt) ≡ some bytes
      → (wrapper redis true ttl prefix (some url) configured calls now origin (pool, store)).2
        ≡ redis.setex (cache_key_from_request redis url prefix) ttl bytes now store
  unfolding wrapper
  wrapper_stores ttl now prefix url configured pool calls origin store bytes connected missed
        written made =
      let key = cache_key_from_request redis url prefix in
      ground (
        arith,
        connected,
        missed,
        store_value_new calls key ttl now (origin tt) store bytes written made,
      )

  wrapper_hits :
      (ttl now : ℕ) (prefix url : String) (configured pool : Bool) (calls : Calls)
      (origin : Unit {0} → Value) (store : Store) (bytes : Bytes) (value : Value)
      → (get_redis configured calls pool).1 ≡ true
      → calls.read ≡ true
      → redis.get (cache_key_from_request redis url prefix) now store ≡ some bytes
      → redis.deserialize bytes ≡ some value
      → (wrapper redis true ttl prefix (some url) configured calls now origin (pool, store)).0
        ≡ value
  unfolding wrapper cached_value
  wrapper_hits ttl now prefix url configured pool calls origin store bytes value connected readable
        found back =
      ground (arith, connected, readable, found, back)

  -- A response that was not cached and could be written is given again to a connected request for the
  -- same URL that reads before it expires, whatever the handler would then answer and whatever else
  -- has become of the store, as long as the key of the URL still reads as it does in the store that the
  -- first request left; where the bytes of the response convert back to it.
  pub wrapper-wrapper :
      (ttl now later : ℕ) (prefix url : String) (configured pool pool' : Bool) (calls again : Calls)
      (origin origin' : Unit {0} → Value) (store store' : Store) (bytes : Bytes)
      → (get_redis configured calls pool).1 ≡ true
      → (get_redis configured again pool').1 ≡ true
      → cached_value redis calls (cache_key_from_request redis url prefix) now store ≡ none
      → calls.write ≡ true
      → again.read ≡ true
      → redis.serialize (origin tt) ≡ some bytes
      → redis.deserialize bytes ≡ some (origin tt)
      → later < now + ttl
      → redis.get (cache_key_from_request redis url prefix) later store'
        ≡ redis.get
            (cache_key_from_request redis url prefix)
            later
            (wrapper redis true ttl prefix (some url) configured calls now origin (pool, store)).2
      → (wrapper redis true ttl prefix (some url) configured again later origin' (pool', store')).0
        ≡ origin tt
  wrapper-wrapper ttl now later prefix url configured pool pool' calls again origin origin' store
        store' bytes connected connected' missed written readable made back fresh kept =
      let key = cache_key_from_request redis url prefix in
      let left =
        wrapper_stores ttl now prefix url configured pool calls origin store bytes connected missed
          written made in
      let found =
        kept
        ∙ ap (redis.get key later) left
        ∙ redis.get-setex key ttl bytes now later store fresh in
      wrapper_hits ttl later prefix url configured pool' again origin' store' bytes (origin tt)
        connected' readable found back
