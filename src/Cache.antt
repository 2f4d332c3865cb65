-- ===== src/Cache.antt =====
-- app/cache.py: the connection and the decorator `cache_response`. Redis, the digest of a key and the
-- conversion to JSON bytes and back are parameters; building a client is taken not to fail. What happens in a request is given by a record:
-- which calls of Redis fail. Two requests do not interleave.
pub mod Laws
mod Tests
use ssh_reports_hub_fast_api.Prelude.{
  ℕ, ◌+◌, ◌<◌, ◌≡◌, Bool, true, false, ◌&&◌, String, Option, none, some, List, [], ◌∷◌, str_eq, ltb,
  if◌then◌else◌, not,
}
use Prim.Native.String.{◌++◌ as append}

-- Redis with its keys that expire, the digest of a URL, and `_serialize` and `_deserialize`, with
-- `none` where they raise.
pub record Redis (Value : Type 0) : Type 1 where
  pub Bytes : Type 0
  pub Store : Type 0
  pub serialize : Value → Option Bytes
  pub deserialize : Bytes → Option Value
  pub digest : String → String
  -- `GET key` at a time, and `SETEX key ttl bytes` at a time
  pub get : String → ℕ → Store → Option Bytes
  pub setex : String → ℕ → Bytes → ℕ → Store → Store
  -- What was set is there until it expires.
  pub get-setex :
      (key : String) (ttl : ℕ) (bytes : Bytes) (now later : ℕ) (store : Store)
      → later < now + ttl
      → get key later (setex key ttl bytes now store) ≡ some bytes

-- Which calls of Redis succeed in a request: the two pings, the read and the write.
pub record Calls : Type 0 where
  pub ping : Bool
  pub connect : Bool
  pub read : Bool
  pub write : Bool

-- `get_redis`: whether the pool is there afterwards, and whether a connection is returned. A pool
-- whose first ping fails stays assigned.
unfoldable pub get_redis : Bool → Calls → Bool → Bool × Bool
get_redis configured calls pool =
    if pool && calls.ping
    then (true, true)
    else (if not configured then (false, false) else (true, calls.connect))

module _ {Value : Type 0} (redis : Redis Value) where
  open redis use {Bytes, Store}

  unfoldable pub cache_key_from_request : String → String → String
  cache_key_from_request url prefix = append prefix (append ":" (redis.digest url))

  -- The first `try`: a value only if the read succeeds, finds bytes, and they convert back.
  unfoldable pub cached_value : Calls → String → ℕ → Store → Option Value
  cached_value calls key now store =
      if not calls.read
      then none
      else elim (redis.get key now store) [ none ↦ none | some bytes ↦ redis.deserialize bytes ]

  -- The second `try`.
  unfoldable pub store_value : Calls → String → ℕ → ℕ → Value → Store → Store
  store_value calls key ttl now result store = elim (redis.serialize result) [
    | none ↦ store
    | some bytes ↦ if calls.write then redis.setex key ttl bytes now store else store
  ]

  -- The wrapper: the response, what Redis holds afterwards, and whether the pool is there. `url` is
  -- `none` where the handler has no request; `origin` is the handler.
  unfoldable pub wrapper :
      Bool
      → ℕ
      → String
      → Option String
      → Bool
      → Calls
      → ℕ
      → (Unit {0} → Value)
      → Bool × Store
      → Value × Bool × Store
  wrapper enabled ttl prefix none configured calls now origin (pool, store) =
      (origin tt, pool, store)
  wrapper enabled ttl prefix (some url) configured calls now origin (pool, store) =
      let key = cache_key_from_request url prefix in
      let (pool', connected) = get_redis configured calls pool in
      if not enabled
      then (origin tt, pool, store)
      else (if not connected
          then (origin tt, pool', store)
          else elim (cached_value calls key now store) [
            | some value ↦ (value, pool', store)
            | none ↦ (origin tt, pool', store_value calls key ttl now (origin tt) store)
          ])
