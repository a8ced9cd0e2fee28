-- ===== src/Rpc.antt =====
-- rpc/cache.go: the cache of responses, and the tables by which requests for one URI share the work
-- of the first of them. The LRU cache is hashicorp's, a parameter.
pub mod Handle
pub mod Sound
pub mod Kept
pub mod Invariant
pub mod Served
pub mod Finish
pub mod Register
pub mod Client
mod Tests
use mantlemint.Prelude.{
  ℕ, suc, ◌≡◌, ◌+◌, ◌%◌, ◌^◌, Bool, true, false, Option, none, some, ◌⊎◌, Result, ok, err, List,
  Error, panic, if◌then◌else◌,
}
use mantlemint.Bytes.{Bytes, bytes_eq}

pub record ResponseCache : Type 0 where
  pub status : ℕ
  pub body : Bytes

-- github.com/hashicorp/golang-lru: `add` says whether it evicted an entry, and a read moves its
-- entry to the front.
pub record Lru : Type 1 where
  pub State : Type 0
  pub new : ℕ → Result State
  pub add : State → Bytes → ResponseCache → Bool × State
  pub get : State → Bytes → Option ResponseCache × State
  pub purge : State → State

-- What its documentation says of the entries: a read finds one and keeps all, an addition makes no
-- other entry, a purge and a new cache leave none.
pub record IsLru (lru : Lru) : Type 0 where
  pub contents : lru.State → Bytes → Option ResponseCache
  pub new_empty : (n : ℕ) (c : lru.State) (k : Bytes) → lru.new n ≡ ok c → contents c k ≡ none
  pub get_found : (c : lru.State) (k : Bytes) → (lru.get c k).0 ≡ contents c k
  pub get_kept : (c : lru.State) (k k' : Bytes) → contents (lru.get c k).1 k' ≡ contents c k'
  pub add_only :
      (c : lru.State) (k k' : Bytes) (r r' : ResponseCache)
      → contents (lru.add c k r).1 k' ≡ some r'
      → ((k' ≡ k) × (r' ≡ r)) ⊎ (contents c k' ≡ some r')
  pub purge_empty : (c : lru.State) (k : Bytes) → contents (lru.purge c) k ≡ none

-- The counters are Go's uint64. A channel is named by the request that makes it; a key that
-- `subscribe_count` lacks reads as 0.
pub record CacheBackend (lru : Lru) : Type 0 where
  pub cache : lru.State
  pub eviction_count : ℕ
  pub cache_serve_count : ℕ
  pub serve_count : ℕ
  pub cache_type : Bytes
  pub result_chan : Bytes → Option ℕ
  pub subscribe_count : Bytes → ℕ

abbrev pub bump : ℕ → ℕ
bump n = (n + 1) % 2 ^ 64

-- a table after a change of one key
abbrev pub put : {A : Type 0} → (Bytes → A) → Bytes → A → Bytes → A
put f k a k' = if bytes_eq k k' then a else f k'

module _ {lru : Lru} where
  empty_backend : Bytes → lru.State → CacheBackend lru
  empty_backend cache_type cache = record {
    cache = cache;
    eviction_count = 0;
    cache_serve_count = 0;
    serve_count = 0;
    cache_type = cache_type;
    result_chan = λ _. none;
    subscribe_count = λ _. 0;
  }

  -- NewCacheBackend
  unfoldable pub new_cache_backend : ℕ → Bytes → Result (CacheBackend lru)
  unfolding empty_backend
  new_cache_backend cache_size cache_type = elim (lru.new cache_size) [
    | ok cache ↦ ok (empty_backend cache_type cache)
    | err _ ↦ err panic
  ]

  -- Set
  unfoldable pub set : CacheBackend lru → Bytes → ℕ → Bytes → ResponseCache × CacheBackend lru
  set cb cache_key status body =
      let response : ResponseCache = record { status = status; body = body } in
      let (evicted, cache) = lru.add cb.cache cache_key response in
      (
        response,
        record cb {
          cache = cache;
          eviction_count = if evicted then bump cb.eviction_count else cb.eviction_count;
        },
      )

  -- Get
  unfoldable pub get : CacheBackend lru → Bytes → Option ResponseCache × CacheBackend lru
  get cb cache_key =
      let (cached, cache) = lru.get cb.cache cache_key in (cached, record cb { cache = cache })

  -- Purge
  unfoldable pub purge : CacheBackend lru → CacheBackend lru
  purge cb = record cb {
    cache = lru.purge cb.cache;
    eviction_count = 0;
    cache_serve_count = 0;
    serve_count = 0;
  }

  -- The sections of HandleCachedHTTP that hold the lock, in their order.
  unfoldable pub count_request : CacheBackend lru → CacheBackend lru
  count_request cb = record cb { serve_count = bump cb.serve_count }

  unfoldable pub count_cached : CacheBackend lru → CacheBackend lru
  count_cached cb = record cb { cache_serve_count = bump cb.cache_serve_count }

  -- Request `me` finds the channel of the request in transit, or makes its own.
  unfoldable pub enter : CacheBackend lru → Bytes → ℕ → Option ℕ × CacheBackend lru
  enter cb uri me = elim (cb.result_chan uri) [
    | none ↦ (
      none,
      record cb {
        result_chan = put cb.result_chan uri (some me);
        subscribe_count = put cb.subscribe_count uri 0;
      },
    )
    | some c ↦ (
      some c,
      record cb { subscribe_count = put cb.subscribe_count uri (cb.subscribe_count uri + 1) },
    )
  ]

  -- the two `delete`s at the end of the goroutine that feeds the subscribers
  unfoldable pub leave : CacheBackend lru → Bytes → CacheBackend lru
  leave cb uri = record cb {
    subscribe_count = put cb.subscribe_count uri 0;
    result_chan = put cb.result_chan uri none;
  }
