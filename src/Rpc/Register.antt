-- ===== src/Rpc/Register.antt =====
-- rpc/register.go: the two caches, the middleware that sends a request to one of them, and the
-- health check. `strconv.ParseInt(_, 10, 64)` is a parameter; routers and the server are not modelled.
use mantlemint.Prelude.{
  ℤ, pos, ltb_ℤ, ◌≡◌, true, false, Bool, Option, none, [], ◌∷◌, Result, ok, err, bind,
  if◌then◌else◌, arith,
}
use mantlemint.Bytes.{Bytes, bytes_eq}
use mantlemint.Rpc.{ResponseCache, Lru, IsLru, CacheBackend, new_cache_backend, get, purge}

-- a request's path, its URL as a string, and its query parameter "height"
pub record Request : Type 0 where
  pub path : Bytes
  pub url : Bytes
  pub height_query : Bytes

pub record Caches (lru : Lru) : Type 0 where
  pub cache : CacheBackend lru
  pub archival_cache : CacheBackend lru

-- Which handler a request goes to.
pub data Route : Type 0 where
  uncached latest archival : Route

-- "/health", "latest", "archival"
abbrev pub health_path : Bytes
health_path = 47 ∷ 104 ∷ 101 ∷ 97 ∷ 108 ∷ 116 ∷ 104 ∷ []

abbrev latest_type : Bytes
latest_type = 108 ∷ 97 ∷ 116 ∷ 101 ∷ 115 ∷ 116 ∷ []

abbrev archival_type : Bytes
archival_type = 97 ∷ 114 ∷ 99 ∷ 104 ∷ 105 ∷ 118 ∷ 97 ∷ 108 ∷ []

-- "OK", "NOK"
abbrev pub health : Bool → ResponseCache
health true = record { status = 200; body = 79 ∷ 75 ∷ [] }
health false = record { status = 503; body = 78 ∷ 79 ∷ 75 ∷ [] }

abbrev pub is_positive : Result ℤ → Bool
is_positive (ok height) = ltb_ℤ (pos 0) height
is_positive (err _) = false

module _ {lru : Lru} where
  -- the caches of StartRPC
  unfoldable pub new_caches : Result (Caches lru)
  new_caches = bind (new_cache_backend 16384 latest_type) λ cache.
      bind (new_cache_backend 16384 archival_type)
        λ archival_cache. ok (record { cache = cache; archival_cache = archival_cache })

  -- the goroutine of the invalidation trigger, for one height
  unfoldable pub invalidate : Caches lru → Caches lru
  invalidate cs = record cs { cache = purge cs.cache }

module _ (parse_int : Bytes → Result ℤ) where
  -- the middleware
  unfoldable pub route : Request → Route
  route request =
      if bytes_eq request.path health_path
      then uncached
      else if is_positive (parse_int request.height_query)
      then archival
      else latest

  module _ {lru : Lru} where
    -- what the cache that a request goes to has for it
    unfoldable pub lookup : Caches lru → Request → Option ResponseCache
    unfolding route
    lookup cs request = elim (route request) [
      | uncached ↦ none
      | latest ↦ (get cs.cache request.url).0
      | archival ↦ (get cs.archival_cache request.url).0
    ]

    -- Where the LRU cache keeps to its documentation: after an invalidation, a request that names a
    -- positive height and is no health check finds what it found before, and any other finds nothing.
    pub lookup-invalidate :
        (law : IsLru lru) (cs : Caches lru) (request : Request)
        → lookup (invalidate cs) request
          ≡ (if is_positive (parse_int request.height_query) then lookup cs request else none)
    unfolding invalidate lookup route purge get
    lookup-invalidate law cs request = ground (
      arith,
      law.get_found (lru.purge cs.cache.cache) request.url,
      law.purge_empty cs.cache.cache request.url,
    )
