-- ===== src/Rpc/Handle.antt =====
-- rpc/cache.go, HandleCachedHTTP: the requests and the goroutines that feed their subscribers, as
-- steps that interleave in any order.
use mantlemint.Prelude.{ℕ, suc, ◌<◌, ◌≡◌, Bool, true, false, Option, none, some, [], ◌∷◌, set_at}
use mantlemint.Bytes.{Bytes}
use mantlemint.Rpc.{
  ResponseCache, Lru, CacheBackend, set, get, purge, count_request, count_cached, enter, leave,
}

-- Where the handler of a request is. `found` has a cached response to serve, `handling` runs the
-- real handler, `waiting c` receives from the channel of request `c`, `answered` has written;
-- `aborted` is a panic of the real handler, which net/http recovers.
pub data Stage : Type 0 where
  arriving counted missed handling aborted : Stage
  found : ResponseCache → Stage
  waiting : ℕ → Stage
  answered : ResponseCache → Stage

-- Where the goroutine of a first request is: not started, before it reads the count, before it
-- looks at the response, in its loop with some sends left, with the channel closed, at its end.
pub data Feeder : Type 0 where
  idle watching closed left : Feeder
  told : ℕ → Feeder
  feeding : ℕ → Feeder

-- `cache` is the variable that a first request shares with its goroutine.
pub record Server (lru : Lru) : Type 0 where
  pub backend : CacheBackend lru
  pub stage : ℕ → Stage
  pub feeder : ℕ → Feeder
  pub cache : ℕ → Option ResponseCache

unfoldable pub new_server : {lru : Lru} → CacheBackend lru → Server lru
new_server cb = record {
  backend = cb;
  stage = λ _. arriving;
  feeder = λ _. idle;
  cache = λ _. none;
}

-- "Service Unavailable"
abbrev pub unavailable : ResponseCache
unavailable = record {
  status = 503;
  body =
      83 ∷ 101 ∷ 114 ∷ 118 ∷ 105 ∷ 99 ∷ 101 ∷ 32 ∷ 85 ∷ 110 ∷ 97 ∷ 118 ∷ 97 ∷ 105 ∷ 108 ∷ 97 ∷ 98
      ∷ 108 ∷ 101 ∷ [];
}

abbrev pub is_over : Stage → Bool
is_over (answered r) = true
is_over aborted = true
is_over _ = false

abbrev pub is_closed : Feeder → Bool
is_closed closed = true
is_closed left = true
is_closed _ = false

-- `n` requests, the URI of each, and the responses that the real handler may give to a URI.
module _ {lru : Lru} (n : ℕ) (uri : ℕ → Bytes) (Serves : Bytes → ResponseCache → Type 0) where
  pub data Step (s : Server lru) : Server lru → Type 0 where
    count :
        (i : ℕ)
        → i < n
        → s.stage i ≡ arriving
        → Step s (record s { backend = count_request s.backend; stage = set_at s.stage i counted })
    hit :
        (i : ℕ) (r : ResponseCache)
        → i < n
        → s.stage i ≡ counted
        → (get s.backend (uri i)).0 ≡ some r
        → Step s
            (record s { backend = (get s.backend (uri i)).1; stage = set_at s.stage i (found r) })
    miss :
        (i : ℕ)
        → i < n
        → s.stage i ≡ counted
        → (get s.backend (uri i)).0 ≡ none
        → Step s (record s { backend = (get s.backend (uri i)).1; stage = set_at s.stage i missed })
    serve :
        (i : ℕ) (r : ResponseCache)
        → i < n
        → s.stage i ≡ found r
        → Step s
            (record s { backend = count_cached s.backend; stage = set_at s.stage i (answered r) })
    lead :
        (i : ℕ)
        → i < n
        → s.stage i ≡ missed
        → (enter s.backend (uri i) i).0 ≡ none
        → Step s (record s {
          backend = (enter s.backend (uri i) i).1;
          stage = set_at s.stage i handling;
          feeder = set_at s.feeder i watching;
        })
    join :
        (i c : ℕ)
        → i < n
        → s.stage i ≡ missed
        → (enter s.backend (uri i) i).0 ≡ some c
        → Step s (record s {
          backend = (enter s.backend (uri i) i).1;
          stage = set_at s.stage i (waiting c);
        })
    -- the real handler returns: Set, the assignment to `cache`, and the write of the response
    respond :
        (i : ℕ) (r : ResponseCache)
        → i < n
        → s.stage i ≡ handling
        → Serves (uri i) r
        → Step s (record s {
          backend = (set s.backend (uri i) r.status r.body).1;
          stage = set_at s.stage i (answered r);
          cache = set_at s.cache i (some (set s.backend (uri i) r.status r.body).0);
        })
    abort :
        (i : ℕ)
        → i < n
        → s.stage i ≡ handling
        → Step s (record s { stage = set_at s.stage i aborted })
    -- the context of a request is done when its handler is over
    read_count :
        (c : ℕ)
        → c < n
        → s.feeder c ≡ watching
        → is_over (s.stage c) ≡ true
        → Step s
            (record s { feeder = set_at s.feeder c (told (s.backend.subscribe_count (uri c))) })
    feed :
        (c k : ℕ) (r : ResponseCache)
        → c < n
        → s.feeder c ≡ told k
        → s.cache c ≡ some r
        → Step s (record s { feeder = set_at s.feeder c (feeding k) })
    give_up :
        (c k : ℕ)
        → c < n
        → s.feeder c ≡ told k
        → s.cache c ≡ none
        → Step s (record s { feeder = set_at s.feeder c closed })
    send :
        (i c k : ℕ) (r : ResponseCache)
        → i < n
        → c < n
        → s.feeder c ≡ feeding (suc k)
        → s.stage i ≡ waiting c
        → s.cache c ≡ some r
        → Step s (record s {
          stage = set_at s.stage i (answered r);
          feeder = set_at s.feeder c (feeding k);
        })
    close :
        (c : ℕ)
        → c < n
        → s.feeder c ≡ feeding 0
        → Step s (record s { feeder = set_at s.feeder c closed })
    refuse :
        (i c : ℕ)
        → i < n
        → s.stage i ≡ waiting c
        → is_closed (s.feeder c) ≡ true
        → Step s (record s { stage = set_at s.stage i (answered unavailable) })
    remove :
        (c : ℕ)
        → c < n
        → s.feeder c ≡ closed
        → Step s (record s { backend = leave s.backend (uri c); feeder = set_at s.feeder c left })

  -- What comes from outside: a client goes away, which ends the context of its request, and a block
  -- purges the cache.
  pub data Event (s : Server lru) : Server lru → Type 0 where
    client_gone :
        (c : ℕ)
        → c < n
        → s.feeder c ≡ watching
        → Event s
            (record s { feeder = set_at s.feeder c (told (s.backend.subscribe_count (uri c))) })
    invalidated : Event s (record s { backend = purge s.backend })

  -- a run of `k` steps, with any events between them
  pub data Run (s : Server lru) : ℕ → Server lru → Type 0 where
    here : Run s 0 s
    step : {k : ℕ} {t u : Server lru} → Run s k t → Step t u → Run s (suc k) u
    event : {k : ℕ} {t u : Server lru} → Run s k t → Event t u → Run s k u
