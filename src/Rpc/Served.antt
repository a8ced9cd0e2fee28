-- ===== src/Rpc/Served.antt =====
-- What the requests are answered with: responses of the real handler for their own URI.
use mantlemint.Prelude.{ok, ℕ, ◌≡◌, ◌⊎◌, some, sym, ◌∙◌, arith}
use mantlemint.Bytes.{Bytes}
use mantlemint.Rpc.{
  ResponseCache, Lru, IsLru, CacheBackend, new_cache_backend, set, get, purge, count_request,
  count_cached, enter, leave,
}
use mantlemint.Rpc.Handle.{
  Server, Step, Event, Run, answered, found, unavailable, new_server, here, step, event, hit, miss,
  serve, lead, join, respond, send, refuse, client_gone, invalidated,
}
use mantlemint.Rpc.Sound.{IsSound}
use mantlemint.Rpc.Invariant.{Run-IsSound, served-IsSound}

module _ {lru : Lru} (law : IsLru lru) (n : ℕ) (uri : ℕ → Bytes)
    (Serves : Bytes → ResponseCache → Type 0) where
  open law use {contents}

  record IsHonest (s : Server lru) : Type 0 where
    stored : (u : Bytes) (r : ResponseCache) → contents s.backend.cache u ≡ some r → Serves u r
    kept : (c : ℕ) (r : ResponseCache) → s.cache c ≡ some r → Serves (uri c) r
    hits : (i : ℕ) (r : ResponseCache) → s.stage i ≡ found r → Serves (uri i) r
    answers :
        (i : ℕ) (r : ResponseCache) → s.stage i ≡ answered r → Serves (uri i) r ⊎ (r ≡ unavailable)

  module _ {s : Server lru} (inv : IsSound n uri s) (h : IsHonest s) where
    open h use {stored, kept, hits, answers}

    Step-stored :
        {t : Server lru}
        → Step n uri Serves s t
        → (u : Bytes) (r : ResponseCache) → contents t.backend.cache u ≡ some r
        → Serves u r
    unfolding get set enter leave count_request count_cached
    Step-stored (hit i r' l e f) u r q =
        stored u r (sym (law.get_kept s.backend.cache (uri i) u) ∙ q)
    Step-stored (miss i l e f) u r q = stored u r (sym (law.get_kept s.backend.cache (uri i) u) ∙ q)
    Step-stored (respond i r' l e sv) u r q =
        ground (arith, stored u r, law.add_only s.backend.cache (uri i) u r' r q)
    Step-stored (lead i l e f) u r q = ground (arith, stored u r)
    Step-stored (join i d l e f) u r q = ground (arith, stored u r)
    Step-stored st u r q = stored u r q

    Step-kept :
        {t : Server lru}
        → Step n uri Serves s t
        → (c : ℕ) (r : ResponseCache) → t.cache c ≡ some r
        → Serves (uri c) r
    unfolding set
    Step-kept (respond i r' l e sv) c r q = ground (arith, kept c r)
    Step-kept st c r q = kept c r q

    Step-hits :
        {t : Server lru}
        → Step n uri Serves s t
        → (i : ℕ) (r : ResponseCache) → t.stage i ≡ found r
        → Serves (uri i) r
    unfolding get
    Step-hits (hit i r' l e f) j r q =
        ground (arith, hits j r, stored (uri i) r, law.get_found s.backend.cache (uri i))
    Step-hits st j r q = ground (arith, hits j r)

    Step-answers :
        {t : Server lru}
        → Step n uri Serves s t
        → (i : ℕ) (r : ResponseCache) → t.stage i ≡ answered r
        → Serves (uri i) r ⊎ (r ≡ unavailable)
    unfolding set
    Step-answers (serve i r' l e) j r q = ground (arith, answers j r, hits i r)
    Step-answers (respond i r' l e sv) j r q = ground (arith, answers j r)
    Step-answers (send i c k r' l m e f g) j r q =
        ground (arith, answers j r, kept c r, inv.joined i c f)
    Step-answers (refuse i c l e f) j r q = ground (arith, answers j r)
    Step-answers st j r q = ground (arith, answers j r)

    Step-IsHonest : {t : Server lru} → Step n uri Serves s t → IsHonest t
    Step-IsHonest st = record {
      stored = Step-stored st;
      kept = Step-kept st;
      hits = Step-hits st;
      answers = Step-answers st;
    }

    Event-IsHonest : {t : Server lru} → Event n uri Serves s t → IsHonest t
    unfolding purge
    Event-IsHonest (client_gone c l e) = record {
      stored = stored;
      kept = kept;
      hits = hits;
      answers = answers;
    }
    Event-IsHonest invalidated = record {
      stored = λ u r q. ground (arith, law.purge_empty s.backend.cache u);
      kept = kept;
      hits = hits;
      answers = answers;
    }

  Run-IsHonest :
      {s t : Server lru} {k : ℕ}
      → IsSound n uri s
      → IsHonest s
      → Run n uri Serves s k t
      → IsHonest t
  Run-IsHonest inv h here = h
  Run-IsHonest inv h (step r st) = Step-IsHonest (Run-IsSound n uri inv r) (Run-IsHonest inv h r) st
  Run-IsHonest inv h (event r e) = Event-IsHonest (Run-IsSound n uri inv r) (Run-IsHonest inv h r) e

  new_server-IsHonest :
      (size : ℕ) (cache_type : Bytes) (cb : CacheBackend lru)
      → new_cache_backend size cache_type ≡ ok cb
      → IsHonest (new_server cb)
  unfolding new_cache_backend new_server
  new_server-IsHonest size cache_type cb e = record {
    stored = λ u r q. ground (arith, law.new_empty size cb.cache u);
    kept = λ c r q. cc;
    hits = λ i r q. cc;
    answers = λ i r q. cc;
  }

  -- Where the LRU cache keeps to its documentation, every request that was answered got what the
  -- real handler may give to its own URI, or 503, whatever the order in which requests, goroutines,
  -- lost clients and purges came.
  pub handle_cached_honest :
      (size : ℕ) (cache_type : Bytes) {cb : CacheBackend lru} {t : Server lru} {k : ℕ}
      → new_cache_backend size cache_type ≡ ok cb
      → Run n uri Serves (new_server cb) k t
      → (i : ℕ) (r : ResponseCache) → t.stage i ≡ answered r
      → Serves (uri i) r ⊎ (r ≡ unavailable)
  handle_cached_honest size cache_type {cb} e run =
      (Run-IsHonest (served-IsSound n uri {Serves = Serves} size cache_type e here)
        (new_server-IsHonest size cache_type cb e) run).answers
