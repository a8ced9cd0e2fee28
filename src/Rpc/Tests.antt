-- ===== src/Rpc/Tests.antt =====
-- Runs of the cache on concrete requests, with an association list as the LRU cache.
use mantlemint.Prelude.{
  ℕ, zero, suc, pos, ◌≤◌, ◌≡◌, refl, ◌⊎◌, true, Option, none, some, List, [], ◌∷◌, take, Result, ok,
  err, panic, not_found, ℤ, ◌*◌, arith, length, leb, if◌then◌else◌,
}
use mantlemint.Bytes.{Bytes, bytes_eq}
use mantlemint.Bytes.Order.{bytes_eq_iff}
use mantlemint.Rpc.Handle.{
  Server, Run, new_server, here, step, count, miss, lead, join, respond, read_count, feed, send,
  unavailable,
}
use mantlemint.Rpc.Sound.{owes, receivers, is_live}
use mantlemint.Rpc.Invariant.{handle_cached_sound}
use mantlemint.Rpc.Served.{handle_cached_honest}
use mantlemint.Rpc.Finish.{handle_cached_ends, AllOver, CanStep}
use mantlemint.Rpc.Register.{Caches, lookup, invalidate, lookup-invalidate, is_positive}
use mantlemint.Rpc.{
  ResponseCache, Lru, IsLru, CacheBackend, count_request, new_cache_backend, enter, get, set,
}

-- The newest entry first, and at most `bound` of them.
record Table : Type 0 where
  bound : ℕ
  entries : List (Bytes × ResponseCache)

abbrev find : List (Bytes × ResponseCache) → Bytes → Option ResponseCache
find [] k = none
find ((k', r) ∷ rest) k = let other = find rest k in if bytes_eq k' k then some r else other

abbrev two_lru : Lru
two_lru = record {
  State = Table;
  new = λ n. if leb n 0 then err panic else ok (record { bound = n; entries = [] });
  add = λ t k r.
      (leb t.bound (length t.entries), record t { entries = take t.bound ((k, r) ∷ t.entries) });
  get = λ t k. (find t.entries k, t);
  purge = λ t. record t { entries = [] };
}

find-take :
    (n : ℕ) (es : List (Bytes × ResponseCache)) (k : Bytes) (r : ResponseCache)
    → find (take n es) k ≡ some r
    → find es k ≡ some r
find-take zero es k r h = cc
find-take (suc n) [] k r h = cc
find-take (suc n) ((k', r') ∷ es) k r h = ground (arith, find-take n es k r)

two_lru-IsLru : IsLru two_lru
two_lru-IsLru = record {
  contents = λ t k. find t.entries k;
  new_empty = λ n c k e. ground arith;
  get_found = λ c k. refl;
  get_kept = λ c k k'. refl;
  add_only = λ c k k' r r' h.
      ground (arith, find-take c.bound ((k, r) ∷ c.entries) k' r' h, bytes_eq_iff k k');
  purge_empty = λ c k. refl;
}

-- Two requests for "/a", the first of which the real handler answers with 200 and "{}".
abbrev page : ResponseCache
page = record { status = 200; body = 123 ∷ 125 ∷ [] }

abbrev same_uri : ℕ → Bytes
same_uri i = 47 ∷ 97 ∷ []

abbrev ServesPage : Bytes → ResponseCache → Type 0
ServesPage u r = r ≡ page

abbrev fresh_backend : CacheBackend two_lru
fresh_backend = record {
  cache = record { bound = 4; entries = [] };
  eviction_count = 0;
  cache_serve_count = 0;
  serve_count = 0;
  cache_type = [];
  result_chan = λ _. none;
  subscribe_count = λ _. 0;
}

fresh_made : new_cache_backend {lru = two_lru} 4 [] ≡ ok fresh_backend
unfolding new_cache_backend
fresh_made = refl

abbrev Shares : ℕ → Server two_lru → Type 0
Shares k t = Run 2 same_uri ServesPage (new_server fresh_backend) k t

abbrev first_in : (t : Server two_lru) × Shares 3 t
unfolding new_server get count_request enter
first_in = (
  _,
  step (step (step here (count 0 (omega arith) refl)) (miss 0 (omega arith) refl refl))
      (lead 0 (omega arith) refl refl),
)

abbrev both_in : (t : Server two_lru) × Shares 6 t
unfolding new_server get count_request enter first_in bytes_eq
both_in = (
  _,
  step (step (step first_in.1 (count 1 (omega arith) refl)) (miss 1 (omega arith) refl refl))
      (join 1 0 (omega arith) refl refl),
)

abbrev told_one : (t : Server two_lru) × Shares 9 t
unfolding new_server get set count_request enter both_in bytes_eq
told_one = (
  _,
  step
      (step (step both_in.1 (respond 0 page (omega arith) refl refl))
        (read_count 0 (omega arith) refl refl))
      (feed 0 1 page (omega arith) refl refl),
)

abbrev both_served : (t : Server two_lru) × Shares 10 t
unfolding new_server get set count_request enter told_one bytes_eq
both_served = (_, step told_one.1 (send 1 0 0 page (omega arith) (omega arith) refl refl refl))

-- the goroutine of request 0 owes one send, and request 1 waits for it
handle_cached_sound_example :
    (owes (told_one.0.feeder 0) ≤ receivers 2 same_uri 0 told_one.0)
    × (is_live (told_one.0.feeder 0) ≡ true
        → is_live (told_one.0.feeder 0) ≡ true
        → same_uri 0 ≡ same_uri 0
        → zero ≡ zero)
handle_cached_sound_example = handle_cached_sound 2 same_uri 4 [] fresh_made told_one.1 0 0

handle_cached_honest_example : (page ≡ page) ⊎ (page ≡ unavailable)
unfolding both_served
handle_cached_honest_example =
    handle_cached_honest two_lru-IsLru 2 same_uri ServesPage 4 [] fresh_made both_served.1 1 page
      refl

handle_cached_ends_example :
    (6 ≤ 9 * 2)
    × (AllOver 2 same_uri ServesPage both_in.0 ⊎ CanStep 2 same_uri ServesPage both_in.0)
handle_cached_ends_example =
    handle_cached_ends 2 same_uri ServesPage 4 [] fresh_backend both_in.0 6 fresh_made both_in.1

-- "7" as a height
parse_seven : Bytes → Result ℤ
parse_seven q = if bytes_eq q (55 ∷ []) then ok (pos 7) else err not_found

abbrev full_caches : Caches two_lru
full_caches = record {
  cache = (set fresh_backend (same_uri 0) 200 []).1;
  archival_cache = (set fresh_backend (same_uri 0) 200 []).1;
}

lookup-invalidate_example :
    lookup parse_seven
      (invalidate full_caches)
      (record { path = same_uri 0; url = same_uri 0; height_query = 55 ∷ [] })
    ≡ (if is_positive (parse_seven (55 ∷ []))
        then lookup parse_seven full_caches
            (record { path = same_uri 0; url = same_uri 0; height_query = 55 ∷ [] })
        else none)
lookup-invalidate_example =
    lookup-invalidate parse_seven two_lru-IsLru full_caches
      (record { path = same_uri 0; url = same_uri 0; height_query = 55 ∷ [] })
