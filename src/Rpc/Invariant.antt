-- ===== src/Rpc/Invariant.antt =====
-- What every interleaving of the handlers and their goroutines keeps, from a new cache on.
use mantlemint.Prelude.{ok, ℕ, ◌≤◌, ◌≡◌, true, none, arith}
use mantlemint.Bytes.{Bytes}
use mantlemint.Rpc.{ResponseCache, Lru, CacheBackend, new_cache_backend}
use mantlemint.Rpc.Handle.{Server, new_server, here, step, event, Run}
use mantlemint.Rpc.Sound.{is_live, owes, receivers, IsSound}
use mantlemint.Rpc.Kept.{Step-IsSound, Event-IsSound}

module _ {lru : Lru} (n : ℕ) (uri : ℕ → Bytes) where
  new_cache_backend-clean :
      (size : ℕ) (cache_type : Bytes) {cb : CacheBackend lru}
      → new_cache_backend size cache_type ≡ ok cb
      → (u : Bytes) → cb.result_chan u ≡ none
  unfolding new_cache_backend
  new_cache_backend-clean size cache_type e u = ground arith

  new_server-IsSound :
      (cb : CacheBackend lru)
      → ((u : Bytes) → cb.result_chan u ≡ none)
      → IsSound n uri (new_server cb)
  unfolding new_server
  new_server-IsSound cb empty = record {
    listed = λ c h. cc;
    owned = λ u c h. ground (arith, empty u);
    counted_all = λ c h. cc;
    owed = λ c. omega arith;
    cached = λ c h. cc;
    joined = λ i c h. cc;
    leading = λ c h. cc;
  }

  pub Run-IsSound :
      {Serves : Bytes → ResponseCache → Type 0} {s t : Server lru} {k : ℕ}
      → IsSound n uri s
      → Run n uri Serves s k t
      → IsSound n uri t
  Run-IsSound h here = h
  Run-IsSound {Serves} h (step r st) = Step-IsSound n uri Serves (Run-IsSound h r) st
  Run-IsSound {Serves} h (event r e) = Event-IsSound n uri Serves (Run-IsSound h r) e

  -- A server with a new cache is sound in every state that it comes to.
  pub served-IsSound :
      {Serves : Bytes → ResponseCache → Type 0} (size : ℕ) (cache_type : Bytes)
      {cb : CacheBackend lru} {t : Server lru} {k : ℕ}
      → new_cache_backend size cache_type ≡ ok cb
      → Run n uri Serves (new_server cb) k t
      → IsSound n uri t
  served-IsSound size cache_type e r =
      Run-IsSound (new_server-IsSound _ (new_cache_backend-clean size cache_type e)) r

  -- In every state that interleaved requests and goroutines come to from a new cache, no goroutine
  -- that feeds a channel has more sends left than there are requests that wait for that channel, and
  -- two goroutines for the same URI that are still in the table are the same one.
  pub handle_cached_sound :
      {Serves : Bytes → ResponseCache → Type 0} (size : ℕ) (cache_type : Bytes)
      {cb : CacheBackend lru} {t : Server lru} {k : ℕ}
      → new_cache_backend size cache_type ≡ ok cb
      → Run n uri Serves (new_server cb) k t
      → (c d : ℕ)
      → (owes (t.feeder c) ≤ receivers n uri c t)
        × (is_live (t.feeder c) ≡ true → is_live (t.feeder d) ≡ true → uri c ≡ uri d → c ≡ d)
  handle_cached_sound size cache_type e r c d =
      let inv = served-IsSound size cache_type e r in
      (inv.owed c, λ p q same. ground (arith, inv.listed c p, inv.listed d q))
