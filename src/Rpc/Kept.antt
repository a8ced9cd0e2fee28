-- ===== src/Rpc/Kept.antt =====
-- Every step of the handlers and their goroutines, and every event from outside, keeps the tables of the
-- cache sound.
use mantlemint.Prelude.{
  ℕ, suc, ◌+◌, ◌<◌, ◌≤◌, ◌≡◌, true, some, set_at, is_some, sum_below, sum-set_at, sum-zero, arith,
}
use mantlemint.Bytes.{Bytes}
use mantlemint.Bytes.Order.{bytes_eq_iff}
use mantlemint.Rpc.{ResponseCache, Lru, set, get, purge, count_request, count_cached, enter, leave}
use mantlemint.Rpc.Handle.{
  Stage, Server, unavailable, Step, Event, arriving, counted, missed, handling, aborted, found,
  waiting, answered, watching, closed, told, feeding, is_closed, count, hit, miss, serve, lead,
  join, respond, abort, read_count, feed, give_up, send, close, refuse, remove, client_gone,
  invalidated,
}
use mantlemint.Rpc.Sound.{leads, is_started, is_live, owes, is_feeding, awaits, receivers, IsSound}

module _ {lru : Lru} (n : ℕ) (uri : ℕ → Bytes) where
  module _ (Serves : Bytes → ResponseCache → Type 0) {s : Server lru} (inv : IsSound n uri s) where
    open inv use {listed, owned, counted_all, owed, cached, joined, leading}

    -- What a step requires of the places that it changes, for the catch-all clauses below, which
    -- cannot name it.
    abbrev Guard : {t : Server lru} → Step n uri Serves s t → Type 0
    Guard (count i l e) = s.stage i ≡ arriving
    Guard (hit i r l e f) = s.stage i ≡ counted
    Guard (miss i l e f) = s.stage i ≡ counted
    Guard (serve i r l e) = s.stage i ≡ found r
    Guard (lead i l e f) = s.stage i ≡ missed
    Guard (join i c l e f) = s.stage i ≡ missed
    Guard (respond i r l e sv) = s.stage i ≡ handling
    Guard (abort i l e) = s.stage i ≡ handling
    Guard (read_count c l e f) = s.feeder c ≡ watching
    Guard (feed c k r l e f) = (s.feeder c ≡ told k) × (s.cache c ≡ some r)
    Guard (give_up c k l e f) = s.feeder c ≡ told k
    Guard (send i c k r l m e f g) = (s.feeder c ≡ feeding (suc k)) × (s.stage i ≡ waiting c)
    Guard (close c l e) = s.feeder c ≡ feeding 0
    Guard (refuse i c l e f) = (s.stage i ≡ waiting c) × (is_closed (s.feeder c) ≡ true)
    Guard (remove c l e) = s.feeder c ≡ closed

    guard : {t : Server lru} (st : Step n uri Serves s t) → Guard st
    guard (count i l e) = e
    guard (hit i r l e f) = e
    guard (miss i l e f) = e
    guard (serve i r l e) = e
    guard (lead i l e f) = e
    guard (join i c l e f) = e
    guard (respond i r l e sv) = e
    guard (abort i l e) = e
    guard (read_count c l e f) = e
    guard (feed c k r l e f) = (e, f)
    guard (give_up c k l e f) = e
    guard (send i c k r l m e f g) = (e, f)
    guard (close c l e) = e
    guard (refuse i c l e f) = (e, f)
    guard (remove c l e) = e

    Step-leading :
        {t : Server lru}
        → Step n uri Serves s t
        → (c : ℕ) → is_started (t.feeder c) ≡ true
        → leads (t.stage c) ≡ true
    Step-leading (lead i l e f) c h = ground (arith, leading c)
    Step-leading st c h = ground (arith, guard st, leading c)

    Step-joined :
        {t : Server lru}
        → Step n uri Serves s t
        → (j c : ℕ) → t.stage j ≡ waiting c
        → (c < n) × (is_started (t.feeder c) ≡ true) × (uri c ≡ uri j)
    unfolding enter
    Step-joined (join i d l e f) j c h = ground (arith, joined j c, owned (uri i) d)
    Step-joined st j c h = ground (arith, guard st, joined j c)

    Step-listed :
        {t : Server lru}
        → Step n uri Serves s t
        → (c : ℕ) → is_live (t.feeder c) ≡ true
        → t.backend.result_chan (uri c) ≡ some c
    unfolding enter leave count_request count_cached get set
    Step-listed (lead i l e f) c h = ground (arith, listed c, bytes_eq_iff (uri i) (uri c))
    Step-listed (join i d l e f) c h = ground (arith, listed c)
    Step-listed (remove d l e) c h =
        ground (arith, listed c, listed d, bytes_eq_iff (uri d) (uri c))
    Step-listed st c h = ground (arith, guard st, listed c)

    Step-owned :
        {t : Server lru}
        → Step n uri Serves s t
        → (u : Bytes) (c : ℕ) → t.backend.result_chan u ≡ some c
        → (uri c ≡ u) × (c < n) × (is_live (t.feeder c) ≡ true)
    unfolding enter leave count_request count_cached get set
    Step-owned (lead i l e f) u c h = ground (arith, owned u c, bytes_eq_iff (uri i) u)
    Step-owned (join i d l e f) u c h = ground (arith, owned u c)
    Step-owned (remove d l e) u c h =
        ground (arith, owned u c, bytes_eq_iff (uri d) u, bytes_eq_iff (uri d) (uri d))
    Step-owned st u c h = ground (arith, guard st, owned u c)

    -- the receivers n uri of `c` after a change of the stage of request `i`
    moved :
        (i c : ℕ) (to : Stage)
        → i < n
        → sum_below (awaits c) n (set_at s.stage i to) + awaits c (s.stage i)
          ≡ receivers n uri c s + awaits c to
    moved i c to l = sum-set_at (awaits c) n s.stage i to l

    -- no request waits for one that is not started
    none_wait : (i : ℕ) → s.stage i ≡ missed → receivers n uri i s ≡ 0
    none_wait i e = sum-zero (awaits i) n s.stage λ j. ground (arith, joined j i, leading i)

    Step-cached :
        {t : Server lru}
        → Step n uri Serves s t
        → (c : ℕ) → is_feeding (t.feeder c) ≡ true
        → is_some (t.cache c) ≡ true
    Step-cached (lead i l e f) c h = ground (arith, cached c)
    Step-cached st c h = ground (arith, guard st, cached c)

    Step-owed :
        {t : Server lru} → Step n uri Serves s t → (c : ℕ) → owes (t.feeder c) ≤ receivers n uri c t
    Step-owed (count i l e) c = ground (arith, owed c, moved i c counted l)
    Step-owed (hit i r l e f) c = ground (arith, owed c, moved i c (found r) l)
    Step-owed (miss i l e f) c = ground (arith, owed c, moved i c missed l)
    Step-owed (serve i r l e) c = ground (arith, owed c, moved i c (answered r) l)
    Step-owed (lead i l e f) c = ground (arith, owed c, moved i c handling l)
    Step-owed (join i d l e f) c = ground (arith, owed c, moved i c (waiting d) l)
    Step-owed (respond i r l e sv) c = ground (arith, owed c, moved i c (answered r) l)
    Step-owed (abort i l e) c = ground (arith, owed c, moved i c aborted l)
    Step-owed (read_count d l e f) c = ground (arith, owed c, counted_all c)
    Step-owed (send i d k r l m e f g) c = ground (arith, owed c, moved i c (answered r) l)
    Step-owed (refuse i d l e f) c =
        ground (arith, owed c, owed d, moved i c (answered unavailable) l)
    Step-owed st c = ground (arith, guard st, owed c)

    Step-counted_all :
        {t : Server lru}
        → Step n uri Serves s t
        → (c : ℕ) → t.feeder c ≡ watching
        → receivers n uri c t ≡ t.backend.subscribe_count (uri c)
    unfolding enter leave count_request count_cached get set
    Step-counted_all (count i l e) c h = ground (arith, counted_all c, moved i c counted l)
    Step-counted_all (hit i r l e f) c h = ground (arith, counted_all c, moved i c (found r) l)
    Step-counted_all (miss i l e f) c h = ground (arith, counted_all c, moved i c missed l)
    Step-counted_all (serve i r l e) c h = ground (arith, counted_all c, moved i c (answered r) l)
    Step-counted_all (lead i l e f) c h = ground (
      arith,
      counted_all c,
      listed c,
      none_wait i e,
      moved i c handling l,
      bytes_eq_iff (uri i) (uri c),
    )
    Step-counted_all (join i d l e f) c h = ground (
      arith,
      counted_all c,
      listed c,
      owned (uri i) d,
      moved i c (waiting d) l,
      bytes_eq_iff (uri i) (uri c),
    )
    Step-counted_all (respond i r l e sv) c h =
        ground (arith, counted_all c, moved i c (answered r) l)
    Step-counted_all (abort i l e) c h = ground (arith, counted_all c, moved i c aborted l)
    Step-counted_all (send i d k r l m e f g) c h =
        ground (arith, counted_all c, moved i c (answered r) l)
    Step-counted_all (refuse i d l e f) c h =
        ground (arith, counted_all c, moved i c (answered unavailable) l)
    Step-counted_all (remove d l e) c h =
        ground (arith, counted_all c, listed c, listed d, bytes_eq_iff (uri d) (uri c))
    Step-counted_all st c h = ground (arith, guard st, counted_all c)

    pub Step-IsSound : {t : Server lru} → Step n uri Serves s t → IsSound n uri t
    Step-IsSound st = record {
      listed = Step-listed st;
      owned = Step-owned st;
      counted_all = Step-counted_all st;
      owed = Step-owed st;
      cached = Step-cached st;
      joined = Step-joined st;
      leading = Step-leading st;
    }

    pub Event-IsSound : {t : Server lru} → Event n uri Serves s t → IsSound n uri t
    unfolding purge
    Event-IsSound (client_gone d l e) = record {
      listed = λ c h. ground (arith, listed c);
      owned = λ u c h. ground (arith, owned u c);
      counted_all = λ c h. ground (arith, counted_all c);
      owed = λ c. ground (arith, owed c, counted_all c);
      cached = λ c h. ground (arith, cached c);
      joined = λ i c h. ground (arith, joined i c);
      leading = λ c h. ground (arith, leading c);
    }
    Event-IsSound invalidated = record {
      listed = listed;
      owned = owned;
      counted_all = counted_all;
      owed = owed;
      cached = cached;
      joined = joined;
      leading = leading;
    }
