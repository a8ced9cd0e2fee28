-- ===== src/Rpc/Finish.antt =====
-- The requests never block each other for good: every run of the handlers and their goroutines is
-- finite, and it can stop only where all of them are over.
use mantlemint.Prelude.{
  ok, ℕ, zero, suc, ◌+◌, ◌*◌, ◌<◌, ◌≤◌, ◌≡◌, refl, ◌⊎◌, inl, inr, true, none, set_at, sum_below,
  sum-set_at, ltb→lt, sum-positive, sum-constant, sum-zero_inv, ltb, arith, Bool-cases,
  Option-cases, ap,
}
use mantlemint.Bytes.{Bytes}
use mantlemint.Rpc.{ResponseCache, Lru, CacheBackend, new_cache_backend, get, enter}
use mantlemint.Rpc.Handle.{
  Stage, Feeder, Server, Step, Event, Run, arriving, counted, missed, handling, aborted, found,
  waiting, answered, idle, watching, closed, left, told, feeding, is_over, unavailable, new_server,
  here, step, event, count, hit, miss, serve, lead, join, respond, abort, read_count, feed, give_up,
  send, close, refuse, remove, client_gone, invalidated,
}
use mantlemint.Rpc.Sound.{IsSound, awaits, is_live, leads}
use mantlemint.Rpc.Invariant.{served-IsSound}

abbrev stage_work : Stage → ℕ
stage_work arriving = 9
stage_work counted = 8
stage_work missed = 7
stage_work (answered r) = 0
stage_work aborted = 0
stage_work _ = 1

abbrev feeder_work : Feeder → ℕ
feeder_work watching = 4
feeder_work (told k) = 3
feeder_work (feeding k) = 2
feeder_work closed = 1
feeder_work _ = 0

module _ {lru : Lru} (n : ℕ) (uri : ℕ → Bytes) (Serves : Bytes → ResponseCache → Type 0) where
  -- the work that is left, which each step makes less
  abbrev work : Server lru → ℕ
  work s = sum_below stage_work n s.stage + sum_below feeder_work n s.feeder

  module _ (s : Server lru) where
    stage_to :
        (i : ℕ) (to : Stage)
        → i < n
        → sum_below stage_work n (set_at s.stage i to) + stage_work (s.stage i)
          ≡ sum_below stage_work n s.stage + stage_work to
    stage_to i to l = sum-set_at stage_work n s.stage i to l

    feeder_to :
        (c : ℕ) (to : Feeder)
        → c < n
        → sum_below feeder_work n (set_at s.feeder c to) + feeder_work (s.feeder c)
          ≡ sum_below feeder_work n s.feeder + feeder_work to
    feeder_to c to l = sum-set_at feeder_work n s.feeder c to l

  Step-work : {s t : Server lru} → Step n uri Serves s t → work t < work s
  Step-work {s} (count i l e) = ground (arith, stage_to s i counted l)
  Step-work {s} (hit i r l e f) = ground (arith, stage_to s i (found r) l)
  Step-work {s} (miss i l e f) = ground (arith, stage_to s i missed l)
  Step-work {s} (serve i r l e) = ground (arith, stage_to s i (answered r) l)
  Step-work {s} (lead i l e f) = ground (arith, stage_to s i handling l, feeder_to s i watching l)
  Step-work {s} (join i c l e f) = ground (arith, stage_to s i (waiting c) l)
  Step-work {s} (respond i r l e sv) = ground (arith, stage_to s i (answered r) l)
  Step-work {s} (abort i l e) = ground (arith, stage_to s i aborted l)
  Step-work {s} (read_count c l e f) =
      ground (arith, feeder_to s c (told (s.backend.subscribe_count (uri c))) l)
  Step-work {s} (feed c k r l e f) = ground (arith, feeder_to s c (feeding k) l)
  Step-work {s} (give_up c k l e f) = ground (arith, feeder_to s c closed l)
  Step-work {s} (send i c k r l m e f g) =
      ground (arith, stage_to s i (answered r) l, feeder_to s c (feeding k) m)
  Step-work {s} (close c l e) = ground (arith, feeder_to s c closed l)
  Step-work {s} (refuse i c l e f) = ground (arith, stage_to s i (answered unavailable) l)
  Step-work {s} (remove c l e) = ground (arith, feeder_to s c left l)

  Event-work : {s t : Server lru} → Event n uri Serves s t → work t ≤ work s
  Event-work {s} (client_gone c l e) =
      ground (arith, feeder_to s c (told (s.backend.subscribe_count (uri c))) l)
  Event-work invalidated = omega arith

  Run-work : {s t : Server lru} {k : ℕ} → Run n uri Serves s k t → k + work t ≤ work s
  Run-work here = omega arith
  Run-work (step r st) = omega (arith, Run-work r, Step-work st)
  Run-work (event r e) = omega (arith, Run-work r, Event-work e)

  abbrev pub CanStep : Server lru → Type 0
  CanStep s = (t : Server lru) × Step n uri Serves s t

  module _ {s : Server lru} (inv : IsSound n uri s) where
    open inv use {owned, owed, cached, joined, leading}

    -- the handler of a first request returns or panics, and its context is then done
    leader_moves :
        (c : ℕ) (g : Stage)
        → c < n
        → s.feeder c ≡ watching
        → s.stage c ≡ g
        → leads g ≡ true
        → CanStep s
    leader_moves c handling l e q h = (_, abort c l q)
    leader_moves c (answered r) l e q h = (_, read_count c l e (ap is_over q))
    leader_moves c aborted l e q h = (_, read_count c l e (ap is_over q))
    leader_moves c g l e q h = cc

    -- a send has a receiver
    sender_moves : (c k : ℕ) → c < n → s.feeder c ≡ feeding (suc k) → CanStep s
    sender_moves c k l e =
        let (i, li, w) = sum-positive (awaits c) n s.stage (ground (arith, owed c)) in
        let here' : s.stage i ≡ waiting c = ground arith in
        elim (Option-cases (s.cache c)) [
          | inl q ↦ ground (arith, cached c)
          | inr (r, q) ↦ (_, send i c k r li l e here' q)
        ]

    feeder_moves : (c : ℕ) (g : Feeder) → c < n → s.feeder c ≡ g → is_live g ≡ true → CanStep s
    feeder_moves c watching l e h = leader_moves c (s.stage c) l e refl (ground (arith, leading c))
    feeder_moves c (told k) l e h = elim (Option-cases (s.cache c)) [
      | inl q ↦ (_, give_up c k l e q)
      | inr (r, q) ↦ (_, feed c k r l e q)
    ]
    feeder_moves c (feeding zero) l e h = (_, close c l e)
    feeder_moves c (feeding (suc k)) l e h = sender_moves c k l e
    feeder_moves c closed l e h = (_, remove c l e)
    feeder_moves c g l e h = cc

    -- a request that waits can receive, or the goroutine of its channel can go on
    waiter_moves :
        (i c : ℕ) (g : Feeder) → i < n → s.stage i ≡ waiting c → s.feeder c ≡ g → CanStep s
    waiter_moves i c closed l e q = (_, refuse i c l e (ground arith))
    waiter_moves i c left l e q = (_, refuse i c l e (ground arith))
    waiter_moves i c g l e q = feeder_moves c g (joined i c e).0 q (ground (arith, joined i c e))

    request_moves : (i : ℕ) (g : Stage) → i < n → s.stage i ≡ g → 0 < stage_work g → CanStep s
    request_moves i arriving l e h = (_, count i l e)
    request_moves i counted l e h = elim (Option-cases (get s.backend (uri i)).0) [
      | inl q ↦ (_, miss i l e q)
      | inr (r, q) ↦ (_, hit i r l e q)
    ]
    request_moves i missed l e h = elim (Option-cases (enter s.backend (uri i) i).0) [
      | inl q ↦ (_, lead i l e q)
      | inr (c, q) ↦ (_, join i c l e q)
    ]
    request_moves i (found r) l e h = (_, serve i r l e)
    request_moves i handling l e h = (_, abort i l e)
    request_moves i (waiting c) l e h = waiter_moves i c (s.feeder c) l e refl
    request_moves i (answered r) l e h = absurd (omega arith)
    request_moves i aborted l e h = absurd (omega arith)

    work-CanStep : 0 < work s → CanStep s
    work-CanStep h = elim (Bool-cases (ltb 0 (sum_below stage_work n s.stage))) [
      | inl e ↦
          let (i, l, w) = sum-positive stage_work n s.stage (ground arith) in
          request_moves i (s.stage i) l refl w
      | inr e ↦
          let (c, l, w) = sum-positive feeder_work n s.feeder (ground arith) in
          feeder_moves c (s.feeder c) l refl (ground arith)
    ]

  new_server-work : (cb : CacheBackend lru) → work (new_server cb) ≡ 9 * n
  unfolding new_server
  new_server-work cb =
      ground (arith, sum-constant stage_work n arriving, sum-constant feeder_work n idle)

  -- All requests are over, and no entry of the tables is left.
  abbrev pub AllOver : Server lru → Type 0
  AllOver s =
      ((i : ℕ) → i < n → is_over (s.stage i) ≡ true)
      × ((u : Bytes) → s.backend.result_chan u ≡ none)

  all_over : {s : Server lru} → IsSound n uri s → work s ≡ 0 → AllOver s
  all_over {s} inv e = (
    λ i l. ground (arith, sum-zero_inv stage_work n s.stage i l),
    λ u. elim (Option-cases (s.backend.result_chan u)) [
      | inl q ↦ q
      | inr (c, q) ↦
          let (_, l, live) = inv.owned u c q in
          ground (arith, sum-zero_inv feeder_work n s.feeder c l)
    ],
  )

  -- A run of `n` requests from a new cache makes at most `9 * n` steps, whatever the order, and in
  -- each state that it comes to, either all requests are answered or aborted and the table of the
  -- channels is empty, or one of the steps of the code can be taken: no request waits for ever.
  pub handle_cached_ends :
      (size : ℕ) (cache_type : Bytes) (cb : CacheBackend lru) (t : Server lru) (k : ℕ)
      → new_cache_backend size cache_type ≡ ok cb
      → Run n uri Serves (new_server cb) k t
      → (k ≤ 9 * n) × (AllOver t ⊎ CanStep t)
  handle_cached_ends size cache_type cb t k e r =
      let inv = served-IsSound n uri size cache_type e r in
      (
        omega (arith, Run-work r, new_server-work cb),
        elim (Bool-cases (ltb 0 (work t))) [
          | inl p ↦ inr (work-CanStep inv (ltb→lt 0 (work t) p))
          | inr p ↦ inl (all_over inv (ground arith))
        ],
      )
