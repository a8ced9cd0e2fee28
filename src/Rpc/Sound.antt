-- ===== src/Rpc/Sound.antt =====
-- When the tables of the cache are sound: they name the running goroutines, and none of them owes more
-- sends than there are receivers.
use mantlemint.Prelude.{
  ℕ, ◌<◌, ◌≤◌, ◌≡◌, Bool, true, false, some, is_some, sum_below, if◌then◌else◌, ◌==◌,
}
use mantlemint.Bytes.{Bytes}
use mantlemint.Rpc.{Lru}
use mantlemint.Rpc.Handle.{
  Stage, Feeder, Server, handling, aborted, waiting, answered, idle, watching, left, told, feeding,
}

-- the requests that run the real handler themselves, or have done so
abbrev pub leads : Stage → Bool
leads handling = true
leads (answered r) = true
leads aborted = true
leads _ = false

abbrev pub is_started : Feeder → Bool
is_started idle = false
is_started _ = true

-- started, and still in the table of the channels
abbrev pub is_live : Feeder → Bool
is_live idle = false
is_live left = false
is_live _ = true

-- the sends that a goroutine has still to make, and whether it makes them
abbrev pub owes : Feeder → ℕ
owes (told k) = k
owes (feeding k) = k
owes _ = 0

abbrev pub is_feeding : Feeder → Bool
is_feeding (feeding k) = true
is_feeding _ = false

abbrev pub awaits : ℕ → Stage → ℕ
awaits c (waiting d) = if d == c then 1 else 0
awaits c _ = 0

module _ {lru : Lru} (n : ℕ) (uri : ℕ → Bytes) where
  -- the requests that receive from the channel of request `c`
  abbrev pub receivers : ℕ → Server lru → ℕ
  receivers c s = sum_below (awaits c) n s.stage

  pub record IsSound (s : Server lru) : Type 0 where
    pub listed : (c : ℕ) → is_live (s.feeder c) ≡ true → s.backend.result_chan (uri c) ≡ some c
    pub owned :
        (u : Bytes) (c : ℕ)
        → s.backend.result_chan u ≡ some c
        → (uri c ≡ u) × (c < n) × (is_live (s.feeder c) ≡ true)
    -- before its goroutine reads the count of a channel, the count is the number of its receivers
    pub counted_all :
        (c : ℕ) → s.feeder c ≡ watching → receivers c s ≡ s.backend.subscribe_count (uri c)
    -- then no more sends are left than there are receivers
    pub owed : (c : ℕ) → owes (s.feeder c) ≤ receivers c s
    pub cached : (c : ℕ) → is_feeding (s.feeder c) ≡ true → is_some (s.cache c) ≡ true
    pub joined :
        (i c : ℕ)
        → s.stage i ≡ waiting c
        → (c < n) × (is_started (s.feeder c) ≡ true) × (uri c ≡ uri i)
    pub leading : (c : ℕ) → is_started (s.feeder c) ≡ true → leads (s.stage c) ≡ true
