-- ===== src/Sync/Reads.antt =====
-- What a reader of the height-limited database sees of a chain that the loop of sync.go has taken.
use mantlemint.Prelude.{
  ℕ, zero, suc, ◌^◌, ◌<◌, ◌≤◌, pos, none, List, [], ◌∷◌, All, All-weaken, ok, err, panic, ◌≡◌, ◌⊎◌,
  inl, inr, take, length, arith,
}
use mantlemint.Bytes.{Bytes}
use mantlemint.Tmdb.Session.{Session, IsReliable}
use mantlemint.Heleveldb.Keys.{desc}
use mantlemint.Heleveldb.History.{History, IsDescending, IsApart, OpsApart, read_spec}
use mantlemint.Heleveldb.Stored.{Stores}
use mantlemint.Heleveldb.Reads.{get-Stores}
use mantlemint.Hld
use mantlemint.Hld.{Hld, branch, set_read_height}
use mantlemint.SafeBatch.Block.{BlockDb}
use mantlemint.Mantlemint.Reactor.{Tendermint}
use mantlemint.SafeBatch.Effect.{effect}
use mantlemint.Sync.{Outside, World, process_block, process_blocks}
use mantlemint.Sync.Writes.{WritesThrough, written}
use mantlemint.Sync.Chain.{FollowOn, history_of, process_blocks_stored}

module _ (x : Session) (t : Tendermint (BlockDb x)) (o : Outside x t)
    (through : WritesThrough x t) where
  -- No key that ApplyBlock writes clashes with `key`.
  abbrev pub WritesApart : Bytes → Type 0
  WritesApart key =
      (state : t.State) (id : t.BlockId) (block : t.Block) (db : BlockDb x)
      → OpsApart (effect (through state id block db).0 []) key

  FollowOn-take :
      (blocks : List t.Block) (n m : ℕ) → FollowOn x t o n blocks → FollowOn x t o n (take m blocks)
  FollowOn-take [] n zero f = tt
  FollowOn-take [] n (suc m) f = tt
  FollowOn-take (block ∷ blocks) n zero f = tt
  FollowOn-take (block ∷ blocks) n (suc m) (h, l, f) = (h, l, FollowOn-take blocks (suc n) m f)

  history_of-IsDescending :
      (blocks : List t.Block) (n : ℕ) (w : World x t o) (hist : History)
      → FollowOn x t o n blocks
      → IsDescending hist
      → All (λ b. b.0 ≤ suc n) hist
      → IsDescending (history_of x t o through blocks n w hist)
  unfolding history_of
  history_of-IsDescending [] n w hist f d below = d
  history_of-IsDescending (block ∷ blocks) n w hist (height, l, f) d below =
      history_of-IsDescending blocks (suc n) (process_block x t o block w).1 _ f
        (omega arith, l, below, d) (omega arith, All-weaken _ _ hist (λ b u. omega arith) below)

  history_of-IsApart :
      (key : Bytes) (blocks : List t.Block) (n : ℕ) (w : World x t o) (hist : History)
      → WritesApart key
      → IsApart hist key
      → IsApart (history_of x t o through blocks n w hist) key
  unfolding history_of written
  history_of-IsApart key [] n w hist apart old = old
  history_of-IsApart key (block ∷ blocks) n w hist apart old =
      history_of-IsApart key blocks (suc n) (process_block x t o block w).1 _ apart
        (apart _ _ block _, old)

  -- a reader of the height-limited database at a height, of a session that stores the first blocks
  get-history_of :
      (r : IsReliable x) (s : x.State) (blocks : List t.Block) (n : ℕ) (w : World x t o)
      (hist : History) (hl : Hld) (v : ℕ) (key : Bytes)
      → Stores x r s (history_of x t o through blocks n w hist)
      → FollowOn x t o n blocks
      → IsDescending hist
      → All (λ b. b.0 ≤ suc n) hist
      → WritesApart key
      → IsApart hist key
      → 0 < v
      → v < 2 ^ 56
      → Hld.get x desc s (branch hl (pos v)) key
        ≡ ok (read_spec (history_of x t o through blocks n w hist) v key)
  unfolding Hld.get branch set_read_height
  get-history_of r s blocks n w hist hl v key st f d below apart old p l =
      get-Stores x r s (history_of x t o through blocks n w hist) key v st
        (history_of-IsDescending blocks n w hist f d below)
        (history_of-IsApart key blocks n w hist apart old) l p

  -- a reader asks for a key as it was right after the block of a height from 1 to 2 ^ 56 - 1, where no
  -- key of the history or of the writes of ApplyBlock clashes with the key
  abbrev pub IsAskable : History → ℕ × Bytes → Type 0
  IsAskable hist ask = (0 < ask.0) × (ask.0 < 2 ^ 56) × WritesApart ask.1 × IsApart hist ask.1

  -- the height-limited database answers with what a history held
  abbrev pub Answered : x.State → Hld → History → ℕ × Bytes → Type 0
  Answered s hl hist ask =
      Hld.get x desc s (branch hl (pos ask.0)) ask.1 ≡ ok (read_spec hist ask.0 ask.1)

  get_each :
      (r : IsReliable x) (s : x.State) (blocks : List t.Block) (n : ℕ) (w : World x t o)
      (hist : History) (hl : Hld) (asks : List (ℕ × Bytes))
      → Stores x r s (history_of x t o through blocks n w hist)
      → FollowOn x t o n blocks
      → IsDescending hist
      → All (λ b. b.0 ≤ suc n) hist
      → All (IsAskable hist) asks
      → All (Answered s hl (history_of x t o through blocks n w hist)) asks
  get_each r s blocks n w hist hl asks st f d below can =
      All-weaken _ _ asks
        (λ ask u.
          let (p, l, apart, old) = u in
          get-history_of r s blocks n w hist hl ask.0 ask.1 st f d below apart old p l)
        can

  -- A node whose session stores a history of blocks up to the height `n + 1`, the heights of which do not
  -- rise from the newest block on and lie below 2 ^ 56, and that has no rollback batch at hand, is given blocks at the heights
  -- from `n + 1` on, below 2 ^ 56. The session does not fail and ApplyBlock writes only through its
  -- database. A list of reads asks for keys, each at a height from 1 to 2 ^ 56 - 1, and no key of the
  -- history or of the writes of ApplyBlock clashes with one of them. Then either the loop takes all the
  -- blocks, and the height-limited database answers Get, for every read of the list, with what the key
  -- held right after the block of the height, in the history with all the blocks, or the loop ends in a
  -- panic, and there is one number of first blocks, fewer than all, such that it answers every read of
  -- the list so, in the history with those blocks.
  pub process_blocks_get :
      (r : IsReliable x) (blocks : List t.Block) (n : ℕ) (w : World x t o) (hist : History)
      (hl : Hld) (asks : List (ℕ × Bytes))
      → Stores x r w.db.db.0 hist
      → w.rollback ≡ none
      → FollowOn x t o n blocks
      → IsDescending hist
      → All (λ b. b.0 ≤ suc n) hist
      → All (IsAskable hist) asks
      → let out = process_blocks x t o blocks w in
        let sees = λ (some_blocks : List t.Block).
          All (Answered out.1.db.db.0 hl (history_of x t o through some_blocks n w hist)) asks in
        ((out.0 ≡ ok tt) × sees blocks)
        ⊎ ((out.0 ≡ err panic) × ((m : ℕ) × (m < length blocks) × sees (take m blocks)))
  process_blocks_get r blocks n w hist hl asks st e f d below can =
      elim (process_blocks_stored x t o through r blocks n w hist f st e) [
        | inl (done, all) ↦ inl (done, get_each r _ blocks n w hist hl asks all f d below can)
        | inr (stopped, (m, fewer, some_of)) ↦ inr (
          stopped,
          (
            m,
            fewer,
            get_each r _ (take m blocks) n w hist hl asks some_of (FollowOn-take blocks n m f) d
                below can,
          ),
        )
      ]
