-- ===== src/Sync/Fed.antt =====
-- A node from its start on: the blocks that the feed of block_feed sends to the loop of sync.go, and
-- what a reader sees of them.
mod Tests
use mathlib.Core.List.{append_assoc}
use mantlemint.Prelude.{
  ℕ, zero, suc, ◌+◌, ◌-◌, ◌^◌, ◌<◌, ◌≤◌, pos, eq_ℤ, true, false, Option, none, some, List, [], ◌∷◌,
  ◌++◌, map, Result, ok, err, panic, ◌≡◌, refl, sym, ◌∙◌, ap, subst, ◌⊎◌, inl, inr, take, length,
  All, arith, ok_injective,
}
use mantlemint.Bytes.{Bytes}
use mantlemint.Tmdb.Session.{Session, IsReliable}
use mantlemint.Heleveldb.Keys.{desc}
use mantlemint.Heleveldb.History.{History, OpsApart, read_spec}
use mantlemint.Heleveldb.Stored.{Stores}
use mantlemint.Hld
use mantlemint.Hld.{Hld, branch}
use mantlemint.SafeBatch.Block.{BlockDb}
use mantlemint.Mantlemint.Reactor.{Tendermint}
use mantlemint.BlockFeed.Sources.{Endpoints}
use mantlemint.BlockFeed.Aggregate.{Feed, subscribe}
use mantlemint.BlockFeed.Order.{heights, before_nil, Answers, out-subscribe}
use mantlemint.Sync.{Outside, World, process_blocks}
use mantlemint.Sync.Writes.{WritesThrough}
use mantlemint.Sync.Chain.{FollowOn, history_of}
use mantlemint.Sync.Reads.{IsAskable, Answered, process_blocks_get}
use mantlemint.Sync.Start.{Given, start_node}
use mantlemint.Sync.Stages.{ReplaysThrough}
use mantlemint.Sync.Started.{at_genesis, genesis_ops, start_node_stored}

module _ (x : Session) (t : Tendermint (BlockDb x)) (o : Outside x t) (e : Endpoints)
    (block_of : e.Block → t.Block)
    (same_height : (b : e.Block) → o.block_height (block_of b) ≡ pos (e.height b)) where
  FollowOn-heights :
      (block_at : ℕ → e.Block) (rest : List t.Block) (from n m : ℕ)
      → ((i : ℕ) → e.height (block_at i) ≡ i)
      → from ≡ suc n
      → n + m < 2 ^ 56
      → FollowOn x t o (n + m) rest
      → FollowOn x t o n (map block_of (map block_at (heights from m)) ++ rest)
  FollowOn-heights block_at rest from n zero at next l f =
      subst (λ m. FollowOn x t o m rest) (omega arith) f
  FollowOn-heights block_at rest from n (suc m) at next l f = (
    same_height (block_at from) ∙ ap pos (at from ∙ next),
    omega arith,
    FollowOn-heights block_at rest (from + 1) (suc n) m at (omega arith) (omega arith)
        (subst (λ m. FollowOn x t o m rest) (omega arith) f),
  )

  map-append : (bs cs : List e.Block) → map block_of (bs ++ cs) ≡ map block_of bs ++ map block_of cs
  map-append [] cs = refl
  map-append (b ∷ bs) cs = ap (λ l. block_of b ∷ l) (map-append bs cs)

  -- A node whose last known block is at the height `n` subscribes to a feed that has sent nothing. The
  -- second block of the websocket is more than one height above it, the RPC endpoint answers each
  -- request with the block of that height, and the blocks that the websocket sends next follow on. Then
  -- the blocks that are sent to the loop are at the heights from `n + 1` on, without a gap, if they
  -- are below 2 ^ 56.
  pub subscribe-FollowOn :
      (rpc_index : ℕ) (block_at : ℕ → e.Block) (answers : Answers e rpc_index block_at)
      (dropped : Option e.Block) (first : e.Block) (ws : List (Option e.Block)) (f : Feed e)
      → f.out ≡ []
      → f.last_known_block + 1 < e.height first
      → e.height first < 2 ^ 56
      → FollowOn x t o (e.height first) (map block_of (before_nil e ws))
      → let out = subscribe e rpc_index (dropped ∷ some first ∷ ws) f in
        FollowOn x t o f.last_known_block (map block_of out.1.out)
  subscribe-FollowOn rpc_index block_at answers dropped first ws f fresh behind l follow =
      let n = f.last_known_block in
      let m = e.height first - n in
      let bs = map block_at (heights (n + 1) m) in
      let sent =
        (out-subscribe e rpc_index block_at answers dropped first ws f behind).1
        ∙ ap (λ l. l ++ bs ++ before_nil e ws) fresh in
      subst (FollowOn x t o n) (sym (ap (map block_of) sent ∙ map-append bs (before_nil e ws))) (
        FollowOn-heights block_at (map block_of (before_nil e ws)) (n + 1) n m (λ i. (answers i).3)
          (omega arith) (omega arith)
          (subst (λ h. FollowOn x t o h (map block_of (before_nil e ws))) (omega arith) follow))

module _ (x : Session) (t : Tendermint (BlockDb x)) (o : Outside x t) (r : IsReliable x)
    (replays : ReplaysThrough x t) (through : WritesThrough x t) (g : Given x t o) (n : ℕ)
    (s : x.State) where
  -- what ReplayBlocks writes from the genesis state to the fresh session
  abbrev pub at_start : t.State → History
  at_start genesis = (suc n, genesis_ops x t o r replays g n s [] genesis) ∷ []

  askable :
      (asks : List (ℕ × Bytes)) (genesis : t.State)
      → All (IsAskable x t o through []) asks
      → All (λ ask. OpsApart (genesis_ops x t o r replays g n s [] genesis) ask.1) asks
      → All (IsAskable x t o through (at_start genesis)) asks
  askable [] genesis can apart = tt
  askable (ask ∷ asks) genesis ((p, l, writes, _), can) (first, apart) =
      ((p, l, writes, (first, tt)), askable asks genesis can apart)

  -- Main gets to its loop on a session that does not fail and stores nothing, from a genesis whose
  -- initial height is from 1 to 2 ^ 56 - 1, and the state that is loaded first has the last height 0. It
  -- follows blocks from the initial height on, below 2 ^ 56. ReplayBlocks and ApplyBlock write only
  -- through their database. A list of reads asks for keys, each at a height from 1 to 2 ^ 56 - 1, and no
  -- key that ReplayBlocks and ApplyBlock write clashes with one of them. Then either the loop takes all
  -- the blocks, and the height-limited database answers Get, for every read of the list, with what the
  -- key held right after the block of the height, in the history of the genesis and the blocks, or the
  -- loop ends in a panic, and there is one number of first blocks, fewer than all, such that it answers
  -- every read of the list so, in the history of the genesis and those blocks.
  pub main_get :
      (w : World x t o) (blocks : List t.Block) (hl : Hld) (asks : List (ℕ × Bytes))
      (state : t.State)
      → g.initial_height ≡ pos (suc n)
      → suc n < 2 ^ 56
      → Stores x r s []
      → t.load_state (at_genesis x t o r replays g n s []) ≡ ok state
      → eq_ℤ (t.last_block_height state) (pos 0) ≡ true
      → (start_node x t o g s).0 ≡ ok w
      → FollowOn x t o n blocks
      → All (IsAskable x t o through []) asks
      → ((genesis : t.State)
          → All (λ ask. OpsApart (genesis_ops x t o r replays g n s [] genesis) ask.1) asks)
      → (genesis : t.State) × (t.make_genesis_state g.genesis ≡ ok genesis)
        × (let out = process_blocks x t o blocks w in
            let Sees : List t.Block → Type 0 = λ some_blocks.
              All
                (Answered x t o through out.1.db.db.0 hl
                  (history_of x t o through some_blocks n w (at_start genesis)))
                asks in
            ((out.0 ≡ ok tt) × Sees blocks)
            ⊎ ((out.0 ≡ err panic) × ((m : ℕ) × (m < length blocks) × Sees (take m blocks))))
  main_get w blocks hl asks state height l st load zero_height started f can apart =
      let (_, _, fresh, _, (state', load', held)) =
        start_node_stored x t o r replays g n s [] w height l st started in
      let same : state' ≡ state = ok_injective (sym load' ∙ load) in
      elim held [
        | inl (old, _) ↦
            let bad : true ≡ false =
              sym zero_height ∙ ap (λ z. eq_ℤ (t.last_block_height z) (pos 0)) (sym same) ∙ old in
            cc
        | inr (_, (genesis, made, st')) ↦ (
          genesis,
          made,
          process_blocks_get x t o through r blocks n w (at_start genesis) hl asks st' fresh f
              (omega arith, l, tt, tt) (omega arith, tt) (askable asks genesis can (apart genesis)),
        )
      ]
