-- ===== src/BlockFeed/Order.antt =====
-- The blocks that a node behind is fed come without a gap.
use mathlib.Core.List.{append_assoc, append-nil}
use mantlemint.Prelude.{
  ℕ, zero, suc, ◌+◌, ◌-◌, ◌<◌, true, false, Option, some, none, List, [], ◌∷◌, ◌++◌, map, ok, ◌≡◌,
  refl, sym, ap, ◌∙◌, arith, ◌==◌,
}
use mantlemint.Bytes.{Bytes}
use mantlemint.BlockFeed.Sources.{Endpoints, block_of, sync_from, sync_from_until}
use mantlemint.BlockFeed.Aggregate.{
  Feed, subscribe, forward, forward_rpc, forward_ws, set_sync_state,
}

-- the heights of `n` blocks from `from` on
abbrev pub heights : ℕ → ℕ → List ℕ
heights from zero = []
heights from (suc n) = from ∷ heights (from + 1) n

module _ (e : Endpoints) where
  -- the blocks that stand before the first nil
  abbrev pub before_nil : List (Option e.Block) → List e.Block
  before_nil [] = []
  before_nil (none ∷ rest) = []
  before_nil (some b ∷ rest) = b ∷ before_nil rest

  -- The endpoint answers each request with the block of that height.
  abbrev pub Answers : ℕ → (ℕ → e.Block) → Type 0
  Answers rpc_index block_at =
      (i : ℕ)
      → (body : Bytes) × (e.http_get rpc_index i ≡ ok body)
        × (e.extract_rpc body ≡ ok (some (block_at i)))
        × (e.height (block_at i) ≡ i)

  abbrev as_sent : List e.Block → List (Option e.Block)
  as_sent [] = none ∷ []
  as_sent (b ∷ bs) = some b ∷ as_sent bs

  answer_lem :
      (rpc_index : ℕ) (block_at : ℕ → e.Block) (answers : Answers rpc_index block_at) (i : ℕ)
      → block_of e (e.http_get rpc_index i) ≡ ok (some (block_at i))
  unfolding block_of
  answer_lem rpc_index block_at answers i =
      let (body, got, block, height) = answers i in rw (got, block_of, block) refl

  sync_from_lem :
      (rpc_index : ℕ) (block_at : ℕ → e.Block) (answers : Answers rpc_index block_at) (i n : ℕ)
      → sync_from e rpc_index i n ≡ (as_sent (map block_at (heights i n)), ok tt)
  unfolding sync_from
  sync_from_lem rpc_index block_at answers i zero = refl
  sync_from_lem rpc_index block_at answers i (suc n) =
      let answered : block_of e (e.http_get rpc_index i) ≡ ok (some (block_at i)) =
        answer_lem rpc_index block_at answers i in
      ground (arith, answered, sync_from_lem rpc_index block_at answers (i + 1) n)

  out-forward_rpc :
      (bs : List e.Block) (f : Feed e) → (forward_rpc e (as_sent bs) f).out ≡ f.out ++ bs
  unfolding forward_rpc forward
  out-forward_rpc [] f = sym (append-nil f.out)
  out-forward_rpc (b ∷ bs) f = out-forward_rpc bs (forward e b f) ∙ append_assoc f.out (b ∷ []) bs

  out-forward_ws :
      (ws : List (Option e.Block)) (f : Feed e) → (forward_ws e ws f).out ≡ f.out ++ before_nil ws
  unfolding forward_ws forward set_sync_state
  out-forward_ws [] f = sym (append-nil f.out)
  out-forward_ws (none ∷ ws) f = sym (append-nil f.out)
  out-forward_ws (some b ∷ ws) f =
      out-forward_ws ws (forward e b (set_sync_state e true f))
      ∙ append_assoc f.out (b ∷ []) (before_nil ws)

  -- The second block of the websocket is more than one height above the last known block, and the RPC
  -- endpoint answers each request with the block of that height. Then Subscribe sends on the blocks of
  -- all heights after the last known one up to that of the websocket's block, and behind them those that
  -- the websocket sends next, up to its end.
  pub out-subscribe :
      (rpc_index : ℕ) (block_at : ℕ → e.Block) (answers : Answers rpc_index block_at)
      (dropped : Option e.Block) (first : e.Block) (ws : List (Option e.Block)) (f : Feed e)
      → f.last_known_block + 1 < e.height first
      → let out = subscribe e rpc_index (dropped ∷ some first ∷ ws) f in
        (out.0 ≡ ok tt)
        × (out.1.out
            ≡ f.out
              ++ map block_at
                  (heights (f.last_known_block + 1) (e.height first - f.last_known_block))
              ++ before_nil ws)
  unfolding subscribe sync_from_until set_sync_state
  out-subscribe rpc_index block_at answers dropped first ws f h =
      let start = set_sync_state e false f in
      let n = e.height first - f.last_known_block in
      let bs = map block_at (heights (f.last_known_block + 1) n) in
      let count : e.height first + 1 - (f.last_known_block + 1) ≡ n = omega arith in
      let other : (e.height first == f.last_known_block + 1) ≡ false = ground arith in
      rw (other, count, sync_from_lem rpc_index block_at answers (f.last_known_block + 1) n)
        (
          refl,
          out-forward_ws ws (forward_rpc e (as_sent bs) start)
              ∙ ap (λ l. l ++ before_nil ws) (out-forward_rpc bs start),
        )
