-- ===== src/BlockFeed/Aggregate.antt =====
-- block_feed/aggregate.go: the subscription that joins the two sources.
use mantlemint.Prelude.{
  ℕ, ◌+◌, ◌%◌, Bool, true, false, not, Option, some, none, List, [], ◌∷◌, ◌++◌, Result, ok, err,
  panic, if◌then◌else◌, ◌==◌,
}
use mantlemint.BlockFeed.Sources.{Endpoints, sync_from_until}

module _ (e : Endpoints) where
  -- `out` is what is sent to aggregateBlockChannel, in order
  pub record Feed : Type 0 where
    pub last_known_block : ℕ
    pub last_known_endpoint : ℕ
    pub ws_endpoints : ℕ
    pub is_synced : Bool
    pub out : List e.Block

  -- NewAggregateBlockFeed
  unfoldable pub new_feed : ℕ → ℕ → Feed
  new_feed current_block ws_endpoints = record {
    last_known_block = current_block;
    last_known_endpoint = 0;
    ws_endpoints = ws_endpoints;
    is_synced = false;
    out = [];
  }

  unfoldable pub set_sync_state : Bool → Feed → Feed
  set_sync_state state f = record f { is_synced = state }

  -- a block is sent on, and becomes the last known one
  unfoldable pub forward : e.Block → Feed → Feed
  forward r f = record f { out = f.out ++ r ∷ []; last_known_block = e.height r }

  -- the loop over the RPC channel, up to the nil that ends it
  unfoldable pub forward_rpc : List (Option e.Block) → Feed → Feed
  forward_rpc [] f = f
  forward_rpc (none ∷ rest) f = f
  forward_rpc (some r ∷ rest) f = forward_rpc rest (forward r f)

  -- the loop over the websocket channel, up to the nil, where the sync state is cleared before the
  -- reconnection
  unfoldable pub forward_ws : List (Option e.Block) → Feed → Feed
  unfolding set_sync_state
  forward_ws [] f = f
  forward_ws (none ∷ rest) f = set_sync_state false f
  forward_ws (some r ∷ rest) f = forward_ws rest (forward r (set_sync_state true f))

  -- the goroutine of Subscribe: a fatal error of the RPC source ends it
  sync_then_ws :
      List (Option e.Block) × Result (Unit {0})
      → List (Option e.Block)
      → Feed
      → Result (Unit {0}) × Feed
  unfolding forward_rpc forward_ws
  sync_then_ws (sent, err x) ws f = (err x, forward_rpc sent f)
  sync_then_ws (sent, ok _) ws f = (ok tt, forward_ws ws (forward_rpc sent f))

  -- Subscribe once both subscriptions stand, over what the websocket sends. The first value is read and
  -- dropped; the second decides, and a nil there panics. The goroutine runs only if it is not the next
  -- block.
  unfoldable pub subscribe : ℕ → List (Option e.Block) → Feed → Result (Unit {0}) × Feed
  unfolding set_sync_state sync_then_ws
  subscribe rpc_index (_ ∷ some first ∷ ws) f =
      let f' = set_sync_state false f in
      if not (e.height first == f'.last_known_block + 1)
      then sync_then_ws (sync_from_until e rpc_index (f'.last_known_block + 1) (e.height first)) ws
          f'
      else (ok tt, f')
  subscribe rpc_index _ f = (err panic, set_sync_state false f)

  -- nextWSEndpoint; `%` by 0 panics
  unfoldable pub next_ws_endpoint : Feed → Result ℕ × Feed
  next_ws_endpoint f =
      let i = (f.last_known_endpoint + 1) % f.ws_endpoints in
      if f.ws_endpoints == 0
      then (err panic, record f { last_known_endpoint = f.last_known_endpoint + 1 })
      else (ok i, record f { last_known_endpoint = i })
