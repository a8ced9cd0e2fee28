-- ===== src/BlockFeed/Sources.antt =====
-- block_feed/rpc.go, websocket.go and types.go: the two sources of blocks.
use mantlemint.Prelude.{
  ℕ, zero, suc, ◌+◌, ◌-◌, Option, none, List, [], ◌∷◌, Result, ok, err, panic, if◌then◌else◌, ◌==◌,
}
use mantlemint.Bytes.{Bytes}

-- What the endpoints answer, and how the answers are read. `http_get` is the body of the block request
-- for a height, and an error also where the index is past the RPC endpoints; `code` is the field `error.code` of a message, 0 if there is none. A block may be nil.
pub record Endpoints : Type 1 where
  pub Block : Type 0
  pub height : Block → ℕ
  pub http_get : ℕ → ℕ → Result Bytes
  pub extract_rpc : Bytes → Result (Option Block)
  pub extract_ws : Bytes → Result (Option Block)
  pub code : Bytes → Result ℕ

module _ (e : Endpoints) where
  -- ExtractBlockFromRPCResponse on what the request returned; both errors are fatal
  unfoldable pub block_of : Result Bytes → Result (Option e.Block)
  block_of (err _) = err panic
  block_of (ok body) = elim (e.extract_rpc body) [ err _ ↦ err panic | ok block ↦ ok block ]

  -- the loop of SyncFromUntil over `n` heights from `i` on: what it sends before it stops, and whether
  -- it went through
  unfoldable pub sync_from : ℕ → ℕ → ℕ → List (Option e.Block) × Result (Unit {0})
  unfolding block_of
  sync_from rpc_index i zero = (none ∷ [], ok tt)
  sync_from rpc_index i (suc n) =
      let rest = sync_from rpc_index (i + 1) n in
      elim (block_of (e.http_get rpc_index i)) [
        | err x ↦ ([], err x)
        | ok block ↦ (block ∷ rest.0, rest.1)
      ]

  -- SyncFromUntil: `for i := from; i <= to; i++`, and nil at the end
  unfoldable pub sync_from_until : ℕ → ℕ → ℕ → List (Option e.Block) × Result (Unit {0})
  sync_from_until rpc_index from to = sync_from rpc_index from (to + 1 - from)

  -- receiveBlockEvents over the messages that are read, up to the read that fails: what it sends and how
  -- it ends. The channel is closed in each case. After an error message the socket is closed too, so
  -- the block of the message is still sent and the next read fails.
  unfoldable pub receive_block_events : List Bytes → List (Option e.Block) × Result (Unit {0})
  receive_block_events [] = (none ∷ [], ok tt)
  receive_block_events (message ∷ messages) =
      let rest = receive_block_events messages in
      elim (e.code message) [
        | err _ ↦ ([], err panic)
        | ok code ↦ elim (e.extract_ws message) [
          | err _ ↦ ([], err panic)
          | ok block ↦ if code == 0 then (block ∷ rest.0, rest.1) else (block ∷ none ∷ [], ok tt)
        ]
      ]
