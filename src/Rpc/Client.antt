-- ===== src/Rpc/Client.antt =====
-- rpc/client.go: the RPC client that the API server is given, over the local ABCI client. Its queries go
-- to the application, `core.Block` is a parameter, and all its other methods panic.
use mantlemint.Prelude.{ℤ, pos, Bool, false, Option, Result, err, panic, Exec, ◌≡◌, refl}
use mantlemint.Bytes.{Bytes}
use mantlemint.Mantlemint.Client
use mantlemint.Mantlemint.Client.{Application, query, request_sync}

-- abci.RequestQuery, and rpcclient.ABCIQueryOptions
pub record RequestQuery : Type 0 where
  pub data_of : Bytes
  pub path : Bytes
  pub height : ℤ
  pub prove : Bool

pub record QueryOptions : Type 0 where
  pub height : ℤ
  pub prove : Bool

-- the methods that are not implemented
pub data Unimplemented : Type 0 where
  abci_info start on_start stop on_stop reset on_reset quit set_logger : Unimplemented
  broadcast_tx_commit broadcast_tx_async broadcast_tx_sync : Unimplemented
  subscribe unsubscribe unsubscribe_all genesis genesis_chunked : Unimplemented
  blockchain_info net_info dump_consensus_state consensus_state consensus_params : Unimplemented
  health_check block_by_hash block_results commit_of validators tx tx_search block_search :
      Unimplemented
  status broadcast_evidence unconfirmed_txs num_unconfirmed_txs check_tx_of : Unimplemented

-- each of them is `panic("implement me")`
unfoldable pub call_unimplemented : {A : Type 0} → Unimplemented → Result A
call_unimplemented method = err panic

module _ (app : Application) (Out : Type 0) (as_request : RequestQuery → app.Request query) where
  -- ABCIQueryWithOptions and ABCIQuery; the context is not used
  unfoldable pub abci_query_with_options :
      Bytes → Bytes → QueryOptions → Exec (Client.Client app Out) (app.Response query)
  abci_query_with_options path hex opts =
      request_sync query (
        as_request
          (record { data_of = hex; path = path; height = opts.height; prove = opts.prove }))

  unfoldable pub abci_query : Bytes → Bytes → Exec (Client.Client app Out) (app.Response query)
  abci_query path hex =
      request_sync query
        (as_request (record { data_of = hex; path = path; height = pos 0; prove = false }))

  -- A query without options is one at the height 0 without a proof.
  abci_query-options :
      (path hex : Bytes) (c : Client.Client app Out)
      → abci_query path hex c
        ≡ abci_query_with_options path hex (record { height = pos 0; prove = false }) c
  unfolding abci_query abci_query_with_options
  abci_query-options path hex c = refl

-- Block
unfoldable pub block : {A : Type 0} → (Option ℤ → Result A) → Option ℤ → Result A
block core_block height = core_block height
