-- ===== src/Mantlemint/Events.antt =====
-- mantlemint/event.go: what the executor publishes while it applies a block.
use mantlemint.Prelude.{ℤ, pos, Option, none, some, List, [], ◌∷◌, ◌++◌, ◌≡◌, ◌∙◌, sym}
use mathlib.Core.List.{append_assoc, append-nil}

-- The types of Tendermint that an event carries.
module _ (Block Response TxResult : Type 0) where
  pub record EventCollector : Type 0 where
    pub height : ℤ
    pub block : Option Block
    pub response_begin_block : Option Response
    pub response_end_block : Option Response
    pub response_deliver_txs : List TxResult

  pub data Event : Type 0 where
    new_block : ℤ → Block → Response → Response → Event
    tx : TxResult → Event
    new_block_header validator_set_updates new_evidence : Event

  -- NewMantlemintEventCollector
  unfoldable pub new_event_collector : EventCollector
  new_event_collector = record {
    height = pos 0;
    block = none;
    response_begin_block = none;
    response_end_block = none;
    response_deliver_txs = [];
  }

  -- PublishEventNewBlock, PublishEventTx, and the three that do nothing
  unfoldable pub publish : EventCollector → Event → EventCollector
  publish ev (new_block height block begins ends) = record ev {
    height = height;
    block = some block;
    response_begin_block = some begins;
    response_end_block = some ends;
  }
  publish ev (tx result) = record ev {
    response_deliver_txs = ev.response_deliver_txs ++ result ∷ [];
  }
  publish ev _ = ev

  unfoldable pub publish_all : EventCollector → List Event → EventCollector
  publish_all ev [] = ev
  publish_all ev (e ∷ es) = publish_all (publish ev e) es

  -- the results that a list of events carries, in its order
  abbrev pub tx_results : List Event → List TxResult
  tx_results [] = []
  tx_results (tx result ∷ es) = result ∷ tx_results es
  tx_results (new_block _ _ _ _ ∷ es) = tx_results es
  tx_results (new_block_header ∷ es) = tx_results es
  tx_results (validator_set_updates ∷ es) = tx_results es
  tx_results (new_evidence ∷ es) = tx_results es

  publish_all_txs :
      (ev : EventCollector) (es : List Event)
      → (publish_all ev es).response_deliver_txs ≡ ev.response_deliver_txs ++ tx_results es
  unfolding publish_all publish
  publish_all_txs ev [] = sym (append-nil _)
  publish_all_txs ev (tx result ∷ es) =
      publish_all_txs (publish ev (tx result)) es ∙ append_assoc ev.response_deliver_txs _ _
  publish_all_txs ev (new_block h b r s ∷ es) = publish_all_txs (publish ev (new_block h b r s)) es
  publish_all_txs ev (new_block_header ∷ es) = publish_all_txs ev es
  publish_all_txs ev (validator_set_updates ∷ es) = publish_all_txs ev es
  publish_all_txs ev (new_evidence ∷ es) = publish_all_txs ev es

  -- A new collector ends up with the results of the transactions in the order of publication, also
  -- where other events stand between them.
  pub collected_txs :
      (es : List Event) → (publish_all new_event_collector es).response_deliver_txs ≡ tx_results es
  unfolding new_event_collector
  collected_txs es = publish_all_txs new_event_collector es
