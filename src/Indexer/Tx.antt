-- ===== src/Indexer/Tx.antt =====
-- indexer/tx/tx.go and types.go: the records of the transactions of a block, by hash and by height. The
-- decoder and the encoders are parameters.
use mantlemint.Prelude.{
  ℕ, ℤ, to_u64, ◌/◌, ◌%◌, ◌+◌, Bool, Option, none, some, List, [], ◌∷◌, map, Result, ok, err, bind,
  panic, Exec, pure, raise, ◌>>◌, ltb, ◌==◌, if◌then◌else◌,
}
use mantlemint.Bytes.{Bytes}
use mantlemint.Tmdb.{TmDb}
use mantlemint.SafeBatch.{SafeBatchDb}
use mantlemint.Mantlemint.Events.{EventCollector}
use mantlemint.Indexer.Keys.{tx_key, by_height_key}
use mantlemint.Indexer.Block.{set_record}

-- abci.ResponseDeliverTx and its events
pub record AbciAttribute : Type 0 where
  pub key : Bytes
  pub value : Bytes
  pub index : Bool

pub record AbciEvent : Type 0 where
  pub type : Bytes
  pub attributes : List AbciAttribute

pub record DeliverTx : Type 0 where
  pub code : ℕ
  pub «data» : Bytes
  pub log : Bytes
  pub info : Bytes
  pub gas_wanted : ℤ
  pub gas_used : ℤ
  pub events : List AbciEvent
  pub codespace : Bytes

pub record EventAttribute : Type 0 where
  pub key : Bytes
  pub value : Bytes

pub record Event : Type 0 where
  pub type : Bytes
  pub attributes : List EventAttribute

pub record ResponseDeliverTx : Type 0 where
  pub code : ℕ
  pub «data» : Bytes
  pub log : Bytes
  pub info : Bytes
  pub gas_wanted : ℤ
  pub gas_used : ℤ
  pub events : List Event
  pub codespace : Bytes

pub record TxRecord : Type 0 where
  pub tx : Bytes
  pub tx_response : Bytes

-- the loops over the attributes and the events
to_attribute : AbciAttribute → EventAttribute
to_attribute a = record { key = a.key; value = a.value }

to_event : AbciEvent → Event
unfolding to_attribute
to_event e = record { type = e.type; attributes = map to_attribute e.attributes }

-- ToResponseDeliverTxJSON
unfoldable pub to_response_deliver_tx_json : DeliverTx → ResponseDeliverTx
unfolding to_event
to_response_deliver_tx_json r = record {
  code = r.code;
  «data» = r.«data»;
  log = r.log;
  info = r.info;
  gas_wanted = r.gas_wanted;
  gas_used = r.gas_used;
  events = map to_event r.events;
  codespace = r.codespace;
}

-- `fmt.Sprintf("%X", _)`: two upper-case hexadecimal digits for each byte
digit : ℕ → ℕ
digit n = if ltb n 10 then n + 48 else n + 55

unfoldable pub hex : Bytes → Bytes
unfolding digit
hex [] = []
hex (b ∷ bs) = digit (b / 16) ∷ digit (b % 16) ∷ hex bs

pub record TxByHeightRecord (Time : Type 0) : Type 0 where
  pub code : ℕ
  pub codespace : Bytes
  pub gas_used : ℤ
  pub gas_wanted : ℤ
  pub height : ℤ
  pub raw_log : Bytes
  pub logs : Bytes
  pub txhash : Bytes
  pub timestamp : Time
  pub tx : Bytes

-- What the libraries do with transactions and records. `encode_json` is what the encoder returns beside
-- its error, which the source leaves aside, and `no_logs` the JSON of an empty list of strings.
pub record TxCodec : Type 1 where
  pub Tx : Type 0
  pub Time : Type 0
  pub hash : Bytes → Bytes
  pub decode : Bytes → Result Tx
  pub encode_json : Tx → Bytes
  pub no_logs : Bytes
  pub marshal_response : ResponseDeliverTx → Result Bytes
  pub marshal_record : TxRecord → Result Bytes
  pub marshal_by_height : List (TxByHeightRecord Time) → Result Bytes

module _ (c : TxCodec) where
  pub record Block : Type 0 where
    pub height : ℤ
    pub time : c.Time
    pub txs : List Bytes

  -- what the loop over the transactions keeps of one
  pub record Prepared : Type 0 where
    pub tx_hash : Bytes
    pub tx_record : TxRecord
    pub by_height : TxByHeightRecord c.Time

  unfoldable pub prepare_tx : Block → Bytes → c.Tx → DeliverTx → Result Prepared
  unfolding to_response_deliver_tx_json
  prepare_tx block tx_byte tx deliver =
      let response = to_response_deliver_tx_json deliver in
      bind (c.marshal_response response) λ response_json. ok (record {
        tx_hash = hex (c.hash tx_byte);
        tx_record = record { tx = c.encode_json tx; tx_response = response_json };
        by_height = record {
          code = response.code;
          codespace = response.codespace;
          gas_used = response.gas_used;
          gas_wanted = response.gas_wanted;
          height = block.height;
          raw_log = response.log;
          logs = if response.code == 0 then response.log else c.no_logs;
          txhash = hex (c.hash tx_byte);
          timestamp = block.time;
          tx = c.encode_json tx;
        };
      })

  -- the first loop, which panics where there are fewer responses than transactions
  unfoldable pub prepare : Block → List Bytes → List DeliverTx → Result (List Prepared)
  unfolding prepare_tx
  prepare block [] responses = ok []
  prepare block (tx_byte ∷ txs) [] = bind (c.decode tx_byte) λ _. err panic
  prepare block (tx_byte ∷ txs) (deliver ∷ responses) =
      let others = prepare block txs responses in
      bind (c.decode tx_byte)
        λ tx. bind (prepare_tx block tx_byte tx deliver) λ p. bind others λ ps. ok (p ∷ ps)

  -- a nil collector panics at the first transaction, as an empty one does
  unfoldable pub responses_of :
      {B R : Type 0} → Option (EventCollector B R DeliverTx) → List DeliverTx
  responses_of none = []
  responses_of (some evc) = evc.response_deliver_txs

  module _ (d : TmDb) where
    -- the second loop
    unfoldable pub set_records : List Prepared → Exec (SafeBatchDb d) Unit
    unfolding set_record
    set_records [] = pure tt
    set_records (p ∷ ps) = do
      set_record d (tx_key p.tx_hash) (c.marshal_record p.tx_record)
      set_records ps

    unfoldable pub write_prepared : Block → Result (List Prepared) → Exec (SafeBatchDb d) Unit
    unfolding set_records set_record
    write_prepared block (err e) = raise e
    write_prepared block (ok ps) = do
      set_records ps
      set_record d (by_height_key (to_u64 block.height))
          (c.marshal_by_height (map (λ p. p.by_height) ps))

    -- IndexTx
    unfoldable pub index_tx :
        {B R : Type 0} → Block → Option (EventCollector B R DeliverTx) → Exec (SafeBatchDb d) Unit
    unfolding write_prepared
    index_tx block evc = write_prepared block (prepare block block.txs (responses_of evc))
