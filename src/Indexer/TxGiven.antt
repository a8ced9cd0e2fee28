-- ===== src/Indexer/TxGiven.antt =====
-- What the handlers answer after IndexTx, by the transactions of the block and their responses.
use mantlemint.Prelude.{
  ℤ, Option, none, some, List, [], ◌∷◌, ◌++◌, map, All, Result, ok, ◌≡◌, refl, ap, ◌∙◌,
  if◌then◌else◌, ◌==◌, Option-cases, Bool-cases, inl, inr,
}
use mantlemint.Bytes.{Bytes, bytes_eq}
use mantlemint.Tmdb.Session.{Session, IsReliable}
use mantlemint.Mantlemint.Events.{EventCollector}
use mantlemint.Indexer.Run.{run}
use mantlemint.Indexer.Block.{tx_by_hash_handler, txs_by_height_handler, respond, answer}
use mantlemint.Indexer.Tx.{
  TxCodec, TxRecord, TxByHeightRecord, DeliverTx, ResponseDeliverTx, Block, Prepared, prepare,
  prepare_tx, responses_of, hex, to_response_deliver_tx_json,
}
use mantlemint.Indexer.TxFound.{last_record, payload, only_txs, indexed_txs_found}

-- the response as it is shown: the events without the flag that says what to index
abbrev pub shown : DeliverTx → ResponseDeliverTx
shown r = record {
  code = r.code;
  «data» = r.«data»;
  log = r.log;
  info = r.info;
  gas_wanted = r.gas_wanted;
  gas_used = r.gas_used;
  events =
      map
        (λ e. record {
          type = e.type;
          attributes = map (λ a. record { key = a.key; value = a.value }) e.attributes;
        })
        r.events;
  codespace = r.codespace;
}

module _ (c : TxCodec) where
  -- A transaction of a block, what it is decoded to, and its response with the JSON of it.
  pub record Included : Type 0 where
    pub tx_byte : Bytes
    pub tx : c.Tx
    pub deliver : DeliverTx
    pub json : Bytes

  abbrev pub IsReadable : Included → Type 0
  IsReadable g = (c.decode g.tx_byte ≡ ok g.tx) × (c.marshal_response (shown g.deliver) ≡ ok g.json)

  abbrev pub hash_of : Included → Bytes
  hash_of g = hex (c.hash g.tx_byte)

  -- the last transaction with a hash
  abbrev pub last_included : List Included → Bytes → Option Included
  last_included [] hash = none
  last_included (g ∷ gs) hash =
      let later = last_included gs hash in
      elim later [ some t ↦ some t | none ↦ if bytes_eq (hash_of g) hash then some g else none ]

  abbrev pub record_of : Included → TxRecord
  record_of g = record { tx = c.encode_json g.tx; tx_response = g.json }

  -- the entry of a transaction in the list of its height
  abbrev pub entry_of : Block c → Included → TxByHeightRecord c.Time
  entry_of block g = record {
    code = g.deliver.code;
    codespace = g.deliver.codespace;
    gas_used = g.deliver.gas_used;
    gas_wanted = g.deliver.gas_wanted;
    height = block.height;
    raw_log = g.deliver.log;
    logs = if g.deliver.code == 0 then g.deliver.log else c.no_logs;
    txhash = hash_of g;
    timestamp = block.time;
    tx = c.encode_json g.tx;
  }

  abbrev prepared_of : Block c → Included → Prepared c
  prepared_of block g = record {
    tx_hash = hash_of g;
    tx_record = record_of g;
    by_height = entry_of block g;
  }

  prepare_tx-prepared_of :
      (block : Block c) (g : Included)
      → c.marshal_response (shown g.deliver) ≡ ok g.json
      → prepare_tx c block g.tx_byte g.tx g.deliver ≡ ok (prepared_of block g)
  unfolding prepare_tx to_response_deliver_tx_json
  prepare_tx-prepared_of block g h = rw h refl

  prepare-prepared_of :
      (block : Block c) (gs : List Included) (more : List DeliverTx)
      → All IsReadable gs
      → prepare c block (map (λ g. g.tx_byte) gs) (map (λ g. g.deliver) gs ++ more)
        ≡ ok (map (prepared_of block) gs)
  unfolding prepare
  prepare-prepared_of block [] more h = refl
  prepare-prepared_of block (g ∷ gs) more ((decoded, json), hs) =
      rw (decoded, prepare_tx-prepared_of block g json, prepare-prepared_of block gs more hs) refl

  module _ (record_json : TxRecord → Bytes) where
    found :
        (block : Block c) (g : Included) (hash : Bytes)
        → (if bytes_eq (prepared_of block g).tx_hash hash then some (record_of g) else none)
          ≡ elim (if bytes_eq (hash_of g) hash then some g else none) [
            | none ↦ none
            | some g ↦ some (record_of g)
          ]
    found block g hash = elim (Bool-cases (bytes_eq (hash_of g) hash)) [
      | inl e ↦ rw e refl
      | inr e ↦ rw e refl
    ]

    last_record-prepared_of :
        (block : Block c) (gs : List Included) (hash : Bytes)
        → last_record c record_json (map (prepared_of block) gs) hash
          ≡ elim (last_included gs hash) [ none ↦ none | some g ↦ some (record_of g) ]
    last_record-prepared_of block [] hash = refl
    last_record-prepared_of block (g ∷ gs) hash =
        let ih = last_record-prepared_of block gs hash in
        elim (Option-cases (last_included gs hash)) [
          | inl e ↦ rw (ih, e) (found block g hash)
          | inr (t, e) ↦ rw (ih, e) refl
        ]

module _ (x : Session) (r : IsReliable x) (c : TxCodec) (record_json : TxRecord → Bytes)
    (records : (t : TxRecord) → c.marshal_record t ≡ ok (record_json t)) (B R : Type 0) where
  payload-prepared_of :
      (block : Block c) (gs : List (Included c))
      → payload x r c record_json records (map (prepared_of c block) gs) ≡ map (entry_of c block) gs
  payload-prepared_of block [] = refl
  payload-prepared_of block (g ∷ gs) =
      ap (λ l. entry_of c block g ∷ l) (payload-prepared_of block gs)

  -- An indexer of transactions over a session that does not fail is run on a block. Each transaction of
  -- the block is decoded, and the collector has a response at its position, which can be encoded; so can
  -- every record, and the list of the entries of the height. Then the run succeeds. The handler answers
  -- the hash of a transaction of the block, as `hex` prints it, with status 200 and the record of the last
  -- transaction with that hash: the JSON of the transaction and that of its own response. It answers the
  -- height with status 200 and the list of the entries of all transactions in their order, each with the
  -- code, the log, the gas and the codespace of its own response.
  pub included_txs_found :
      (atoi : Bytes → Result ℤ) (s : x.State) (block : Block c)
      (evc : Option (EventCollector B R DeliverTx)) (gs : List (Included c)) (more : List DeliverTx)
      (json height hash : Bytes) (g : Included c)
      → block.txs ≡ map (λ g. g.tx_byte) gs
      → responses_of c evc ≡ map (λ g. g.deliver) gs ++ more
      → All (IsReadable c) gs
      → c.marshal_by_height (map (entry_of c block) gs) ≡ ok json
      → atoi height ≡ ok block.height
      → last_included c gs hash ≡ some g
      → let out =
          run x.db
            (Block c)
            (EventCollector B R DeliverTx)
            block
            evc
            (only_txs x r c record_json records B R s) in
        (out.0 ≡ ok tt)
        × (respond 500 (tx_by_hash_handler x.db atoi out.1.db hash)
            ≡ answer 200 (record_json (record_of c g)))
        × (respond 400 (txs_by_height_handler x.db atoi out.1.db height) ≡ answer 200 json)
  included_txs_found atoi s block evc gs more json height hash g txs responses readable list a
        last =
      indexed_txs_found x r c record_json records B R atoi s block evc
        (map (prepared_of c block) gs) json height hash (record_of c g)
        (ap (λ l. prepare c block l (responses_of c evc)) txs
          ∙ ap (prepare c block (map (λ g. g.tx_byte) gs)) responses
          ∙ prepare-prepared_of c block gs more readable)
        (ap c.marshal_by_height (payload-prepared_of block gs) ∙ list) a
        (last_record-prepared_of c record_json block gs hash ∙ rw last refl)
