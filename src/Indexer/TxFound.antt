-- ===== src/Indexer/TxFound.antt =====
-- What IndexTx writes is what the handlers answer.
use mantlemint.Prelude.{
  ℕ, ℤ, to_u64, Option, some, none, List, [], ◌∷◌, map, Result, ok, continue_with, ◌≡◌, inl, inr,
  refl, sym, ap, ◌∙◌, Bool-cases, arith, if◌then◌else◌, Exec,
}
use mantlemint.Bytes.{Bytes, bytes_eq}
use mantlemint.Bytes.Order.{bytes_eq_iff, bytes_eq_refl}
use mantlemint.Tmdb.{Op, last_op, overlay}
use mantlemint.Tmdb.Session.{Session, IsReliable}
use mantlemint.SafeBatch.{SafeBatchDb, new_safe_batch, open_batch, set}
use mantlemint.Mantlemint.Events.{EventCollector}
use mantlemint.Indexer.Keys.{
  tx_key, by_height_key, tx_prefix, append_injective, append_nil_injective, keys_apart,
}
use mantlemint.Indexer.Run.{Indexer, run, only, run_only}
use mantlemint.Indexer.Block.{
  set_record, tx_by_hash_handler, txs_by_height_handler, respond, answer,
}
use mantlemint.Indexer.Tx.{
  TxCodec, TxRecord, TxByHeightRecord, DeliverTx, Block, Prepared, prepare, responses_of,
  set_records, write_prepared, index_tx,
}

bytes_eq-tx_key : (a b : Bytes) → bytes_eq (tx_key a) (tx_key b) ≡ bytes_eq a b
unfolding tx_key
bytes_eq-tx_key a b = elim (Bool-cases (bytes_eq (tx_key a) (tx_key b))) [
  | inl e ↦
      let same : a ≡ b =
        append_nil_injective a b (append_injective tx_prefix _ _ ((bytes_eq_iff _ _).0 e)) in
      e ∙ sym ((bytes_eq_iff a b).1 same)
  | inr e ↦ ground (arith, e, bytes_eq_iff a b, bytes_eq_refl (tx_key a))
]

module _ (c : TxCodec) (record_json : TxRecord → Bytes) where
  -- the writes of the records, the newest first
  record_ops : List (Prepared c) → List Op → List Op
  record_ops [] ops = ops
  record_ops (p ∷ ps) ops =
      record_ops ps
        (record { key = tx_key p.tx_hash; value = some (record_json p.tx_record) } ∷ ops)

  -- the record of the last transaction with a hash
  abbrev pub last_record : List (Prepared c) → Bytes → Option TxRecord
  last_record [] hash = none
  last_record (p ∷ ps) hash =
      let later = last_record ps hash in
      elim later [
        | some t ↦ some t
        | none ↦ if bytes_eq p.tx_hash hash then some p.tx_record else none
      ]

  last_op-record_ops :
      (ps : List (Prepared c)) (ops : List Op) (hash : Bytes)
      → last_op (record_ops ps ops) (tx_key hash) ≡ elim (last_record ps hash) [
        | none ↦ last_op ops (tx_key hash)
        | some t ↦ some (some (record_json t))
      ]
  unfolding record_ops last_op
  last_op-record_ops [] ops hash = refl
  last_op-record_ops (p ∷ ps) ops hash =
      last_op-record_ops ps _ hash ∙ ground (arith, bytes_eq-tx_key p.tx_hash hash)

module _ (x : Session) (r : IsReliable x) (c : TxCodec) (record_json : TxRecord → Bytes)
    (records : (t : TxRecord) → c.marshal_record t ≡ ok (record_json t)) where
  open r use {view, pending}

  -- a safe batch with the open batch `w`
  abbrev with : x.State → x.Batch → SafeBatchDb x.db
  with s w = record { db = s; batch = some w }

  -- after an action that succeeds, the open batch holds the writes `ops`
  abbrev Wrote : x.State → List Op → Result (Unit {0}) × SafeBatchDb x.db → Type 0
  Wrote s ops q = (w : x.Batch) × (q ≡ (ok tt, with s w)) × (pending w ≡ ops)

  set-Wrote :
      (s : x.State) (w : x.Batch) (b : ℕ) (k v : Bytes)
      → Wrote s (record { key = b ∷ k; value = some v } ∷ pending w) (set x.db (b ∷ k) v (with s w))
  unfolding set
  set-Wrote s w b k v = (
    (x.batch_set s (b ∷ k) v w).1,
    rw (r.batch_set_ok s b k v w) refl,
    r.batch_set_pending s b k v w,
  )

  then-Wrote :
      (s : x.State) (ops : List Op) (q : Result (Unit {0}) × SafeBatchDb x.db)
      (rest : Exec (SafeBatchDb x.db) Unit) (later : List Op → List Op)
      → Wrote s ops q
      → ((w : x.Batch) → Wrote s (later (pending w)) (rest (with s w)))
      → Wrote s (later ops) (continue_with q (λ _. rest))
  then-Wrote s ops q rest later (w, e, h) next =
      let (w', e', h') = next w in
      (w', ap (λ z. continue_with z (λ _. rest)) e ∙ e', h' ∙ ap later h)

  record-Wrote :
      (s : x.State) (w : x.Batch) (p : Prepared c)
      → Wrote s
          (record { key = tx_key p.tx_hash; value = some (record_json p.tx_record) } ∷ pending w)
          (set_record x.db (tx_key p.tx_hash) (c.marshal_record p.tx_record) (with s w))
  unfolding set_record tx_key
  record-Wrote s w p = rw (records p.tx_record) (set-Wrote s w 116 _ (record_json p.tx_record))

  set_records-Wrote :
      (ps : List (Prepared c)) (s : x.State) (w : x.Batch)
      → Wrote s (record_ops c record_json ps (pending w)) (set_records c x.db ps (with s w))
  unfolding set_records record_ops
  set_records-Wrote [] s w = (w, refl, refl)
  set_records-Wrote (p ∷ ps) s w =
      then-Wrote s _ _ (set_records c x.db ps) (record_ops c record_json ps) (record-Wrote s w p)
        (set_records-Wrote ps s)

  abbrev height_op : Block c → Bytes → Op
  height_op block json = record { key = by_height_key (to_u64 block.height); value = some json }

  payload-Wrote :
      (block : Block c) (m : Result Bytes) (json : Bytes) (s : x.State) (w : x.Batch)
      → m ≡ ok json
      → Wrote s
          (height_op block json ∷ pending w)
          (set_record x.db (by_height_key (to_u64 block.height)) m (with s w))
  unfolding set_record by_height_key
  payload-Wrote block m json s w e = rw e (set-Wrote s w 116 _ json)

  abbrev pub payload : List (Prepared c) → List (TxByHeightRecord c.Time)
  payload ps = map (λ p. p.by_height) ps

  write_prepared-Wrote :
      (block : Block c) (ps : List (Prepared c)) (json : Bytes) (s : x.State) (w : x.Batch)
      → c.marshal_by_height (payload ps) ≡ ok json
      → Wrote s
          (height_op block json ∷ record_ops c record_json ps (pending w))
          (write_prepared c x.db block (ok ps) (with s w))
  unfolding write_prepared
  write_prepared-Wrote block ps json s w e =
      then-Wrote s _ _
        (set_record x.db (by_height_key (to_u64 block.height)) (c.marshal_by_height (payload ps)))
        (λ ops. height_op block json ∷ ops) (set_records-Wrote ps s w)
        (λ w'. payload-Wrote block (c.marshal_by_height (payload ps)) json s w' e)

  view_op :
      (s : x.State) (w : x.Batch) (b : ℕ) (k : Bytes) (v : Option Bytes)
      → last_op (pending w) (b ∷ k) ≡ some v
      → x.get (x.batch_write w s).1 (b ∷ k) ≡ ok v
  unfolding overlay
  view_op s w b k v e =
      r.get_ok (x.batch_write w s).1 b k
      ∙ ap ok (r.batch_write_view w s (b ∷ k) ∙ rw (overlay, e) refl)

  -- the writes of a block, at the key of a hash and at that of its height
  read_hash :
      (s : x.State) (w : x.Batch) (block : Block c) (ps : List (Prepared c)) (json hash : Bytes)
      (t : TxRecord)
      → pending w ≡ height_op block json ∷ record_ops c record_json ps []
      → last_record c record_json ps hash ≡ some t
      → x.get (x.batch_write w s).1 (tx_key hash) ≡ ok (some (record_json t))
  unfolding tx_key last_op
  read_hash s w block ps json hash t e q =
      let other = (keys_apart 0 (to_u64 block.height) 0 hash []).4 in
      view_op s w 116 _ _ (
        ap (λ ops. last_op ops (tx_key hash)) e
        ∙ ground (
          arith,
          bytes_eq_iff (by_height_key (to_u64 block.height)) (tx_key hash),
          λ (z : tx_key hash ≡ by_height_key (to_u64 block.height)). other z,
          last_op-record_ops c record_json ps [] hash,
        ))

  read_height :
      (s : x.State) (w : x.Batch) (block : Block c) (ops : List Op) (json : Bytes)
      → pending w ≡ height_op block json ∷ ops
      → x.get (x.batch_write w s).1 (by_height_key (to_u64 block.height)) ≡ ok (some json)
  unfolding by_height_key last_op
  read_height s w block ops json e = view_op s w 116 _ _ (
      ap (λ l. last_op l (by_height_key (to_u64 block.height))) e
      ∙ rw (bytes_eq_refl (by_height_key (to_u64 block.height))) refl)

  module _ (B R : Type 0) where
    abbrev pub only_txs : x.State → Indexer x.db (Block c) (EventCollector B R DeliverTx)
    only_txs s = only x.db (Block c) (EventCollector B R DeliverTx) (index_tx c x.db) s

    run_txs :
        (s : x.State) (block : Block c) (evc : Option (EventCollector B R DeliverTx))
        (ps : List (Prepared c)) (json : Bytes)
        → prepare c block block.txs (responses_of c evc) ≡ ok ps
        → c.marshal_by_height (payload ps) ≡ ok json
        → (w : x.Batch) × (pending w ≡ height_op block json ∷ record_ops c record_json ps [])
          × (run x.db (Block c) (EventCollector B R DeliverTx) block evc (only_txs s)
              ≡ (ok tt, only_txs (x.batch_write w s).1))
    unfolding index_tx open_batch new_safe_batch
    run_txs s block evc ps json e m =
        let (w, q, h) = write_prepared-Wrote block ps json s (x.new_batch s) m in
        (
          w,
          h
              ∙ ap (λ ops. height_op block json ∷ record_ops c record_json ps ops)
                  (r.new_batch_pending s),
          run_only x.db (Block c) (EventCollector B R DeliverTx) (index_tx c x.db) block evc s w
              (ap (λ z. write_prepared c x.db block z (with s (x.new_batch s))) e ∙ q)
              (r.batch_write_ok w s),
        )

    -- An indexer of transactions over a session that does not fail is run on a block each transaction
    -- of which is decoded and has a response. Where the records can be encoded, it succeeds; the
    -- handler answers each hash of a transaction of the block with status 200 and the record of the last
    -- transaction with that hash, and the height with status 200 and the list of all of them.
    pub indexed_txs_found :
        (atoi : Bytes → Result ℤ) (s : x.State) (block : Block c)
        (evc : Option (EventCollector B R DeliverTx)) (ps : List (Prepared c))
        (json height hash : Bytes) (t : TxRecord)
        → prepare c block block.txs (responses_of c evc) ≡ ok ps
        → c.marshal_by_height (payload ps) ≡ ok json
        → atoi height ≡ ok block.height
        → last_record c record_json ps hash ≡ some t
        → let out = run x.db (Block c) (EventCollector B R DeliverTx) block evc (only_txs s) in
          (out.0 ≡ ok tt)
          × (respond 500 (tx_by_hash_handler x.db atoi out.1.db hash) ≡ answer 200 (record_json t))
          × (respond 400 (txs_by_height_handler x.db atoi out.1.db height) ≡ answer 200 json)
    unfolding tx_by_hash_handler txs_by_height_handler respond
    indexed_txs_found atoi s block evc ps json height hash t e m a q =
        let (w, h, done) = run_txs s block evc ps json e m in
        (
          ap (λ z. z.0) done,
          ap (λ z. respond 500 (tx_by_hash_handler x.db atoi z.1.db hash)) done
              ∙ ap (respond 500) (read_hash s w block ps json hash t h q),
          ap (λ z. respond 400 (txs_by_height_handler x.db atoi z.1.db height)) done
              ∙ rw (respond, txs_by_height_handler, a)
                  (ap (respond 400) (read_height s w block _ json h)),
        )
