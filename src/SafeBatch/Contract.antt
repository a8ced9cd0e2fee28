-- ===== src/SafeBatch/Contract.antt =====
-- What the safe batch promises, over any database: nothing is written until Flush, and Flush closes
-- the batch on every way out.
use mantlemint.Prelude.{
  panic, some, none, List, [], ◌∷◌, Result, ok, err, Exec, ◌≡◌, refl, ap, arith, is_some, true,
}
use mantlemint.Bytes.{Bytes}
use mantlemint.Tmdb.{TmDb, Op}
use mantlemint.SafeBatch.{
  new_safe_batch, SafeBatchDb, open_batch, flush, get, has, set, delete, NewBatch, nullified,
  new_batch, batch_set, batch_delete, batch_write,
}

module _ (d : TmDb) where
  -- A write of a client: through the database, or through the batch that NewBatch gives it.
  pub data Write : Type 0 where
    set_key : Bytes → Bytes → Write
    delete_key : Bytes → Write
    in_batch : List Op → Write

  unfoldable pub batch_op :
      Op → NewBatch d → SafeBatchDb d → Result (Unit {0}) × (NewBatch d × SafeBatchDb d)
  batch_op op n b = elim op.value [
    | none ↦ batch_delete d n op.key b
    | some v ↦ batch_set d n op.key v b
  ]

  -- a client's use of a new batch: its writes in order, to the first error, and then Write
  unfoldable pub use_batch : List Op → NewBatch d → Exec (SafeBatchDb d) Unit
  unfolding batch_op
  use_batch [] n b = batch_write d n b
  use_batch (op ∷ ops) n b =
      let rest = use_batch ops (batch_op op n b).1.0 (batch_op op n b).1.1 in
      elim (batch_op op n b).0 [ ok _ ↦ rest | err e ↦ (err e, (batch_op op n b).1.1) ]

  unfoldable pub client_write : Write → Exec (SafeBatchDb d) Unit
  unfolding use_batch
  client_write (set_key k v) = set d k v
  client_write (delete_key k) = delete d k
  client_write (in_batch ops) = λ b. use_batch ops (new_batch d b) b

  -- the writes of a client, whatever errors they return
  unfoldable pub client_writes : List Write → SafeBatchDb d → SafeBatchDb d
  client_writes [] b = b
  client_writes (w ∷ ws) b = client_writes ws (client_write w b).1

  -- `b` has the database of `a`, and a batch is open in it.
  abbrev Buffers : SafeBatchDb d → SafeBatchDb d → Type 0
  Buffers a b = (b.db ≡ a.db) × (is_some b.batch ≡ true)

  set-Buffers : (a b : SafeBatchDb d) (k v : Bytes) → Buffers a b → Buffers a (set d k v b).1
  unfolding set
  set-Buffers a b k v h = ground arith

  delete-Buffers : (a b : SafeBatchDb d) (k : Bytes) → Buffers a b → Buffers a (delete d k b).1
  unfolding delete
  delete-Buffers a b k h = ground arith

  batch_op-Buffers :
      (op : Op) (a b : SafeBatchDb d)
      → Buffers a b
      → ((batch_op op nullified b).1.0 ≡ nullified) × Buffers a (batch_op op nullified b).1.1
  unfolding batch_op batch_set batch_delete
  batch_op-Buffers op a b h = ground (arith, set-Buffers a b op.key, delete-Buffers a b op.key h)

  keep_either :
      (a c : SafeBatchDb d) (q : Result (Unit {0})) (r : Result (Unit {0}) × SafeBatchDb d)
      → Buffers a c
      → Buffers a r.1
      → Buffers a
          (elim q as (λ _. Result (Unit {0}) × SafeBatchDb d) [ ok _ ↦ r | err e ↦ (err e, c) ]).1
  keep_either a c (ok _) r hc hr = hr
  keep_either a c (err e) r hc hr = hc

  use_batch-Buffers :
      (ops : List Op) (a b : SafeBatchDb d) → Buffers a b → Buffers a (use_batch ops nullified b).1
  unfolding use_batch batch_write
  use_batch-Buffers [] a b h = h
  use_batch-Buffers (op ∷ ops) a b h =
      let (same, kept) = batch_op-Buffers op a b h in
      let done = batch_op op nullified b in
      keep_either a done.1.1 done.0 (use_batch ops done.1.0 done.1.1) kept
        (rw same (use_batch-Buffers ops a done.1.1 kept))

  new_batch-open : (b : SafeBatchDb d) → is_some b.batch ≡ true → new_batch d b ≡ nullified
  unfolding new_batch
  new_batch-open b h = ground arith

  client_write-Buffers :
      (w : Write) (a b : SafeBatchDb d) → Buffers a b → Buffers a (client_write w b).1
  unfolding client_write
  client_write-Buffers (set_key k v) a b h = set-Buffers a b k v h
  client_write-Buffers (delete_key k) a b h = delete-Buffers a b k h
  client_write-Buffers (in_batch ops) a b h =
      rw (new_batch-open b h.1) (use_batch-Buffers ops a b h)

  client_writes-Buffers :
      (ws : List Write) (a b : SafeBatchDb d) → Buffers a b → Buffers a (client_writes ws b)
  unfolding client_writes
  client_writes-Buffers [] a b h = h
  client_writes-Buffers (w ∷ ws) a b h =
      client_writes-Buffers ws a (client_write w b).1 (client_write-Buffers w a b h)

  open_batch-Buffers : (b : SafeBatchDb d) → Buffers b (open_batch d b)
  unfolding open_batch
  open_batch-Buffers b = (refl, refl)

  -- After Open, whatever a client writes, through the database or through batches of NewBatch that it
  -- writes, the database below is as it was, so Get and Has return what they returned before.
  pub client_writes_unseen :
      (b : SafeBatchDb d) (ws : List Write) (key : Bytes)
      → let after = client_writes ws (open_batch d b) in
        (after.db ≡ b.db) × (get d after key ≡ get d b key) × (has d after key ≡ has d b key)
  unfolding get has
  client_writes_unseen b ws key =
      let same = (client_writes-Buffers ws b (open_batch d b) (open_batch-Buffers b)).0 in
      (same, ap (λ s. d.get s key) same, ap (λ s. d.has s key) same)

  flush_closes : (b : SafeBatchDb d) → is_some b.batch ≡ true → (flush d b).1.batch ≡ none
  unfolding flush
  flush_closes b h = ground arith

  -- Flush after Open and any writes of a client closes the batch, whether the write of the batch fails
  -- or not, and the next write goes to the database below.
  pub client_writes_flushed :
      (b : SafeBatchDb d) (ws : List Write) (k v : Bytes)
      → let after = (flush d (client_writes ws (open_batch d b))).1 in
        (after.batch ≡ none)
        × ((set d k v after).0 ≡ (d.set k v after.db).0)
        × ((set d k v after).1.db ≡ (d.set k v after.db).1)
  unfolding set
  client_writes_flushed b ws k v =
      let kept = client_writes-Buffers ws b (open_batch d b) (open_batch-Buffers b) in
      let closed = flush_closes (client_writes ws (open_batch d b)) kept.1 in
      (closed, rw closed refl, rw closed refl)

-- Flush with no open batch panics and changes nothing.
pub flush_unopened :
    (d : TmDb) (s : d.State) → flush d (new_safe_batch d s) ≡ (err panic, new_safe_batch d s)
unfolding flush new_safe_batch
flush_unopened d s = refl

-- Flush of an open batch that is written without an error hands out its rollback batch.
pub flush_ok :
    (d : TmDb) (s : d.State) (w : d.Batch)
    → (d.batch_write w s).0 ≡ ok tt
    → flush d (record { db = s; batch = some w })
      ≡ (ok (d.rollback_batch w), record { db = (d.batch_write w s).1; batch = none })
unfolding flush
flush_ok d s w h = rw h refl
