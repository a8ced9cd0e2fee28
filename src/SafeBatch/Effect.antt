-- ===== src/SafeBatch/Effect.antt =====
-- What the writes of a client put into the open batch: a batch that follows one write after the other
-- follows all the writes of a client.
use mantlemint.Prelude.{some, none, Option, List, [], ◌∷◌, ok, err, Result, ◌≡◌, ◌∙◌, refl, ap}
use mantlemint.Bytes.{Bytes}
use mantlemint.Tmdb.{TmDb, Op}
use mantlemint.SafeBatch.{
  SafeBatchDb, set, delete, nullified, new_batch, batch_set, batch_delete, batch_write,
}
use mantlemint.SafeBatch.Contract.{
  Write, set_key, delete_key, in_batch, batch_op, use_batch, client_write, client_writes,
}

-- the database below is `s`, and a batch with `Q` is open
abbrev pub Holding : (d : TmDb) → d.State → (d.Batch → Type 0) → SafeBatchDb d → Type 0
Holding d s Q b = (w : d.Batch) × (b ≡ record { db = s; batch = some w }) × Q w

-- operations, the oldest first, put before others, the newest first
unfoldable pub onto : List Op → List Op → List Op
onto [] newer = newer
onto (op ∷ ops) newer = onto ops (op ∷ newer)

-- The operations that the writes of a client come to, the newest first, before those of `newer`.
unfoldable pub effect : {d : TmDb} → List (Write d) → List Op → List Op
effect [] newer = newer
effect (set_key k v ∷ ws) newer = effect ws (record { key = k; value = some v } ∷ newer)
effect (delete_key k ∷ ws) newer = effect ws (record { key = k; value = none } ∷ newer)
effect (in_batch ops ∷ ws) newer = effect ws (onto ops newer)

module _ (d : TmDb) (s : d.State) (Q : List Op → d.Batch → Type 0)
    (set_adds : (k v : Bytes) (ops : List Op) (w : d.Batch)
      → Q ops w
      → ((d.batch_set s k v w).0 ≡ ok tt)
        × Q (record { key = k; value = some v } ∷ ops) (d.batch_set s k v w).1)
    (delete_adds : (k : Bytes) (ops : List Op) (w : d.Batch)
      → Q ops w
      → ((d.batch_delete s k w).0 ≡ ok tt)
        × Q (record { key = k; value = none } ∷ ops) (d.batch_delete s k w).1) where
  abbrev Here : List Op → SafeBatchDb d → Type 0
  Here ops = Holding d s (Q ops)

  set-Holding :
      (k v : Bytes) (ops : List Op) (b : SafeBatchDb d)
      → Here ops b
      → ((set d k v b).0 ≡ ok tt) × Here (record { key = k; value = some v } ∷ ops) (set d k v b).1
  unfolding set
  set-Holding k v ops b (w, e, q) =
      let (done, q') = set_adds k v ops w q in
      (
        ap (λ c. (set d k v c).0) e ∙ done,
        ((d.batch_set s k v w).1, ap (λ c. (set d k v c).1) e, q'),
      )

  delete-Holding :
      (k : Bytes) (ops : List Op) (b : SafeBatchDb d)
      → Here ops b
      → ((delete d k b).0 ≡ ok tt) × Here (record { key = k; value = none } ∷ ops) (delete d k b).1
  unfolding delete
  delete-Holding k ops b (w, e, q) =
      let (done, q') = delete_adds k ops w q in
      (
        ap (λ c. (delete d k c).0) e ∙ done,
        ((d.batch_delete s k w).1, ap (λ c. (delete d k c).1) e, q'),
      )

  batch_op-Holding :
      (k : Bytes) (o : Option Bytes) (ops : List Op) (b : SafeBatchDb d)
      → Here ops b
      → let op : Op = record { key = k; value = o } in
        let r = batch_op d op nullified b in
        (r.0 ≡ ok tt) × (r.1.0 ≡ nullified) × Here (op ∷ ops) r.1.1
  unfolding batch_op batch_set batch_delete
  batch_op-Holding k none ops b h =
      let (done, here) = delete-Holding k ops b h in (done, refl, here)
  batch_op-Holding k (some v) ops b h =
      let (done, here) = set-Holding k v ops b h in (done, refl, here)

  after_ok :
      (ops : List Op) (c : SafeBatchDb d) (q : Result (Unit {0}))
      (r : Result (Unit {0}) × SafeBatchDb d)
      → q ≡ ok tt
      → Here ops r.1
      → Here ops
          (elim q as (λ _. Result (Unit {0}) × SafeBatchDb d) [ ok _ ↦ r | err e ↦ (err e, c) ]).1
  after_ok ops c (ok _) r e h = h
  after_ok ops c (err f) r e h = cc

  use_batch-Holding :
      (new ops : List Op) (b : SafeBatchDb d)
      → Here ops b
      → Here (onto new ops) (use_batch d new nullified b).1
  unfolding use_batch batch_write onto
  use_batch-Holding [] ops b h = h
  use_batch-Holding (op ∷ new) ops b h =
      let (done, same, here) = batch_op-Holding op.key op.value ops b h in
      let r = batch_op d op nullified b in
      after_ok (onto new (op ∷ ops)) r.1.1 r.0 (use_batch d new r.1.0 r.1.1) done
        (rw same (use_batch-Holding new (op ∷ ops) r.1.1 here))

  -- What a client writes, through the database or through batches of it, is added to the open batch.
  pub client_writes-Holding :
      (ws : List (Write d)) (ops : List Op) (b : SafeBatchDb d)
      → Here ops b
      → Here (effect ws ops) (client_writes d ws b)
  unfolding client_writes client_write effect new_batch
  client_writes-Holding [] ops b h = h
  client_writes-Holding (set_key k v ∷ ws) ops b h =
      client_writes-Holding ws _ (set d k v b).1 (set-Holding k v ops b h).1
  client_writes-Holding (delete_key k ∷ ws) ops b h =
      client_writes-Holding ws _ (delete d k b).1 (delete-Holding k ops b h).1
  client_writes-Holding (in_batch new ∷ ws) ops b h =
      let same : new_batch d b ≡ nullified = ap (λ c. new_batch d c) (h.1) in
      rw same (
        client_writes-Holding ws (onto new ops) (use_batch d new nullified b).1
          (use_batch-Holding new ops b h))
