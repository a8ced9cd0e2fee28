-- ===== src/SafeBatch.antt =====
-- db/safe_batch: a database whose writes go to one open batch until Flush.
pub mod Contract
pub mod Block
pub mod Effect
mod Tests
use mantlemint.Prelude.{Option, some, none, List, Result, ok, err, Exec, pure, raise, panic, Bool}
use mantlemint.Bytes.{Bytes}
use mantlemint.Tmdb.{TmDb}

-- `db` is the state of the database below, and `batch` the open batch, if there is one.
pub record SafeBatchDb (d : TmDb) : Type 0 where
  pub db : d.State
  pub batch : Option d.Batch

module _ (d : TmDb) where
  -- NewSafeBatchDB
  unfoldable pub new_safe_batch : d.State → SafeBatchDb d
  new_safe_batch s = record { db = s; batch = none }

  -- Open
  unfoldable pub open_batch : SafeBatchDb d → SafeBatchDb d
  open_batch b = record b { batch = some (d.new_batch b.db) }

  -- an action on the database below, and one on the open batch `w`
  unfoldable pub on_db : Exec d.State Unit → Exec (SafeBatchDb d) Unit
  on_db op b = let (r, s) = op b.db in (r, record b { db = s })

  unfoldable pub on_open : d.Batch → Exec d.Batch Unit → Exec (SafeBatchDb d) Unit
  on_open w op b = let (r, w') = op w in (r, record b { batch = some w' })

  -- Flush on what the batch is. The rollback batch that the source returns beside an error is left out,
  -- since no caller reads it there. The deferred function closes the batch and forgets it on each way out
  flush_result :
      Option d.Rollback → Result (Unit {0}) × d.State → Result (Option d.Rollback) × SafeBatchDb d
  flush_result rollback (ok _, s) = (ok rollback, record { db = s; batch = none })
  flush_result rollback (err e, s) = (err e, record { db = s; batch = none })

  flush_batch : Option d.Batch → SafeBatchDb d → Result (Option d.Rollback) × SafeBatchDb d
  flush_batch none b = (err panic, b)
  flush_batch (some w) b = flush_result (d.rollback_batch w) (d.batch_write w b.db)

  unfoldable pub flush : Exec (SafeBatchDb d) (Option d.Rollback)
  unfolding flush_batch flush_result
  flush b = flush_batch b.batch b

  -- Get, Has, Iterator and ReverseIterator go to the database below, past the open batch
  unfoldable pub get : SafeBatchDb d → Bytes → Result (Option Bytes)
  get b key = d.get b.db key

  unfoldable pub has : SafeBatchDb d → Bytes → Result Bool
  has b key = d.has b.db key

  unfoldable pub iterator :
      SafeBatchDb d → Option Bytes → Option Bytes → Result (List (Bytes × Bytes))
  iterator b start end = d.iterator b.db start end

  unfoldable pub reverse_iterator :
      SafeBatchDb d → Option Bytes → Option Bytes → Result (List (Bytes × Bytes))
  reverse_iterator b start end = d.reverse_iterator b.db start end

  -- Set and SetSync, on what the batch is
  set_batch : Option d.Batch → Bytes → Bytes → Exec (SafeBatchDb d) Unit
  unfolding on_db on_open
  set_batch none key value b = on_db (d.set key value) b
  set_batch (some w) key value b = on_open w (d.batch_set b.db key value) b

  unfoldable pub set : Bytes → Bytes → Exec (SafeBatchDb d) Unit
  unfolding set_batch
  set key value b = set_batch b.batch key value b

  -- Delete and DeleteSync
  delete_batch : Option d.Batch → Bytes → Exec (SafeBatchDb d) Unit
  unfolding on_db on_open
  delete_batch none key b = on_db (d.delete key) b
  delete_batch (some w) key b = on_open w (d.batch_delete b.db key) b

  unfoldable pub delete : Bytes → Exec (SafeBatchDb d) Unit
  unfolding delete_batch
  delete key b = delete_batch b.batch key b

  -- NewBatch: a `SafeBatchNullified` around the open batch itself, or a batch of the database below.
  -- The first is an alias, so its operations act on the state of this database.
  pub data NewBatch : Type 0 where
    nullified : NewBatch
    direct : d.Batch → NewBatch

  unfoldable pub new_batch : SafeBatchDb d → NewBatch
  new_batch b = elim b.batch [ none ↦ direct (d.new_batch b.db) | some w ↦ nullified ]

  -- SafeBatchNullified.Write, WriteSync and Close do nothing
  unfoldable pub nullified_write : Exec (SafeBatchDb d) Unit
  nullified_write = pure tt

  -- Set, Delete and Write of the batch that NewBatch returned; `direct` batches are values
  unfoldable pub batch_set :
      NewBatch → Bytes → Bytes → SafeBatchDb d → Result (Unit {0}) × (NewBatch × SafeBatchDb d)
  unfolding set
  batch_set nullified key value b = let (r, b') = set key value b in (r, (nullified, b'))
  batch_set (direct w) key value b =
      let (r, w') = d.batch_set b.db key value w in (r, (direct w', b))

  unfoldable pub batch_delete :
      NewBatch → Bytes → SafeBatchDb d → Result (Unit {0}) × (NewBatch × SafeBatchDb d)
  unfolding delete
  batch_delete nullified key b = let (r, b') = delete key b in (r, (nullified, b'))
  batch_delete (direct w) key b = let (r, w') = d.batch_delete b.db key w in (r, (direct w', b))

  unfoldable pub batch_write : NewBatch → Exec (SafeBatchDb d) Unit
  unfolding nullified_write on_db
  batch_write nullified = nullified_write
  batch_write (direct w) = on_db (d.batch_write w)
