-- ===== src/Rollback.antt =====
-- db/rollbackable/rollbackable_batch.go: a batch that also collects the writes that undo it.
pub mod Undo
use mantlemint.Prelude.{ℕ, ◌+◌, Option, some, none, Result, ok, err, Exec, raise, ◌>>◌}
use mantlemint.Bytes.{Bytes}
use mantlemint.Tmdb.Session.{Session}

-- The field `db` is the session, whose state the operations are given.
pub record RollbackableBatch (x : Session) : Type 0 where
  pub batch : x.Batch
  pub rollback : x.Batch
  pub record_count : ℕ

module _ (x : Session) where
  -- NewRollbackableBatch
  unfoldable pub new_rollbackable : x.State → RollbackableBatch x
  new_rollbackable s = record { batch = x.new_batch s; rollback = x.new_batch s; record_count = 0 }

  -- an operation of the embedded batch, and one of the rollback batch
  unfoldable pub on_batch : Exec x.Batch Unit → Exec (RollbackableBatch x) Unit
  on_batch op b = let (r, w) = op b.batch in (r, record b { batch = w })

  unfoldable pub on_rollback : Exec x.Batch Unit → Exec (RollbackableBatch x) Unit
  on_rollback op b = let (r, w) = op b.rollback in (r, record b { rollback = w })

  -- the branches of `backup` on what the read returned
  backup_read : x.State → Bytes → Result (Option Bytes) → Exec (RollbackableBatch x) Unit
  unfolding on_rollback
  backup_read s key (err e) = raise e
  backup_read s key (ok none) = on_rollback (x.batch_delete s key)
  backup_read s key (ok (some old)) = on_rollback (x.batch_set s key old)

  unfoldable pub backup : x.State → Bytes → Exec (RollbackableBatch x) Unit
  unfolding backup_read
  backup s key b = backup_read s key (x.get s key) (record b { record_count = b.record_count + 1 })

  -- Set
  unfoldable pub set : x.State → Bytes → Bytes → Exec (RollbackableBatch x) Unit
  unfolding backup on_batch
  set s key value = do backup s key; on_batch (x.batch_set s key value)

  -- Delete
  unfoldable pub delete : x.State → Bytes → Exec (RollbackableBatch x) Unit
  unfolding backup on_batch
  delete s key = do backup s key; on_batch (x.batch_delete s key)
