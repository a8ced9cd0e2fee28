-- ===== src/Heleveldb/Batch.antt =====
-- db/heleveldb/leveldb_batch.go: a batch that writes three entries for every key.
use mantlemint.Prelude.{ℤ, [], ◌∷◌, ◌++◌, Exec, ◌>>◌}
use mantlemint.Bytes.{Bytes}
use mantlemint.Tmdb.Session.{Session}
use mantlemint.Rollback
use mantlemint.Rollback.{RollbackableBatch, new_rollbackable}
use mantlemint.Heleveldb.Keys.{
  Mode, prefix_current_data_key, prefix_keys_for_iterator_key, prefix_data_with_height_key,
  serialize_height,
}

pub record LevelBatch (x : Session) : Type 0 where
  pub height : ℤ
  pub batch : RollbackableBatch x
  pub mode : Mode

module _ (x : Session) where
  -- keyBytesWithHeight
  unfoldable pub key_bytes_with_height : LevelBatch x → Bytes → Bytes
  key_bytes_with_height b key = prefix_data_with_height_key key ++ serialize_height b.mode b.height

  -- NewLevelDBBatch, over the driver's session and mode
  unfoldable pub new_level_batch : ℤ → x.State → Mode → LevelBatch x
  new_level_batch at_height s mode = record {
    height = at_height;
    batch = new_rollbackable x s;
    mode = mode;
  }

  unfoldable pub on_rollbackable : Exec (RollbackableBatch x) Unit → Exec (LevelBatch x) Unit
  on_rollbackable op b = let (r, w) = op b.batch in (r, record b { batch = w })

  -- the three writes of `Set`, in order; the first byte 0 of `buf` says "not deleted"
  unfoldable pub set : x.State → Bytes → Bytes → Exec (LevelBatch x) Unit
  unfolding on_rollbackable key_bytes_with_height
  set s key value b =
      let buf : Bytes = 0 ∷ value in
      let new_key = key_bytes_with_height b key in
      on_rollbackable
        (do
          Rollback.set x s (prefix_current_data_key key) value
          Rollback.set x s (prefix_keys_for_iterator_key key) []
          Rollback.set x s new_key buf)
        b

  unfoldable pub delete : x.State → Bytes → Exec (LevelBatch x) Unit
  unfolding on_rollbackable key_bytes_with_height
  delete s key b =
      let buf : Bytes = 1 ∷ [] in
      let new_key = key_bytes_with_height b key in
      on_rollbackable
        (do
          Rollback.delete x s (prefix_current_data_key key)
          Rollback.set x s (prefix_keys_for_iterator_key key) buf
          Rollback.set x s new_key buf)
        b

  -- Write, WriteSync
  unfoldable pub write : LevelBatch x → Exec x.State Unit
  write b = x.batch_write b.batch.batch

  -- RollbackBatch: a batch of the session
  unfoldable pub rollback_batch : LevelBatch x → x.Batch
  rollback_batch b = b.batch.rollback
