-- ===== src/Heleveldb/Commit.antt =====
-- A block that is written through the driver's batch, and what the session holds after it.
use mathlib.Core.List.{append-nil}
use mantlemint.Prelude.{
  ℕ, ◌^◌, ◌%◌, ◌<◌, ◌≡◌, refl, ap, ◌∙◌, pos, Option, none, some, List, [], ◌∷◌, ◌++◌, arith, Result,
  ok, err, Exec, ◌>>◌, continue_with, pure,
}
use mantlemint.Bytes.{Bytes}
use mantlemint.Tmdb.{Op, overlay}
use mantlemint.Tmdb.Session.{Session, IsReliable}
use mantlemint.Rollback.{new_rollbackable}
use mantlemint.Rollback.Undo.{
  CanUndo, new_rollbackable-CanUndo, set-Writes, delete-Writes, >>-Writes,
}
use mantlemint.Heleveldb.Keys.{desc, serialize_height}
use mantlemint.Heleveldb.Batch
use mantlemint.Heleveldb.Batch.{LevelBatch, new_level_batch, write, key_bytes_with_height}
use mantlemint.Heleveldb.History.{History}
use mantlemint.Heleveldb.Raw.{expand, suffix, data_key}

module _ (x : Session) where
  -- one write of a block, and all of them, the oldest first
  unfoldable pub put_value : x.State → Bytes → Option Bytes → Exec (LevelBatch x) Unit
  put_value s key none = Batch.delete x s key
  put_value s key (some v) = Batch.set x s key v

  unfoldable pub put_ops : x.State → List Op → Exec (LevelBatch x) Unit
  put_ops s [] = pure tt
  put_ops s (op ∷ older) = do put_ops s older; put_value s op.key op.value

  write_if : Result (Unit {0}) × LevelBatch x → Exec x.State Unit
  write_if (ok _, b) s = write x b s
  write_if (err e, b) s = (err e, s)

  -- a block at a height: a new batch, its writes, and the write of the batch
  unfoldable pub commit : ℕ → List Op → Exec x.State Unit
  unfolding write_if
  commit h ops s = write_if (put_ops s ops (new_level_batch x (pos h) s desc)) s

  -- the blocks of a history, the oldest first
  unfoldable pub commit_all : History → Exec x.State Unit
  commit_all [] = pure tt
  commit_all ((h, ops) ∷ older) = do commit_all older; commit h ops

module _ (x : Session) (r : IsReliable x) (s : x.State) where
  open r use {view, pending}

  -- A batch of the height `h` in the descending mode, whose rollback batch undoes it.
  pub record IsAt (h : ℕ) (b : LevelBatch x) : Type 0 where
    pub height : b.height ≡ pos h
    pub mode : b.mode ≡ desc
    pub can_undo : CanUndo x r s b.batch

  key_at :
      (h : ℕ) (b : LevelBatch x) (key : Bytes)
      → h < 2 ^ 56
      → IsAt h b
      → key_bytes_with_height x b key ≡ data_key key h
  unfolding key_bytes_with_height serialize_height
  key_at h b key l at =
      let e : h % 2 ^ 64 ≡ h = omega arith in
      ap (λ (t : Bytes). 2 ∷ (key ++ t)) (rw (at.height, at.mode, e) refl)

  pub put_value_lem :
      (h : ℕ) (key : Bytes) (o : Option Bytes) (b : LevelBatch x)
      → h < 2 ^ 56
      → IsAt h b
      → ((put_value x s key o b).0 ≡ ok tt)
        × (pending (put_value x s key o b).1.batch.batch
            ≡ expand h (record { key = key; value = o } ∷ []) ++ pending b.batch.batch)
        × IsAt h (put_value x s key o b).1
  unfolding put_value Batch.set Batch.delete expand
  put_value_lem h key none b l at =
      let steps = >>-Writes x r s _ _ _ _ (delete-Writes x r s 0 key) (
        >>-Writes x r s _ _ _ _ (set-Writes x r s 1 key (1 ∷ []))
          (set-Writes x r s 2 (key ++ suffix h) (1 ∷ []))) in
      let (done, wrote, can) = steps.at b.batch at.can_undo in
      rw (key_at h b key l at)
        (done, wrote, record { height = at.height; mode = at.mode; can_undo = can })
  put_value_lem h key (some v) b l at =
      let steps = >>-Writes x r s _ _ _ _ (set-Writes x r s 0 key v) (
        >>-Writes x r s _ _ _ _ (set-Writes x r s 1 key [])
          (set-Writes x r s 2 (key ++ suffix h) (0 ∷ v))) in
      let (done, wrote, can) = steps.at b.batch at.can_undo in
      rw (key_at h b key l at)
        (done, wrote, record { height = at.height; mode = at.mode; can_undo = can })

  -- All the writes of a block: the batch holds their entries, and can be undone.
  pub put_ops_lem :
      (h : ℕ) (ops : List Op) (b : LevelBatch x)
      → h < 2 ^ 56
      → IsAt h b
      → ((put_ops x s ops b).0 ≡ ok tt)
        × (pending (put_ops x s ops b).1.batch.batch ≡ expand h ops ++ pending b.batch.batch)
        × IsAt h (put_ops x s ops b).1
  unfolding put_ops expand
  put_ops_lem h [] b l at = (refl, refl, at)
  put_ops_lem h (op ∷ older) b l at =
      let (done, wrote, at') = put_ops_lem h older b l at in
      let (done', wrote', at'') = put_value_lem h op.key op.value (put_ops x s older b).1 l at' in
      rw (done, continue_with) (done', wrote' ∙ ap (λ l. expand h (op ∷ []) ++ l) wrote, at'')

  pub new_level_batch-IsAt : (h : ℕ) → IsAt h (new_level_batch x (pos h) s desc)
  unfolding new_level_batch
  new_level_batch-IsAt h = record {
    height = refl;
    mode = refl;
    can_undo = new_rollbackable-CanUndo x r s;
  }

  -- A block is committed without an error, and the session then holds its entries over the old ones.
  pub commit_lem :
      (h : ℕ) (ops : List Op)
      → h < 2 ^ 56
      → ((commit x h ops s).0 ≡ ok tt)
        × ((k : Bytes) → view (commit x h ops s).1 k ≡ overlay (expand h ops) (view s) k)
  unfolding commit write new_level_batch new_rollbackable
  commit_lem h ops l =
      let b : LevelBatch x = new_level_batch x (pos h) s desc in
      let (done, wrote, at) = put_ops_lem h ops b l (new_level_batch-IsAt h) in
      let all : pending (put_ops x s ops b).1.batch.batch ≡ expand h ops =
        wrote ∙ rw (r.new_batch_pending s) (append-nil (expand h ops)) in
      rw done (
        r.batch_write_ok (put_ops x s ops b).1.batch.batch s,
        λ k.
            r.batch_write_view (put_ops x s ops b).1.batch.batch s k
            ∙ ap (λ (l : List Op). overlay l (view s) k) all,
      )
