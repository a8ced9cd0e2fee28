-- ===== src/SafeBatch/Block.antt =====
-- The stack of databases that sync.go builds: a block that is written through the safe batch over the
-- height-limited database is a commit of the driver at the write height.
use mantlemint.Prelude.{
  ℕ, ◌^◌, ◌<◌, ℤ, pos, Option, some, none, List, [], ◌∷◌, Result, ok, err, Exec, ◌≡◌, refl, ◌∙◌,
  pure, ◌>>◌, continue_with,
}
use mantlemint.Bytes.{Bytes}
use mantlemint.Tmdb.{Op}
use mantlemint.Tmdb.Session.{Session, IsReliable}
use mantlemint.Heleveldb.Keys.{desc}
use mantlemint.Heleveldb.Batch.{LevelBatch, new_level_batch, write, rollback_batch}
use mantlemint.Heleveldb.Driver
use mantlemint.Heleveldb.Commit.{put_value, put_ops, commit, put_ops_lem, new_level_batch-IsAt}
use mantlemint.Hld
use mantlemint.Hld.{Hld}
use mantlemint.Hld.Database.{hld_database, on_session}
use mantlemint.SafeBatch.Contract.{flush_ok}
use mantlemint.SafeBatch.{SafeBatchDb, open_batch, flush, set, delete}

module _ (x : Session) where
  abbrev pub BlockDb : Type 0
  BlockDb = SafeBatchDb (hld_database x desc)

  -- the writes of a block through Set and Delete, the oldest first, to the first error
  unfoldable pub write_value : Bytes → Option Bytes → Exec BlockDb Unit
  write_value key none = delete (hld_database x desc) key
  write_value key (some v) = set (hld_database x desc) key v

  unfoldable pub write_ops : List Op → Exec BlockDb Unit
  write_ops [] = pure tt
  write_ops (op ∷ older) = do write_ops older; write_value op.key op.value

  abbrev with_batch : BlockDb → LevelBatch x → BlockDb
  with_batch b w = record b { batch = some w }

  write_value_open :
      (key : Bytes) (o : Option Bytes) (b : BlockDb) (w : LevelBatch x)
      → write_value key o (with_batch b w)
        ≡ ((put_value x b.db.0 key o w).0, with_batch b (put_value x b.db.0 key o w).1)
  unfolding write_value put_value set delete
  write_value_open key none b w = refl
  write_value_open key (some v) b w = refl

  write_ops_open :
      (ops : List Op) (b : BlockDb) (w : LevelBatch x)
      → write_ops ops (with_batch b w)
        ≡ ((put_ops x b.db.0 ops w).0, with_batch b (put_ops x b.db.0 ops w).1)
  unfolding write_ops put_ops
  write_ops_open [] b w = refl
  write_ops_open (op ∷ older) b w =
      rw (write_ops_open older b w) (later (put_ops x b.db.0 older w).0)
    where
      later :
          (r : Result (Unit {0}))
          → continue_with
              (r, with_batch b (put_ops x b.db.0 older w).1)
              (λ _. write_value op.key op.value)
            ≡ (
              (continue_with
                  (r, (put_ops x b.db.0 older w).1)
                  (λ _. put_value x b.db.0 op.key op.value)).0,
              with_batch b
                  (continue_with
                    (r, (put_ops x b.db.0 older w).1)
                    (λ _. put_value x b.db.0 op.key op.value)).1,
            )
      later (ok _) = write_value_open op.key op.value b (put_ops x b.db.0 older w).1
      later (err e) = refl

  abbrev pub opened : x.State → Hld → BlockDb
  opened s hl = open_batch (hld_database x desc) (record { db = (s, hl); batch = none })

  abbrev pub block_batch : x.State → ℕ → List Op → LevelBatch x
  block_batch s h ops = (put_ops x s ops (new_level_batch x (pos h) s desc)).1

  -- A block is written through the stack at the write height `h` below 2 ^ 56: Open, its Sets and Deletes in order,
  -- and Flush. On a session that does not fail this succeeds, leaves the session as the driver's commit
  -- of the block at `h` leaves it, with the heights as they were and no batch open, and hands out
  -- the batch that takes the block back.
  pub flush-write_ops :
      (r : IsReliable x) (s : x.State) (h : ℕ) (ops : List Op) (read : ℤ)
      → h < 2 ^ 56
      → let hl : Hld = record { write_height = pos h; read_height = read } in
        let written = write_ops ops (opened s hl) in
        (written.0 ≡ ok tt)
        × (flush (hld_database x desc) written.1 ≡ (
          ok (some (rollback_batch x (block_batch s h ops))),
          record { db = ((commit x h ops s).1, hl); batch = none },
        ))
  unfolding open_batch Hld.new_batch Driver.new_batch commit on_session write
  flush-write_ops r s h ops read l =
      let hl : Hld = record { write_height = pos h; read_height = read } in
      let base : BlockDb = record { db = (s, hl); batch = none } in
      let w = new_level_batch x (pos h) s desc in
      let done = (put_ops_lem x r s h ops w l (new_level_batch-IsAt x r s h)).0 in
      let out = (put_ops x s ops w).1 in
      let wrote = r.batch_write_ok out.batch.batch s in
      rw (write_ops_open ops base w)
        (done, flush_ok (hld_database x desc) (s, hl) out wrote ∙ rw done refl)
