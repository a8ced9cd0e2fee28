-- ===== src/Sync.antt =====
-- sync.go: the loop that feeds blocks to the block processor, and its handling of a failed block. The
-- database of the node is the safe batch over the height-limited database over the driver, whose mode
-- is the descending one. The indexer and the receiver of the invalidated heights are what they are
-- told. Sync.Start is main up to the loop.
pub mod Writes
pub mod Pending
pub mod Round
pub mod Recovery
pub mod Chain
pub mod Live
pub mod Start
pub mod Stages
pub mod Started
pub mod Starts
pub mod Fed
pub mod Reads
mod Tests
use mantlemint.Prelude.{
  ℤ, Option, none, some, List, [], ◌∷◌, ◌++◌, Result, ok, err, Exec, panic, continue_with, ◌>>◌,
  pure,
}
use mantlemint.Tmdb.Session.{Session}
use mantlemint.Heleveldb.Keys.{desc}
use mantlemint.Hld.{Hld, set_write_height, clear_write_height}
use mantlemint.Hld.Database.{hld_database}
use mantlemint.SafeBatch.{SafeBatchDb, open_batch, flush}
use mantlemint.SafeBatch.Block.{BlockDb}
use mantlemint.Mantlemint.Reactor.{Tendermint, Instance, Evc, inject}

module _ (x : Session) (t : Tendermint (BlockDb x)) where
  open t use {Block}

  -- `feed.Block.Height`, `indexerInstance.Run` as the next state of the indexer's database
  pub record Outside : Type 1 where
    pub Index : Type 0
    pub block_height : Block → ℤ
    pub run_indexer : Block → Option (Evc t) → Exec Index Unit

  module _ (o : Outside) where
    pub record World : Type 0 where
      pub mm : Instance t
      pub db : BlockDb x
      pub index : o.Index
      pub rollback : Option x.Batch
      pub invalidated : List ℤ

    -- hldb, which the safe batch `batched` wraps
    unfoldable pub on_heights : (Hld → Hld) → BlockDb x → BlockDb x
    on_heights f b = record b { db = (b.db.0, f b.db.1) }

    -- SetWriteHeight and Open
    unfoldable pub begin_block : Block → World → World
    unfolding on_heights
    begin_block block w =
        let at_height = on_heights (set_write_height (o.block_height block)) w.db in
        record w { db = open_batch (hld_database x desc) at_height }

    -- what is done before the panic where Inject fails: the last block is taken back
    write_back : Option x.Batch → BlockDb x → BlockDb x
    write_back none b = b
    write_back (some batch) b = record b { db = ((x.batch_write batch b.db.0).1, b.db.1) }

    unfoldable pub undo_last : World → World
    unfolding write_back
    undo_last w = record w { db = write_back w.rollback w.db }

    -- from the result of Flush on
    flushed : Block → World → Result (Option x.Batch) × BlockDb x → Result (Unit {0}) × World
    unfolding on_heights
    flushed block w (err e, b) = (err panic, record w { db = b })
    flushed block w (ok rollback, b) =
        let cleared = on_heights (λ h. (clear_write_height h).1) b in
        (
          ok tt,
          record w {
            db = cleared;
            rollback = rollback;
            invalidated = w.invalidated ++ o.block_height block ∷ [];
          },
        )

    -- from the result of the indexer on
    indexed : Block → World → Result (Unit {0}) × o.Index → Result (Unit {0}) × World
    unfolding flushed
    indexed block w (err e, index) = (err panic, record w { index = index })
    indexed block w (ok _, index) =
        flushed block (record w { index = index }) (flush (hld_database x desc) w.db)

    -- from the result of Inject on
    injected :
        Block → World → Result (Unit {0}) × (Instance t × BlockDb x) → Result (Unit {0}) × World
    unfolding indexed undo_last
    injected block w (err e, (mm, db)) = (err panic, undo_last (record w { mm = mm; db = db }))
    injected block w (ok _, (mm, db)) =
        indexed block (record w { mm = mm; db = db; rollback = none })
          (o.run_indexer block mm.evc w.index)

    -- One round of the loop. A panic ends the node, with the state that it leaves.
    unfoldable pub process_block : Block → Exec World Unit
    unfolding begin_block injected
    process_block block w =
        let w' = begin_block block w in injected block w' (inject t block (w'.mm, w'.db))

    unfoldable pub process_blocks : List Block → Exec World Unit
    process_blocks [] = pure tt
    process_blocks (block ∷ blocks) = do process_block block; process_blocks blocks
