-- ===== src/Sync/Writes.antt =====
-- What Inject writes: the writes of ApplyBlock, through the database that it is given.
use mantlemint.Prelude.{ℤ, List, [], Result, ok, err, ◌≡◌, refl, ◌∙◌}
use mantlemint.Tmdb.{TmDb, Op}
use mantlemint.Tmdb.Session.{Session}
use mantlemint.Heleveldb.Keys.{desc}
use mantlemint.Hld.Database.{hld_database}
use mantlemint.SafeBatch.Block.{BlockDb}
use mantlemint.SafeBatch.Contract.{Write, client_writes}
use mantlemint.SafeBatch.Effect.{effect}
use mantlemint.Mantlemint.Reactor.{Tendermint, Instance, inject, run_block, applied}

module _ (x : Session) (t : Tendermint (BlockDb x)) where
  abbrev D : TmDb
  D = hld_database x desc

  -- ApplyBlock writes only through the database that it is given, and through batches of it.
  abbrev pub WritesThrough : Type 0
  WritesThrough =
      (state : t.State) (id : t.BlockId) (block : t.Block) (db : BlockDb x)
      → (ws : List (Write D)) × ((t.apply_block state id block db).1.1 ≡ client_writes D ws db)

  applied_db :
      (block : t.Block) (mm : Instance t) (out : Result (t.State × ℤ) × (List _ × BlockDb x))
      → (applied t block mm out).1.1 ≡ out.1.1
  unfolding applied
  applied_db block mm (err e, (events, db)) = refl
  applied_db block mm (ok (next, retain), (events, db)) = refl

  run_block_db :
      (through : WritesThrough) (q : Result (Unit {0})) (state : t.State) (block : t.Block)
      (mm : Instance t) (db : BlockDb x)
      → (ws : List (Write D)) × ((run_block t q state block (mm, db)).1.1 ≡ client_writes D ws db)
  unfolding run_block client_writes
  run_block_db through (err e) state block mm db = ([], refl)
  run_block_db through (ok _) state block mm db =
      let (ws, e) = through state (t.block_id block) block db in
      (ws, applied_db block mm (t.apply_block state (t.block_id block) block db) ∙ e)

  pub inject_db :
      (through : WritesThrough) (block : t.Block) (mm : Instance t) (db : BlockDb x)
      → (ws : List (Write D)) × ((inject t block (mm, db)).1.1 ≡ client_writes D ws db)
  unfolding inject
  inject_db through block mm db = run_block_db through _ _ block _ db

  -- the operations of a block's writes, where the state is the one that the block is applied to
  unfoldable pub written : WritesThrough → t.Block → Instance t → BlockDb x → List Op
  unfolding effect
  written through block mm db =
      effect (through (t.with_app_hash block mm.last_state) (t.block_id block) block db).0 []

  run_block_ok :
      (through : WritesThrough) (q : Result (Unit {0})) (state : t.State) (block : t.Block)
      (mm : Instance t) (db : BlockDb x)
      → (run_block t q state block (mm, db)).0 ≡ ok tt
      → (run_block t q state block (mm, db)).1.1
        ≡ client_writes D (through state (t.block_id block) block db).0 db
  unfolding run_block
  run_block_ok through (err e) state block mm db h = cc
  run_block_ok through (ok _) state block mm db h =
      let (ws, e) = through state (t.block_id block) block db in
      applied_db block mm (t.apply_block state (t.block_id block) block db) ∙ e

  -- a block that is injected without an error has made the writes of ApplyBlock
  pub inject_ok :
      (through : WritesThrough) (block : t.Block) (mm : Instance t) (db : BlockDb x)
      → (inject t block (mm, db)).0 ≡ ok tt
      → (inject t block (mm, db)).1.1
        ≡ client_writes D
            (through (t.with_app_hash block mm.last_state) (t.block_id block) block db).0
            db
  unfolding inject
  inject_ok through block mm db h = run_block_ok through _ _ block _ db h
