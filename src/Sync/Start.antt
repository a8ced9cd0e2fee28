-- ===== src/Sync/Start.antt =====
-- sync.go: main from the databases that are opened to the end of the loop. The genesis, the index
-- database and the servers that are started are what they are told.
use mantlemint.Prelude.{
  ℤ, Bool, Option, none, List, [], Result, ok, err, Exec, panic, pure, if◌then◌else◌,
}
use mantlemint.Tmdb.Session.{Session}
use mantlemint.Heleveldb.Keys.{desc}
use mantlemint.Hld.{apply_height_limited, set_write_height, clear_write_height}
use mantlemint.Hld.Database.{hld_database}
use mantlemint.SafeBatch.{new_safe_batch, open_batch, flush}
use mantlemint.SafeBatch.Block.{BlockDb}
use mantlemint.Mantlemint.Reactor.{
  Tendermint, Instance, Node, new_mantlemint, init, load_initial_state,
}
use mantlemint.Sync.{Outside, World, on_heights, process_blocks}

module _ (x : Session) (t : Tendermint (BlockDb x)) (o : Outside x t) where
  -- `indexer.NewIndexer` and `rpc.StartRPC` as what they return
  pub record Given : Type 0 where
    pub genesis : t.Genesis
    pub initial_height : ℤ
    pub disable_sync : Bool
    pub new_index : Result o.Index
    pub start_rpc : Result (Unit {0})

  -- SetWriteHeight and Open, before the genesis is written
  unfoldable pub begin_genesis : ℤ → BlockDb x → BlockDb x
  unfolding on_heights
  begin_genesis height db =
      open_batch (hld_database x desc) (on_heights x t o (set_write_height height) db)

  -- from the result of LoadInitialState on: ClearWriteHeight
  unfoldable pub loaded : Result (Unit {0}) × Node t → Result (Unit {0}) × Node t
  unfolding on_heights
  loaded (err e, n) = (err panic, n)
  loaded (ok _, (mm, db)) = (ok tt, (mm, on_heights x t o (λ h. (clear_write_height h).1) db))

  -- from the result of Flush on; the rollback batch is closed
  unfoldable pub flushed_genesis :
      Instance t → Result (Option x.Batch) × BlockDb x → Result (Unit {0}) × Node t
  unfolding loaded
  flushed_genesis mm (err e, db) = (err panic, (mm, db))
  flushed_genesis mm (ok rollback, db) = loaded (load_initial_state t (mm, db))

  -- from the result of Init on
  unfoldable pub initialised : Result (Unit {0}) × Node t → Result (Unit {0}) × Node t
  unfolding flushed_genesis
  initialised (err e, n) = (err panic, n)
  initialised (ok _, (mm, db)) = flushed_genesis mm (flush (hld_database x desc) db)

  -- from SetWriteHeight to ClearWriteHeight
  unfoldable pub init_node : Given → Exec (Node t) Unit
  unfolding initialised begin_genesis
  init_node g (mm, db) = initialised (init t g.genesis (mm, begin_genesis g.initial_height db))

  -- the world that the loop begins with, once the index database and the servers stand
  abbrev pub begin_world : Instance t → BlockDb x → o.Index → World x t o
  begin_world mm db index = record {
    mm = mm;
    db = db;
    index = index;
    rollback = none;
    invalidated = [];
  }

  unfoldable pub serve : Given → Result (Unit {0}) × Node t → Result (World x t o) × BlockDb x
  serve g (err e, (mm, db)) = (err e, db)
  serve g (ok _, (mm, db)) = elim g.new_index [
    | err e ↦ (err panic, db)
    | ok index ↦ elim g.start_rpc [
      | err e ↦ (err panic, db)
      | ok _ ↦ (ok (begin_world mm db index), db)
    ]
  ]

  -- from the result of NewMantlemint on
  unfoldable pub main_from :
      Given → BlockDb x → Result (Instance t) → Result (World x t o) × BlockDb x
  unfolding serve init_node
  main_from g db (err e) = (err panic, db)
  main_from g db (ok mm) = serve g (init_node g (mm, db))

  -- main up to the subscription, over the session `s`: where it panics, the database that it leaves
  unfoldable pub start_node : Given → x.State → Result (World x t o) × BlockDb x
  unfolding main_from
  start_node g s =
      let db = new_safe_batch (hld_database x desc) (s, apply_height_limited) in
      main_from g db (new_mantlemint t db none none)

  -- The rest of main, over the blocks that the feed sends: without sync it waits for ever, and an error
  -- of Subscribe is a panic.
  unfoldable pub follow : Given → Result (List t.Block) → Exec (World x t o) Unit
  follow g feed =
      if g.disable_sync
      then pure tt
      else elim feed [ err e ↦ λ w. (err panic, w) | ok blocks ↦ process_blocks x t o blocks ]
