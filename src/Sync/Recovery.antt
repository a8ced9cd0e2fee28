-- ===== src/Sync/Recovery.antt =====
-- A block that cannot be injected takes the last block back: the node stops with the database of
-- before that block.
use mantlemint.Bytes.{Bytes}
use mantlemint.Tmdb.Session.{Session, IsReliable}
use mantlemint.SafeBatch.Block.{BlockDb}
use mantlemint.Mantlemint.Reactor.{Tendermint}
use mantlemint.Sync.{Outside, World, begin_block, process_block}

module _ (x : Session) (t : Tendermint (BlockDb x)) (o : Outside x t) (r : IsReliable x) where
  -- what the node is when Inject is called for the second of two blocks
  abbrev pub at_second : t.Block → t.Block → World x t o → World x t o
  at_second first second w = begin_block x t o second (process_block x t o first w).1
