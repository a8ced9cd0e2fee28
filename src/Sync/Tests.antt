-- ===== src/Sync/Tests.antt =====
-- A chain whose blocks write one entry each, over the session in memory; a block with a negative height
-- cannot be applied.
use mantlemint.Prelude.{
  ℕ, ℤ, pos, negsuc, ◌≡◌, refl, none, some, List, [], ◌∷◌, Result, ok, err, io, panic, arith, ◌<◌,
  ◌⊎◌, take, All,
}
use mantlemint.Bytes.{Bytes}
use mantlemint.Tmdb.{Op, last_op}
use mantlemint.Tmdb.Memory.{memory, memory_reliable}
use mantlemint.Heleveldb.Keys.{desc}
use mantlemint.Heleveldb.History.{History, no_clash}
use mantlemint.Heleveldb.Commit.{commit_all}
use mantlemint.Heleveldb.Stored.{Stores, commit_all-Stores}
use mantlemint.Hld.{apply_height_limited}
use mantlemint.Hld.Database.{hld_database}
use mantlemint.SafeBatch.Block.{BlockDb}
use mantlemint.SafeBatch.Contract.{Write, set_key, client_writes}
use mantlemint.SafeBatch.Effect.{effect}
use mantlemint.Mantlemint.Events.{Event}
use mantlemint.Mantlemint.Reactor.{Tendermint}
use mantlemint.Sync.{Outside, World, process_blocks}
use mantlemint.Sync.Writes.{WritesThrough}
use mantlemint.Sync.Chain.{FollowOn, history_of, process_blocks_stored}
use mantlemint.Sync.Live.{process_blocks_ok}
use mantlemint.Sync.Reads.{WritesApart, Answered, process_blocks_get}

abbrev one_write : ℕ → List (Write (hld_database memory desc))
one_write n = set_key (1 ∷ []) (n ∷ []) ∷ []

abbrev Applied : Type 0
Applied = Result (ℤ × ℤ) × (List (Event ℤ ℕ ℕ) × BlockDb memory)

-- the block that cannot be applied has written before it fails
abbrev toy_apply : ℤ → BlockDb memory → Applied
toy_apply (pos n) db =
    (ok (pos n, pos 0), ([], client_writes (hld_database memory desc) (one_write n) db))
toy_apply (negsuc n) db =
    (err (io n), ([], client_writes (hld_database memory desc) (one_write n) db))

abbrev chain_of : (ℤ → BlockDb memory → Applied) → Tendermint (BlockDb memory)
chain_of apply = record {
  Block = ℤ;
  BlockId = ℤ;
  State = ℤ;
  Genesis = ℤ;
  Response = ℕ;
  TxResult = ℕ;
  block_id = λ b. b;
  with_app_hash = λ b s. s;
  with_empty_results_hash = λ s. s;
  last_block_height = λ s. s;
  initial_height = λ s. pos 1;
  load_state = λ db. ok (pos 0);
  make_genesis_state = λ g. ok g;
  replay_blocks = λ g s db. (ok tt, db);
  apply_block = λ s id b db. apply b db;
}

abbrev toy : Tendermint (BlockDb memory)
toy = chain_of toy_apply

abbrev outside : (apply : ℤ → BlockDb memory → Applied) → Outside memory (chain_of apply)
outside apply = record { Index = ℕ; block_height = λ b. b; run_indexer = λ b evc i. (ok tt, i) }

toy-WritesThrough : WritesThrough memory toy
toy-WritesThrough state id (pos n) db = (one_write n, refl)
toy-WritesThrough state id (negsuc n) db = (one_write n, refl)

abbrev at_four :
    (apply : ℤ → BlockDb memory → Applied) → List Op → World memory (chain_of apply) (outside apply)
at_four apply held = record {
  mm = record {
    last_state = pos 4;
    last_height = pos 4;
    last_block = none;
    evc = none;
    run_before = none;
    run_after = none;
  };
  db = record { db = (held, record { write_height = pos 0; read_height = pos 0 }); batch = none };
  index = 0;
  rollback = none;
  invalidated = [];
}

abbrev start : World memory toy (outside toy_apply)
start = at_four toy_apply (record { key = 0 ∷ 1 ∷ []; value = some (9 ∷ []) } ∷ [])

-- a node that starts with nothing stored, and two blocks
abbrev empty : World memory toy (outside toy_apply)
empty = at_four toy_apply []

abbrev two_blocks : List ℤ
two_blocks = pos 5 ∷ pos 6 ∷ []

two_blocks-FollowOn :
    (apply : ℤ → BlockDb memory → Applied)
    → FollowOn memory (chain_of apply) (outside apply) 4 two_blocks
two_blocks-FollowOn apply = (refl, omega arith, (refl, omega arith, tt))

empty-Stores : Stores memory memory_reliable empty.db.db.0 []
unfolding last_op commit_all
empty-Stores = (commit_all-Stores memory memory_reliable [] [] (λ k. refl) tt).1

abbrev history : List ℤ → History
history blocks = history_of memory toy (outside toy_apply) toy-WritesThrough blocks 4 empty []

abbrev ended : Result (Unit {0}) × World memory toy (outside toy_apply)
ended = process_blocks memory toy (outside toy_apply) two_blocks empty

process_blocks_stored_example :
    ((ended.0 ≡ ok tt) × Stores memory memory_reliable ended.1.db.db.0 (history two_blocks))
    ⊎ ((ended.0 ≡ err panic)
        × ((m : ℕ) × (m < 2)
            × Stores memory memory_reliable ended.1.db.db.0 (history (take m two_blocks))))
process_blocks_stored_example =
    process_blocks_stored memory toy (outside toy_apply) toy-WritesThrough memory_reliable
      two_blocks 4 empty [] (two_blocks-FollowOn toy_apply) empty-Stores refl

toy-WritesApart : WritesApart memory toy (outside toy_apply) toy-WritesThrough (1 ∷ [])
unfolding effect no_clash toy-WritesThrough
toy-WritesApart state id (pos n) db = (refl, tt)
toy-WritesApart state id (negsuc n) db = (refl, tt)

-- the key at the heights of both blocks, and before them
abbrev asks : List (ℕ × Bytes)
asks = (5, 1 ∷ []) ∷ (6, 1 ∷ []) ∷ (4, 1 ∷ []) ∷ []

abbrev Sees : List ℤ → Type 0
Sees blocks =
    All
      (Answered memory toy (outside toy_apply) toy-WritesThrough ended.1.db.db.0
        apply_height_limited (history blocks))
      asks

process_blocks_get_example :
    ((ended.0 ≡ ok tt) × Sees two_blocks)
    ⊎ ((ended.0 ≡ err panic) × ((m : ℕ) × (m < 2) × Sees (take m two_blocks)))
process_blocks_get_example =
    process_blocks_get memory toy (outside toy_apply) toy-WritesThrough memory_reliable two_blocks 4
      empty [] apply_height_limited asks empty-Stores refl (two_blocks-FollowOn toy_apply) tt tt
      (
        (omega arith, omega arith, toy-WritesApart, tt),
        (
          (omega arith, omega arith, toy-WritesApart, tt),
          ((omega arith, omega arith, toy-WritesApart, tt), tt),
        ),
      )

-- blocks that can all be applied
abbrev steady_apply : ℤ → BlockDb memory → Applied
steady_apply block db =
    (ok (block, pos 0), ([], client_writes (hld_database memory desc) (one_write 7) db))

process_blocks_ok_example :
    (process_blocks memory
      (chain_of steady_apply)
      (outside steady_apply)
      two_blocks
      (at_four steady_apply [])).0
    ≡ ok tt
process_blocks_ok_example =
    process_blocks_ok memory (chain_of steady_apply) (outside steady_apply) memory_reliable
      (λ state id block db. (one_write 7, refl)) (λ state id block db. ((block, pos 0), refl))
      (λ block evc index. refl) two_blocks 4 (at_four steady_apply [])
      (two_blocks-FollowOn steady_apply) refl
