-- ===== src/SafeBatch/Tests.antt =====
-- The safe batch over the session in memory.
use mantlemint.Prelude.{pos, ◌≡◌, none, some, List, [], ◌∷◌, ok, arith}
use mantlemint.Tmdb.{Op}
use mantlemint.Tmdb.Memory.{memory, memory_db, memory_reliable}
use mantlemint.Heleveldb.Keys.{desc}
use mantlemint.Heleveldb.Batch.{rollback_batch}
use mantlemint.Heleveldb.Commit.{commit}
use mantlemint.Hld.{Hld}
use mantlemint.Hld.Database.{hld_database}
use mantlemint.SafeBatch.{SafeBatchDb, open_batch, flush, get, has}
use mantlemint.SafeBatch.Contract.{
  Write, set_key, delete_key, in_batch, client_writes, client_writes_unseen,
}
use mantlemint.SafeBatch.Block.{write_ops, opened, block_batch, flush-write_ops}

abbrev one_entry : SafeBatchDb memory_db
one_entry = record { db = record { key = 1 ∷ []; value = some (9 ∷ []) } ∷ []; batch = none }

abbrev some_writes : List (Write memory_db)
some_writes =
    set_key (2 ∷ []) (8 ∷ [])
    ∷ delete_key (1 ∷ [])
    ∷ in_batch (record { key = 3 ∷ []; value = none } ∷ [])
    ∷ []

client_writes_unseen_example :
    let after = client_writes memory_db some_writes (open_batch memory_db one_entry) in
    (after.db ≡ one_entry.db)
    × (get memory_db after (1 ∷ []) ≡ get memory_db one_entry (1 ∷ []))
    × (has memory_db after (1 ∷ []) ≡ has memory_db one_entry (1 ∷ []))
client_writes_unseen_example = client_writes_unseen memory_db one_entry some_writes (1 ∷ [])

abbrev block_ops : List Op
block_ops =
    record { key = 2 ∷ []; value = none } ∷ record { key = 1 ∷ []; value = some (9 ∷ []) } ∷ []

flush-write_ops_example :
    let hl : Hld = record { write_height = pos 7; read_height = pos 0 } in
    let written = write_ops memory block_ops (opened memory [] hl) in
    (written.0 ≡ ok tt)
    × (flush (hld_database memory desc) written.1 ≡ (
      ok (some (rollback_batch memory (block_batch memory [] 7 block_ops))),
      record { db = ((commit memory 7 block_ops []).1, hl); batch = none },
    ))
flush-write_ops_example =
    flush-write_ops memory memory_reliable [] 7 block_ops (pos 0) (omega arith)
