-- ===== src/Heleveldb/Tests.antt =====
-- Small histories in the session in memory.
use mantlemint.Prelude.{◌≡◌, refl, pos, Bool, none, some, List, [], ◌∷◌, ok, arith}
use mantlemint.Bytes.{Bytes, bytes_eq}
use mantlemint.Tmdb.{Op, last_op}
use mantlemint.Tmdb.Memory.{memory, memory_reliable}
use mantlemint.Heleveldb.Keys.{desc}
use mantlemint.Heleveldb.Batch.{new_level_batch, write, rollback_batch}
use mantlemint.Heleveldb.Driver.{get, has}
use mantlemint.Heleveldb.History.{History, IsDescending, IsApart, no_clash, read_spec}
use mantlemint.Heleveldb.Commit.{commit_all, put_ops}
use mantlemint.Heleveldb.Snapshots.{
  get-commit_all, has-commit_all, get-commit_all_latest, get-commit_above, rollback-put_ops,
}

abbrev key_a : Bytes
key_a = 97 ∷ []

abbrev key_b : Bytes
key_b = 97 ∷ 98 ∷ []

abbrev first_block : List Op
first_block =
    record { key = key_b; value = some (2 ∷ []) }
    ∷ record { key = key_a; value = some (1 ∷ []) }
    ∷ []

abbrev second_block : List Op
second_block =
    record { key = key_b; value = some (3 ∷ []) } ∷ record { key = key_a; value = none } ∷ []

abbrev blocks : History
blocks = (5, second_block) ∷ (3, first_block) ∷ []

empty_view : (k : Bytes) → memory_reliable.view [] k ≡ none
unfolding last_op
empty_view k = refl

first-IsDescending : IsDescending ((3, first_block) ∷ [])
first-IsDescending = (omega arith, omega arith, tt, tt)

blocks-IsDescending : IsDescending blocks
blocks-IsDescending = (omega arith, omega arith, (omega arith, tt), first-IsDescending)

blocks-IsApart : IsApart blocks key_a
unfolding no_clash
blocks-IsApart = ((refl, (refl, tt)), ((refl, (refl, tt)), tt))

get-commit_all_example :
    get memory desc (commit_all memory blocks []).1 (pos 4) key_a ≡ ok (some (1 ∷ []))
unfolding read_spec last_op bytes_eq
get-commit_all_example =
    get-commit_all memory memory_reliable [] blocks key_a empty_view blocks-IsDescending
      blocks-IsApart 4 (omega arith) (omega arith)

has-commit_all_example :
    has memory desc (commit_all memory blocks []).1 (pos 6) key_a ≡ ok Bool.false
unfolding read_spec last_op bytes_eq
has-commit_all_example =
    has-commit_all memory memory_reliable [] blocks key_a empty_view blocks-IsDescending
      blocks-IsApart 6 (omega arith) (omega arith)

get-commit_all_latest_example :
    get memory desc (commit_all memory blocks []).1 (pos 0) key_a
    ≡ get memory desc (commit_all memory blocks []).1 (pos 7) key_a
get-commit_all_latest_example =
    get-commit_all_latest memory memory_reliable [] blocks key_a empty_view blocks-IsDescending
      blocks-IsApart 7 (omega arith) (omega arith) (omega arith)

get-commit_above_example :
    get memory desc (commit_all memory blocks []).1 (pos 3) key_a
    ≡ get memory desc (commit_all memory ((3, first_block) ∷ []) []).1 (pos 3) key_a
get-commit_above_example =
    get-commit_above memory memory_reliable [] ((3, first_block) ∷ []) 5 second_block key_a 3
      empty_view blocks-IsDescending blocks-IsApart (omega arith) (omega arith)

abbrev old_state : List Op
old_state = (commit_all memory ((3, first_block) ∷ []) []).1

rollback-put_ops_example :
    let b =
      (put_ops memory old_state second_block (new_level_batch memory (pos 5) old_state desc)).1 in
    memory_reliable.view
      (memory.batch_write (rollback_batch memory b) (write memory b old_state).1).1
      (0 ∷ key_a)
    ≡ memory_reliable.view old_state (0 ∷ key_a)
rollback-put_ops_example =
    rollback-put_ops memory memory_reliable old_state 5 second_block (0 ∷ key_a) (omega arith)
