-- ===== src/Tmdb.antt =====
-- db/types.go: the interface of a key-value database, as the wrappers under db/ use and offer it.
-- A database is a state and its operations; an iterator is the list of the entries that are ahead.
pub mod Session
pub mod Overlay
pub mod Memory
use mantlemint.Prelude.{Bool, Option, List, Result, Exec, if◌then◌else◌, [], ◌∷◌, none, some}
use mantlemint.Bytes.{Bytes, bytes_eq}

-- `DB` and `Batch`. `batch_set` is given the state of the database that the batch was made from,
-- since a batch may read it. `rollback_batch` is the type assertion to `HasRollbackBatch`.
pub record TmDb : Type 1 where
  pub State : Type 0
  pub Batch : Type 0
  pub Rollback : Type 0
  pub get : State → Bytes → Result (Option Bytes)
  pub has : State → Bytes → Result Bool
  pub set : Bytes → Bytes → Exec State Unit
  pub delete : Bytes → Exec State Unit
  pub iterator : State → Option Bytes → Option Bytes → Result (List (Bytes × Bytes))
  pub reverse_iterator : State → Option Bytes → Option Bytes → Result (List (Bytes × Bytes))
  pub new_batch : State → Batch
  pub batch_set : State → Bytes → Bytes → Exec Batch Unit
  pub batch_delete : State → Bytes → Exec Batch Unit
  pub batch_write : Batch → Exec State Unit
  pub rollback_batch : Batch → Option Rollback
  pub rollback_write : Rollback → Exec State Unit

-- One write of a batch: `none` deletes the key.
pub record Op : Type 0 where
  pub key : Bytes
  pub value : Option Bytes

-- The write that decides a key, of a batch with the newest write first.
unfoldable pub last_op : List Op → Bytes → Option (Option Bytes)
last_op [] k = none
last_op (op ∷ ops) k = if bytes_eq op.key k then some op.value else last_op ops k

-- The contents `f` under the writes of a batch.
unfoldable pub overlay : List Op → (Bytes → Option Bytes) → Bytes → Option Bytes
overlay ops f k = elim (last_op ops k) [ none ↦ f k | some v ↦ v ]
