-- ===== src/Hld.antt =====
-- db/hld/height_limited_db.go: a database that reads and writes at heights of its own, over the
-- driver. Branches share the driver, so its session's state is an argument and the heights are the
-- state; the locks and the debug output are left out.
pub mod Database
pub mod Iteration
pub mod Limited
mod Tests
use mantlemint.Prelude.{
  eq_ℤ, not, if◌then◌else◌, ℤ, pos, Option, List, Result, Exec, raise, panic, Bool,
}
use mantlemint.Bytes.{Bytes}
use mantlemint.Tmdb.Session.{Session}
use mantlemint.Heleveldb.Keys.{Mode}
use mantlemint.Heleveldb.Driver
use mantlemint.Heleveldb.Batch.{LevelBatch}

pub record Hld : Type 0 where
  pub write_height : ℤ
  pub read_height : ℤ

-- LatestHeight and InvalidHeight
abbrev pub latest_height : ℤ
latest_height = pos 0

abbrev pub invalid_write_height : ℤ
invalid_write_height = pos 0

-- ApplyHeightLimitedDB
unfoldable pub apply_height_limited : Hld
apply_height_limited = record { write_height = pos 0; read_height = pos 0 }

unfoldable pub set_read_height : ℤ → Hld → Hld
set_read_height height h = record h { read_height = height }

-- BranchHeightLimitedDB
unfoldable pub branch : Hld → ℤ → Hld
unfolding apply_height_limited set_read_height
branch h height = set_read_height height apply_height_limited

-- ClearReadHeight: the last height, and the database after it
unfoldable pub clear_read_height : Hld → ℤ × Hld
clear_read_height h = (h.read_height, record h { read_height = latest_height })

-- SetWriteHeight
unfoldable pub set_write_height : ℤ → Hld → Hld
set_write_height height h =
    if not (eq_ℤ height (pos 0)) then record h { write_height = height } else h

-- ClearWriteHeight
unfoldable pub clear_write_height : Hld → ℤ × Hld
clear_write_height h = (h.write_height, record h { write_height = invalid_write_height })

module _ (x : Session) (mode : Mode) where
  unfoldable pub get : x.State → Hld → Bytes → Result (Option Bytes)
  get s h key = Driver.get x mode s h.read_height key

  unfoldable pub has : x.State → Hld → Bytes → Result Bool
  has s h key = Driver.has x mode s h.read_height key

  -- Set and SetSync, Delete and DeleteSync
  unfoldable pub set : Hld → Bytes → Bytes → Exec x.State Unit
  set h key value = Driver.set x mode h.write_height key value

  unfoldable pub delete : Hld → Bytes → Exec x.State Unit
  delete h key = Driver.delete x mode h.write_height key

  unfoldable pub new_batch : x.State → Hld → LevelBatch x
  new_batch s h = Driver.new_batch x mode s h.write_height
