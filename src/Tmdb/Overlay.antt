-- ===== src/Tmdb/Overlay.antt =====
-- What it means that one batch undoes another over the contents of a database.
use mantlemint.Prelude.{Option, some, none, List, ◌≡◌}
use mantlemint.Bytes.{Bytes}
use mantlemint.Tmdb.{Op, last_op}

-- A batch `back` undoes a batch `main` over the contents `f`: it writes the keys that `main` writes,
-- each with what `f` holds there.
abbrev pub Undoes : (Bytes → Option Bytes) → List Op → List Op → Type 0
Undoes f main back = (k : Bytes) → last_op back k ≡ keep_key (last_op main k) (f k)
  where
    keep_key : Option (Option Bytes) → Option Bytes → Option (Option Bytes)
    keep_key none v = none
    keep_key (some _) v = some v
