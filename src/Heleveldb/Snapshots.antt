-- ===== src/Heleveldb/Snapshots.antt =====
-- The contract of the driver: it keeps a snapshot of the database for every block, and a block can be
-- taken back.
use mantlemint.Prelude.{
  ℕ, ◌^◌, ◌<◌, ◌≤◌, ◌≡◌, refl, sym, ap, ◌∙◌, pos, none, List, [], ◌∷◌, All, All-weaken, arith, ok,
  is_some,
}
use mantlemint.Bytes.{Bytes}
use mantlemint.Tmdb.{Op}
use mantlemint.Tmdb.Session.{Session, IsReliable}
use mantlemint.Rollback.Undo.{rollback-restores}
use mantlemint.Heleveldb.Keys.{desc}
use mantlemint.Heleveldb.Batch.{new_level_batch, write, rollback_batch}
use mantlemint.Heleveldb.Driver.{get, has}
use mantlemint.Heleveldb.History.{History, newest, IsDescending, IsApart, read_spec}
use mantlemint.Heleveldb.Commit.{commit_all, put_ops, put_ops_lem, new_level_batch-IsAt}
use mantlemint.Heleveldb.Stored.{flat, commit_all-Stores}
use mantlemint.Heleveldb.Reads.{get-Stores, has-Stores, get-Stores_latest}

abbrev pub newest_height : History → ℕ
newest_height [] = 0
newest_height ((height, ops) ∷ older) = height

-- at a height that no block passes, a read is the newest write
read_spec_top :
    (hist : History) (k : Bytes) (h : ℕ)
    → All (λ b. b.0 ≤ h) hist
    → read_spec hist h k ≡ flat (newest hist k)
unfolding read_spec newest
read_spec_top [] k h a = refl
read_spec_top ((height, ops) ∷ older) k h a = ground (arith, a.0, read_spec_top older k h a.1)

read_spec-newest :
    (hist : History) (k : Bytes) (h : ℕ)
    → IsDescending hist
    → newest_height hist ≤ h
    → read_spec hist h k ≡ flat (newest hist k)
read_spec-newest [] k h d l = read_spec_top [] k h tt
read_spec-newest ((height, ops) ∷ older) k h d l =
    read_spec_top ((height, ops) ∷ older) k h (l, All-weaken _ _ older (λ b u. omega arith) d.2)

module _ (x : Session) (r : IsReliable x) (s : x.State) (hist : History) (key : Bytes)
    (empty : (k : Bytes) → r.view s k ≡ none) (d : IsDescending hist)
    (apart : IsApart hist key) where
  -- The blocks of a history, their heights not rising from the newest on and below 2 ^ 56, are
  -- committed to an empty session that does not fail. Then Get at a height from 1 to 2 ^ 56 - 1
  -- returns what the key held right after the newest block up to that height, if no key written
  -- continues the key, or is continued by it, with the byte 255.
  pub get-commit_all :
      (h : ℕ)
      → 0 < h
      → h < 2 ^ 56
      → get x desc (commit_all x hist s).1 (pos h) key ≡ ok (read_spec hist h key)
  get-commit_all h p l =
      get-Stores x r (commit_all x hist s).1 hist key h (commit_all-Stores x r s hist empty d).1 d
        apart l p

  -- Under the conditions of `get-commit_all`, Has at the height says whether the key held a value right
  -- after the newest block up to that height.
  pub has-commit_all :
      (h : ℕ)
      → 0 < h
      → h < 2 ^ 56
      → has x desc (commit_all x hist s).1 (pos h) key ≡ ok (is_some (read_spec hist h key))
  has-commit_all h p l =
      has-Stores x r (commit_all x hist s).1 hist key h (commit_all-Stores x r s hist empty d).1 d
        apart l p

  -- Under the conditions of `get-commit_all`, Get at height 0, which reads the current data, agrees with
  -- Get at every height from that of the newest block on.
  pub get-commit_all_latest :
      (h : ℕ)
      → 0 < h
      → h < 2 ^ 56
      → newest_height hist ≤ h
      → get x desc (commit_all x hist s).1 (pos 0) key
        ≡ get x desc (commit_all x hist s).1 (pos h) key
  get-commit_all_latest h p l top =
      get-Stores_latest x r (commit_all x hist s).1 hist key
        (commit_all-Stores x r s hist empty d).1
      ∙ sym (get-commit_all h p l ∙ ap ok (read_spec-newest hist key h d top))

-- A block that is committed at a height above `h` leaves what Get returns at `h`, a height from 1 on, as
-- it was, under the conditions of `get-commit_all` on the history with the block.
pub get-commit_above :
    (x : Session) (r : IsReliable x) (s : x.State) (hist : History) (height : ℕ) (ops : List Op)
    (key : Bytes) (h : ℕ)
    → ((k : Bytes) → r.view s k ≡ none)
    → IsDescending ((height, ops) ∷ hist)
    → IsApart ((height, ops) ∷ hist) key
    → 0 < h
    → h < height
    → get x desc (commit_all x ((height, ops) ∷ hist) s).1 (pos h) key
      ≡ get x desc (commit_all x hist s).1 (pos h) key
unfolding read_spec
get-commit_above x r s hist height ops key h empty d apart p lt =
    let l : h < 2 ^ 56 = omega (arith, d.1) in
    get-commit_all x r s ((height, ops) ∷ hist) key empty d apart h p l
    ∙ ground arith
    ∙ sym (get-commit_all x r s hist key empty d.3 apart.1 h p l)

-- The writes of a block go to a batch made at `s` for a height below 2 ^ 56, in a session that does not
-- fail. Once the batch is written, writing its rollback
-- batch brings every entry of the session back to what it was at `s`.
pub rollback-put_ops :
    (x : Session) (r : IsReliable x) (s : x.State) (h : ℕ) (ops : List Op) (k : Bytes)
    → h < 2 ^ 56
    → let b = (put_ops x s ops (new_level_batch x (pos h) s desc)).1 in
      r.view (x.batch_write (rollback_batch x b) (write x b s).1).1 k ≡ r.view s k
unfolding rollback_batch write
rollback-put_ops x r s h ops k l =
    let b = new_level_batch x (pos h) s desc in
    let at = (put_ops_lem x r s h ops b l (new_level_batch-IsAt x r s h)).2 in
    rollback-restores x r s (put_ops x s ops b).1.batch at.can_undo k
