-- ===== src/Heleveldb/Driver.antt =====
-- db/heleveldb/leveldb_driver.go: reads at a height. The operations are given the session's state.
use mantlemint.Prelude.{
  ◌+◌, ◌-◌, ◌%◌, ℤ, pos, eq_ℤ, ltb_ℤ, to_u64, max_uint64, u64_mod, Bool, false, not, Option, none,
  some, List, [], ◌∷◌, Result, ok, err, Exec, raise, panic, invalid_height, ◌==◌, if◌then◌else◌,
}
use mantlemint.Bytes.{Bytes, uint_to_big_endian}
use mantlemint.Height.{current_or_latest, current_or_never}
use mantlemint.Tmdb.Session.{Session}
use mantlemint.Heleveldb.Keys.{
  Mode, asc, desc, current_data_prefix, prefix_current_data_key, prefix_data_with_height_key,
}
use mantlemint.Heleveldb.Batch.{LevelBatch, new_level_batch}

-- `deleted := value[0]` and what follows, in Get; `value[0]` of an empty value panics
unfoldable pub decode_value : Bytes → Result (Option Bytes)
decode_value [] = err panic
decode_value (deleted ∷ value) = if deleted == 1 then ok none else ok (some value)

-- the same in Has
unfoldable pub decode_presence : Bytes → Result Bool
decode_presence [] = err panic
decode_presence (deleted ∷ value) = ok (not (deleted == 1))

module _ (x : Session) (mode : Mode) where
  -- newInnerIterator: what is ahead in the versions of a key, where uint64(requestHeight + 1) wraps
  inner_entries : Mode → x.State → ℤ → Bytes → Result (List (Bytes × Bytes))
  inner_entries asc s request_height key =
      let height_end = uint_to_big_endian ((to_u64 request_height + 1) % u64_mod) in
      x.prefix_reverse_iterator s (prefix_data_with_height_key key) none (some height_end)
  inner_entries desc s request_height key =
      let height_start = uint_to_big_endian (max_uint64 - to_u64 request_height) in
      x.prefix_iterator s (prefix_data_with_height_key key) (some height_start) none

  unfoldable pub new_inner_iterator : x.State → ℤ → Bytes → Result (List (Bytes × Bytes))
  unfolding inner_entries
  new_inner_iterator = inner_entries mode

  -- `iter, _ := ...`: the error is dropped, and the nil iterator panics at its first use
  first_value : {A : Type 0} → Result (List (Bytes × Bytes)) → A → (Bytes → Result A) → Result A
  first_value (err e) absent found = err panic
  first_value (ok []) absent found = ok absent
  first_value (ok (entry ∷ _)) absent found = found entry.1

  -- Get and Has, from the check of the height on
  unfoldable pub read_at : {A : Type 0} → x.State → ℤ → Bytes → A → (Bytes → Result A) → Result A
  unfolding new_inner_iterator first_value current_or_latest current_or_never
  read_at s max_height key absent found =
      let request_height = current_or_latest max_height in
      let request_height_min = current_or_never (pos 0) in
      if ltb_ℤ request_height request_height_min
      then err invalid_height
      else first_value (new_inner_iterator s request_height key) absent found

  unfoldable pub get : x.State → ℤ → Bytes → Result (Option Bytes)
  get s max_height key =
      if eq_ℤ max_height (pos 0)
      then x.get s (prefix_current_data_key key)
      else read_at s max_height key none decode_value

  unfoldable pub has : x.State → ℤ → Bytes → Result Bool
  has s max_height key =
      if eq_ℤ max_height (pos 0)
      then x.has s (prefix_current_data_key key)
      else read_at s max_height key false decode_presence

  -- Set, SetSync, Delete, DeleteSync: "should never reach here"
  unfoldable pub set : ℤ → Bytes → Bytes → Exec x.State Unit
  set at_height key value = raise panic

  unfoldable pub delete : ℤ → Bytes → Exec x.State Unit
  delete at_height key = raise panic

  -- Iterator and ReverseIterator at height 0; Heleveldb.Iterator has the other heights
  unfoldable pub current_iterator :
      x.State → Option Bytes → Option Bytes → Result (List (Bytes × Bytes))
  current_iterator s start end = x.prefix_iterator s (current_data_prefix ∷ []) start end

  unfoldable pub current_reverse_iterator :
      x.State → Option Bytes → Option Bytes → Result (List (Bytes × Bytes))
  current_reverse_iterator s start end =
      x.prefix_reverse_iterator s (current_data_prefix ∷ []) start end

  -- NewBatch
  unfoldable pub new_batch : x.State → ℤ → LevelBatch x
  new_batch s at_height = new_level_batch x at_height s mode
