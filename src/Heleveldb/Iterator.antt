-- ===== src/Heleveldb/Iterator.antt =====
-- db/heleveldb/leveldb_iterator.go: iteration over the keys that have a value at a height.
use mathlib.Core.Option.{get_or}
use mantlemint.Prelude.{
  ℕ, zero, suc, not_supported, bind, ℤ, Bool, true, false, Option, none, some, List, [], ◌∷◌,
  Result, ok, err, if◌then◌else◌, panic,
}
use mantlemint.Bytes.{Bytes, bytes_eq}
use mantlemint.Tmdb.Session.{Session}
use mantlemint.Heleveldb.Keys.{Mode, keys_for_iterator_prefix}
use mantlemint.Heleveldb.Driver.{get}

-- `ahead` is the embedded iterator over the keys partition; the nil slice `lastValidKey` is the
-- empty one to `bytes.Equal`.
pub record Iterator : Type 0 where
  pub ahead : List (Bytes × Bytes)
  pub max_height : ℤ
  pub last_valid_key : Bytes
  pub last_valid_value : Option Bytes

abbrev pub fresh : ℤ → List (Bytes × Bytes) → Iterator
fresh max_height ahead = record {
  ahead = ahead;
  max_height = max_height;
  last_valid_key = [];
  last_valid_value = none;
}

module _ (x : Session) (mode : Mode) where
  -- NewLevelDBIterator, NewLevelDBReverseIterator
  unfoldable pub new_iterator : x.State → ℤ → Option Bytes → Option Bytes → Result Iterator
  new_iterator s max_height start end =
      elim (x.prefix_iterator s (keys_for_iterator_prefix ∷ []) start end) [
        | err e ↦ err e
        | ok ahead ↦ ok (fresh max_height ahead)
      ]

  unfoldable pub new_reverse_iterator : x.State → ℤ → Option Bytes → Option Bytes → Result Iterator
  new_reverse_iterator s max_height start end =
      elim (x.prefix_reverse_iterator s (keys_for_iterator_prefix ∷ []) start end) [
        | err e ↦ err e
        | ok ahead ↦ ok (fresh max_height ahead)
      ]

  -- what `val, _ := i.driver.Get(...)` leaves: nil on an error, and a panic goes on
  unfoldable pub value_or_nil : Result (Option Bytes) → Result (Option Bytes)
  value_or_nil (ok v) = ok v
  value_or_nil (err panic) = err panic
  value_or_nil (err _) = ok none

  -- the loop of `Valid`, over the entries ahead
  unfoldable pub advance : x.State → Iterator → List (Bytes × Bytes) → Result Bool × Iterator
  unfolding value_or_nil
  advance s i [] = (ok false, record i { ahead = [] })
  advance s i ((key, mark) ∷ rest) =
      let skip = advance s i rest in
      if bytes_eq i.last_valid_key key
      then (ok true, record i { ahead = (key, mark) ∷ rest })
      else elim (value_or_nil (get x mode s i.max_height key)) [
        | err e ↦ (err e, record i { ahead = (key, mark) ∷ rest })
        | ok none ↦ skip
        | ok (some value) ↦ (
          ok true,
          record i {
            ahead = (key, mark) ∷ rest;
            last_valid_key = key;
            last_valid_value = some value;
          },
        )
      ]

  unfoldable pub valid : x.State → Iterator → Result Bool × Iterator
  unfolding advance
  valid s i = advance s i i.ahead

  -- Key and Next, of the embedded iterator, which panic where nothing is ahead
  unfoldable pub key : Iterator → Result Bytes
  key i = elim i.ahead [ [] ↦ err panic | entry ∷ _ ↦ ok entry.0 ]

  unfoldable pub next : Iterator → Result Iterator
  next i = elim i.ahead [ [] ↦ err panic | _ ∷ rest ↦ ok (record i { ahead = rest }) ]

  -- Value, which panics where the read fails
  unfoldable pub value_of : Result (Option Bytes) → Result (Option Bytes)
  value_of (ok v) = ok v
  value_of (err e) = err panic

  unfoldable pub value : x.State → Iterator → Result (Option Bytes)
  unfolding value_of
  value s i = elim i.ahead [
    | [] ↦ err panic
    | entry ∷ _ ↦
        if bytes_eq i.last_valid_key entry.0
        then ok i.last_valid_value
        else value_of (get x mode s i.max_height entry.0)
  ]

  -- The loop of a client, `for ; it.Valid(); it.Next()`, with fuel: the keys and values that it sees.
  unfoldable pub visit :
      (x.State → Iterator → Result (List (Bytes × Bytes)))
      → x.State
      → Result Bool × Iterator
      → Result (List (Bytes × Bytes))
  visit rest s (err e, i) = err e
  visit rest s (ok false, i) = ok []
  visit rest s (ok true, i) = bind (key i) λ k.
      bind (value s i)
        λ v. bind (next i) λ i'. bind (rest s i') λ seen. ok ((k, get_or v []) ∷ seen)

  unfoldable pub walk : ℕ → x.State → Iterator → Result (List (Bytes × Bytes))
  unfolding visit valid key value next
  walk zero s i = err not_supported
  walk (suc fuel) s i = visit (walk fuel) s (valid s i)
