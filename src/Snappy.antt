-- ===== src/Snappy.antt =====
-- db/snappy: a database whose values are compressed. The codec of golang/snappy and `json.Valid` are
-- parameters. The mutex, Close, Print and Stats are left out.
pub mod Compat
pub mod Batches
mod Tests
use mantlemint.Prelude.{
  Bool, Option, some, none, List, Result, ok, err, Exec, pure, panic, unknown_data, not_supported,
  if◌then◌else◌, ◌≡◌,
}
use mantlemint.Bytes.{Bytes}
use mantlemint.Tmdb.{TmDb}

-- `snappy.Encode(nil, ·)`, `snappy.Decode(nil, ·)` and `json.Valid`
pub record Codec : Type 0 where
  pub encode : Bytes → Bytes
  pub decode : Bytes → Result Bytes
  pub json_valid : Bytes → Bool

-- What is encoded is decoded again.
abbrev pub IsCodec : Codec → Type 0
IsCodec c = (v : Bytes) → c.decode (c.encode v) ≡ ok v

-- CompatModeEnabled and CompatModeDisabled
pub data CompatMode : Type 0 where
  compat_enabled compat_disabled : CompatMode

module _ (c : Codec) (d : TmDb) where
  -- what Get returns after it has written the item again, whose error it drops
  returned : Bytes → Result (Unit {0}) × d.State → Result (Option Bytes) × d.State
  returned item (err panic, s) = (err panic, s)
  returned item (r, s) = (ok (some item), s)

  -- Get on an item, from what the decoder returned on
  on_decoded : CompatMode → Bytes → Bytes → Result Bytes → Exec d.State (Option Bytes)
  unfolding returned
  on_decoded mode key item (ok decoded) s = (ok (some decoded), s)
  on_decoded compat_disabled key item (err e) s = (err e, s)
  on_decoded compat_enabled key item (err e) s =
      if c.json_valid item then returned item (d.set key item s) else (err unknown_data, s)

  on_item : CompatMode → Bytes → Result (Option Bytes) → Exec d.State (Option Bytes)
  unfolding on_decoded
  on_item mode key (err e) s = (err e, s)
  on_item mode key (ok none) s = (ok none, s)
  on_item mode key (ok (some item)) s = on_decoded mode key item (c.decode item) s

  -- Get, which may write to the database
  unfoldable pub get : CompatMode → Bytes → Exec d.State (Option Bytes)
  unfolding on_item
  get mode key s = on_item mode key (d.get s key) s

  unfoldable pub has : d.State → Bytes → Result Bool
  has s key = d.has s key

  -- Set and SetSync, Delete and DeleteSync
  unfoldable pub set : Bytes → Bytes → Exec d.State Unit
  set key value = d.set key (c.encode value)

  unfoldable pub delete : Bytes → Exec d.State Unit
  delete key = d.delete key

  -- Iterator and ReverseIterator
  unfoldable pub iterator : d.State → Option Bytes → Option Bytes → Result (List (Bytes × Bytes))
  iterator s start end = err not_supported

  -- NewBatch, and the operations of `SnappyBatch`
  unfoldable pub new_batch : d.State → d.Batch
  new_batch s = d.new_batch s

  unfoldable pub batch_set : d.State → Bytes → Bytes → Exec d.Batch Unit
  batch_set s key value = d.batch_set s key (c.encode value)

  unfoldable pub batch_delete : d.State → Bytes → Exec d.Batch Unit
  batch_delete s key = d.batch_delete s key

  unfoldable pub batch_write : d.Batch → Exec d.State Unit
  batch_write w = d.batch_write w
