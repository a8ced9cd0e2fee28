-- ===== src/Heleveldb/Keys.antt =====
-- db/heleveldb/types.go and config.go: the three partitions of the key space, and the height suffix.
use mantlemint.Prelude.{ℕ, ◌-◌, ◌∷◌, ℤ, to_u64, to_i64, max_uint64, Result, ok, err}
use mantlemint.Bytes.{Bytes, uint_to_big_endian, big_endian_to_uint}

-- DriverModeKeySuffixAsc, and DriverModeKeySuffixDesc, which stands for every other int as well
pub data Mode : Type 0 where
  asc desc : Mode

-- cCurrentDataPrefix, cKeysForIteratorPrefix, cDataWithHeightPrefix
abbrev pub current_data_prefix : ℕ
current_data_prefix = 0

abbrev pub keys_for_iterator_prefix : ℕ
keys_for_iterator_prefix = 1

abbrev pub data_with_height_prefix : ℕ
data_with_height_prefix = 2

abbrev pub prefix_current_data_key : Bytes → Bytes
prefix_current_data_key key = current_data_prefix ∷ key

abbrev pub prefix_keys_for_iterator_key : Bytes → Bytes
prefix_keys_for_iterator_key key = keys_for_iterator_prefix ∷ key

abbrev pub prefix_data_with_height_key : Bytes → Bytes
prefix_data_with_height_key key = data_with_height_prefix ∷ key

unfoldable pub serialize_height : Mode → ℤ → Bytes
serialize_height asc height = uint_to_big_endian (to_u64 height)
serialize_height desc height = uint_to_big_endian (max_uint64 - to_u64 height)

-- the branches of `deserializeHeight` on the decoded number
decode_height : Mode → ℕ → ℤ
decode_height asc n = to_i64 n
decode_height desc n = to_i64 (max_uint64 - n)

unfoldable pub deserialize_height : Mode → Bytes → Result ℤ
unfolding decode_height
deserialize_height mode bytes = elim (big_endian_to_uint bytes) [
  | err e ↦ err e
  | ok n ↦ ok (decode_height mode n)
]
