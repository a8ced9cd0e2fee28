-- ===== src/Bytes.antt =====
-- lib/bytes.go, over byte slices as lists of numbers, and `bytes.Equal` and `bytes.Compare` of Go's
-- library, which the database orders its keys by.
pub mod Order
pub mod BigEndian
mod Tests
use mantlemint.Prelude.{
  ℕ, zero, suc, ◌+◌, ◌*◌, ◌/◌, ◌%◌, ◌^◌, Bool, true, false, ◌&&◌, ltb, ◌==◌, if◌then◌else◌, List,
  [], ◌∷◌, ◌++◌, length, take, Result, ok, err, panic,
}

abbrev pub Bytes : Type 0
Bytes = List ℕ

-- `bytes.Equal`
unfoldable pub bytes_eq : Bytes → Bytes → Bool
bytes_eq [] [] = true
bytes_eq [] (y ∷ ys) = false
bytes_eq (x ∷ xs) [] = false
bytes_eq (x ∷ xs) (y ∷ ys) = (x == y) && bytes_eq xs ys

-- `bytes.Compare(a, b) < 0`: the lexicographic order
unfoldable pub bytes_lt : Bytes → Bytes → Bool
bytes_lt [] [] = false
bytes_lt [] (y ∷ ys) = true
bytes_lt (x ∷ xs) [] = false
bytes_lt (x ∷ xs) (y ∷ ys) = if x == y then bytes_lt xs ys else ltb x y

-- ConcatBytes
unfoldable pub concat_bytes : List Bytes → Bytes
concat_bytes [] = []
concat_bytes (item ∷ items) = item ++ concat_bytes items

-- the `w` low bytes of a number, the highest first
unfoldable pub be_bytes : ℕ → ℕ → Bytes
be_bytes zero n = []
be_bytes (suc w) n = ((n / 256 ^ w) % 256) ∷ be_bytes w (n % 256 ^ w)

unfoldable pub be_value : Bytes → ℕ
be_value [] = 0
be_value (x ∷ xs) = x * 256 ^ length xs + be_value xs

-- UintToBigEndian
unfoldable pub uint_to_big_endian : ℕ → Bytes
unfolding be_bytes
uint_to_big_endian n = be_bytes 8 n

-- BigEndianToUint: `binary.BigEndian.Uint64` panics on fewer than eight bytes
unfoldable pub big_endian_to_uint : Bytes → Result ℕ
unfolding be_value
big_endian_to_uint n = if ltb (length n) 8 then err panic else ok (be_value (take 8 n))
