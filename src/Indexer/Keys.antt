-- ===== src/Indexer/Keys.antt =====
-- indexer/block/types.go, indexer/height/types.go, indexer/tx/types.go and indexer/richlist/types.go:
-- the keys of the index database.
use mantlemint.Prelude.{
  ℕ, zero, suc, ◌==◌, false, ◌^◌, ◌<◌, [], ◌∷◌, ◌++◌, ◌≡◌, ◌≢◌, refl, sym, ap, ◌∙◌, arith,
}
use mathlib.Core.List.{append-nil}
use mantlemint.Bytes.{Bytes, concat_bytes, uint_to_big_endian}
use mantlemint.Bytes.BigEndian.{uint_to_big_endian_injective}

-- "block/height:"
abbrev pub block_prefix : Bytes
block_prefix = 98 ∷ 108 ∷ 111 ∷ 99 ∷ 107 ∷ 47 ∷ 104 ∷ 101 ∷ 105 ∷ 103 ∷ 104 ∷ 116 ∷ 58 ∷ []

-- "lastKnownHeight"
abbrev pub last_known_height : Bytes
last_known_height =
    108 ∷ 97 ∷ 115 ∷ 116 ∷ 75 ∷ 110 ∷ 111 ∷ 119 ∷ 110 ∷ 72 ∷ 101 ∷ 105 ∷ 103 ∷ 104 ∷ 116 ∷ []

-- "tx/hash:"
abbrev pub tx_prefix : Bytes
tx_prefix = 116 ∷ 120 ∷ 47 ∷ 104 ∷ 97 ∷ 115 ∷ 104 ∷ 58 ∷ []

-- "tx/height:"
abbrev pub by_height_prefix : Bytes
by_height_prefix = 116 ∷ 120 ∷ 47 ∷ 104 ∷ 101 ∷ 105 ∷ 103 ∷ 104 ∷ 116 ∷ 58 ∷ []

-- "richlist/height:"
abbrev pub richlist_prefix : Bytes
richlist_prefix =
    114 ∷ 105 ∷ 99 ∷ 104 ∷ 108 ∷ 105 ∷ 115 ∷ 116 ∷ 47 ∷ 104 ∷ 101 ∷ 105 ∷ 103 ∷ 104 ∷ 116 ∷ 58 ∷ []

unfoldable pub block_key : ℕ → Bytes
unfolding concat_bytes
block_key height = concat_bytes (block_prefix ∷ uint_to_big_endian height ∷ [])

unfoldable pub height_key : Bytes
height_key = last_known_height

unfoldable pub tx_key : Bytes → Bytes
unfolding concat_bytes
tx_key hash = concat_bytes (tx_prefix ∷ hash ∷ [])

unfoldable pub by_height_key : ℕ → Bytes
unfolding concat_bytes
by_height_key height = concat_bytes (by_height_prefix ∷ uint_to_big_endian height ∷ [])

-- ":" stands between the height and the denomination
unfoldable pub richlist_key : ℕ → Bytes → Bytes
unfolding concat_bytes
richlist_key height denom =
    concat_bytes (richlist_prefix ∷ uint_to_big_endian height ∷ (58 ∷ []) ∷ denom ∷ [])

pub append_injective : (p a b : Bytes) → p ++ a ≡ p ++ b → a ≡ b
append_injective [] a b h = h
append_injective (x ∷ p) a b h = append_injective p a b (tail_eq _ _ h)
  where
    tail_eq : {x y : ℕ} (s t : Bytes) → x ∷ s ≡ y ∷ t → s ≡ t
    tail_eq s t h = cc

pub append_nil_injective : (a b : Bytes) → a ++ [] ≡ b ++ [] → a ≡ b
append_nil_injective a b h = sym (append-nil a) ∙ h ∙ append-nil b

-- Blocks at two different heights below 2 ^ 64 are kept under two keys, and so are their transactions.
pub height_keys_differ :
    (a b : ℕ)
    → a < 2 ^ 64
    → b < 2 ^ 64
    → a ≢ b
    → (block_key a ≢ block_key b) × (by_height_key a ≢ by_height_key b)
unfolding block_key by_height_key
height_keys_differ a b h k ne = (
  λ e. ne (
      uint_to_big_endian_injective a b h k
        (append_nil_injective _ _ (append_injective block_prefix _ _ e))),
  λ e. ne (
      uint_to_big_endian_injective a b h k
        (append_nil_injective _ _ (append_injective by_height_prefix _ _ e))),
)

byte : ℕ → Bytes → ℕ
byte i [] = 0
byte zero (b ∷ bs) = b
byte (suc i) (b ∷ bs) = byte i bs

apart : (i : ℕ) (a b : Bytes) → (byte i a == byte i b) ≡ false → a ≢ b
apart i a b h e = absurd (ground (arith, ap (byte i) e))

-- No two of the indexers write the same key, whatever the heights, the hash and the denomination.
pub keys_apart :
    (height height' height'' : ℕ) (hash denom : Bytes)
    → (block_key height ≢ tx_key hash)
      × (block_key height ≢ by_height_key height')
      × (block_key height ≢ height_key)
      × (block_key height ≢ richlist_key height'' denom)
      × (tx_key hash ≢ by_height_key height')
      × (tx_key hash ≢ height_key)
      × (tx_key hash ≢ richlist_key height'' denom)
      × (by_height_key height' ≢ height_key)
      × (by_height_key height' ≢ richlist_key height'' denom)
      × (height_key ≢ richlist_key height'' denom)
unfolding block_key tx_key by_height_key height_key richlist_key byte
keys_apart height height' height'' hash denom = (
  apart 0 _ _ refl,
  apart 0 _ _ refl,
  apart 0 _ _ refl,
  apart 0 _ _ refl,
  apart 4 _ _ refl,
  apart 0 _ _ refl,
  apart 0 _ _ refl,
  apart 0 _ _ refl,
  apart 0 _ _ refl,
  apart 0 _ _ refl,
)
