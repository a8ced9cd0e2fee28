-- ===== src/Heleveldb/Raw.antt =====
-- The entries that a block leaves in the three partitions of the session.
use mantlemint.Prelude.{
  ℕ, ◌-◌, ◌^◌, ◌<◌, ◌≡◌, refl, sym, ap, ◌&&◌, Option, none, some, List, [], ◌∷◌, ◌++◌, arith, ◌==◌,
  if◌then◌else◌, inl, inr, Bool-cases, length, length-append, max_uint64,
}
use mantlemint.Bytes.{Bytes, bytes_eq, uint_to_big_endian}
use mantlemint.Bytes.Order.{bytes_eq_iff}
use mantlemint.Bytes.BigEndian.{length-uint_to_big_endian, uint_to_big_endian_injective}
use mantlemint.Tmdb.{Op, last_op}

-- the height suffix of the descending mode, and the key of a version
abbrev pub suffix : ℕ → Bytes
suffix h = uint_to_big_endian (max_uint64 - h)

abbrev pub data_key : Bytes → ℕ → Bytes
data_key key h = 2 ∷ (key ++ suffix h)

-- the stored form of a write, and its mark in the keys partition
abbrev pub encode : Option Bytes → Bytes
encode none = 1 ∷ []
encode (some v) = 0 ∷ v

abbrev pub mark : Option Bytes → Bytes
mark none = 1 ∷ []
mark (some v) = []

unfoldable pub expand : ℕ → List Op → List Op
expand h [] = []
expand h (op ∷ older) =
    record { key = data_key op.key h; value = some (encode op.value) }
    ∷ record { key = 1 ∷ op.key; value = some (mark op.value) }
    ∷ record { key = 0 ∷ op.key; value = op.value }
    ∷ expand h older

append_right_injective :
    (xs ys s t : Bytes) → length s ≡ length t → xs ++ s ≡ ys ++ t → (xs ≡ ys) × (s ≡ t)
append_right_injective [] [] s t l e = (refl, e)
append_right_injective [] (y ∷ ys) s t l e = absurd (omega (arith, ap length e, length-append ys t))
append_right_injective (x ∷ xs) [] s t l e = absurd (omega (arith, ap length e, length-append xs s))
append_right_injective (x ∷ xs) (y ∷ ys) s t l e =
    ground (arith, append_right_injective xs ys s t l)

suffix_injective : (h n : ℕ) → h < 2 ^ 56 → n < 2 ^ 56 → suffix h ≡ suffix n → h ≡ n
suffix_injective h n lh ln e = omega (
  arith,
  uint_to_big_endian_injective (max_uint64 - h) (max_uint64 - n) (omega arith) (omega arith) e,
)

pub data_key_injective :
    (k key : Bytes) (h n : ℕ)
    → h < 2 ^ 56
    → n < 2 ^ 56
    → data_key k h ≡ data_key key n
    → (k ≡ key) × (h ≡ n)
data_key_injective k key h n lh ln e =
    let tail : k ++ suffix h ≡ key ++ suffix n = cc in
    let same : length (suffix h) ≡ length (suffix n) =
      rw (length-uint_to_big_endian, length-uint_to_big_endian) refl in
    let both = append_right_injective k key (suffix h) (suffix n) same tail in
    (both.0, suffix_injective h n lh ln both.1)

bytes_eq-data_key :
    (k key : Bytes) (h n : ℕ)
    → h < 2 ^ 56
    → n < 2 ^ 56
    → bytes_eq (data_key k h) (data_key key n) ≡ ((h == n) && bytes_eq k key)
bytes_eq-data_key k key h n lh ln = elim (Bool-cases (bytes_eq (data_key k h) (data_key key n))) [
  | inl e ↦
      let both = data_key_injective k key h n lh ln ((bytes_eq_iff _ _).0 e) in
      rw e (ground (arith, both, bytes_eq_iff k key))
  | inr e ↦
      rw e (ground (arith, e, bytes_eq_iff k key, bytes_eq_iff (data_key k h) (data_key key n)))
]

abbrev pub encoded : Option (Option Bytes) → Option (Option Bytes)
encoded none = none
encoded (some v) = some (some (encode v))

pub last_op-expand_data :
    (h : ℕ) (ops : List Op) (key : Bytes) (n : ℕ)
    → h < 2 ^ 56
    → n < 2 ^ 56
    → last_op (expand h ops) (data_key key n) ≡ (if h == n then encoded (last_op ops key) else none)
unfolding expand last_op bytes_eq
last_op-expand_data h [] key n lh ln = ground arith
last_op-expand_data h (op ∷ older) key n lh ln =
    ground (arith, bytes_eq-data_key op.key key h n lh ln, last_op-expand_data h older key n lh ln)

pub last_op-expand_current :
    (h : ℕ) (ops : List Op) (key : Bytes) → last_op (expand h ops) (0 ∷ key) ≡ last_op ops key
unfolding expand last_op bytes_eq
last_op-expand_current h [] key = refl
last_op-expand_current h (op ∷ older) key = ground (arith, last_op-expand_current h older key)

-- what the keys partition holds of a write
abbrev pub marked : Option (Option Bytes) → Option (Option Bytes)
marked none = none
marked (some v) = some (some (mark v))

pub last_op-expand_keys :
    (h : ℕ) (ops : List Op) (key : Bytes)
    → last_op (expand h ops) (1 ∷ key) ≡ marked (last_op ops key)
unfolding expand last_op bytes_eq
last_op-expand_keys h [] key = refl
last_op-expand_keys h (op ∷ older) key = ground (arith, last_op-expand_keys h older key)

-- A data entry of a block is a version of a key that the block writes.
pub expand_data_inv :
    (h : ℕ) (ops : List Op) (rest : Bytes) (v : Option Bytes)
    → last_op (expand h ops) (2 ∷ rest) ≡ some v
    → (k : Bytes) × (o : Option Bytes) × (rest ≡ k ++ suffix h) × (last_op ops k ≡ some o)
unfolding expand last_op bytes_eq
expand_data_inv h [] rest v e = cc
expand_data_inv h (op ∷ older) rest v e = elim (Bool-cases (bytes_eq (op.key ++ suffix h) rest)) [
  | inl here ↦ (
    op.key,
    op.value,
    sym ((bytes_eq_iff _ _).0 here),
    rw ((bytes_eq_iff op.key op.key).1 refl) refl,
  )
  | inr there ↦
      let (k, o, at, was) = expand_data_inv h older rest v (rw there at e) in
      elim (Bool-cases (bytes_eq op.key k)) [
        | inl e' ↦ (k, op.value, at, rw e' refl)
        | inr e' ↦ (k, o, at, rw e' was)
      ]
]
