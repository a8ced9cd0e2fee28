-- ===== src/Bytes/BigEndian.antt =====
-- The big-endian form of a number: it has its width, its order is that of the numbers, and it is
-- read back.
use native.Mathlib.Nat.{mod-lt, mod-eq_of_lt, one-le-pow, pow-suc}
use native.Mathlib.Decide.{dec_lt}
use mantlemint.Bytes.Order.{bytes_lt_irrefl, bytes_lt_asymm}
use mantlemint.Prelude.{
  sym, ◌∙◌, lt→ltb, ltb_irrefl, ◌⊎◌, ℕ, zero, suc, ◌+◌, ◌*◌, ◌/◌, ◌%◌, ◌^◌, ◌<◌, ◌≡◌, refl, true,
  ap, length, arith, ok, ltb,
}
use mantlemint.Bytes.{be_bytes, be_value, uint_to_big_endian, big_endian_to_uint, bytes_lt}

pub length-be_bytes : (w n : ℕ) → length (be_bytes w n) ≡ w
unfolding be_bytes
length-be_bytes zero n = refl
length-be_bytes (suc w) n = ap suc (length-be_bytes w (n % 256 ^ w))

pow_pos : (w : ℕ) → 0 < 256 ^ w
pow_pos w = one-le-pow w 256 (omega arith)

module _ (a P : ℕ) (positive : 0 < P) where
  digit_lt : a < P * 256 → a / P < 256
  digit_lt h = grind arith

  digits_eq : a / P * P + a % P ≡ a
  digits_eq = grind arith

  digits_lt : (b : ℕ) → a < b → (a / P < b / P) ⊎ ((a / P ≡ b / P) × (a % P < b % P))
  digits_lt b h = grind arith

-- The number is read back from its low bytes.
pub be_value-be_bytes : (w n : ℕ) → n < 256 ^ w → be_value (be_bytes w n) ≡ n
unfolding be_bytes be_value
be_value-be_bytes zero n h = omega arith
be_value-be_bytes (suc w) n h =
    let small : n / 256 ^ w < 256 = digit_lt n (256 ^ w) (pow_pos w) (rw (← pow-suc 256 w) h) in
    let rest : n % 256 ^ w < 256 ^ w = mod-lt n (pow_pos w) in
    rw (length-be_bytes w (n % 256 ^ w), be_value-be_bytes w (n % 256 ^ w) rest, mod-eq_of_lt small)
      (digits_eq n (256 ^ w) (pow_pos w))

pub be_bytes_lt : (w a b : ℕ) → a < b → b < 256 ^ w → bytes_lt (be_bytes w a) (be_bytes w b) ≡ true
unfolding be_bytes bytes_lt
be_bytes_lt zero a b h k = absurd (omega arith)
be_bytes_lt (suc w) a b h k =
    let small : b / 256 ^ w < 256 = digit_lt b (256 ^ w) (pow_pos w) (rw (← pow-suc 256 w) k) in
    let rest : b % 256 ^ w < 256 ^ w = mod-lt b (pow_pos w) in
    ground (arith, digits_lt a (256 ^ w) (pow_pos w) b h, be_bytes_lt w (a % 256 ^ w) (b % 256 ^ w))

-- Every uint64 is read back from its eight big-endian bytes.
pub big_endian_roundtrip : (n : ℕ) → n < 2 ^ 64 → big_endian_to_uint (uint_to_big_endian n) ≡ ok n
unfolding big_endian_to_uint uint_to_big_endian be_bytes
big_endian_roundtrip n h = ap ok (be_value-be_bytes 8 n h)

pub length-uint_to_big_endian : (n : ℕ) → length (uint_to_big_endian n) ≡ 8
unfolding uint_to_big_endian
length-uint_to_big_endian n = length-be_bytes 8 n

-- The keys of two uint64 stand in the order of the numbers.
pub bytes_lt-uint_to_big_endian :
    (a b : ℕ)
    → a < 2 ^ 64
    → b < 2 ^ 64
    → bytes_lt (uint_to_big_endian a) (uint_to_big_endian b) ≡ ltb a b
unfolding uint_to_big_endian
bytes_lt-uint_to_big_endian a b h k = elim (dec_lt a b) [
  | yes l ↦ be_bytes_lt 8 a b l k ∙ sym (lt→ltb a b l)
  | no l ↦ elim (dec_lt b a) [
    | yes g ↦ ground (arith, be_bytes_lt 8 b a g h, bytes_lt_asymm (be_bytes 8 b) (be_bytes 8 a))
    | no g ↦ let e : a ≡ b = omega arith in rw e (bytes_lt_irrefl (be_bytes 8 b) ∙ ltb_irrefl b)
  ]
]

pub uint_to_big_endian_injective :
    (a b : ℕ) → a < 2 ^ 64 → b < 2 ^ 64 → uint_to_big_endian a ≡ uint_to_big_endian b → a ≡ b
uint_to_big_endian_injective a b h k e =
    ground (arith, big_endian_roundtrip a h, big_endian_roundtrip b k)
