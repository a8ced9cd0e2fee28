-- ===== src/Prelude/Families.antt =====
-- Families over the natural numbers and over byte strings: an update in one place, and sums over the
-- first indices.
use Prim.Native.Nat.{ℕ, zero, suc, ◌+◌, ◌*◌, ◌≤◌, ◌<◌}
use mathlib.Core.Path.{◌≡◌, refl}
use mathlib.Core.Logic.{inl, inr}
use native.Mathlib.Omega.{arith}
use mantlemint.Prelude.Tests.{◌==◌, ltb, if◌then◌else◌, Bool-cases, ltb→lt}

abbrev pub set_at : {A : Type 0} → (ℕ → A) → ℕ → A → ℕ → A
set_at f i a j = if i == j then a else f j

abbrev pub sum_below : {A : Type 0} → (A → ℕ) → ℕ → (ℕ → A) → ℕ
sum_below w zero f = 0
sum_below w (suc n) f = sum_below w n f + w (f n)

module _ {A : Type 0} (w : A → ℕ) where
  sum-set_above :
      (n : ℕ) (f : ℕ → A) (i : ℕ) (a : A) → n ≤ i → sum_below w n (set_at f i a) ≡ sum_below w n f
  sum-set_above zero f i a h = refl
  sum-set_above (suc n) f i a h = ground (arith, sum-set_above n f i a)

  -- the sum after a change in one place
  pub sum-set_at :
      (n : ℕ) (f : ℕ → A) (i : ℕ) (a : A)
      → i < n
      → sum_below w n (set_at f i a) + w (f i) ≡ sum_below w n f + w a
  sum-set_at zero f i a h = absurd (omega arith)
  sum-set_at (suc n) f i a h = elim (Bool-cases (ltb i n)) [
    | inl below ↦ ground (arith, sum-set_at n f i a (ltb→lt i n below))
    | inr last ↦ ground (arith, sum-set_above n f i a)
  ]

  pub sum-zero : (n : ℕ) (f : ℕ → A) → ((i : ℕ) → w (f i) ≡ 0) → sum_below w n f ≡ 0
  sum-zero zero f h = refl
  sum-zero (suc n) f h = omega (arith, sum-zero n f h, h n)

  -- a positive sum has a positive term
  pub sum-positive : (n : ℕ) (f : ℕ → A) → 0 < sum_below w n f → (i : ℕ) × (i < n) × (0 < w (f i))
  sum-positive zero f h = absurd (omega arith)
  sum-positive (suc n) f h = elim (Bool-cases (ltb 0 (w (f n)))) [
    | inl here ↦ (n, omega arith, ltb→lt 0 (w (f n)) here)
    | inr there ↦ let (i, l, p) = sum-positive n f (ground arith) in (i, omega arith, p)
  ]

  -- the terms of a sum that is 0
  pub sum-zero_inv : (n : ℕ) (f : ℕ → A) (i : ℕ) → i < n → sum_below w n f ≡ 0 → w (f i) ≡ 0
  sum-zero_inv zero f i l h = absurd (omega arith)
  sum-zero_inv (suc n) f i l h = elim (Bool-cases (i == n)) [
    | inl e ↦ ground arith
    | inr e ↦ ground (arith, sum-zero_inv n f i)
  ]

  pub sum-constant : (n : ℕ) (a : A) → sum_below w n (λ _. a) ≡ w a * n
  sum-constant zero a = ground arith
  sum-constant (suc n) a = ground (arith, sum-constant n a)

  -- a term is at most the sum
  pub sum-term : (n : ℕ) (f : ℕ → A) (i : ℕ) → i < n → w (f i) ≤ sum_below w n f
  sum-term zero f i l = absurd (omega arith)
  sum-term (suc n) f i l = elim (Bool-cases (i == n)) [
    | inl e ↦ ground arith
    | inr e ↦ ground (arith, sum-term n f i)
  ]
