-- ===== src/Heleveldb/History.antt =====
-- The abstract view of the driver: a history of committed blocks, the newest first, each with its
-- height and its writes, the newest first.
use mantlemint.Prelude.{
  ℕ, ◌≤◌, ◌<◌, ◌^◌, ◌≡◌, refl, Bool, true, Option, none, some, List, [], ◌∷◌, All, arith, leb, ltb,
  ◌==◌, if◌then◌else◌,
}
use mantlemint.Bytes.{Bytes}
use mantlemint.Bytes.Order.{bytes_eq_iff}
use mantlemint.Tmdb.{Op, last_op}

abbrev pub History : Type 0
History = List (ℕ × List Op)

abbrev pub or_else : Option (Option Bytes) → Option (Option Bytes) → Option (Option Bytes)
or_else (some v) w = some v
or_else none w = w

-- What a key holds right after the block at height `h`: its newest write at a height up to `h`.
unfoldable pub read_spec : History → ℕ → Bytes → Option Bytes
read_spec [] h k = none
read_spec ((height, ops) ∷ older) h k =
    let before = read_spec older h k in
    if leb height h then (elim (last_op ops k) [ none ↦ before | some v ↦ v ]) else before

-- The write of a key at the height `h` itself.
unfoldable pub version : History → Bytes → ℕ → Option (Option Bytes)
version [] k h = none
version ((height, ops) ∷ older) k h =
    let before = version older k h in if height == h then or_else (last_op ops k) before else before

-- The newest write of a key.
unfoldable pub newest : History → Bytes → Option (Option Bytes)
newest [] k = none
newest ((height, ops) ∷ older) k = or_else (last_op ops k) (newest older k)

-- The heights do not rise from the newest block on, and lie in 1 .. 2 ^ 56 - 1.
abbrev pub IsDescending : History → Type 0
IsDescending [] = Unit
IsDescending ((height, ops) ∷ older) =
    (0 < height) × (height < 2 ^ 56) × All (λ b. b.0 ≤ height) older × IsDescending older

-- Two keys of which one goes on where the other ends, with the byte 255, clash: the height suffixes
-- of one look like versions of the other.
unfoldable pub no_clash : Bytes → Bytes → Bool
no_clash [] [] = true
no_clash [] (b ∷ key) = ltb b 255
no_clash (b ∷ k) [] = ltb b 255
no_clash (a ∷ k) (b ∷ key) = if a == b then no_clash k key else true

abbrev pub OpsApart : List Op → Bytes → Type 0
OpsApart ops key = All (λ op. no_clash op.key key ≡ true) ops

-- No key that the history writes clashes with `key`.
abbrev pub IsApart : History → Bytes → Type 0
IsApart [] key = Unit
IsApart ((height, ops) ∷ older) key = OpsApart ops key × IsApart older key

last_op-no_clash :
    (ops : List Op) (k key : Bytes) (v : Option Bytes)
    → OpsApart ops key
    → last_op ops k ≡ some v
    → no_clash k key ≡ true
unfolding last_op
last_op-no_clash [] k key v a e = cc
last_op-no_clash (op ∷ ops) k key v a e =
    ground (arith, bytes_eq_iff op.key k, a.0, last_op-no_clash ops k key v a.1)

pub version-no_clash :
    (hist : History) (k key : Bytes) (h : ℕ) (v : Option Bytes)
    → IsApart hist key
    → version hist k h ≡ some v
    → no_clash k key ≡ true
unfolding version
version-no_clash [] k key h v a e = cc
version-no_clash ((height, ops) ∷ older) k key h v a e =
    ground (arith, last_op-no_clash ops k key v a.0, version-no_clash older k key h v a.1)

pub version-le :
    (hist : History) (k : Bytes) (h n : ℕ) (v : Option Bytes)
    → All (λ b. b.0 ≤ n) hist
    → version hist k h ≡ some v
    → h ≤ n
unfolding version
version-le [] k h n v a e = cc
version-le ((height, ops) ∷ older) k h n v a e = ground (arith, a.0, version-le older k h n v a.1)

pub version-bound :
    (hist : History) (k : Bytes) (h : ℕ) (v : Option Bytes)
    → IsDescending hist
    → version hist k h ≡ some v
    → h < 2 ^ 56
unfolding version
version-bound [] k h v d e = cc
version-bound ((height, ops) ∷ older) k h v d e = ground (arith, d.1, version-bound older k h v d.3)

-- With no version up to `h` there is nothing to read.
pub read_spec_absent :
    (hist : History) (k : Bytes) (h : ℕ)
    → ((n : ℕ) → n ≤ h → version hist k n ≡ none)
    → read_spec hist h k ≡ none
unfolding version read_spec
read_spec_absent [] k h a = refl
read_spec_absent ((height, ops) ∷ older) k h a =
    ground (arith, a height, read_spec_absent older k h (λ n l. ground (arith, a n l)))

-- The newest version up to `h` is what is read.
pub read_spec_newest :
    (hist : History) (k : Bytes) (h n : ℕ) (v : Option Bytes)
    → IsDescending hist
    → n ≤ h
    → version hist k n ≡ some v
    → ((m : ℕ) → n < m → m ≤ h → version hist k m ≡ none)
    → read_spec hist h k ≡ v
unfolding version read_spec
read_spec_newest [] k h n v d l e a = cc
read_spec_newest ((height, ops) ∷ older) k h n v d l e a = ground (
  arith,
  a height,
  d.1,
  version-le older k n height v d.2,
  λ (e' : version older k n ≡ some v).
      read_spec_newest older k h n v d.3 l e' (λ m p q. ground (arith, a m p q)),
)
