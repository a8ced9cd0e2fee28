-- ===== src/Hld/Limited.antt =====
-- db/hld/height_limited_iterator.go: a wrapper of an iterator, which nothing constructs. The iterator
-- that it wraps is a parameter; Error and Close only pass on.
use mantlemint.Prelude.{
  ℤ, pos, negsuc, ◌-ℤ◌, leb, Bool, Option, [], take, length, Result, ok, err, panic, bind, ◌≡◌,
  refl, inl, inr, Error, Result-cases, if◌then◌else◌,
}
use mantlemint.Bytes.{Bytes}

-- The iterator that is wrapped, as far as it is used: its methods at a state.
pub record Wrapped : Type 1 where
  pub State : Type 0
  pub domain : State → Option Bytes × Option Bytes
  pub valid : State → Bool
  pub next : State → Result State
  pub key : State → Result Bytes
  pub value : State → Result Bytes

-- `b[:n]` panics for an `n` that is negative or above the capacity, which is the length here
unfoldable pub slice_to : Bytes → ℤ → Result Bytes
slice_to b (negsuc n) = err panic
slice_to b (pos n) = if leb n (length b) then ok (take n b) else err panic

module _ (w : Wrapped) where
  pub record LimitedIterator : Type 0 where
    pub oit : w.State
    pub at_height : ℤ

  -- NewHeightLimitedIterator
  unfoldable pub new_height_limited_iterator : ℤ → w.State → LimitedIterator
  new_height_limited_iterator at_height oit = record { oit = oit; at_height = at_height }

  unfoldable pub domain : LimitedIterator → Option Bytes × Option Bytes
  domain h = w.domain h.oit

  unfoldable pub valid : LimitedIterator → Bool
  valid h = w.valid h.oit

  unfoldable pub next : LimitedIterator → Result LimitedIterator
  next h = bind (w.next h.oit) λ oit. ok (record h { oit = oit })

  -- Key cuts `len(key)-9`, where `key` is its own result, still nil
  unfoldable pub key : LimitedIterator → Result Bytes
  unfolding slice_to
  key h =
      let named : Bytes = [] in
      bind (w.key h.oit) λ whole. slice_to whole (pos (length named) -ℤ pos 9)

  unfoldable pub value : LimitedIterator → Result Bytes
  value h = w.value h.oit

  -- Key returns no key: it fails as the key of the wrapped iterator does, or panics.
  key_fails : (h : LimitedIterator) → (e : Error) × (key h ≡ err e)
  unfolding key slice_to ◌-ℤ◌
  key_fails h = elim (Result-cases (w.key h.oit)) [
    | inl (whole, f) ↦ (panic, rw f refl)
    | inr (e, f) ↦ (e, rw f refl)
  ]
