-- ===== src/Height.antt =====
-- db/hld/cluster_utils.go: heights, where 0 stands for the latest one.
use mantlemint.Prelude.{
  ℕ, ◌/◌, ◌-◌, ◌^◌, ℤ, pos, negsuc, eq_ℤ, Bool, Option, some, none, if◌then◌else◌, [], ◌∷◌, suc,
}
use mantlemint.Bytes.{Bytes}

-- `maxHeight`, the largest int64
abbrev pub max_height : ℤ
max_height = pos (2 ^ 63 - 1)

-- Cluster: Go's division truncates towards 0
unfoldable pub cluster : ℤ → ℤ
cluster (pos n) = pos (n / 1000)
cluster (negsuc n) = elim (suc n / 1000) [ ℕ.zero ↦ pos 0 | suc q ↦ negsuc q ]

unfoldable pub is_latest_height : ℤ → Bool
is_latest_height h = eq_ℤ h max_height

unfoldable pub current_or_latest : ℤ → ℤ
current_or_latest h = if eq_ℤ h (pos 0) then max_height else h

unfoldable pub current_or_never : ℤ → ℤ
current_or_never h = if eq_ℤ h (pos 0) then negsuc 0 else h

-- Key.CurrentOrDefault, where `none` is the nil slice
unfoldable pub current_or_default : Option Bytes → Bytes
current_or_default none = 0 ∷ []
current_or_default (some k) = k
