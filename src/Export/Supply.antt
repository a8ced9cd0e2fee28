-- ===== src/Export/Supply.antt =====
-- The circulating supply: what is not in the community pool and does not vest.
use mantlemint.Prelude.{
  ℤ, pos, ◌+ℤ◌, ◌-ℤ◌, int_laws, List, [], ◌∷◌, ok, err, Error, ◌≡◌, refl, ◌⊎◌, inl, inr,
  Result-cases, Bool, ap, ◌∙◌, true, false, if◌then◌else◌,
}
use mantlemint.Export.{
  Keepers, Kind, periodic, continuous, delayed, permanent, base, unknown, add_coins, add_vesting,
  total_vesting, export_circulating_supply,
}

-- the types of accounts that vest
abbrev pub vests : Kind → Bool
vests base = false
vests unknown = false
vests _ = true

-- what is kept back of the coins of an account
abbrev pub kept : Kind → ℤ → ℤ
kept kind coins = if vests kind then coins else pos 0

plus_zero : (total : ℤ) → total ≡ total +ℤ pos 0
plus_zero total = omega int_laws

add_coins-kept :
    (kind : Kind) (coins total : ℤ) → add_coins kind coins total ≡ total +ℤ kept kind coins
unfolding add_coins
add_coins-kept periodic coins total = refl
add_coins-kept continuous coins total = refl
add_coins-kept delayed coins total = refl
add_coins-kept permanent coins total = refl
add_coins-kept base coins total = plus_zero total
add_coins-kept unknown coins total = plus_zero total

regroup : (a b c : ℤ) → a +ℤ b +ℤ c ≡ a +ℤ (b +ℤ c)
regroup a b c = omega int_laws

module _ (k : Keepers) where
  -- the sum of what the accounts keep back
  abbrev pub locked : List k.Account → ℤ
  locked [] = pos 0
  locked (account ∷ accounts) = kept (k.kind account) (k.vesting_coins account) +ℤ locked accounts

  total_vesting-locked :
      (accounts : List k.Account) (total : ℤ)
      → total_vesting k accounts total ≡ total +ℤ locked accounts
  unfolding total_vesting add_vesting
  total_vesting-locked [] total = plus_zero total
  total_vesting-locked (account ∷ accounts) total =
      total_vesting-locked accounts (add_vesting k account total)
      ∙ ap (λ z. z +ℤ locked accounts)
          (add_coins-kept (k.kind account) (k.vesting_coins account) total)
      ∙ regroup total (kept (k.kind account) (k.vesting_coins account)) (locked accounts)

  balanced : (supply pool lock : ℤ) → supply -ℤ pool -ℤ (pos 0 +ℤ lock) +ℤ pool +ℤ lock ≡ supply
  balanced supply pool lock = omega int_laws

  -- Where the bank and the distribution keepers answer, the circulating supply is exported, and with the
  -- community pool and what the accounts of the four vesting types still have to vest it makes the
  -- whole supply. Where one of them returns an error, the export returns the error, the bank's first.
  pub export_circulating_supply_lem :
      ((supply : ℤ) × (pool : ℤ) × (circulating : ℤ) × (k.supply_of ≡ ok supply)
        × (k.community_pool ≡ ok pool)
        × (export_circulating_supply k ≡ ok circulating)
        × (circulating +ℤ pool +ℤ locked k.accounts ≡ supply))
      ⊎ ((e : Error) × (export_circulating_supply k ≡ err e)
          × ((k.supply_of ≡ err e)
              ⊎ ((supply : ℤ) × (k.supply_of ≡ ok supply) × (k.community_pool ≡ err e))))
  unfolding export_circulating_supply
  export_circulating_supply_lem = elim (Result-cases k.supply_of) [
    | inr (e, f) ↦ inr (e, rw f refl, inl f)
    | inl (supply, f) ↦ elim (Result-cases k.community_pool) [
      | inr (e, h) ↦ inr (e, rw (f, h) refl, inr (supply, f, h))
      | inl (pool, h) ↦ inl (
        supply,
        pool,
        supply -ℤ pool -ℤ total_vesting k k.accounts (pos 0),
        f,
        h,
        rw (f, h) refl,
        ap (λ z. supply -ℤ pool -ℤ z +ℤ pool +ℤ locked k.accounts)
              (total_vesting-locked k.accounts (pos 0))
            ∙ balanced supply pool (locked k.accounts),
      )
    ]
  ]
