-- ===== src/Export/Tests.antt =====
-- Keepers with three accounts, and two requests.
use mantlemint.Prelude.{
  ℕ, zero, suc, ℤ, pos, ◌+ℤ◌, ◌-ℤ◌, ◌≤◌, ◌==◌, ◌≡◌, refl, ◌⊎◌, false, none, [], ◌∷◌, ok, err, Error,
}
use mantlemint.Export.{
  Keepers, Kind, continuous, base, unknown, export_circulating_supply, total_vesting, add_vesting,
  add_coins, accounts_csv, account_rows, row, put_row, join,
}
use mantlemint.Export.Supply.{locked, export_circulating_supply_lem}
use mantlemint.Export.Workers.{
  start_worker, end_worker, idle, at_rest, next, accepted, finished, Reaches, one_worker,
  exports_overlap,
}

abbrev kind_of : ℕ → Kind
kind_of zero = continuous
kind_of (suc zero) = base
kind_of (suc (suc _)) = unknown

abbrev keepers : Keepers
keepers = record {
  Account = ℕ;
  Delegation = ℕ;
  kind = kind_of;
  accounts = 0 ∷ 1 ∷ 2 ∷ [];
  address = λ a. a ∷ [];
  vesting_coins = λ a. pos 30;
  delegated_free = λ a. pos 2;
  balance = λ a. pos 5;
  total_rewards = λ a. ok (pos 1);
  delegations = λ a. [];
  validator_tokens = λ d. none;
  unbonding = λ a. (pos 4 ∷ []) ∷ [];
  supply_of = ok (pos 100);
  community_pool = ok (pos 20);
  print_row = λ a vested vesting. a;
}

supply_exported : export_circulating_supply keepers ≡ ok (pos 50)
unfolding export_circulating_supply total_vesting add_vesting add_coins ◌-ℤ◌ ◌+ℤ◌
supply_exported = refl

csv_exported : accounts_csv keepers ≡ ok (0 ∷ 10 ∷ 1 ∷ [])
unfolding accounts_csv account_rows row put_row join
csv_exported = refl

export_circulating_supply_lem_example :
    ((supply : ℤ) × (pool : ℤ) × (circulating : ℤ) × (ok (pos 100) ≡ ok supply)
      × (ok (pos 20) ≡ ok pool)
      × (export_circulating_supply keepers ≡ ok circulating)
      × (circulating +ℤ pool +ℤ locked keepers keepers.accounts ≡ supply))
    ⊎ ((e : Error) × (export_circulating_supply keepers ≡ err e)
        × ((ok (pos 100) ≡ err e)
            ⊎ ((supply : ℤ) × (ok (pos 100) ≡ ok supply) × (ok (pos 20) ≡ err e))))
export_circulating_supply_lem_example = export_circulating_supply_lem keepers

one_worker_example : (0 ≤ 1) × (false ≡ (0 == 1))
unfolding start_worker end_worker
one_worker_example = one_worker idle (next (next at_rest (accepted refl)) (finished 0 refl))

exports_overlap_example : Reaches idle (record { running = false; passed = 0; workers = 2 })
exports_overlap_example = exports_overlap 2
