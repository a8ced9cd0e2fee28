-- ===== src/Export.antt =====
-- export/export.go and client.go: the circulating supply, the list of accounts, and their routes. The
-- keepers of the SDK, what they answer at the last height, the print of a row and the texts are
-- parameters; the amounts of the SDK are integers without their bound.
pub mod Supply
pub mod Workers
mod Tests
use mantlemint.Prelude.{
  ℕ, ℤ, pos, ◌+ℤ◌, ◌-ℤ◌, Option, none, some, List, [], ◌∷◌, ◌++◌, Result, ok, err, Error, panic,
  bind, Bool, true, false, if◌then◌else◌,
}
use mantlemint.Bytes.{Bytes}

-- the types of accounts that the code tells apart, and the others
pub data Kind : Type 0 where
  periodic continuous delayed permanent base unknown : Kind

-- The keepers at the height of the context, for the denomination "uluna". `validator_tokens` is what
-- the shares of a delegation come to, if its validator is found; the entries of an unbonding delegation
-- are its amounts. `vested_free` is DelegatedFree. Amounts of decimal coins are truncated.
pub record Keepers : Type 1 where
  pub Account : Type 0
  pub Delegation : Type 0
  pub kind : Account → Kind
  pub accounts : List Account
  pub address : Account → Bytes
  pub vesting_coins : Account → ℤ
  pub delegated_free : Account → ℤ
  pub balance : Account → ℤ
  pub total_rewards : Account → Result ℤ
  pub delegations : Account → List Delegation
  pub validator_tokens : Delegation → Option ℤ
  pub unbonding : Account → List (List ℤ)
  pub supply_of : Result ℤ
  pub community_pool : Result ℤ
  pub print_row : Bytes → ℤ → ℤ → Bytes  -- "%s,%s,%s"

-- the switch on the type of an account
unfoldable pub add_coins : Kind → ℤ → ℤ → ℤ
add_coins periodic coins total = total +ℤ coins
add_coins continuous coins total = total +ℤ coins
add_coins delayed coins total = total +ℤ coins
add_coins permanent coins total = total +ℤ coins
add_coins base coins total = total
add_coins unknown coins total = total

-- `accounts = append(accounts, row)`, for the rows from the back
unfoldable pub put_row : Option Bytes → List Bytes → List Bytes
put_row none rows = rows
put_row (some r) rows = r ∷ rows

-- `strings.Join(accounts, "\n")`
unfoldable pub join : List Bytes → Bytes
join [] = []
join (r ∷ []) = r
join (r ∷ rs) = r ++ 10 ∷ join rs

module _ (k : Keepers) where
  open k use {Account}

  -- the callback of ExportCirculatingSupply, and the iteration with it
  unfoldable pub add_vesting : Account → ℤ → ℤ
  unfolding add_coins
  add_vesting account total = add_coins (k.kind account) (k.vesting_coins account) total

  unfoldable pub total_vesting : List Account → ℤ → ℤ
  total_vesting [] total = total
  total_vesting (account ∷ accounts) total = total_vesting accounts (add_vesting account total)

  -- ExportCirculatingSupply
  unfoldable pub export_circulating_supply : Result ℤ
  export_circulating_supply = bind k.supply_of λ supply.
      bind k.community_pool λ pool. ok (supply -ℤ pool -ℤ total_vesting k.accounts (pos 0))

  -- what the account of a user adds: the tokens of its delegations, and what is unbonding
  add_delegations : List k.Delegation → ℤ → ℤ
  add_delegations [] balance = balance
  add_delegations (d ∷ ds) balance = elim (k.validator_tokens d) [
    | none ↦ add_delegations ds balance
    | some tokens ↦ add_delegations ds (balance +ℤ tokens)
  ]

  add_entries : List ℤ → ℤ → ℤ
  add_entries [] balance = balance
  add_entries (entry ∷ entries) balance = add_entries entries (balance +ℤ entry)

  add_unbonding : List (List ℤ) → ℤ → ℤ
  unfolding add_entries
  add_unbonding [] balance = balance
  add_unbonding (ub ∷ ubs) balance = add_unbonding ubs (add_entries ub balance)

  -- the row of an account whose balance and rewards are `balance`, if its type has one
  unfoldable pub row : Account → ℤ → Option Bytes
  unfolding add_delegations add_unbonding
  row account balance =
      let vesting_row = some (
        k.print_row (k.address account) (balance +ℤ k.delegated_free account)
          (k.vesting_coins account)) in
      elim (k.kind account) [
        | periodic ↦ vesting_row
        | continuous ↦ vesting_row
        | delayed ↦ vesting_row
        | permanent ↦ vesting_row
        | base ↦ some (
            k.print_row (k.address account)
              (add_unbonding (k.unbonding account)
                (add_delegations (k.delegations account) balance))
              (pos 0))
        | unknown ↦ none
      ]

  -- the iteration of runAccountExportWorker: an error of the rewards is a panic
  unfoldable pub account_rows : List Account → Result (List Bytes)
  unfolding row put_row
  account_rows [] = ok []
  account_rows (account ∷ accounts) = elim (k.total_rewards account) [
    | err _ ↦ err panic
    | ok rewards ↦
        bind (account_rows accounts)
          λ rows. ok (put_row (row account (k.balance account +ℤ rewards)) rows)
  ]

  -- the contents of accounts.csv
  unfoldable pub accounts_csv : Result Bytes
  unfolding account_rows join
  accounts_csv = bind (account_rows k.accounts) λ rows. ok (join rows)

-- http.ResponseWriter: the first status counts, and the first write of a body without one is 200
pub record Written : Type 0 where
  pub status : Option ℕ
  pub body : Bytes

abbrev pub unwritten : Written
unwritten = record { status = none; body = [] }

abbrev pub write_header : ℕ → Written → Written
write_header code w = elim w.status [ none ↦ record w { status = some code } | some _ ↦ w ]

abbrev pub write_body : Bytes → Written → Written
write_body text w = let headed = write_header 200 w in record headed { body = headed.body ++ text }

-- The handlers of RegisterRESTRoutes, over what they export. `int_text` prints an amount, and the empty
-- `sdktypes.Int{}` for none.
module _ (error_text : Error → Bytes) (int_text : Option ℤ → Bytes) where
  after_error : {A : Type 0} → Result A → Written → Written
  after_error (ok _) w = w
  after_error (err e) w = write_body (error_text e) (write_header 409 w)

  unfoldable pub accounts_handler : Result (Unit {0}) → Written
  unfolding after_error
  accounts_handler exported = write_header 200 (after_error exported unwritten)

  amount : Result ℤ → Option ℤ
  amount (ok cs) = some cs
  amount (err _) = none

  unfoldable pub supply_handler : Result ℤ → Written
  unfolding after_error amount
  supply_handler exported =
      write_body (int_text (amount exported)) (write_header 200 (after_error exported unwritten))
