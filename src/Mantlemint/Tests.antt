-- ===== src/Mantlemint/Tests.antt =====
-- A chain of numbers: a negative block cannot be applied, and every other one becomes the next state.
use mantlemint.Prelude.{
  inr, ℕ, arith, ℤ, pos, negsuc, ◌≡◌, refl, Option, none, List, [], ◌∷◌, Result, ok, err, io,
}
use mantlemint.Mantlemint.Events.{Event, tx}
use mantlemint.Mantlemint.Reactor.{Tendermint, Instance}
use mantlemint.Mantlemint.Client.{deliver_tx, query, now, guard_of, guard_of_method}
use mantlemint.Mantlemint.Exclusion.{Shared, Reach, here, next, start, enter, application_exclusive}

-- the state is the last block, and the database the list of the blocks
abbrev toy_apply : ℤ → ℤ → List ℤ → Result (ℤ × ℤ) × (List (Event ℤ ℕ ℕ) × List ℤ)
toy_apply state (pos n) db = (ok (pos n, pos 0), (tx n ∷ [], pos n ∷ db))
toy_apply state (negsuc n) db = (err (io n), ([], db))

abbrev toy : Tendermint (List ℤ)
toy = record {
  Block = ℤ;
  BlockId = ℤ;
  State = ℤ;
  Genesis = ℤ;
  Response = ℕ;
  TxResult = ℕ;
  block_id = λ b. b;
  with_app_hash = λ b s. s;
  with_empty_results_hash = λ s. s;
  last_block_height = λ s. s;
  initial_height = λ s. pos 1;
  load_state = λ db. ok (pos 0);
  make_genesis_state = λ g. ok g;
  replay_blocks = λ g s db. (ok tt, db);
  apply_block = λ s id b db. toy_apply s b db;
}

abbrev accept : ℤ → Result (Unit {0})
accept b = ok tt

abbrev at_five : Option (ℤ → Result (Unit {0})) → Instance toy
at_five run = record {
  last_state = pos 5;
  last_height = pos 5;
  last_block = none;
  evc = none;
  run_before = run;
  run_after = none;
}

-- goroutine 0 delivers a transaction while goroutine 1 answers a query
abbrev both_inside : (s : Shared) × Reach 2 s
unfolding guard_of guard_of_method
both_inside = (
  _,
  next
      (next
        (next (next here (start 0 (now deliver_tx) (omega arith) refl))
          (start 1 (now query) (omega arith) refl))
        (enter 0 (now deliver_tx) (omega arith) refl refl))
      (enter 1 (now query) (omega arith) refl refl),
)

application_exclusive_example : query ≡ query
unfolding guard_of guard_of_method both_inside
application_exclusive_example =
    application_exclusive 2 both_inside.0 0 1 (now deliver_tx) (now query) deliver_tx query
      both_inside.1 (omega arith) (omega arith) (λ e. omega (arith, e)) refl (inr refl) (λ e. cc)
      (λ e. cc) refl (inr refl)
