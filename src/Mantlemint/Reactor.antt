-- ===== src/Mantlemint/Reactor.antt =====
-- mantlemint/reactor.go: the instance that blocks are injected to. The types and the block executor of
-- Tendermint, and the database that the executor writes to, are parameters.
use mantlemint.Prelude.{
  ℤ, pos, eq_ℤ, ◌-ℤ◌, not, Option, none, some, List, Result, ok, err, Exec, panic, if◌then◌else◌,
}
use mantlemint.Mantlemint.Events.{EventCollector, Event, new_event_collector, publish_all}

-- What the reactor uses of Tendermint and of its database.
pub record Tendermint (Db : Type 0) : Type 1 where
  pub Block : Type 0
  pub BlockId : Type 0
  pub State : Type 0
  pub Genesis : Type 0
  pub Response : Type 0
  pub TxResult : Type 0
  pub block_id : Block → BlockId
  pub with_app_hash : Block → State → State  -- the state with the app hash of the block's header
  pub with_empty_results_hash : State → State
  pub last_block_height : State → ℤ
  pub initial_height : State → ℤ
  pub load_state : Db → Result State
  pub make_genesis_state : Genesis → Result State
  pub replay_blocks : Genesis → State → Exec Db Unit
  -- ApplyBlock: the next state and the height to retain from, and what is published meanwhile
  pub apply_block :
      State
      → BlockId
      → Block
      → Db
      → Result (State × ℤ) × (List (Event Block Response TxResult) × Db)

module _ {Db : Type 0} (t : Tendermint Db) where
  open t use {Block, State, Genesis}

  abbrev pub Evc : Type 0
  Evc = EventCollector Block t.Response t.TxResult

  pub record Instance : Type 0 where
    pub last_state : State
    pub last_height : ℤ
    pub last_block : Option Block
    pub evc : Option Evc
    pub run_before : Option (Block → Result (Unit {0}))
    pub run_after : Option (Block → Evc → Result (Unit {0}))

  abbrev pub Node : Type 0
  Node = Instance × Db

  -- NewMantlemint, which panics if no state can be loaded
  unfoldable pub new_mantlemint :
      Db
      → Option (Block → Result (Unit {0}))
      → Option (Block → Evc → Result (Unit {0}))
      → Result Instance
  new_mantlemint db run_before run_after = elim (t.load_state db) [
    | err e ↦ err panic
    | ok last_state ↦ ok (record {
      last_state = last_state;
      last_height = t.last_block_height last_state;
      last_block = none;
      evc = none;
      run_before = run_before;
      run_after = run_after;
    })
  ]

  -- Init from the genesis state on
  unfoldable pub replayed : Instance → Result (Unit {0}) × Db → Result (Unit {0}) × Node
  replayed mm (r, db) = (r, (mm, db))

  unfoldable pub init_from : Genesis → Result State → Exec Node Unit
  unfolding replayed
  init_from genesis (err e) n = (err e, n)
  init_from genesis (ok genstate) (mm, db) =
      replayed (record mm { last_state = genstate }) (t.replay_blocks genesis genstate db)

  unfoldable pub init : Genesis → Exec Node Unit
  unfolding init_from
  init genesis (mm, db) =
      if eq_ℤ mm.last_height (pos 0)
      then init_from genesis (t.make_genesis_state genesis) (mm, db)
      else (ok tt, (mm, db))

  -- LoadInitialState
  unfoldable pub load_from : Result State → Exec Node Unit
  load_from (err e) n = (err e, n)
  load_from (ok last_state) (mm, db) =
      let state =
        if eq_ℤ mm.last_height (pos 0) then t.with_empty_results_hash last_state else last_state in
      (ok tt, (record mm { last_state = state }, db))

  unfoldable pub load_initial_state : Exec Node Unit
  unfolding load_from
  load_initial_state (mm, db) = load_from (t.load_state db) (mm, db)

  -- safeRunBefore and safeRunAfter; the second tests `runBefore`, and calls `runAfter` without a test
  unfoldable pub safe_run_before : Instance → Block → Result (Unit {0})
  safe_run_before mm block = elim mm.run_before [ none ↦ ok tt | some run ↦ run block ]

  call_after : Option (Block → Evc → Result (Unit {0})) → Block → Evc → Result (Unit {0})
  call_after none block evc = err panic
  call_after (some run) block evc = run block evc

  unfoldable pub safe_run_after : Instance → Block → Evc → Result (Unit {0})
  unfolding call_after
  safe_run_after mm block evc = elim mm.run_before [
    | none ↦ ok tt
    | some _ ↦ call_after mm.run_after block evc
  ]

  -- Inject from the result of ApplyBlock on
  abbrev pub new_evc : Evc
  new_evc = new_event_collector Block t.Response t.TxResult

  unfoldable pub applied :
      Block
      → Instance
      → Result (State × ℤ) × (List (Event Block t.Response t.TxResult) × Db)
      → Result (Unit {0}) × Node
  applied block mm (err e, (events, db)) =
      (err e, (record mm { evc = some (publish_all _ _ _ new_evc events) }, db))
  applied block mm (ok (next_state, retain_height), (events, db)) =
      let evc = publish_all _ _ _ new_evc events in
      let mm' : Instance = record mm {
        evc = some evc;
        last_block = some block;
        last_state = next_state;
        last_height = retain_height;
      } in
      (safe_run_after mm' block evc, (mm', db))

  -- Inject from the result of the callback before the block on
  unfoldable pub run_block : Result (Unit {0}) → State → Block → Exec Node Unit
  unfolding applied
  run_block (err e) current block n = (err e, n)
  run_block (ok _) current block (mm, db) =
      applied block mm (t.apply_block current (t.block_id block) block db)

  unfoldable pub inject : Block → Exec Node Unit
  unfolding run_block
  inject block (mm, db) =
      let current_state = t.with_app_hash block mm.last_state in
      let mm' : Instance = record mm { evc = some new_evc } in
      run_block (safe_run_before mm' block) current_state block (mm', db)

  unfoldable pub get_current_height : Instance → ℤ
  get_current_height mm =
      if not (eq_ℤ (t.last_block_height mm.last_state) (pos 0))
      then t.last_block_height mm.last_state
      else t.initial_height mm.last_state -ℤ pos 1
