-- ===== src/Richlist/Index.antt =====
-- indexer/richlist/richlist.go: IndexRichlist, which keeps the list up to date and writes its first
-- entries, and the list that is made from the state. The accounts of the application and the encoder of
-- the list are parameters.
use mantlemint.Prelude.{
  ℕ, ◌+◌, ◌-◌, ◌%◌, ◌^◌, ℤ, Bool, false, ◌||◌, Option, none, some, List, [], ◌∷◌, ◌++◌, Result, ok,
  err, Exec, panic, pure, raise, ◌>>◌, ◌==◌, ltb, if◌then◌else◌,
}
use mantlemint.Bytes.{Bytes}
use mantlemint.Tmdb.{TmDb}
use mantlemint.SafeBatch
use mantlemint.SafeBatch.{SafeBatchDb}
use mantlemint.Indexer.Keys.{richlist_key}
use mantlemint.Richlist.Ranker.{Sdk, BTree}
use mantlemint.Richlist.List.{Richlist, App, new_richlist, len, extract, rank, ranker_of, apply}
use mantlemint.Richlist.Changes.{Event, filter_coin_changes}

-- `haltOnApplyFailure`
abbrev halt_on_apply_failure : Bool
halt_on_apply_failure = false

-- the events of the collector: of BeginBlock, of each transaction, and of EndBlock
pub record BlockEvents : Type 0 where
  pub begins : List Event
  pub txs : List (List Event)
  pub ends : List Event

tx_events : List (List Event) → List Event
tx_events [] = []
tx_events (events ∷ rest) = events ++ tx_events rest

-- the events in the order in which they are appended
unfoldable pub all_events : BlockEvents → List Event
unfolding tx_events
all_events evc = evc.begins ++ tx_events evc.txs ++ evc.ends

-- an account, whether it is a module's, and its balance
pub record Account (Coin : Type 0) : Type 0 where
  pub address : Bytes
  pub is_module : Bool
  pub balance : Coin

module _ (k : Sdk) (b : BTree k) where
  -- the parameters, and `cfg` with the length of the list and the denomination of its threshold
  pub record Setting : Type 0 where
    pub richlist_length : ℕ
    pub default_denom : Bytes
    pub denom : k.Coin → Bytes
    pub accounts : ℕ → Bytes → List (Account k.Coin)
    pub app : App k b
    pub parse_coins : Bytes → Result (List (Bytes × ℤ))
    pub marshal : Richlist k b → Result Bytes

  -- the visits of IterateAccounts, to the first error
  unfoldable pub rank_accounts : List (Account k.Coin) → Exec (Richlist k b) Unit
  rank_accounts [] = pure tt
  rank_accounts (account ∷ rest) =
      if account.is_module
      then rank_accounts rest
      else (do rank k b (ranker_of k b account.address account.balance); rank_accounts rest)

  module _ (c : Setting) (d : TmDb) where
    -- generateRichlistFromState
    unfoldable pub generate_richlist_from_state : ℕ → k.Coin → Result (Unit {0}) × Richlist k b
    unfolding rank_accounts
    generate_richlist_from_state height threshold =
        rank_accounts (c.accounts height (c.denom threshold))
          (new_richlist k b height (some threshold))

    -- the batch that the indexer is given, and the variable `richlist`
    pub record Listing : Type 0 where
      pub batch : SafeBatchDb d
      pub list : Richlist k b

    -- Set of getDefaultKey
    unfoldable pub set_default : ℕ → Bytes → Exec Listing Unit
    set_default height json s =
        let (r, batch) = SafeBatch.set d (richlist_key height c.default_denom) json s.batch in
        (r, record s { batch = batch })

    unfoldable pub on_json : Result Bytes → (Bytes → Exec Listing Unit) → Exec Listing Unit
    on_json (err e) save = raise e
    on_json (ok json) save = save json

    -- the first entries of the list, as JSON, to where they are saved
    unfoldable pub with_extracted : ℕ → (Bytes → Exec Listing Unit) → Exec Listing Unit
    unfolding on_json
    with_extracted height save s = elim (extract k b height c.richlist_length none s.list) [
      | err e ↦ (err e, s)
      | ok extracted ↦ on_json (c.marshal extracted) save s
    ]

    -- the list from the state of the block before, which replaces the old one; the list of the genesis
    -- is saved
    unfoldable pub regenerate_over : k.Coin → ℕ → Exec Listing Unit
    unfolding generate_richlist_from_state with_extracted set_default
    regenerate_over threshold height s =
        let made = generate_richlist_from_state ((height + 2 ^ 64 - 1) % 2 ^ 64) threshold in
        let replaced : Listing = record s { list = made.1 } in
        elim made.0 [
          | err e ↦ (err e, s)
          | ok _ ↦
              if height == 2 then with_extracted 1 (set_default 1) replaced else (ok tt, replaced)
        ]

    unfoldable pub regenerate : ℕ → Exec Listing Unit
    unfolding regenerate_over
    regenerate height s = elim s.list.threshold [
      | none ↦ (err panic, s)
      | some threshold ↦ regenerate_over threshold height s
    ]

    -- Apply of the changes, in the order in which their addresses first change, where Go takes the map of
    -- them in a random order; only a panic stops the indexer
    unfoldable pub apply_over : k.Coin → List Event → Exec Listing Unit
    apply_over threshold events s =
        let changes = filter_coin_changes c.parse_coins events (c.denom threshold) in
        let (r, list) = apply k b c.app (c.denom threshold) changes s.list in
        let after : Listing = record s { list = list } in
        elim r [
          | err panic ↦ (err panic, after)
          | err e ↦ if halt_on_apply_failure then (err e, after) else (ok tt, after)
          | ok _ ↦ (ok tt, after)
        ]

    unfoldable pub apply_changes : Option BlockEvents → Exec Listing Unit
    unfolding apply_over all_events
    apply_changes none s = (err panic, s)
    apply_changes (some evc) s = elim s.list.threshold [
      | none ↦ (err panic, s)
      | some threshold ↦ apply_over threshold (all_events evc) s
    ]

    unfoldable pub set_height : ℕ → Exec Listing Unit
    set_height height s = (ok tt, record s { list = record s.list { height = height } })

    unfoldable pub save_latest : ℕ → Bytes → Exec Listing Unit
    unfolding set_default
    save_latest height json = do set_default 0 json; set_default height json

    -- the list from the state at height 2, or where it has too few entries
    unfoldable pub prepare : ℕ → Exec Listing Unit
    unfolding regenerate
    prepare height s =
        if (height == 2) || ltb (len k b s.list) c.richlist_length
        then regenerate height s
        else (ok tt, s)

    unfoldable pub update : ℕ → Option BlockEvents → Exec Listing Unit
    unfolding prepare apply_changes set_height with_extracted save_latest
    update height evc = do
      prepare height
      apply_changes evc
      set_height height
      with_extracted height (save_latest height)

    -- IndexRichlist
    unfoldable pub index_richlist : ℕ → Option BlockEvents → Exec Listing Unit
    unfolding update
    index_richlist height evc s =
        if (c.richlist_length == 0) || (height == 1) then (ok tt, s) else update height evc s
