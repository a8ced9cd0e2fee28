-- ===== src/Richlist/List.antt =====
-- indexer/richlist/types.go: the list and its operations, over a B-tree. A nil threshold, which Extract
-- gives its result, makes Rank and Unrank panic.
use mantlemint.Prelude.{
  ℕ, ◌+◌, ℤ, ◌+ℤ◌, Bool, false, ◌||◌, Option, some, none, List, [], ◌∷◌, Result, ok, err, Exec,
  panic, not_found, length, ltb, leb, ◌==◌, if◌then◌else◌,
}
use mantlemint.Bytes.{Bytes}
use mantlemint.Richlist.Ranker.{Sdk, Ranker, BTree, enlist_all, unlist_all}

module _ (k : Sdk) (b : BTree k) where
  pub record Richlist : Type 0 where
    pub height : ℕ
    pub rankers : b.Tree
    pub threshold : Option k.Coin

  -- NewRichlist
  unfoldable pub new_richlist : ℕ → Option k.Coin → Richlist
  new_richlist height threshold = record {
    height = height;
    rankers = b.empty;
    threshold = threshold;
  }

  -- what Rank puts into the tree, by what it found there
  ranked : Ranker k → Option (Ranker k) → Ranker k
  ranked ranker none = ranker
  ranked ranker (some item) = enlist_all k ranker.addresses item

  unfoldable pub rank_over : k.Coin → Ranker k → Exec Richlist Unit
  unfolding ranked
  rank_over threshold ranker list =
      if k.is_lt ranker.score threshold
      then (ok tt, list)
      else let entry = ranked ranker (b.get list.rankers ranker) in
        (ok tt, record list { rankers = b.replace_or_insert entry list.rankers })

  -- Rank
  unfoldable pub rank : Ranker k → Exec Richlist Unit
  unfolding rank_over
  rank ranker list = elim list.threshold [
    | none ↦ (err panic, list)
    | some t ↦ rank_over t ranker list
  ]

  -- what Unrank does with the item that it found
  unrank_item : Ranker k → Option (Ranker k) → Exec Richlist Unit
  unrank_item ranker none list = (err not_found, list)
  unrank_item ranker (some item) list =
      let unranked = unlist_all k ranker.addresses item in
      (
        ok tt,
        record list {
          rankers =
              if length unranked.addresses == 0
              then b.delete unranked list.rankers
              else b.replace_or_insert unranked list.rankers;
        },
      )

  unfoldable pub unrank_over : k.Coin → Ranker k → Exec Richlist Unit
  unfolding unrank_item
  unrank_over threshold ranker list =
      if k.amount_lt ranker.score threshold
      then (ok tt, list)
      else unrank_item ranker (b.get list.rankers ranker) list

  -- Unrank
  unfoldable pub unrank : Ranker k → Exec Richlist Unit
  unfolding unrank_over
  unrank ranker list = elim list.threshold [
    | none ↦ (err panic, list)
    | some t ↦ unrank_over t ranker list
  ]

  -- Min and Max: the type assertion panics on the nil item of an empty tree
  unfoldable pub min : Richlist → Result (Ranker k)
  min list = elim (b.min list.rankers) [ none ↦ err panic | some r ↦ ok r ]

  unfoldable pub max : Richlist → Result (Ranker k)
  max list = elim (b.max list.rankers) [ none ↦ err panic | some r ↦ ok r ]

  -- Len
  unfoldable pub len : Richlist → ℕ
  len list = b.len list.rankers

  -- Count
  abbrev pub count_rankers : List (Ranker k) → ℕ
  count_rankers [] = 0
  count_rankers (entry ∷ rest) = length entry.addresses + count_rankers rest

  unfoldable pub count : Richlist → ℕ
  count list = count_rankers (b.descend list.rankers)

  -- `threshold != nil && ranker.Less(temp)`
  abbrev pub below : Option k.Coin → Ranker k → Bool
  below none ranker = false
  below (some t) ranker = k.is_lt ranker.score t

  -- the visits of Extract
  unfoldable pub extract_from : ℕ → Option k.Coin → List (Ranker k) → Richlist → Richlist
  unfolding count
  extract_from wanted threshold [] extracted = extracted
  extract_from wanted threshold (ranker ∷ rest) extracted =
      let after =
        extract_from wanted threshold rest
          (record extracted { rankers = b.replace_or_insert ranker extracted.rankers }) in
      if leb wanted (count extracted) || below threshold ranker then extracted else after

  -- Extract
  unfoldable pub extract : ℕ → ℕ → Option k.Coin → Richlist → Result Richlist
  unfolding len extract_from new_richlist
  extract height wanted threshold list =
      if ltb (len list) 1
      then err not_found
      else ok (extract_from wanted threshold (b.descend list.rankers) (new_richlist height none))

  -- The application: the bytes of an address, whether its account is a module's, and its balance.
  pub record App : Type 0 where
    pub acc_address : Bytes → Bytes
    pub is_module : Bytes → Bool
    pub balance : Bytes → Bytes → k.Coin

  -- one round of Apply, whose coin after the change may be refused
  abbrev pub ranker_of : Bytes → k.Coin → Ranker k
  ranker_of address score = record { position = 0; addresses = address ∷ []; score = score }

  move_rank : Bytes → k.Coin → Result k.Coin → Exec Richlist Unit
  unfolding rank unrank
  move_rank address before (err e) list = (err e, list)
  move_rank address before (ok after) list =
      elim (unrank (ranker_of address before) list).0 as (λ _. Result (Unit {0}) × Richlist) [
        | err panic ↦ (err panic, (unrank (ranker_of address before) list).1)
        | _ ↦ rank (ranker_of address after) (unrank (ranker_of address before) list).1
      ]

  unfoldable pub apply_change : App → Bytes → Bytes → ℤ → Exec Richlist Unit
  unfolding move_rank
  apply_change app denom address amount list =
      let acc = app.acc_address address in
      let before = app.balance acc denom in
      if app.is_module acc
      then (ok tt, list)
      else move_rank address before (k.new_coin denom (k.amount before +ℤ amount)) list

  -- Apply, over the changes in the order of the iteration over the map
  unfoldable pub apply : App → Bytes → List (Bytes × ℤ) → Exec Richlist Unit
  unfolding apply_change
  apply app denom [] list = (ok tt, list)
  apply app denom ((address, amount) ∷ rest) list =
      let one = apply_change app denom address amount list in
      let after = apply app denom rest one.1 in elim one.0 [ err e ↦ one | ok _ ↦ after ]

  -- MarshalJSON: the positions are numbered from 1
  numbered : ℕ → List (Ranker k) → List (Ranker k)
  numbered n [] = []
  numbered n (r ∷ rest) = record r { position = n + 1 } ∷ numbered (n + 1) rest

  unfoldable pub json_table : Richlist → List (Ranker k)
  unfolding numbered
  json_table list = numbered 0 (b.descend list.rankers)
