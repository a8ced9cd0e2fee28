-- ===== src/Richlist/Changes.antt =====
-- indexer/richlist/richlist.go: the changes of the balances, from the events of a block. The parser of
-- the coins is a parameter: an amount and its denomination for each coin, or an error. Amounts are integers
-- without a bound, where those of the SDK panic beyond 256 bits.
use mantlemint.Prelude.{
  ℤ, pos, ◌-ℤ◌, ◌+ℤ◌, not, ◌&&◌, Option, some, none, List, [], ◌∷◌, Result, ok, err, if◌then◌else◌,
  is_some,
}
use mantlemint.Bytes.{Bytes, bytes_eq}

-- "coin_spent"
abbrev pub event_coin_spent : Bytes
event_coin_spent = 99 ∷ 111 ∷ 105 ∷ 110 ∷ 95 ∷ 115 ∷ 112 ∷ 101 ∷ 110 ∷ 116 ∷ []

-- "coin_received"
abbrev pub event_coin_received : Bytes
event_coin_received = 99 ∷ 111 ∷ 105 ∷ 110 ∷ 95 ∷ 114 ∷ 101 ∷ 99 ∷ 101 ∷ 105 ∷ 118 ∷ 101 ∷ 100 ∷ []

-- "spender"
abbrev pub attr_spender : Bytes
attr_spender = 115 ∷ 112 ∷ 101 ∷ 110 ∷ 100 ∷ 101 ∷ 114 ∷ []

-- "receiver"
abbrev pub attr_receiver : Bytes
attr_receiver = 114 ∷ 101 ∷ 99 ∷ 101 ∷ 105 ∷ 118 ∷ 101 ∷ 114 ∷ []

-- "amount"
abbrev pub attr_amount : Bytes
attr_amount = 97 ∷ 109 ∷ 111 ∷ 117 ∷ 110 ∷ 116 ∷ []

pub record Attribute : Type 0 where
  pub key : Bytes
  pub value : Bytes

pub record Event : Type 0 where
  pub kind : Bytes
  pub attributes : List Attribute

-- `coinMap`, with one entry for each address, in the order of their first changes
abbrev pub CoinMap : Type 0
CoinMap = List (Bytes × ℤ)

unfoldable pub lookup : CoinMap → Bytes → Option ℤ
lookup [] a = none
lookup ((b, amount) ∷ rest) a = if bytes_eq b a then some amount else lookup rest a

unfoldable pub store : Bytes → ℤ → CoinMap → CoinMap
store a amount [] = (a, amount) ∷ []
store a amount ((b, old) ∷ rest) =
    let after = store a amount rest in if bytes_eq b a then (b, amount) ∷ rest else (b, old) ∷ after

module _ (parse_coins : Bytes → Result (List (Bytes × ℤ))) where
  -- the loop over the coins: the last one of the denomination is kept
  abbrev pub amount_in : Bytes → List (Bytes × ℤ) → Option ℤ → Option ℤ
  amount_in denom [] amount = amount
  amount_in denom ((d, n) ∷ coins) amount =
      amount_in denom coins (if bytes_eq d denom then some n else amount)

  -- the loop of `extractChange`, with the address and the amount that are found so far
  unfoldable pub extract_from : Bytes → Bytes → List Attribute → Bytes → Option ℤ → Bytes × Option ℤ
  extract_from attribute_key denom [] address amount = (address, amount)
  extract_from attribute_key denom (attr ∷ attrs) address amount =
      let more = λ (a : Bytes) (n : Option ℤ).
        let rest = extract_from attribute_key denom attrs a n in
        if not (bytes_eq a []) && is_some n then (a, n) else rest in
      if bytes_eq attr.key attribute_key
      then more attr.value amount
      else if bytes_eq attr.key attr_amount
      then elim (parse_coins attr.value) [
        | err e ↦ ([], none)
        | ok coins ↦ more address (amount_in denom coins amount)
      ]
      else more address amount

  -- extractChange
  unfoldable pub extract_change : List Attribute → Bytes → Bytes → Bytes × Option ℤ
  unfolding extract_from
  extract_change attrs attribute_key denom = extract_from attribute_key denom attrs [] none

  -- `address == "" || changing == nil` is an invalid event, and else the change is for the address
  unfoldable pub valid : Bytes × Option ℤ → Option (Bytes × ℤ)
  valid (address, none) = none
  valid (address, some changing) = if bytes_eq address [] then none else some (address, changing)

  unfoldable pub spend : Bytes → Option (Bytes × ℤ) → CoinMap → CoinMap
  spend denom none m = m
  spend denom (some (address, changing)) m = elim (lookup m address) [
    | none ↦ store address (pos 0 -ℤ changing) m
    | some prev ↦ store address (prev -ℤ changing) m
  ]

  unfoldable pub receive : Bytes → Option (Bytes × ℤ) → CoinMap → CoinMap
  receive denom none m = m
  receive denom (some (address, changing)) m = elim (lookup m address) [
    | none ↦ store address changing m
    | some prev ↦ store address (prev +ℤ changing) m
  ]

  unfoldable pub spent : Bytes → Event → Option (Bytes × ℤ)
  unfolding valid
  spent denom event = valid (extract_change event.attributes attr_spender denom)

  unfoldable pub received : Bytes → Event → Option (Bytes × ℤ)
  unfolding valid
  received denom event = valid (extract_change event.attributes attr_receiver denom)

  -- one round of the loop of filterCoinChanges
  unfoldable pub add_event : Bytes → Event → CoinMap → CoinMap
  unfolding spend receive
  add_event denom event m =
      if bytes_eq event.kind event_coin_spent
      then spend denom (spent denom event) m
      else if bytes_eq event.kind event_coin_received
      then receive denom (received denom event) m
      else m

  -- filterCoinChanges, which never fails
  unfoldable pub filter_from : Bytes → List Event → CoinMap → CoinMap
  filter_from denom [] m = m
  filter_from denom (event ∷ events) m = filter_from denom events (add_event denom event m)

  abbrev pub filter_coin_changes : List Event → Bytes → CoinMap
  filter_coin_changes events denom = filter_from denom events []
