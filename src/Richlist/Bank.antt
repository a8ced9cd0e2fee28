-- ===== src/Richlist/Bank.antt =====
-- The changes that filterCoinChanges finds, for events that say who spends or receives which coins.
use mantlemint.Prelude.{
  Bool-cases, true, ℤ, pos, ◌-ℤ◌, ◌+ℤ◌, Bool, false, ◌||◌, Option, some, none, List, [], ◌∷◌,
  Result, ok, err, map, All, ◌≡◌, refl, ◌∙◌, if◌then◌else◌, arith, is_some, Result-cases,
  Option-cases, inl, inr,
}
use mantlemint.Bytes.{Bytes, bytes_eq}
use mantlemint.Bytes.Order.{bytes_eq_iff, bytes_eq_refl}
use mantlemint.Richlist.Changes.{
  Event, Attribute, lookup, spent, received, filter_coin_changes, event_coin_spent,
  event_coin_received, attr_spender, attr_receiver, attr_amount, amount_in, extract_from,
  extract_change, valid,
}
use mantlemint.Richlist.Net.{
  amount_of, for_account, spent_by, received_by, total_spent, total_received, touched,
  lookup-filter_coin_changes,
}

-- An account spends, or receives, the coins that a text says, or the event is of another kind.
pub data BankEvent : Type 0 where
  spends receives : Bytes → Bytes → BankEvent
  unrelated : Event → BankEvent

abbrev pub IsBankEvent : BankEvent → Type 0
IsBankEvent (spends b text) = Unit
IsBankEvent (receives b text) = Unit
IsBankEvent (unrelated e) =
    (bytes_eq e.kind event_coin_spent ≡ false) × (bytes_eq e.kind event_coin_received ≡ false)

abbrev attributes_of : Bytes → Bytes → Bytes → List Attribute
attributes_of key b text =
    record { key = key; value = b } ∷ record { key = attr_amount; value = text } ∷ []

-- the event, with the account under `spender` or `receiver`, and the text under `amount`
abbrev pub event_of : BankEvent → Event
event_of (spends b text) = record {
  kind = event_coin_spent;
  attributes = attributes_of attr_spender b text;
}
event_of (receives b text) = record {
  kind = event_coin_received;
  attributes = attributes_of attr_receiver b text;
}
event_of (unrelated e) = e

-- the amount of the last coin of a denomination
abbrev last_coin : Bytes → List (Bytes × ℤ) → Option ℤ
last_coin denom [] = none
last_coin denom ((d, n) ∷ coins) =
    let later = last_coin denom coins in
    elim later [ some m ↦ some m | none ↦ if bytes_eq d denom then some n else none ]

amount_in-last_coin :
    (parse_coins : Bytes → Result (List (Bytes × ℤ))) (denom : Bytes) (coins : List (Bytes × ℤ))
    (acc : Option ℤ)
    → amount_in parse_coins denom coins acc
      ≡ elim (last_coin denom coins) [ some m ↦ some m | none ↦ acc ]
amount_in-last_coin parse_coins denom [] acc = refl
amount_in-last_coin parse_coins denom ((d, n) ∷ coins) acc =
    amount_in-last_coin parse_coins denom coins (if bytes_eq d denom then some n else acc)
    ∙ elim (Option-cases (last_coin denom coins)) [
      | inr (m, e) ↦ rw e refl
      | inl e ↦ rw e (elim (Bool-cases (bytes_eq d denom)) [
        | inl same ↦ rw same refl
        | inr other ↦ rw other refl
      ])
    ]

module _ (parse_coins : Bytes → Result (List (Bytes × ℤ))) (denom a : Bytes) where
  -- what a text says of the denomination
  abbrev coin_in : Bytes → Option ℤ
  coin_in text = elim (parse_coins text) [ err e ↦ none | ok coins ↦ last_coin denom coins ]

  abbrev out_of : BankEvent → Option ℤ
  out_of (spends b text) = if bytes_eq b a then coin_in text else none
  out_of _ = none

  abbrev into : BankEvent → Option ℤ
  into (receives b text) = if bytes_eq b a then coin_in text else none
  into _ = none

  -- the totals that leave and reach the account, and whether there is any
  abbrev pub paid_out : List BankEvent → ℤ
  paid_out [] = pos 0
  paid_out (e ∷ es) = amount_of (out_of e) +ℤ paid_out es

  abbrev pub paid_in : List BankEvent → ℤ
  paid_in [] = pos 0
  paid_in (e ∷ es) = amount_of (into e) +ℤ paid_in es

  abbrev pub moves : List BankEvent → Bool
  moves [] = false
  moves (e ∷ es) = is_some (out_of e) || is_some (into e) || moves es

  change_of :
      (key b text : Bytes)
      → bytes_eq key key ≡ true
      → bytes_eq attr_amount key ≡ false
      → bytes_eq a [] ≡ false
      → for_account a
          (valid parse_coins (extract_change parse_coins (attributes_of key b text) key denom))
        ≡ (if bytes_eq b a then coin_in text else none)
  unfolding extract_change extract_from valid
  change_of key b text same other named = elim (Result-cases (parse_coins text)) [
    | inl (coins, h) ↦ ground (
      arith,
      same,
      other,
      named,
      h,
      bytes_eq_refl attr_amount,
      bytes_eq_iff b a,
      bytes_eq_iff b [],
      amount_in-last_coin parse_coins denom coins none,
    )
    | inr (e, h) ↦ ground (arith, same, other, named, h, bytes_eq_refl attr_amount)
  ]

  module _ (named : bytes_eq a [] ≡ false) where
    spent_by-event_of :
        (e : BankEvent) → IsBankEvent e → spent_by parse_coins denom a (event_of e) ≡ out_of e
    unfolding spent_by spent bytes_eq
    spent_by-event_of (spends b text) h = change_of attr_spender b text refl refl named
    spent_by-event_of (receives b text) h = refl
    spent_by-event_of (unrelated e) (h, h') = rw h refl

    received_by-event_of :
        (e : BankEvent) → IsBankEvent e → received_by parse_coins denom a (event_of e) ≡ into e
    unfolding received_by received bytes_eq
    received_by-event_of (spends b text) h = refl
    received_by-event_of (receives b text) h = change_of attr_receiver b text refl refl named
    received_by-event_of (unrelated e) (h, h') = rw h' refl

    total_spent-event_of :
        (es : List BankEvent)
        → All IsBankEvent es
        → total_spent parse_coins denom a (map event_of es) ≡ paid_out es
    unfolding total_spent
    total_spent-event_of [] h = refl
    total_spent-event_of (e ∷ es) (h, hs) =
        rw (spent_by-event_of e h, total_spent-event_of es hs) refl

    total_received-event_of :
        (es : List BankEvent)
        → All IsBankEvent es
        → total_received parse_coins denom a (map event_of es) ≡ paid_in es
    unfolding total_received
    total_received-event_of [] h = refl
    total_received-event_of (e ∷ es) (h, hs) =
        rw (received_by-event_of e h, total_received-event_of es hs) refl

    touched-event_of :
        (es : List BankEvent)
        → All IsBankEvent es
        → touched parse_coins denom a (map event_of es) ≡ moves es
    unfolding touched
    touched-event_of [] h = refl
    touched-event_of (e ∷ es) (h, hs) =
        rw (spent_by-event_of e h, received_by-event_of e h, touched-event_of es hs) refl

    -- The events of a block are coin_spent and coin_received events, each with an account, under spender
    -- or receiver, and then a text of its coins, under amount, among events of other kinds. Then the changes that
    -- filterCoinChanges finds have an entry for an address that is not empty where such an event names it
    -- with a text that is parsed and has a coin of the denomination. The entry is the sum of what the
    -- coin_received events say that the address received less the sum of what the coin_spent events say
    -- that it spent, where of a text with several coins of the denomination the last one counts.
    pub filter_coin_changes-event_of :
        (es : List BankEvent)
        → All IsBankEvent es
        → lookup (filter_coin_changes parse_coins (map event_of es) denom) a
          ≡ (if moves es then some (paid_in es -ℤ paid_out es) else none)
    filter_coin_changes-event_of es h =
        lookup-filter_coin_changes parse_coins denom a (map event_of es)
        ∙ rw (touched-event_of es h, total_received-event_of es h, total_spent-event_of es h) refl
