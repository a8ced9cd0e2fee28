-- ===== src/Richlist/Tests.antt =====
-- Two accounts at the scores 10 and 20.
use mantlemint.Prelude.{
  ◌+ℤ◌, map, ℤ, pos, some, none, List, [], ◌∷◌, Result, ok, err, panic, ◌≡◌, refl, arith,
  if◌then◌else◌, ◌-ℤ◌,
}
use mantlemint.Bytes.{Bytes, bytes_eq}
use mantlemint.Richlist.Ranker.{less}
use mantlemint.Richlist.List.{Richlist, rank, unrank, ranker_of, extract}
use mantlemint.Richlist.Lookup.{
  listed_at, add_once, remove_once, same_score, listed_at-rank, listed_at-unrank,
}
use mantlemint.Richlist.Extract.{top_rankers, descend-extract}
use mantlemint.Richlist.Changes.{lookup, filter_coin_changes}
use mantlemint.Richlist.Bank.{
  BankEvent, spends, receives, unrelated, event_of, filter_coin_changes-event_of,
}
use mantlemint.Richlist.Sorted.{numbers, numbers-IsOrder, sorted, sorted-IsBTree}

abbrev a1 : Bytes
a1 = 49 ∷ []

abbrev a2 : Bytes
a2 = 50 ∷ []

abbrev two : Richlist numbers sorted
two = record {
  height = 3;
  rankers = ranker_of numbers sorted a2 20 ∷ ranker_of numbers sorted a1 10 ∷ [];
  threshold = some 5;
}

listed_at-rank_example :
    ((rank numbers sorted (ranker_of numbers sorted a2 10) two).0 ≡ ok tt)
    × (listed_at numbers sorted (rank numbers sorted (ranker_of numbers sorted a2 10) two).1 10 ≡ (
        if same_score numbers sorted 10 10
        then add_once a2 (listed_at numbers sorted two 10)
        else listed_at numbers sorted two 10))
listed_at-rank_example =
    listed_at-rank numbers sorted numbers-IsOrder sorted-IsBTree a2 10 5 10 two refl refl

listed_at-unrank_example :
    listed_at numbers sorted (unrank numbers sorted (ranker_of numbers sorted a2 20) two).1 20 ≡ (
      if same_score numbers sorted 20 20
      then remove_once a2 (listed_at numbers sorted two 20)
      else listed_at numbers sorted two 20)
listed_at-unrank_example =
    listed_at-unrank numbers sorted numbers-IsOrder sorted-IsBTree a2 20 5 20 two refl refl

descend-extract_example :
    (extracted : Richlist numbers sorted) × (extract numbers sorted 3 1 none two ≡ ok extracted)
    × (extracted.height ≡ 3)
    × (extracted.rankers ≡ top_rankers numbers sorted 1 none two.rankers)
unfolding less
descend-extract_example =
    descend-extract numbers sorted sorted-IsBTree 3 1 none two (omega arith) ((refl, tt), (tt, tt))

-- an amount is one byte, of the denomination 7
abbrev parse : Bytes → Result (List (Bytes × ℤ))
parse [] = err panic
parse (n ∷ _) = ok ((7 ∷ [], pos n) ∷ [])

-- the first account spends 4, the second receives 9, the first receives what cannot be parsed
abbrev paid : List BankEvent
paid =
    spends a1 (4 ∷ [])
    ∷ receives a2 (9 ∷ [])
    ∷ receives a1 []
    ∷ unrelated (record { kind = []; attributes = [] })
    ∷ []

filter_coin_changes-event_of_example :
    lookup (filter_coin_changes parse (map event_of paid) (7 ∷ [])) a1 ≡ some (pos 0 -ℤ pos 4)
unfolding bytes_eq ◌-ℤ◌ ◌+ℤ◌
filter_coin_changes-event_of_example =
    filter_coin_changes-event_of parse (7 ∷ []) a1 refl paid (tt, (tt, (tt, ((refl, refl), tt))))
