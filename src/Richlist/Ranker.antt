-- ===== src/Richlist/Ranker.antt =====
-- indexer/richlist/types.go: a ranker, and the interfaces of the coins and of the B-tree.
use mantlemint.Prelude.{
  ℕ, ℤ, Bool, true, false, not, ◌&&◌, ◌||◌, Option, some, none, List, [], ◌∷◌, ◌++◌, Result, ok,
  err, not_listed, length, ◌==◌, if◌then◌else◌, ◌≡◌, All,
}
use mantlemint.Bytes.{Bytes, bytes_eq}

-- `sdk.Coin`: Coin.IsLT, Int.LT of the amounts, NewCoin (which panics on an invalid coin) and Amount
pub record Sdk : Type 1 where
  pub Coin : Type 0
  pub is_lt : Coin → Coin → Bool
  pub amount_lt : Coin → Coin → Bool
  pub new_coin : Bytes → ℤ → Result Coin
  pub amount : Coin → ℤ

-- Coins of one denomination: no coin is less than itself, and two of which neither is less are equal.
pub record IsOrder (k : Sdk) : Type 0 where
  pub irreflexive : (c : k.Coin) → k.is_lt c c ≡ false
  pub equal : (c e : k.Coin) → k.is_lt c e ≡ false → k.is_lt e c ≡ false → c ≡ e

unfoldable pub contains : Bytes → List Bytes → Bool
contains a [] = false
contains a (listed ∷ rest) = bytes_eq listed a || contains a rest

-- the list without the first entry that is `a`
unfoldable pub remove_first : Bytes → List Bytes → Option (List Bytes)
remove_first a [] = none
remove_first a (listed ∷ rest) =
    let removed = remove_first a rest in
    if bytes_eq listed a
    then some rest
    else elim removed [ none ↦ none | some l ↦ some (listed ∷ l) ]

module _ (k : Sdk) where
  pub record Ranker : Type 0 where
    pub position : ℕ
    pub addresses : List Bytes
    pub score : k.Coin

  -- Less
  unfoldable pub less : Ranker → Ranker → Bool
  less ranker than = k.is_lt ranker.score than.score

  -- Enlist
  unfoldable pub enlist : Bytes → Ranker → Ranker
  enlist acc_address ranker =
      if contains acc_address ranker.addresses
      then ranker
      else record ranker { addresses = ranker.addresses ++ acc_address ∷ [] }

  -- Unlist: whether no address is left
  unfoldable pub unlist : Bytes → Ranker → Result Bool × Ranker
  unlist acc_address ranker = elim (remove_first acc_address ranker.addresses) [
    | none ↦ (err not_listed, ranker)
    | some rest ↦ (ok (length rest == 0), record ranker { addresses = rest })
  ]

  -- the loops of Rank and Unrank over the addresses; the second drops the errors
  unfoldable pub enlist_all : List Bytes → Ranker → Ranker
  enlist_all [] ranker = ranker
  enlist_all (a ∷ rest) ranker = enlist_all rest (enlist a ranker)

  unfoldable pub unlist_all : List Bytes → Ranker → Ranker
  unlist_all [] ranker = ranker
  unlist_all (a ∷ rest) ranker = unlist_all rest (unlist a ranker).1

  -- `btree.BTree` over rankers; `descend` is the list of what Descend visits
  pub record BTree : Type 1 where
    pub Tree : Type 0
    pub empty : Tree
    pub get : Tree → Ranker → Option Ranker
    pub replace_or_insert : Ranker → Tree → Tree
    pub delete : Ranker → Tree → Tree
    pub min : Tree → Option Ranker
    pub max : Tree → Option Ranker
    pub len : Tree → ℕ
    pub descend : Tree → List Ranker

  -- neither is less than the other
  abbrev pub same_rank : Ranker → Ranker → Bool
  same_rank a b = not (less a b) && not (less b a)

  -- What the B-tree documents: an item is found by its rank, until one of its rank replaces it or it is
  -- deleted, and an item below all others is visited last.
  pub record IsBTree (b : BTree) : Type 0 where
    pub get_replace :
        (r q : Ranker) (t : b.Tree)
        → b.get (b.replace_or_insert r t) q ≡ (if same_rank r q then some r else b.get t q)
    pub get_delete :
        (r q : Ranker) (t : b.Tree)
        → b.get (b.delete r t) q ≡ (if same_rank r q then none else b.get t q)
    pub get_rank : (q r : Ranker) (t : b.Tree) → b.get t q ≡ some r → same_rank r q ≡ true
    pub get_score : (q q' : Ranker) (t : b.Tree) → q.score ≡ q'.score → b.get t q ≡ b.get t q'
    pub descend_empty : b.descend b.empty ≡ []
    pub descend_last :
        (r : Ranker) (t : b.Tree)
        → All (λ q. less r q ≡ true) (b.descend t)
        → b.descend (b.replace_or_insert r t) ≡ b.descend t ++ r ∷ []
