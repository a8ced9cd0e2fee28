-- ===== src/Richlist/Sorted.antt =====
-- A tree as a list in falling order, and coins as numbers, which show that the laws can hold.
use mantlemint.Prelude.{
  ℕ, ℤ, pos, negsuc, true, Option, some, none, List, [], ◌∷◌, ◌++◌, Result, ok, err, panic, ◌≡◌,
  refl, if◌then◌else◌, arith, ltb, length, All,
}
use mantlemint.Richlist.Ranker.{Sdk, IsOrder, Ranker, BTree, IsBTree, less, same_rank}

abbrev coin_of : ℤ → Result ℕ
coin_of (pos n) = ok n
coin_of (negsuc n) = err panic

abbrev pub numbers : Sdk
numbers = record {
  Coin = ℕ;
  is_lt = ltb;
  amount_lt = ltb;
  new_coin = λ d n. coin_of n;
  amount = pos;
}

pub numbers-IsOrder : IsOrder numbers
numbers-IsOrder = record { irreflexive = λ c. ground arith; equal = λ c e h k. ground arith }

abbrev R : Type 0
R = Ranker numbers

unfoldable pub find : List R → R → Option R
find [] q = none
find (r ∷ t) q = if same_rank numbers r q then some r else find t q

unfoldable pub put : R → List R → List R
unfolding less
put r [] = r ∷ []
put r (e ∷ t) =
    let rest = put r t in
    if same_rank numbers e r then r ∷ t else if less numbers e r then r ∷ e ∷ t else e ∷ rest

unfoldable pub take_out : R → List R → List R
take_out r [] = []
take_out r (e ∷ t) = let rest = take_out r t in if same_rank numbers r e then rest else e ∷ rest

abbrev last : List R → Option R
last [] = none
last (r ∷ []) = some r
last (r ∷ s ∷ t) = last (s ∷ t)

abbrev first : List R → Option R
first [] = none
first (r ∷ t) = some r

abbrev pub sorted : BTree numbers
sorted = record {
  Tree = List R;
  empty = [];
  get = find;
  replace_or_insert = put;
  delete = take_out;
  min = last;
  max = first;
  len = length;
  descend = λ t. t;
}

find-put :
    (r q : R) (t : List R) → find (put r t) q ≡ (if same_rank numbers r q then some r else find t q)
unfolding find put less
find-put r q [] = refl
find-put r q (e ∷ t) = ground (arith, find-put r q t)

find-take_out :
    (r q : R) (t : List R)
    → find (take_out r t) q ≡ (if same_rank numbers r q then none else find t q)
unfolding find take_out less
find-take_out r q [] = ground arith
find-take_out r q (e ∷ t) = ground (arith, find-take_out r q t)

find_rank : (q r : R) (t : List R) → find t q ≡ some r → same_rank numbers r q ≡ true
unfolding find less
find_rank q r [] h = cc
find_rank q r (e ∷ t) h = ground (arith, find_rank q r t)

find_score : (q q' : R) (t : List R) → q.score ≡ q'.score → find t q ≡ find t q'
unfolding find less
find_score q q' [] h = refl
find_score q q' (e ∷ t) h = ground (arith, find_score q q' t h)

put_last : (r : R) (t : List R) → All (λ q. less numbers r q ≡ true) t → put r t ≡ t ++ r ∷ []
unfolding put less
put_last r [] h = refl
put_last r (e ∷ t) h = ground (arith, h.0, put_last r t h.1)

pub sorted-IsBTree : IsBTree numbers sorted
sorted-IsBTree = record {
  get_replace = find-put;
  get_delete = find-take_out;
  get_rank = find_rank;
  get_score = find_score;
  descend_empty = refl;
  descend_last = put_last;
}
