-- ===== src/Richlist/Extract.antt =====
-- Extract keeps the top of the list.
use mathlib.Core.List.{append_assoc, append-nil}
use mantlemint.Prelude.{
  refl, Bool-cases, inl, inr, ℕ, ◌+◌, ◌-◌, ◌<◌, Bool, true, false, ◌||◌, Option, none, List, [],
  ◌∷◌, ◌++◌, ok, ◌≡◌, sym, ap, ◌∙◌, if◌then◌else◌, arith, leb, ◌==◌, length, All, subst,
}
use mantlemint.Richlist.Ranker.{Sdk, Ranker, BTree, IsBTree, less}
use mantlemint.Richlist.List.{
  Richlist, new_richlist, count, count_rankers, below, extract_from, extract, len,
}

module _ (k : Sdk) (b : BTree k) where
  -- The rankers from the top on, until `wanted` addresses are reached or a ranker is below the threshold.
  unfoldable pub top_rankers : ℕ → Option k.Coin → List (Ranker k) → List (Ranker k)
  top_rankers wanted threshold [] = []
  top_rankers wanted threshold (r ∷ rest) =
      let more = top_rankers (wanted - length r.addresses) threshold rest in
      if (wanted == 0) || below k b threshold r then [] else r ∷ more

  -- Each ranker is less than every one before it.
  abbrev pub IsFalling : List (Ranker k) → Type 0
  IsFalling [] = Unit
  IsFalling (r ∷ rest) = All (λ q. less k q r ≡ true) rest × IsFalling rest

  abbrev AllBelow : List (Ranker k) → List (Ranker k) → Type 0
  AllBelow rest done = All (λ q. All (λ d. less k q d ≡ true) done) rest

  count_append :
      (xs ys : List (Ranker k))
      → count_rankers k b (xs ++ ys) ≡ count_rankers k b xs + count_rankers k b ys
  count_append [] ys = omega arith
  count_append (x ∷ xs) ys = omega (arith, count_append xs ys)

  All-append :
      (P : Ranker k → Type 0) (xs : List (Ranker k)) (y : Ranker k)
      → All P xs
      → P y
      → All P (xs ++ y ∷ [])
  All-append P [] y a p = (p, tt)
  All-append P (x ∷ xs) y a p = (a.0, All-append P xs y a.1 p)

  below_next :
      (rest done : List (Ranker k)) (r : Ranker k)
      → AllBelow rest done
      → All (λ q. less k q r ≡ true) rest
      → AllBelow rest (done ++ r ∷ [])
  below_next [] done r h a = tt
  below_next (q ∷ rest) done r h a = (All-append _ done r h.0 a.0, below_next rest done r h.1 a.1)

  reached : (wanted n : ℕ) → leb wanted n ≡ (wanted - n == 0)
  reached wanted n = ground arith

  taken :
      (done : List (Ranker k)) (r : Ranker k) (wanted : ℕ)
      → wanted - count_rankers k b (done ++ r ∷ [])
        ≡ wanted - count_rankers k b done - length r.addresses
  taken done r wanted = omega (arith, count_append done (r ∷ []))

  pick :
      (stop : Bool) (ex after : Richlist k b) (done more : List (Ranker k))
      → b.descend ex.rankers ≡ done ++ []
      → b.descend after.rankers ≡ done ++ more
      → b.descend (if stop then ex else after).rankers ≡ done ++ (if stop then [] else more)
  pick true ex after done more e h = e
  pick false ex after done more e h = h

  module _ (laws : IsBTree k b) where
    descend-extract_from :
        (wanted : ℕ) (threshold : Option k.Coin) (rest done : List (Ranker k)) (ex : Richlist k b)
        → b.descend ex.rankers ≡ done
        → IsFalling rest
        → AllBelow rest done
        → b.descend (extract_from k b wanted threshold rest ex).rankers
          ≡ done ++ top_rankers (wanted - count_rankers k b done) threshold rest
    unfolding extract_from top_rankers count
    descend-extract_from wanted threshold [] done ex e f h = e ∙ sym (append-nil done)
    descend-extract_from wanted threshold (r ∷ rest) done ex e f h =
        let ex' : Richlist k b = record ex { rankers = b.replace_or_insert r ex.rankers } in
        let last =
          laws.descend_last r ex.rankers (subst (All (λ q. less k r q ≡ true)) (sym e) h.0) in
        let next =
          descend-extract_from wanted threshold rest (done ++ r ∷ []) ex'
            (last ∙ ap (λ d. d ++ r ∷ []) e) f.1 (below_next rest done r h.1 f.0)
          ∙ append_assoc done (r ∷ []) _
          ∙ ap (λ n. done ++ r ∷ top_rankers n threshold rest) (taken done r wanted) in
        ap
          (λ t.
            b.descend
              (if t || below k b threshold r
                then ex
                else extract_from k b wanted threshold rest ex').rankers)
          (ap (λ d. leb wanted (count_rankers k b d)) e ∙ reached wanted (count_rankers k b done))
        ∙ pick (_ || below k b threshold r) ex _ done _ (e ∙ sym (append-nil done)) next

    minus_zero : (n : ℕ) → n - 0 ≡ n
    minus_zero n = omega arith

    all_below : (l : List (Ranker k)) → AllBelow l []
    all_below [] = tt
    all_below (r ∷ l) = (tt, all_below l)

    height-extract_from :
        (wanted : ℕ) (threshold : Option k.Coin) (rest : List (Ranker k)) (ex : Richlist k b)
        → (extract_from k b wanted threshold rest ex).height ≡ ex.height
    unfolding extract_from
    height-extract_from wanted threshold [] ex = refl
    height-extract_from wanted threshold (r ∷ rest) ex =
        let ex' : Richlist k b = record ex { rankers = b.replace_or_insert r ex.rankers } in
        elim (Bool-cases (leb wanted (count k b ex) || below k b threshold r)) [
          | inl stop ↦ rw stop refl
          | inr on ↦ rw on (height-extract_from wanted threshold rest ex')
        ]

    -- Extract of a list that is not empty succeeds. The list that it gives has the height that Extract is
    -- given, and its rankers are those from the top on, until the wanted number of addresses is reached or
    -- a ranker is below the threshold, if the tree of the list visits its rankers in falling order.
    pub descend-extract :
        (height wanted : ℕ) (threshold : Option k.Coin) (list : Richlist k b)
        → 0 < b.len list.rankers
        → IsFalling (b.descend list.rankers)
        → (extracted : Richlist k b) × (extract k b height wanted threshold list ≡ ok extracted)
          × (extracted.height ≡ height)
          × (b.descend extracted.rankers ≡ top_rankers wanted threshold (b.descend list.rankers))
    unfolding extract len new_richlist
    descend-extract height wanted threshold list n f =
        let fresh : Richlist k b = record {
          height = height;
          rankers = b.empty;
          threshold = none;
        } in
        (
          extract_from k b wanted threshold (b.descend list.rankers) fresh,
          ground (arith, n),
          height-extract_from wanted threshold (b.descend list.rankers) fresh,
          descend-extract_from wanted threshold (b.descend list.rankers) [] fresh laws.descend_empty
                f (all_below _)
              ∙ ap (λ n. top_rankers n threshold (b.descend list.rankers)) (minus_zero wanted),
        )
