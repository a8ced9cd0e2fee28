-- ===== src/Richlist/Lookup.antt =====
-- Who is listed at a score, after Rank and Unrank of one address.
use mantlemint.Prelude.{
  Bool, true, false, not, ◌&&◌, Option, some, none, List, [], ◌∷◌, ◌++◌, Result, ok, err, panic,
  ◌≡◌, refl, sym, ap, ◌∙◌, if◌then◌else◌, arith, Option-cases, Bool-cases, inl, inr, length, ◌==◌,
}
use mantlemint.Bytes.{Bytes}
use mantlemint.Richlist.Ranker.{
  Sdk, IsOrder, Ranker, BTree, IsBTree, contains, remove_first, less, enlist, enlist_all, unlist,
  unlist_all,
}
use mantlemint.Richlist.List.{Richlist, rank, rank_over, unrank, unrank_over, ranker_of}

abbrev pub add_once : Bytes → List Bytes → List Bytes
add_once a l = if contains a l then l else l ++ a ∷ []

abbrev pub remove_once : Bytes → List Bytes → List Bytes
remove_once a l = elim (remove_first a l) [ none ↦ l | some rest ↦ rest ]

module _ (k : Sdk) (b : BTree k) where
  abbrev probe : k.Coin → Ranker k
  probe c = record { position = 0; addresses = []; score = c }

  abbrev addresses_of : Option (Ranker k) → List Bytes
  addresses_of none = []
  addresses_of (some r) = r.addresses

  -- the addresses that are listed at a score
  unfoldable pub listed_at : Richlist k b → k.Coin → List Bytes
  listed_at list c = addresses_of (b.get list.rankers (probe c))

  abbrev pub same_score : k.Coin → k.Coin → Bool
  same_score c e = not (k.is_lt c e) && not (k.is_lt e c)

  module _ (o : IsOrder k) (laws : IsBTree k b) where
    score_eq : (c e : k.Coin) → same_score c e ≡ true → c ≡ e
    score_eq c e h = ground (arith, o.equal c e)

    found :
        (q : Ranker k) (v : Option (Ranker k)) (c : k.Coin) (t : b.Tree)
        → b.get t q ≡ v
        → same_score q.score c ≡ true
        → b.get t (probe c) ≡ v
    found q v c t h same = laws.get_score (probe c) q t (sym (score_eq q.score c same)) ∙ h

    item_score : (q r : Ranker k) (t : b.Tree) → b.get t q ≡ some r → r.score ≡ q.score
    unfolding less
    item_score q r t h = score_eq r.score q.score (laws.get_rank q r t h)

    enlist-score : (a : Bytes) (r : Ranker k) → (enlist k a r).score ≡ r.score
    unfolding enlist
    enlist-score a r = ground arith

    enlist-addresses :
        (a : Bytes) (r : Ranker k) → (enlist k a r).addresses ≡ add_once a r.addresses
    unfolding enlist
    enlist-addresses a r = ground arith

    unlist-score : (a : Bytes) (r : Ranker k) → (unlist k a r).1.score ≡ r.score
    unfolding unlist
    unlist-score a r = ground arith

    unlist-addresses :
        (a : Bytes) (r : Ranker k) → (unlist k a r).1.addresses ≡ remove_once a r.addresses
    unfolding unlist
    unlist-addresses a r = ground arith

    choose :
        (f : List Bytes → List Bytes) (same : Bool) (e old : Option (Ranker k))
        → (same ≡ true → addresses_of e ≡ f (addresses_of old))
        → addresses_of (if same then e else old)
          ≡ (if same then f (addresses_of old) else addresses_of old)
    choose f true e old h = h refl
    choose f false e old h = refl

    -- the tree with an entry of the score `s` put in or taken out, if that has on `f` of its addresses
    put_at :
        (f : List Bytes → List Bytes) (q entry : Ranker k) (v : Option (Ranker k)) (c : k.Coin)
        (t : b.Tree)
        → b.get t q ≡ v
        → entry.score ≡ q.score
        → entry.addresses ≡ f (addresses_of v)
        → addresses_of (b.get (b.replace_or_insert entry t) (probe c)) ≡ (
            if same_score q.score c
            then f (addresses_of (b.get t (probe c)))
            else addresses_of (b.get t (probe c)))
    unfolding less
    put_at f q entry v c t e score h =
        ap addresses_of (laws.get_replace entry (probe c) t)
        ∙ ap (λ z. addresses_of (if same_score z c then some entry else b.get t (probe c))) score
        ∙ (choose f (same_score q.score c) (some entry) (b.get t (probe c))
            (λ same. h ∙ ap (λ o. f (addresses_of o)) (sym (found q v c t e same))))

    delete_at :
        (f : List Bytes → List Bytes) (q entry : Ranker k) (v : Option (Ranker k)) (c : k.Coin)
        (t : b.Tree)
        → b.get t q ≡ v
        → entry.score ≡ q.score
        → [] ≡ f (addresses_of v)
        → addresses_of (b.get (b.delete entry t) (probe c)) ≡ (
            if same_score q.score c
            then f (addresses_of (b.get t (probe c)))
            else addresses_of (b.get t (probe c)))
    unfolding less
    delete_at f q entry v c t e score h =
        ap addresses_of (laws.get_delete entry (probe c) t)
        ∙ ap (λ z. addresses_of (if same_score z c then none else b.get t (probe c))) score
        ∙ (choose f (same_score q.score c) none (b.get t (probe c))
            (λ same. h ∙ ap (λ o. f (addresses_of o)) (sym (found q v c t e same))))

    rank_found :
        (q : Ranker k) (t : k.Coin) (list : Richlist k b)
        → list.threshold ≡ some t
        → rank k b q list ≡ rank_over k b t q list
    unfolding rank
    rank_found q t list th =
        ap
          (λ o. elim o as (λ _. Result (Unit {0}) × Richlist k b) [
            | none ↦ (err panic, list)
            | some t ↦ rank_over k b t q list
          ])
          th

    unrank_found :
        (q : Ranker k) (t : k.Coin) (list : Richlist k b)
        → list.threshold ≡ some t
        → unrank k b q list ≡ unrank_over k b t q list
    unfolding unrank
    unrank_found q t list th =
        ap
          (λ o. elim o as (λ _. Result (Unit {0}) × Richlist k b) [
            | none ↦ (err panic, list)
            | some t ↦ unrank_over k b t q list
          ])
          th

    -- Rank of one address at a score that is not below the threshold adds it to those listed at this
    -- score, at the end and only once, and leaves every other score as it was.
    pub listed_at-rank :
        (a : Bytes) (s t c : k.Coin) (list : Richlist k b)
        → list.threshold ≡ some t
        → k.is_lt s t ≡ false
        → ((rank k b (ranker_of k b a s) list).0 ≡ ok tt)
          × (listed_at (rank k b (ranker_of k b a s) list).1 c
              ≡ (if same_score s c then add_once a (listed_at list c) else listed_at list c))
    unfolding rank_over listed_at enlist_all contains
    listed_at-rank a s t c list th l =
        let q = ranker_of k b a s in
        rw (rank_found q t list th) elim (Option-cases (b.get list.rankers q)) [
          | inl e ↦
              simp (l, e, put_at (add_once a) q q none c list.rankers e refl refl) (refl, refl)
          | inr (item, e) ↦
              simp
                (
                  l,
                  e,
                  put_at (add_once a) q (enlist k a item) (some item) c list.rankers e
                      (enlist-score a item ∙ item_score q item list.rankers e)
                      (enlist-addresses a item),
                )
                (refl, refl)
        ]

    kept :
        (a : Bytes) (same : Bool) (old : Option (Ranker k))
        → (same ≡ true → old ≡ none)
        → addresses_of old ≡ (if same then remove_once a (addresses_of old) else addresses_of old)
    unfolding remove_first
    kept a true old h = rw (h refl) refl
    kept a false old h = refl

    -- Unrank of one address at a score whose amount is not below the threshold takes it off those listed
    -- at this score, and leaves every other score as it was.
    pub listed_at-unrank :
        (a : Bytes) (s t c : k.Coin) (list : Richlist k b)
        → list.threshold ≡ some t
        → k.amount_lt s t ≡ false
        → listed_at (unrank k b (ranker_of k b a s) list).1 c
          ≡ (if same_score s c then remove_once a (listed_at list c) else listed_at list c)
    unfolding unrank_over listed_at unlist_all remove_first
    listed_at-unrank a s t c list th l =
        let q = ranker_of k b a s in
        rw (unrank_found q t list th) elim (Option-cases (b.get list.rankers q)) [
          | inl e ↦
              simp (l, e)
                (kept a (same_score s c) (b.get list.rankers (probe c))
                  (found q none c list.rankers e))
          | inr (item, e) ↦
              let score = unlist-score a item ∙ item_score q item list.rankers e in
              elim (Bool-cases (length (unlist k a item).1.addresses == 0)) [
                | inl z ↦ simp (
                  l,
                  e,
                  z,
                  delete_at (remove_once a) q (unlist k a item).1 (some item) c list.rankers e score
                      (empty_eq _ z ∙ unlist-addresses a item),
                )
                | inr z ↦ simp (
                  l,
                  e,
                  z,
                  put_at (remove_once a) q (unlist k a item).1 (some item) c list.rankers e score
                      (unlist-addresses a item),
                )
              ]
        ]
      where
        empty_eq : (l : List Bytes) → (length l == 0) ≡ true → [] ≡ l
        empty_eq [] h = refl
        empty_eq (x ∷ l) h = absurd (ground arith)
