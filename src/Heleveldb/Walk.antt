-- ===== src/Heleveldb/Walk.antt =====
-- What a client's loop over an iterator at a height sees: the keys that had a value right after the
-- block of that height, in their order, and it ends.
use mantlemint.Prelude.{
  ℕ, zero, suc, pos, ◌<◌, ◌≤◌, ◌^◌, ◌≡◌, refl, sym, ap, ◌∙◌, ◌↔◌, inl, inr, true, false, Option,
  none, some, List, [], ◌∷◌, ok, In, All, arith, length, Option-cases, All-intro,
}
use mantlemint.Bytes.{Bytes, bytes_eq, bytes_lt}
use mantlemint.Bytes.Order.{bytes_eq_refl, bytes_eq_iff, bytes_lt_irrefl}
use mantlemint.Tmdb.Session.{is_key, is_bound, Session, IsReliable, IsAscending, in_range}
use mantlemint.Heleveldb.Keys.{desc}
use mantlemint.Heleveldb.Driver.{get}
use mantlemint.Heleveldb.History.{History, newest, read_spec, IsDescending, IsApart}
use mantlemint.Heleveldb.Raw.{mark, marked}
use mantlemint.Heleveldb.Iterator.{
  Iterator, fresh, new_iterator, advance, value_or_nil, valid, key, next, value, visit, walk,
}
use mantlemint.Heleveldb.Stored.{Stores, flat}
use mantlemint.Heleveldb.Reads.{get-Stores}
use mantlemint.Heleveldb.Visited.{
  visited, visited_cons, visited-IsAscending, visited_only, visited_all, written,
}

module _ (x : Session) (s : x.State) (hist : History) (h : ℕ) where
  -- reads of the entries ahead, and the key that the iterator saw last
  abbrev IsRead : List (Bytes × Bytes) → Type 0
  IsRead = All (λ e. get x desc s (pos h) e.0 ≡ ok (read_spec hist h e.0))

  abbrev IsAhead : Bytes → List (Bytes × Bytes) → Type 0
  IsAhead last = All (λ e. bytes_eq last e.0 ≡ false)

  ascending-IsAhead :
      (k : Bytes) (es : List (Bytes × Bytes)) → All (λ e. bytes_lt k e.0 ≡ true) es → IsAhead k es
  ascending-IsAhead k [] a = tt
  ascending-IsAhead k (e ∷ es) a =
      (ground (arith, a.0, bytes_eq_iff k e.0, bytes_lt_irrefl k), ascending-IsAhead k es a.1)

  read_at_max :
      (i : Iterator) (k : Bytes) (v : Option Bytes)
      → i.max_height ≡ pos h
      → get x desc s (pos h) k ≡ ok (read_spec hist h k)
      → read_spec hist h k ≡ v
      → get x desc s i.max_height k ≡ ok v
  read_at_max i k v e r q = ap (λ z. get x desc s z k) e ∙ r ∙ ap ok q

  advance_skip :
      (i : Iterator) (k m : Bytes) (rest : List (Bytes × Bytes))
      → bytes_eq i.last_valid_key k ≡ false
      → get x desc s i.max_height k ≡ ok none
      → advance x desc s i ((k, m) ∷ rest) ≡ advance x desc s i rest
  unfolding advance value_or_nil
  advance_skip i k m rest a g = rw (a, g) refl

  advance_found :
      (i : Iterator) (k m v : Bytes) (rest : List (Bytes × Bytes))
      → bytes_eq i.last_valid_key k ≡ false
      → get x desc s i.max_height k ≡ ok (some v)
      → advance x desc s i ((k, m) ∷ rest) ≡ (
        ok true,
        record i { ahead = (k, m) ∷ rest; last_valid_key = k; last_valid_value = some v },
      )
  unfolding advance value_or_nil
  advance_found i k m v rest a g = rw (a, g) refl

  -- a step of the loop, at a key that has a value
  visit_found :
      (fuel : ℕ) (i : Iterator) (k m v : Bytes) (rest seen : List (Bytes × Bytes))
      → walk x desc fuel s
          (record i { ahead = rest; last_valid_key = k; last_valid_value = some v })
        ≡ ok seen
      → visit x desc (walk x desc fuel) s (
        ok true,
        record i { ahead = (k, m) ∷ rest; last_valid_key = k; last_valid_value = some v },
      )
        ≡ ok ((k, v) ∷ seen)
  unfolding visit key next value
  visit_found fuel i k m v rest seen w = rw (bytes_eq_refl k, w) refl

  -- The loop goes on from the entries ahead, with fuel for each of them.
  visit_lem :
      (es : List (Bytes × Bytes)) (fuel : ℕ) (i : Iterator)
      → i.max_height ≡ pos h
      → length es ≤ fuel
      → IsAhead i.last_valid_key es
      → IsAscending es
      → IsRead es
      → visit x desc (walk x desc fuel) s (advance x desc s i es) ≡ ok (visited hist h es)
  unfolding visit advance walk valid
  visit_lem [] fuel i e l a o r = refl
  visit_lem ((k, m) ∷ rest) zero i e l a o r = absurd (omega arith)
  visit_lem ((k, m) ∷ rest) (suc fuel) i e l a o r = elim (Option-cases (read_spec hist h k)) [
    | inl q ↦
        ap (visit x desc (walk x desc (suc fuel)) s)
          (advance_skip i k m rest a.0 (read_at_max i k none e r.0 q))
        ∙ visit_lem rest (suc fuel) i e (omega arith) a.1 o.1 r.1
        ∙ ap ok (sym (visited_cons hist h k m rest none q))
    | inr (v, q) ↦
        let later = record i { ahead = rest; last_valid_key = k; last_valid_value = some v } in
        ap (visit x desc (walk x desc (suc fuel)) s)
          (advance_found i k m v rest a.0 (read_at_max i k (some v) e r.0 q))
        ∙ visit_found (suc fuel) i k m v rest (visited hist h rest)
            (visit_lem rest fuel later e (omega arith) (ascending-IsAhead k rest o.0) o.1 r.1)
        ∙ ap ok (sym (visited_cons hist h k m rest (some v) q))
  ]

module _ (x : Session) (r : IsReliable x) (s : x.State) (hist : History) (h : ℕ)
    (st : Stores x r s hist) (d : IsDescending hist) (p : 0 < h) (l : h < 2 ^ 56)
    (apart : (k : Bytes) (o : Option Bytes) → newest hist k ≡ some o → IsApart hist k)
    (named : newest hist [] ≡ none) (start end : Option Bytes) (bs : is_bound start ≡ true)
    (be : is_bound end ≡ true) where
  abbrev pub listed : List (Bytes × Bytes)
  listed = r.entries s (1 ∷ []) start end

  -- a key of the keys partition is one that the history writes
  was_written : (e : Bytes × Bytes) → In e listed → (o : Option Bytes) × (newest hist e.0 ≡ some o)
  was_written (k, m) i =
      let (held, within) = r.entries_sound s (1 ∷ []) start end k m i in
      elim (Option-cases (newest hist k)) [
        | inl q ↦ ground (arith, st.listed k)
        | inr found ↦ found
      ]

  listed-IsRead : IsRead x s hist h listed
  listed-IsRead =
      All-intro _ listed
        λ e i. let (o, q) = was_written e i in get-Stores x r s hist e.0 h st d (apart e.0 o q) l p

  listed-IsAhead : IsAhead x s hist h [] listed
  listed-IsAhead =
      All-intro _ listed λ e i. let (o, q) = was_written e i in ground (arith, bytes_eq_iff [] e.0)

  pub made : new_iterator x desc s (pos h) start end ≡ ok (fresh (pos h) listed)
  unfolding new_iterator
  made = rw (r.prefix_iterator_ok s (1 ∷ []) start end bs be, new_iterator) refl

  -- an iterator is made, and its loop ends with the entries that are visited
  pub walk-fresh :
      walk x desc (suc (length listed)) s (fresh (pos h) listed) ≡ ok (visited hist h listed)
  unfolding walk valid
  walk-fresh =
      visit_lem x s hist h listed (length listed) (fresh (pos h) listed) refl (omega arith)
        listed-IsAhead (r.entries_sorted s (1 ∷ []) start end) listed-IsRead

  named_key : (k : Bytes) (o : Option Bytes) → newest hist k ≡ some o → is_key k ≡ true
  named_key [] o q = cc
  named_key (b ∷ k) o q = refl

  -- the entries that are visited, by the history
  pub visited_iff :
      (k v : Bytes)
      → In (k, v) (visited hist h listed)
        ↔ ((in_range start end k ≡ true) × (read_spec hist h k ≡ some v))
  visited_iff k v = (
    λ i.
        let (q, (m, j)) = visited_only hist h listed k v i in
        ((r.entries_sound s (1 ∷ []) start end k m j).1, q),
    λ t.
        let (o, q) = written hist h k v t.1 in
        visited_all hist h listed k (mark o) v
          (r.entries_complete s (1 ∷ []) start end k (mark o) (named_key k o q)
            (st.listed k ∙ ap (λ z. flat (marked z)) q) t.0)
          t.1,
  )

  pub visited-listed-IsAscending : IsAscending (visited hist h listed)
  visited-listed-IsAscending =
      visited-IsAscending hist h listed (r.entries_sorted s (1 ∷ []) start end)
