-- ===== src/Hld/Iteration.antt =====
-- Iteration over the height-limited database at a height, over a session that stores a history.
use mantlemint.Prelude.{
  ℕ, pos, eq_ℤ, ◌<◌, ◌^◌, ◌≡◌, ap, ◌∙◌, ◌↔◌, true, Option, none, some, List, [], In, ok, arith,
  if◌then◌else◌,
}
use mantlemint.Bytes.{Bytes}
use mantlemint.Tmdb.Session.{is_bound, Session, IsReliable, IsAscending, in_range}
use mantlemint.Heleveldb.Keys.{desc}
use mantlemint.Heleveldb.Driver.{current_iterator}
use mantlemint.Heleveldb.Iterator.{new_iterator}
use mantlemint.Heleveldb.History.{History, newest, read_spec, IsDescending, IsApart}
use mantlemint.Heleveldb.Stored.{Stores}
use mantlemint.Heleveldb.Visited.{visited}
use mantlemint.Heleveldb.Walk.{listed, made, walk-fresh, visited_iff, visited-listed-IsAscending}
use mantlemint.Hld.{Hld}
use mantlemint.Hld.Database.{iterator, seen}

here_seen :
    (x : Session) (s : x.State) (h : ℕ) (hld : Hld) (start end : Option Bytes)
    → 0 < h
    → hld.read_height ≡ pos h
    → iterator x desc s hld start end ≡ seen x desc s (new_iterator x desc s (pos h) start end)
unfolding iterator
here_seen x s h hld start end p at =
    ap
      (λ z.
        if eq_ℤ z (pos 0)
        then current_iterator x desc s start end
        else seen x desc s (new_iterator x desc s z start end))
      at
    ∙ ground arith

-- A session does not fail and stores a history, the heights of which do not rise from the newest block
-- on and lie below 2 ^ 56, and none of the keys of which is empty or clashes with another. Then, where
-- neither bound is there without a byte, a loop over the iterator at a height from 1 to 2 ^ 56 - 1 ends
-- without an error, and what it sees is in
-- strictly ascending order of the keys: each key within the bounds that held a value right after the
-- block of that height, with that value, and nothing else.
pub iterator-Stores :
    (x : Session) (r : IsReliable x) (s : x.State) (hist : History) (h : ℕ) (hld : Hld)
    (start end : Option Bytes)
    → Stores x r s hist
    → IsDescending hist
    → 0 < h
    → h < 2 ^ 56
    → ((k : Bytes) (o : Option Bytes) → newest hist k ≡ some o → IsApart hist k)
    → newest hist [] ≡ none
    → is_bound start ≡ true
    → is_bound end ≡ true
    → hld.read_height ≡ pos h
    → (entries : List (Bytes × Bytes)) × (iterator x desc s hld start end ≡ ok entries)
      × IsAscending entries
      × ((k v : Bytes)
          → In (k, v) entries ↔ ((in_range start end k ≡ true) × (read_spec hist h k ≡ some v)))
unfolding iterator seen
iterator-Stores x r s hist h hld start end st d p l apart named bs be at = (
  visited hist h (listed x r s hist h st d p l apart named start end bs be),
  here_seen x s h hld start end p at
      ∙ ap (seen x desc s) (made x r s hist h st d p l apart named start end bs be)
      ∙ walk-fresh x r s hist h st d p l apart named start end bs be,
  visited-listed-IsAscending x r s hist h st d p l apart named start end bs be,
  visited_iff x r s hist h st d p l apart named start end bs be,
)
