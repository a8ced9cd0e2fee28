-- ===== src/Tmdb/Session.antt =====
-- The third-party databases of tm-db: a GoLevelDB session, and PrefixDB over it. Their documented
-- behaviour, where no input or output fails, is the record `IsReliable`.
use mantlemint.Prelude.{
  Bool, true, Option, some, none, List, [], ◌∷◌, ◌++◌, ◌≡◌, ◌&&◌, not, Result, ok, In, All, reverse,
}
use mantlemint.Bytes.{Bytes, bytes_lt}
use mantlemint.Tmdb.{TmDb, Op, overlay}

pub record Session : Type 1 where
  pub db : TmDb
  pub open db use *
  pub prefix_iterator : State → Bytes → Option Bytes → Option Bytes → Result (List (Bytes × Bytes))
  pub prefix_reverse_iterator :
      State → Bytes → Option Bytes → Option Bytes → Result (List (Bytes × Bytes))

-- start ≤ k < end, where a missing bound is no bound
abbrev pub in_range : Option Bytes → Option Bytes → Bytes → Bool
in_range start end k =
    elim start [ none ↦ true | some a ↦ not (bytes_lt k a) ]
    && elim end [ none ↦ true | some b ↦ bytes_lt k b ]

-- a key of PrefixDB, and a bound of its iterators, which refuse a bound that is there and has no byte
abbrev pub is_key : Bytes → Bool
is_key [] = Bool.false
is_key (b ∷ k) = true

abbrev pub is_bound : Option Bytes → Bool
is_bound none = true
is_bound (some k) = is_key k

-- Entries in strictly ascending order of their keys.
abbrev pub IsAscending : List (Bytes × Bytes) → Type 0
IsAscending [] = Unit
IsAscending (e ∷ es) = All (λ x. bytes_lt e.0 x.0 ≡ true) es × IsAscending es

-- A session that does not fail. `view` is what it holds, and `pending` the writes that its batches
-- hold, the newest first. LevelDB and PrefixDB refuse empty keys and empty bounds, and the iterators of
-- PrefixDB pass over a key that is the prefix alone, so the laws are about keys and bounds that have a
-- byte.
pub record IsReliable (x : Session) : Type 0 where
  pub view : x.State → Bytes → Option Bytes
  pub pending : x.Batch → List Op
  pub entries : x.State → Bytes → Option Bytes → Option Bytes → List (Bytes × Bytes)
  pub get_ok : (s : x.State) (b : _) (k : Bytes) → x.get s (b ∷ k) ≡ ok (view s (b ∷ k))
  pub has_ok :
      (s : x.State) (b : _) (k : Bytes)
      → x.has s (b ∷ k) ≡ ok (elim (view s (b ∷ k)) [ none ↦ Bool.false | some _ ↦ true ])
  pub new_batch_pending : (s : x.State) → pending (x.new_batch s) ≡ []
  pub batch_set_ok :
      (s : x.State) (b : _) (k v : Bytes) (w : x.Batch) → (x.batch_set s (b ∷ k) v w).0 ≡ ok tt
  pub batch_set_pending :
      (s : x.State) (b : _) (k v : Bytes) (w : x.Batch)
      → pending (x.batch_set s (b ∷ k) v w).1 ≡ record { key = b ∷ k; value = some v } ∷ pending w
  pub batch_delete_ok :
      (s : x.State) (b : _) (k : Bytes) (w : x.Batch) → (x.batch_delete s (b ∷ k) w).0 ≡ ok tt
  pub batch_delete_pending :
      (s : x.State) (b : _) (k : Bytes) (w : x.Batch)
      → pending (x.batch_delete s (b ∷ k) w).1 ≡ record { key = b ∷ k; value = none } ∷ pending w
  pub batch_write_ok : (w : x.Batch) (s : x.State) → (x.batch_write w s).0 ≡ ok tt
  pub batch_write_view :
      (w : x.Batch) (s : x.State) (k : Bytes)
      → view (x.batch_write w s).1 k ≡ overlay (pending w) (view s) k
  pub prefix_iterator_ok :
      (s : x.State) (p : Bytes) (start end : Option Bytes)
      → is_bound start ≡ true
      → is_bound end ≡ true
      → x.prefix_iterator s p start end ≡ ok (entries s p start end)
  pub prefix_reverse_iterator_ok :
      (s : x.State) (p : Bytes) (start end : Option Bytes)
      → is_bound start ≡ true
      → is_bound end ≡ true
      → x.prefix_reverse_iterator s p start end ≡ ok (reverse (entries s p start end))
  pub entries_sound :
      (s : x.State) (p : Bytes) (start end : Option Bytes) (k v : Bytes)
      → In (k, v) (entries s p start end)
      → (view s (p ++ k) ≡ some v) × (in_range start end k ≡ true)
  pub entries_complete :
      (s : x.State) (p : Bytes) (start end : Option Bytes) (k v : Bytes)
      → is_key k ≡ true
      → view s (p ++ k) ≡ some v
      → in_range start end k ≡ true
      → In (k, v) (entries s p start end)
  pub entries_sorted :
      (s : x.State) (p : Bytes) (start end : Option Bytes) → IsAscending (entries s p start end)
