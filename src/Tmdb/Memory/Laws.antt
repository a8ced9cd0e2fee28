-- ===== src/Tmdb/Memory/Laws.antt =====
-- The session in memory and its laws. It stands for a database that never fails: a write without a
-- batch is applied at once, and it offers no rollback batch of its own.
use mantlemint.Prelude.{
  ◌≡◌, refl, sym, ◌∙◌, true, false, Option, none, some, List, [], ◌∷◌, ◌++◌, reverse, ok, In,
  is_some, arith, Bool-cases, inl, inr,
}
use mantlemint.Bytes.{Bytes}
use mantlemint.Tmdb.{TmDb, Op, last_op, overlay}
use mantlemint.Tmdb.Session.{Session, IsReliable, in_range}
use mantlemint.Tmdb.Memory.Table.{
  Table, held, restrict, table, held-restrict, table-IsAscending, table_iff,
}

abbrev pub memory_entries : List Op → Bytes → Option Bytes → Option Bytes → Table
memory_entries s p start end = table (restrict p start end s)

abbrev pub memory_db : TmDb
memory_db = record {
  State = List Op;
  Batch = List Op;
  Rollback = ⊥;
  get = λ s k. ok (held s k);
  has = λ s k. ok (is_some (held s k));
  set = λ k v s. (ok tt, record { key = k; value = some v } ∷ s);
  delete = λ k s. (ok tt, record { key = k; value = none } ∷ s);
  iterator = λ s start end. ok (memory_entries s [] start end);
  reverse_iterator = λ s start end. ok (reverse (memory_entries s [] start end));
  new_batch = λ s. [];
  batch_set = λ s k v w. (ok tt, record { key = k; value = some v } ∷ w);
  batch_delete = λ s k w. (ok tt, record { key = k; value = none } ∷ w);
  batch_write = λ w s. (ok tt, w ++ s);
  rollback_batch = λ w. none;
  rollback_write = λ r s. absurd r;
}

abbrev pub memory : Session
memory = record {
  db = memory_db;
  prefix_iterator = λ s p start end. ok (memory_entries s p start end);
  prefix_reverse_iterator = λ s p start end. ok (reverse (memory_entries s p start end));
}

pub held-append : (w s : List Op) (k : Bytes) → held (w ++ s) k ≡ overlay w (held s) k
unfolding last_op overlay
held-append [] s k = refl
held-append (op ∷ w) s k = ground (arith, held-append w s k)

pub is_some_elim :
    (o : Option Bytes) → ok (is_some o) ≡ ok (elim o [ none ↦ false | some _ ↦ true ])
is_some_elim none = refl
is_some_elim (some v) = refl

pub entries_sound :
    (s : List Op) (p : Bytes) (start end : Option Bytes) (k v : Bytes)
    → In (k, v) (memory_entries s p start end)
    → (held s (p ++ k) ≡ some v) × (in_range start end k ≡ true)
entries_sound s p start end k v i =
    let e = sym (held-restrict p start end s k) ∙ (table_iff (restrict p start end s) k v).0 i in
    elim (Bool-cases (in_range start end k)) [
      | inl within ↦ (rw within at e, within)
      | inr without ↦ absurd (ground (arith, rw without at e))
    ]

pub entries_complete :
    (s : List Op) (p : Bytes) (start end : Option Bytes) (k v : Bytes)
    → held s (p ++ k) ≡ some v
    → in_range start end k ≡ true
    → In (k, v) (memory_entries s p start end)
entries_complete s p start end k v e within =
    (table_iff (restrict p start end s) k v).1 (held-restrict p start end s k ∙ rw within e)

abbrev pub memory_reliable : IsReliable memory
memory_reliable = record {
  view = held;
  pending = λ w. w;
  entries = memory_entries;
  get_ok = λ s b k. refl;
  has_ok = λ s b k. is_some_elim (held s (b ∷ k));
  new_batch_pending = λ s. refl;
  batch_set_ok = λ s b k v w. refl;
  batch_set_pending = λ s b k v w. refl;
  batch_delete_ok = λ s b k w. refl;
  batch_delete_pending = λ s b k w. refl;
  batch_write_ok = λ w s. refl;
  batch_write_view = λ w s k. held-append w s k;
  prefix_iterator_ok = λ s p start end _ _. refl;
  prefix_reverse_iterator_ok = λ s p start end _ _. refl;
  entries_sound = entries_sound;
  entries_complete = λ s p start end k v _. entries_complete s p start end k v;
  entries_sorted = λ s p start end. table-IsAscending (restrict p start end s);
}
