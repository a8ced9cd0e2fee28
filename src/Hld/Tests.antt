-- ===== src/Hld/Tests.antt =====
-- An iteration over the session in memory with two blocks, of which the second deletes "a".
use mantlemint.Prelude.{
  ◌≡◌, refl, sym, subst, ◌↔◌, ◌⊎◌, inl, inr, true, Option, none, some, pos, List, [], ◌∷◌, In, ok,
  arith,
}
use mantlemint.Bytes.{Bytes, bytes_eq}
use mantlemint.Bytes.Order.{bytes_eq_iff}
use mantlemint.Tmdb.{Op, last_op}
use mantlemint.Tmdb.Session.{IsAscending, in_range}
use mantlemint.Tmdb.Memory.{memory, memory_reliable}
use mantlemint.Heleveldb.Keys.{desc}
use mantlemint.Heleveldb.History.{History, newest, read_spec, IsDescending, IsApart, no_clash}
use mantlemint.Heleveldb.Commit.{commit_all}
use mantlemint.Heleveldb.Stored.{Stores, commit_all-Stores}
use mantlemint.Hld.{Hld}
use mantlemint.Hld.Database.{iterator}
use mantlemint.Hld.Iteration.{iterator-Stores}

abbrev key_a : Bytes
key_a = 97 ∷ []

abbrev key_b : Bytes
key_b = 98 ∷ []

abbrev blocks : History
blocks =
    (5, record { key = key_a; value = none } ∷ [])
    ∷ (
      3,
      record { key = key_b; value = some (2 ∷ []) }
          ∷ record { key = key_a; value = some (1 ∷ []) }
          ∷ [],
    )
    ∷ []

blocks-IsDescending : IsDescending blocks
blocks-IsDescending =
    (omega arith, omega arith, (omega arith, tt), (omega arith, omega arith, tt, tt))

written_key : (k : Bytes) (o : Option Bytes) → newest blocks k ≡ some o → (k ≡ key_a) ⊎ (k ≡ key_b)
unfolding newest last_op
written_key k o e = ground (arith, bytes_eq_iff key_a k, bytes_eq_iff key_b k)

a-IsApart : IsApart blocks key_a
unfolding no_clash
a-IsApart = ((refl, tt), ((refl, (refl, tt)), tt))

b-IsApart : IsApart blocks key_b
unfolding no_clash
b-IsApart = ((refl, tt), ((refl, (refl, tt)), tt))

blocks-IsApart : (k : Bytes) (o : Option Bytes) → newest blocks k ≡ some o → IsApart blocks k
blocks-IsApart k o e = elim (written_key k o e) [
  | inl q ↦ subst (IsApart blocks) (sym q) a-IsApart
  | inr q ↦ subst (IsApart blocks) (sym q) b-IsApart
]

abbrev held : List Op
held = (commit_all memory blocks []).1

held-Stores : Stores memory memory_reliable held blocks
unfolding last_op
held-Stores = (commit_all-Stores memory memory_reliable [] blocks (λ k. refl) blocks-IsDescending).1

abbrev at_four : Hld
at_four = record { write_height = pos 0; read_height = pos 4 }

iterator-Stores_example :
    (entries : List (Bytes × Bytes)) × (iterator memory desc held at_four none none ≡ ok entries)
    × IsAscending entries
    × ((k v : Bytes)
        → In (k, v) entries ↔ ((in_range none none k ≡ true) × (read_spec blocks 4 k ≡ some v)))
unfolding newest last_op bytes_eq
iterator-Stores_example =
    iterator-Stores memory memory_reliable held blocks 4 at_four none none held-Stores
      blocks-IsDescending (omega arith) (omega arith) blocks-IsApart refl refl refl refl
