-- ===== src/Tmdb/Memory/Table.antt =====
-- The sorted table of what a list of writes holds.
use mantlemint.Prelude.{
  ◌≡◌, refl, sym, ap, ◌∙◌, ◌↔◌, inl, inr, Bool, true, false, Option, none, some, List, [], ◌∷◌,
  ◌++◌, In, All, All-In, arith, ◌==◌, if◌then◌else◌, Bool-cases, Option-cases,
}
use mantlemint.Bytes.{Bytes, bytes_eq, bytes_lt}
use mantlemint.Bytes.Order.{bytes_eq_iff, bytes_lt_trans, bytes_lt_total, bytes_lt_irrefl}
use mantlemint.Tmdb.{Op, last_op}
use mantlemint.Tmdb.Session.{IsAscending, in_range}

abbrev pub Table : Type 0
Table = List (Bytes × Bytes)

abbrev pub held : List Op → Bytes → Option Bytes
held ops k = elim (last_op ops k) [ none ↦ none | some v ↦ v ]

-- the rest of a key behind a prefix
unfoldable pub strip : Bytes → Bytes → Option Bytes
strip [] k = some k
strip (x ∷ p) [] = none
strip (x ∷ p) (y ∷ k) = if x == y then strip p k else none

pub strip_append : (p k : Bytes) → strip p (p ++ k) ≡ some k
unfolding strip
strip_append [] k = refl
strip_append (x ∷ p) k = ground (arith, strip_append p k)

strip_eq : (p k rest : Bytes) → strip p k ≡ some rest → k ≡ p ++ rest
unfolding strip
strip_eq [] k rest e = ground arith
strip_eq (x ∷ p) [] rest e = cc
strip_eq (x ∷ p) (y ∷ k) rest e = ground (arith, strip_eq p k rest)

-- the writes under a prefix and in a range, by the rest of their keys
restrict_one : Option Bytes → Option Bytes → Option Bytes → Option Bytes → List Op → List Op
restrict_one none value start end ops = ops
restrict_one (some rest) value start end ops =
    if in_range start end rest then record { key = rest; value = value } ∷ ops else ops

unfoldable pub restrict : Bytes → Option Bytes → Option Bytes → List Op → List Op
unfolding restrict_one
restrict p start end [] = []
restrict p start end (op ∷ ops) =
    restrict_one (strip p op.key) op.value start end (restrict p start end ops)

insert : Bytes → Bytes → Table → Table
insert k v [] = (k, v) ∷ []
insert k v ((j, w) ∷ t) =
    let rest = insert k v t in
    if bytes_lt k j then (k, v) ∷ (j, w) ∷ t else if bytes_eq k j then (k, v) ∷ t else (j, w) ∷ rest

remove : Bytes → Table → Table
remove k [] = []
remove k ((j, w) ∷ t) = let rest = remove k t in if bytes_eq k j then rest else (j, w) ∷ rest

put : Op → Table → Table
unfolding insert remove
put op t = elim op.value [ none ↦ remove op.key t | some v ↦ insert op.key v t ]

unfoldable pub table : List Op → Table
unfolding put
table [] = []
table (op ∷ ops) = put op (table ops)

abbrev eq_rest : Option Bytes → Bytes → Bool
eq_rest none k = false
eq_rest (some rest) k = bytes_eq rest k

bytes_eq-strip : (p key k : Bytes) → bytes_eq key (p ++ k) ≡ eq_rest (strip p key) k
unfolding strip bytes_eq
bytes_eq-strip [] key k = refl
bytes_eq-strip (x ∷ p) [] k = refl
bytes_eq-strip (x ∷ p) (y ∷ key) k = ground (arith, bytes_eq-strip p key k)

pub held-restrict :
    (p : Bytes) (start end : Option Bytes) (ops : List Op) (k : Bytes)
    → held (restrict p start end ops) k ≡ (if in_range start end k then held ops (p ++ k) else none)
unfolding restrict last_op
held-restrict p start end [] k = ground arith
held-restrict p start end (op ∷ ops) k =
    let same : bytes_eq op.key (p ++ k) ≡ eq_rest (strip p op.key) k = bytes_eq-strip p op.key k in
    let older = held-restrict p start end ops k in
    elim (Option-cases (strip p op.key)) [
      | inl e ↦ ground (arith, e, same, older)
      | inr (rest, e) ↦ ground (arith, e, same, older, bytes_eq_iff rest k)
    ]

find : Table → Bytes → Option Bytes
find [] k = none
find ((j, w) ∷ t) k = if bytes_eq j k then some w else find t k

find-insert :
    (k v : Bytes) (t : Table) (a : Bytes)
    → find (insert k v t) a ≡ (if bytes_eq k a then some v else find t a)
unfolding find insert
find-insert k v [] a = refl
find-insert k v ((j, w) ∷ t) a =
    ground (arith, find-insert k v t a, bytes_eq_iff k j, bytes_eq_iff k a, bytes_eq_iff j a)

find-remove :
    (k : Bytes) (t : Table) (a : Bytes)
    → find (remove k t) a ≡ (if bytes_eq k a then none else find t a)
unfolding find remove
find-remove k [] a = ground arith
find-remove k ((j, w) ∷ t) a =
    ground (arith, find-remove k t a, bytes_eq_iff k j, bytes_eq_iff k a, bytes_eq_iff j a)

find-table : (ops : List Op) (k : Bytes) → find (table ops) k ≡ held ops k
unfolding find table last_op
find-table [] k = refl
find-table (op ∷ ops) k = elim (Option-cases op.value) [
  | inl e ↦ rw e (find-remove op.key (table ops) k ∙ rw (find-table ops k) (ground arith))
  | inr (v, e) ↦ rw e (find-insert op.key v (table ops) k ∙ rw (find-table ops k) (ground arith))
]

All-insert :
    (P : Bytes × Bytes → Type 0) (k v : Bytes) (t : Table)
    → P (k, v)
    → All P t
    → All P (insert k v t)
unfolding insert
All-insert P k v [] p h = (p, tt)
All-insert P k v ((j, w) ∷ t) p h = elim (Bool-cases (bytes_lt k j)) [
  | inl e ↦ rw e (p, h)
  | inr e ↦ elim (Bool-cases (bytes_eq k j)) [
    | inl f ↦ rw (e, f) (p, h.1)
    | inr f ↦ rw (e, f) (h.0, All-insert P k v t p h.1)
  ]
]

All-remove : (P : Bytes × Bytes → Type 0) (k : Bytes) (t : Table) → All P t → All P (remove k t)
unfolding remove
All-remove P k [] h = h
All-remove P k ((j, w) ∷ t) h = elim (Bool-cases (bytes_eq k j)) [
  | inl f ↦ rw f (All-remove P k t h.1)
  | inr f ↦ rw f (h.0, All-remove P k t h.1)
]

All-above :
    (k j : Bytes) (t : Table)
    → bytes_lt k j ≡ true
    → All (λ x. bytes_lt j x.0 ≡ true) t
    → All (λ x. bytes_lt k x.0 ≡ true) t
All-above k j [] e h = tt
All-above k j ((a, b) ∷ t) e h = (bytes_lt_trans k j a e h.0, All-above k j t e h.1)

insert-IsAscending : (k v : Bytes) (t : Table) → IsAscending t → IsAscending (insert k v t)
unfolding insert
insert-IsAscending k v [] h = (tt, tt)
insert-IsAscending k v ((j, w) ∷ t) h = elim (Bool-cases (bytes_lt k j)) [
  | inl e ↦ rw e ((e, All-above k j t e h.0), h)
  | inr e ↦ elim (Bool-cases (bytes_eq k j)) [
    | inl f ↦ rw (e, f) (rw (← (bytes_eq_iff k j).0 f) at h.0, h.1)
    | inr f ↦
        let above : bytes_lt j k ≡ true =
          ground (arith, f, bytes_eq_iff k j, Bool-cases (bytes_lt j k), bytes_lt_total k j e) in
        rw (e, f) (All-insert _ k v t above h.0, insert-IsAscending k v t h.1)
  ]
]

remove-IsAscending : (k : Bytes) (t : Table) → IsAscending t → IsAscending (remove k t)
unfolding remove
remove-IsAscending k [] h = tt
remove-IsAscending k ((j, w) ∷ t) h = elim (Bool-cases (bytes_eq k j)) [
  | inl f ↦ rw f (remove-IsAscending k t h.1)
  | inr f ↦ rw f (All-remove _ k t h.0, remove-IsAscending k t h.1)
]

pub table-IsAscending : (ops : List Op) → IsAscending (table ops)
unfolding table
table-IsAscending [] = tt
table-IsAscending (op ∷ ops) = elim (Option-cases op.value) [
  | inl e ↦ rw e (remove-IsAscending op.key (table ops) (table-IsAscending ops))
  | inr (v, e) ↦ rw e (insert-IsAscending op.key v (table ops) (table-IsAscending ops))
]

find_of_In : (k v : Bytes) (t : Table) → IsAscending t → In (k, v) t → find t k ≡ some v
unfolding find
find_of_In k v [] h i = elim i [ ]
find_of_In k v ((j, w) ∷ t) h (inl e) =
    ground (
      arith,
      bytes_eq_iff j k,
      ap (λ (x : Bytes × Bytes). x.0) e,
      ap (λ (x : Bytes × Bytes). x.1) e,
    )
find_of_In k v ((j, w) ∷ t) h (inr i) = ground (
  arith,
  All-In (λ (x : Bytes × Bytes). bytes_lt j x.0 ≡ true) (k, v) t h.0 i,
  bytes_eq_iff j k,
  bytes_lt_irrefl j,
  find_of_In k v t h.1 i,
)

find-In : (k v : Bytes) (t : Table) → find t k ≡ some v → In (k, v) t
unfolding find
find-In k v [] e = cc
find-In k v ((j, w) ∷ t) e = elim (Bool-cases (bytes_eq j k)) [
  | inl f ↦ inl (ground (arith, f, bytes_eq_iff j k, e))
  | inr f ↦ inr (find-In k v t (rw f at e))
]

-- The table holds exactly what the writes leave.
pub table_iff : (ops : List Op) (k v : Bytes) → In (k, v) (table ops) ↔ (held ops k ≡ some v)
table_iff ops k v = (
  λ i. sym (find-table ops k) ∙ find_of_In k v (table ops) (table-IsAscending ops) i,
  λ e. find-In k v (table ops) (find-table ops k ∙ e),
)
