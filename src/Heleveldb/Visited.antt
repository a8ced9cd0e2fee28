-- ===== src/Heleveldb/Visited.antt =====
-- The abstract view of an iteration at a height: the written keys that have a value there.
use mantlemint.Prelude.{
  ℕ, ◌≡◌, sym, ap, ◌∙◌, inl, inr, true, Option, none, some, List, [], ◌∷◌, In, All, arith,
  Option-cases,
}
use mantlemint.Bytes.{Bytes, bytes_lt}
use mantlemint.Tmdb.{last_op}
use mantlemint.Tmdb.Session.{IsAscending}
use mantlemint.Heleveldb.History.{History, newest, read_spec}
use mantlemint.Heleveldb.Raw.{mark}

-- the entries of the keys partition that have a value at a height, with it
abbrev pub visited : History → ℕ → List (Bytes × Bytes) → List (Bytes × Bytes)
visited hist h [] = []
visited hist h ((k, mark) ∷ rest) =
    let others = visited hist h rest in
    elim (read_spec hist h k) [ none ↦ others | some v ↦ (k, v) ∷ others ]

pub visited_cons :
    (hist : History) (h : ℕ) (k m : Bytes) (rest : List (Bytes × Bytes)) (o : Option Bytes)
    → read_spec hist h k ≡ o
    → visited hist h ((k, m) ∷ rest)
      ≡ elim o [ none ↦ visited hist h rest | some v ↦ (k, v) ∷ visited hist h rest ]
visited_cons hist h k m rest o q = ground arith

-- the entries that are visited, by what they hold
pub visited-All :
    (hist : History) (h : ℕ) (k : Bytes) (es : List (Bytes × Bytes))
    → All (λ e. bytes_lt k e.0 ≡ true) es
    → All (λ e. bytes_lt k e.0 ≡ true) (visited hist h es)
visited-All hist h k [] a = tt
visited-All hist h k ((k', m) ∷ es) a =
    ground (arith, Option-cases (read_spec hist h k'), visited-All hist h k es a.1, a.0)

pub visited-IsAscending :
    (hist : History) (h : ℕ) (es : List (Bytes × Bytes))
    → IsAscending es
    → IsAscending (visited hist h es)
visited-IsAscending hist h [] a = tt
visited-IsAscending hist h ((k, m) ∷ es) a = ground (
  arith,
  Option-cases (read_spec hist h k),
  visited-IsAscending hist h es a.1,
  visited-All hist h k es a.0,
)

pub visited_only :
    (hist : History) (h : ℕ) (es : List (Bytes × Bytes)) (k v : Bytes)
    → In (k, v) (visited hist h es)
    → (read_spec hist h k ≡ some v) × ((m : Bytes) × In (k, m) es)
visited_only hist h [] k v i = elim i [ ]
visited_only hist h ((k', m) ∷ es) k v i = elim (Option-cases (read_spec hist h k')) [
  | inl q ↦ let (e, (m', j)) = visited_only hist h es k v (ground arith) in (e, (m', inr j))
  | inr (w, q) ↦
      let split : In {A = Bytes × Bytes} (k, v) ((k', w) ∷ visited hist h es) = ground arith in
      elim split [
        | inl e ↦ (
          ap (λ (t : Bytes × Bytes). read_spec hist h t.0) e
              ∙ q
              ∙ ap (λ (t : Bytes × Bytes). some t.1) (sym e),
          (m, inl (ap (λ (t : Bytes × Bytes). (t.0, m)) e)),
        )
        | inr j ↦ let (e, (m', j')) = visited_only hist h es k v j in (e, (m', inr j'))
      ]
]

pub visited_all :
    (hist : History) (h : ℕ) (es : List (Bytes × Bytes)) (k m v : Bytes)
    → In (k, m) es
    → read_spec hist h k ≡ some v
    → In (k, v) (visited hist h es)
visited_all hist h [] k m v i q = elim i [ ]
visited_all hist h ((k', m') ∷ es) k m v i q =
    ground (arith, Option-cases (read_spec hist h k'), visited_all hist h es k m v)

-- what has a value at a height was written
pub written :
    (hist : History) (h : ℕ) (k v : Bytes)
    → read_spec hist h k ≡ some v
    → (o : Option Bytes) × (newest hist k ≡ some o)
unfolding read_spec newest
written [] h k v q = cc
written ((height, ops) ∷ older) h k v q =
    ground (arith, Option-cases (last_op ops k), written older h k v)
