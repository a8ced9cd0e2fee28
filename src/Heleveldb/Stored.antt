-- ===== src/Heleveldb/Stored.antt =====
-- What the session holds, as a history: after the blocks of a history are committed to an empty
-- session, its entries are the versions of the history.
use mantlemint.Prelude.{
  ℕ, ◌^◌, ◌<◌, ◌≡◌, refl, sym, ◌∙◌, Option, none, some, List, [], ◌∷◌, ◌++◌, arith, ◌==◌, inl, inr,
  Option-cases, Bool-cases, ok, continue_with,
}
use mantlemint.Bytes.{Bytes}
use mantlemint.Tmdb.{Op, last_op, overlay}
use mantlemint.Tmdb.Session.{Session, IsReliable}
use mantlemint.Heleveldb.History.{History, version, newest, IsDescending}
use mantlemint.Heleveldb.Raw.{
  expand, suffix, data_key, encoded, marked, last_op-expand_keys, last_op-expand_data,
  last_op-expand_current, expand_data_inv,
}
use mantlemint.Heleveldb.Commit.{commit, commit_all, commit_lem}

abbrev pub flat : Option (Option Bytes) → Option Bytes
flat none = none
flat (some v) = v

module _ (x : Session) (r : IsReliable x) where
  open r use {view}

  -- the entry of a version of a key that the history writes
  abbrev IsVersion : History → Bytes → Type 0
  IsVersion hist rest =
      (k : Bytes) × (h : ℕ) × (o : Option Bytes) × (rest ≡ k ++ suffix h)
      × (version hist k h ≡ some o)

  pub record Stores (s : x.State) (hist : History) : Type 0 where
    pub current : (key : Bytes) → view s (0 ∷ key) ≡ flat (newest hist key)
    pub listed : (key : Bytes) → view s (1 ∷ key) ≡ flat (marked (newest hist key))
    pub versions :
        (key : Bytes) (h : ℕ)
        → h < 2 ^ 56
        → view s (data_key key h) ≡ flat (encoded (version hist key h))
    pub only : (rest v : Bytes) → view s (2 ∷ rest) ≡ some v → IsVersion hist rest

  IsVersion-older :
      (h : ℕ) (ops : List Op) (older : History) (rest : Bytes)
      → IsVersion older rest
      → IsVersion ((h, ops) ∷ older) rest
  unfolding version
  IsVersion-older h ops older rest (k, n, o, at, was) = elim (Bool-cases (h == n)) [
    | inr e ↦ (k, n, o, at, rw e was)
    | inl e ↦ elim (Option-cases (last_op ops k)) [
      | inl f ↦ (k, n, o, at, rw (e, f) was)
      | inr (o', f) ↦ (k, n, o', at, rw (e, f) refl)
    ]
  ]

  only_overlay :
      (s : x.State) (h : ℕ) (ops : List Op) (older : History) (rest v : Bytes)
      → Stores s older
      → overlay (expand h ops) (view s) (2 ∷ rest) ≡ some v
      → IsVersion ((h, ops) ∷ older) rest
  unfolding overlay version
  only_overlay s h ops older rest v st e = elim (Option-cases (last_op (expand h ops) (2 ∷ rest))) [
    | inl f ↦ IsVersion-older h ops older rest (st.only rest v (rw (f, overlay) at e))
    | inr (w, f) ↦
        let (k, o, at, was) = expand_data_inv h ops rest w f in (k, h, o, at, ground (arith, was))
  ]

  -- a session whose entries are those of a block over those of a session that stores a history
  pub add_block-Stores :
      (s s' : x.State) (h : ℕ) (ops : List Op) (older : History)
      → h < 2 ^ 56
      → ((k : Bytes) → view s' k ≡ overlay (expand h ops) (view s) k)
      → Stores s older
      → Stores s' ((h, ops) ∷ older)
  unfolding overlay version newest
  add_block-Stores s s' h ops older l holds st = record {
    current =
        λ key. holds (0 ∷ key) ∙ ground (arith, last_op-expand_current h ops key, st.current key);
    listed = λ key. holds (1 ∷ key) ∙ ground (arith, last_op-expand_keys h ops key, st.listed key);
    versions = λ key n ln.
        holds (data_key key n)
        ∙ ground (arith, last_op-expand_data h ops key n l ln, st.versions key n ln);
    only = λ rest v e. only_overlay s h ops older rest v st (sym (holds (2 ∷ rest)) ∙ e);
  }

  commit-Stores :
      (s : x.State) (h : ℕ) (ops : List Op) (older : History)
      → h < 2 ^ 56
      → Stores s older
      → Stores (commit x h ops s).1 ((h, ops) ∷ older)
  commit-Stores s h ops older l st =
      add_block-Stores s (commit x h ops s).1 h ops older l (commit_lem x r s h ops l).1 st

  -- sessions with the same entries store the same histories
  pub same-Stores :
      (s s' : x.State) (hist : History)
      → ((k : Bytes) → view s' k ≡ view s k)
      → Stores s hist
      → Stores s' hist
  same-Stores s s' hist same st = record {
    current = λ key. same (0 ∷ key) ∙ st.current key;
    listed = λ key. same (1 ∷ key) ∙ st.listed key;
    versions = λ key n ln. same (data_key key n) ∙ st.versions key n ln;
    only = λ rest v e. st.only rest v (sym (same (2 ∷ rest)) ∙ e);
  }

  -- The blocks of a history, the heights of which do not rise from the newest on, are committed to an empty
  -- session without an error, and the session then stores the history.
  pub commit_all-Stores :
      (s : x.State) (hist : History)
      → ((k : Bytes) → view s k ≡ none)
      → IsDescending hist
      → ((commit_all x hist s).0 ≡ ok tt) × Stores (commit_all x hist s).1 hist
  unfolding commit_all version newest
  commit_all-Stores s [] empty d = (
    refl,
    record {
      current = λ key. empty (0 ∷ key);
      listed = λ key. empty (1 ∷ key);
      versions = λ key h l. empty (data_key key h);
      only = λ rest v e. ground (arith, empty (2 ∷ rest));
    },
  )
  commit_all-Stores s ((h, ops) ∷ older) empty d =
      let (done, st) = commit_all-Stores s older empty d.3 in
      rw (done, continue_with)
        (
          (commit_lem x r (commit_all x older s).1 h ops d.1).0,
          commit-Stores (commit_all x older s).1 h ops older d.1 st,
        )
