-- ===== src/Rollback/Undo.antt =====
-- The rollback batch undoes the batch: written after it, it restores what the database held.
use mathlib.Core.List.{append_assoc}
use mantlemint.Prelude.{
  ℕ, ◌+◌, ◌≡◌, refl, sym, ◌∙◌, ap, some, none, List, [], ◌∷◌, ◌++◌, continue_with, Option-cases,
  inl, inr, arith, ok, err, Exec, ◌>>◌,
}
use mantlemint.Bytes.{Bytes}
use mantlemint.Bytes.Order.{bytes_eq_iff}
use mantlemint.Tmdb.{Op, last_op, overlay}
use mantlemint.Tmdb.Session.{Session, IsReliable}
use mantlemint.Tmdb.Overlay.{Undoes}
use mantlemint.Rollback.{RollbackableBatch, new_rollbackable, set, delete}

module _ (x : Session) (r : IsReliable x) where
  open r use {view, pending}

  -- The rollback batch holds the old contents of exactly the keys that the batch writes.
  abbrev pub CanUndo : x.State → RollbackableBatch x → Type 0
  CanUndo s b = Undoes (view s) (pending b.batch) (pending b.rollback)

  pub new_rollbackable-CanUndo : (s : x.State) → CanUndo s (new_rollbackable x s)
  unfolding new_rollbackable last_op
  new_rollbackable-CanUndo s k = rw r.new_batch_pending refl

  module _ (s : x.State) (h : ℕ) (key : Bytes) (b : RollbackableBatch x) where
    pub set_ok : (value : Bytes) → (set x s (h ∷ key) value b).0 ≡ ok tt
    unfolding set
    set_ok value = elim (Option-cases (view s (h ∷ key))) [
      | inl e ↦ simp (r.get_ok, e, r.batch_delete_ok, r.batch_set_ok)
      | inr (old, e) ↦ simp (r.get_ok, e, r.batch_set_ok)
    ]

    pub batch-set :
        (value : Bytes)
        → pending (set x s (h ∷ key) value b).1.batch
          ≡ record { key = h ∷ key; value = some value } ∷ pending b.batch
    unfolding set
    batch-set value = elim (Option-cases (view s (h ∷ key))) [
      | inl e ↦ simp (r.get_ok, e, r.batch_delete_ok, r.batch_set_pending)
      | inr (old, e) ↦ simp (r.get_ok, e, r.batch_set_ok, r.batch_set_pending)
    ]

    pub rollback-set :
        (value : Bytes)
        → pending (set x s (h ∷ key) value b).1.rollback
          ≡ record { key = h ∷ key; value = view s (h ∷ key) } ∷ pending b.rollback
    unfolding set
    rollback-set value = elim (Option-cases (view s (h ∷ key))) [
      | inl e ↦ simp (r.get_ok, e, r.batch_delete_ok, r.batch_delete_pending)
      | inr (old, e) ↦ simp (r.get_ok, e, r.batch_set_ok, r.batch_set_pending)
    ]

    pub delete_ok : (delete x s (h ∷ key) b).0 ≡ ok tt
    unfolding delete
    delete_ok = elim (Option-cases (view s (h ∷ key))) [
      | inl e ↦ simp (r.get_ok, e, r.batch_delete_ok)
      | inr (old, e) ↦ simp (r.get_ok, e, r.batch_delete_ok, r.batch_set_ok)
    ]

    pub batch-delete :
        pending (delete x s (h ∷ key) b).1.batch
        ≡ record { key = h ∷ key; value = none } ∷ pending b.batch
    unfolding delete
    batch-delete = elim (Option-cases (view s (h ∷ key))) [
      | inl e ↦ simp (r.get_ok, e, r.batch_delete_ok, r.batch_delete_pending)
      | inr (old, e) ↦ simp (r.get_ok, e, r.batch_set_ok, r.batch_delete_pending)
    ]

    pub rollback-delete :
        pending (delete x s (h ∷ key) b).1.rollback
        ≡ record { key = h ∷ key; value = view s (h ∷ key) } ∷ pending b.rollback
    unfolding delete
    rollback-delete = elim (Option-cases (view s (h ∷ key))) [
      | inl e ↦ simp (r.get_ok, e, r.batch_delete_ok, r.batch_delete_pending)
      | inr (old, e) ↦ simp (r.get_ok, e, r.batch_set_ok, r.batch_set_pending)
    ]

    -- One more write, of any kind, keeps the rollback batch able to undo the batch.
    pub set-CanUndo : (value : Bytes) → CanUndo s b → CanUndo s (set x s (h ∷ key) value b).1
    unfolding last_op
    set-CanUndo value c k =
        rw (batch-set value, rollback-set value) (ground (arith, c k, bytes_eq_iff (h ∷ key) k))

    pub delete-CanUndo : CanUndo s b → CanUndo s (delete x s (h ∷ key) b).1
    unfolding last_op
    delete-CanUndo c k =
        rw (batch-delete, rollback-delete) (ground (arith, c k, bytes_eq_iff (h ∷ key) k))

  -- If the rollback batch of `b` undoes its batch over the contents at `s`, then writing the batch to
  -- `s` and the rollback batch after it leaves every key with what it had at `s`.
  pub rollback-restores :
      (s : x.State) (b : RollbackableBatch x)
      → CanUndo s b
      → (k : Bytes) → view (x.batch_write b.rollback (x.batch_write b.batch s).1).1 k ≡ view s k
  unfolding overlay
  rollback-restores s b c k = ground (
    arith,
    c k,
    r.batch_write_view b.batch s k,
    r.batch_write_view b.rollback (x.batch_write b.batch s).1 k,
  )

-- A read that fails in `backup` makes Set fail with that error, and neither batch gets a write.
pub set-read_error :
    (x : Session) (s : x.State) (key value : Bytes) (b : RollbackableBatch x) {e : _}
    → x.get s key ≡ err e
    → set x s key value b ≡ (err e, record b { record_count = b.record_count + 1 })
unfolding set
set-read_error x s key value b h = rw h

module _ (x : Session) (r : IsReliable x) (s : x.State) where
  -- An action that adds the writes `ops` to a batch, and what undoes them to its rollback batch.
  pub record Writes (m : Exec (RollbackableBatch x) Unit) (ops : List Op) : Type 0 where
    pub at :
        (b : RollbackableBatch x)
        → CanUndo x r s b
        → ((m b).0 ≡ ok tt)
          × (r.pending (m b).1.batch ≡ ops ++ r.pending b.batch)
          × CanUndo x r s (m b).1

  pub set-Writes :
      (h : ℕ) (key value : Bytes)
      → Writes (set x s (h ∷ key) value) (record { key = h ∷ key; value = some value } ∷ [])
  set-Writes h key value = record {
    at = λ b c. (
      set_ok x r s h key b value,
      batch-set x r s h key b value,
      set-CanUndo x r s h key b value c,
    );
  }

  pub delete-Writes :
      (h : ℕ) (key : Bytes)
      → Writes (delete x s (h ∷ key)) (record { key = h ∷ key; value = none } ∷ [])
  delete-Writes h key = record {
    at = λ b c.
        (delete_ok x r s h key b, batch-delete x r s h key b, delete-CanUndo x r s h key b c);
  }

  pub >>-Writes :
      (m n : Exec (RollbackableBatch x) Unit) (ops newer : List Op)
      → Writes m ops
      → Writes n newer
      → Writes (m >> n) (newer ++ ops)
  >>-Writes m n ops newer wm wn = record {
    at = λ b c.
        let (done, wrote, can) = wm.at b c in
        let step : (m >> n) b ≡ n (m b).1 = first b done in
        let (done', wrote', can') = wn.at (m b).1 can in
        rw step (done', wrote' ∙ ap (λ l. newer ++ l) wrote ∙ sym (append_assoc newer ops _), can');
  }
    where
      first : (b : RollbackableBatch x) → (m b).0 ≡ ok tt → (m >> n) b ≡ n (m b).1
      first b done = rw (done, continue_with) refl
