-- ===== src/Sync/Round.antt =====
-- One round of the loop of sync.go, on a session that does not fail: the three ways in which it ends.
use mantlemint.Prelude.{
  ℕ, suc, ◌^◌, ◌<◌, pos, Option, none, some, List, Result, ok, err, panic, ◌≡◌, refl, ◌∙◌, ap, ◌⊎◌,
  inl, inr, Option-cases,
}
use mantlemint.Bytes.{Bytes}
use mantlemint.Tmdb.{Op, overlay}
use mantlemint.Tmdb.Session.{Session, IsReliable}
use mantlemint.Heleveldb.Keys.{desc}
use mantlemint.Heleveldb.Raw.{expand}
use mantlemint.Heleveldb.Commit.{put_value}
use mantlemint.Hld.{Hld}
use mantlemint.Hld.Database.{hld_database}
use mantlemint.SafeBatch.{flush}
use mantlemint.SafeBatch.Block.{BlockDb}
use mantlemint.SafeBatch.Effect.{Holding}
use mantlemint.Mantlemint.Reactor.{Tendermint, Instance, inject}
use mantlemint.Sync.{
  Outside, World, begin_block, process_block, injected, indexed, flushed, on_heights, undo_last,
}
use mantlemint.Sync.Pending.{Pends, flush-Pends, inject-Holding, inject_unseen}
use mantlemint.Sync.Writes.{WritesThrough, written}

-- the session that WriteSync of a rollback batch leaves, if there is one
abbrev pub undone : (x : Session) → Option x.Batch → x.State → x.State
undone x none s = s
undone x (some batch) s = (x.batch_write batch s).1

module _ (x : Session) (t : Tendermint (BlockDb x)) (o : Outside x t) (r : IsReliable x) where
  -- A block with the writes `ops` at the height `h` is in the session of `w` over what was in `s`, and
  -- the rollback batch of `w` takes it back.
  abbrev pub IsWritten : x.State → ℕ → List Op → World x t o → Type 0
  IsWritten s h ops w =
      ((k : Bytes) → r.view w.db.db.0 k ≡ overlay (expand h ops) (r.view s) k)
      × ((rb : x.Batch) × (w.rollback ≡ some rb)
          × ((k : Bytes) → r.view (x.batch_write rb w.db.db.0).1 k ≡ r.view s k))

  -- The ways in which a round ends that began on the session `s`: the block is written, or the node
  -- stops, with the session as it was, or as the rollback batch of the last block leaves it.
  abbrev pub Ends :
      x.State → ℕ → List Op → Option x.Batch → Result (Unit {0}) × World x t o → Type 0
  Ends s h ops rollback out =
      ((out.0 ≡ ok tt) × IsWritten s h ops out.1)
      ⊎ ((out.0 ≡ err panic) × ((out.1.db.db.0 ≡ s) ⊎ (out.1.db.db.0 ≡ undone x rollback s)))

  flushed-IsWritten :
      (block : t.Block) (w : World x t o) (s : x.State) (hl : Hld) (h : ℕ) (ops : List Op)
      → Holding (hld_database x desc) (s, hl) (Pends x t o r s h ops) w.db
      → let out = flushed x t o block w (flush (hld_database x desc) w.db) in
        (out.0 ≡ ok tt) × IsWritten s h ops out.1
  unfolding flushed on_heights
  flushed-IsWritten block w s hl h ops here =
      let (rb, s', out, holds, back) = flush-Pends x t o r s hl h ops w.db here in
      rw out (refl, (holds, (rb, refl, back)))

  indexed-Ends :
      (block : t.Block) (w : World x t o) (s : x.State) (hl : Hld) (h : ℕ) (ops : List Op)
      (rollback : Option x.Batch) (q : Result (Unit {0}) × o.Index)
      → Holding (hld_database x desc) (s, hl) (Pends x t o r s h ops) w.db
      → Ends s h ops rollback (indexed x t o block w q)
  unfolding indexed
  indexed-Ends block w s hl h ops rollback (err e, index) (lw, b, at) =
      inr (refl, inl (ap (λ c. c.db.0) b))
  indexed-Ends block w s hl h ops rollback (ok _, index) here =
      inl (flushed-IsWritten block (record w { index = index }) s hl h ops here)

  undo_last-undone : (w : World x t o) → (undo_last x t o w).db.db.0 ≡ undone x w.rollback w.db.db.0
  unfolding undo_last
  undo_last-undone w = elim (Option-cases w.rollback) [
    | inl e ↦ rw e refl
    | inr (batch, e) ↦ rw e refl
  ]

  injected-Ends :
      (block : t.Block) (w : World x t o) (s : x.State) (hl : Hld) (h : ℕ) (ops : List Op)
      (q : Result (Unit {0}) × (Instance t × BlockDb x))
      → (q.0 ≡ ok tt → Holding (hld_database x desc) (s, hl) (Pends x t o r s h ops) q.1.1)
      → q.1.1.db.0 ≡ s
      → Ends s h ops w.rollback (injected x t o block w q)
  unfolding injected
  injected-Ends block w s hl h ops (err e, (mm, db)) here same =
      inr (
        refl,
        inr (undo_last-undone (record w { mm = mm; db = db }) ∙ ap (undone x w.rollback) same),
      )
  injected-Ends block w s hl h ops (ok _, (mm, db)) here same =
      indexed-Ends block (record w { mm = mm; db = db; rollback = none }) s hl h ops w.rollback
        (o.run_indexer block mm.evc w.index) (here refl)

  -- A block at a height from 1 to 2 ^ 56 - 1, where ApplyBlock writes only through its database: the
  -- round ends in one of the ways, and the block's writes are those of ApplyBlock.
  pub process_block-Ends :
      (through : WritesThrough x t) (block : t.Block) (n : ℕ) (w : World x t o)
      → o.block_height block ≡ pos (suc n)
      → suc n < 2 ^ 56
      → Ends w.db.db.0
          (suc n)
          (written x t through block w.mm (begin_block x t o block w).db)
          w.rollback
          (process_block x t o block w)
  unfolding process_block begin_block put_value written
  process_block-Ends through block n w e l =
      let w' = begin_block x t o block w in
      injected-Ends block w' w.db.db.0 (record w.db.db.1 { write_height = pos (suc n) }) (suc n)
        (written x t through block w.mm w'.db) (inject t block (w'.mm, w'.db))
        (inject-Holding x t o r through block n w e l) (inject_unseen x t o r through block w)

  flushed_mm :
      (block : t.Block) (w : World x t o) (q : Result (Option x.Batch) × BlockDb x)
      → (flushed x t o block w q).1.mm ≡ w.mm
  unfolding flushed
  flushed_mm block w (err e, b) = refl
  flushed_mm block w (ok rollback, b) = refl

  indexed_ok :
      (block : t.Block) (w : World x t o) (s : x.State) (hl : Hld) (h : ℕ) (ops : List Op)
      (q : Result (Unit {0}) × o.Index)
      → Holding (hld_database x desc) (s, hl) (Pends x t o r s h ops) w.db
      → q.0 ≡ ok tt
      → ((indexed x t o block w q).0 ≡ ok tt) × ((indexed x t o block w q).1.mm ≡ w.mm)
  unfolding indexed
  indexed_ok block w s hl h ops (err e, index) here i = cc
  indexed_ok block w s hl h ops (ok _, index) here i =
      let w' : World x t o = record w { index = index } in
      (
        (flushed-IsWritten block w' s hl h ops here).0,
        flushed_mm block w' (flush (hld_database x desc) w.db),
      )

  injected_ok :
      (block : t.Block) (w : World x t o) (s : x.State) (hl : Hld) (h : ℕ) (ops : List Op)
      (q : Result (Unit {0}) × (Instance t × BlockDb x))
      → Holding (hld_database x desc) (s, hl) (Pends x t o r s h ops) q.1.1
      → q.0 ≡ ok tt
      → (o.run_indexer block q.1.0.evc w.index).0 ≡ ok tt
      → ((injected x t o block w q).0 ≡ ok tt) × ((injected x t o block w q).1.mm ≡ q.1.0)
  unfolding injected
  injected_ok block w s hl h ops (err e, (mm, db)) here j i = cc
  injected_ok block w s hl h ops (ok _, (mm, db)) here j i =
      indexed_ok block (record w { mm = mm; db = db; rollback = none }) s hl h ops
        (o.run_indexer block mm.evc w.index) here i

  -- a round whose block is injected and indexed ends without an error, with the instance of Inject
  pub process_block_ok :
      (through : WritesThrough x t) (block : t.Block) (n : ℕ) (w : World x t o)
      → o.block_height block ≡ pos (suc n)
      → suc n < 2 ^ 56
      → let q = inject t block (w.mm, (begin_block x t o block w).db) in
        q.0 ≡ ok tt
        → (o.run_indexer block q.1.0.evc w.index).0 ≡ ok tt
        → let out = process_block x t o block w in (out.0 ≡ ok tt) × (out.1.mm ≡ q.1.0)
  unfolding process_block begin_block
  process_block_ok through block n w e l done i =
      let w' = begin_block x t o block w in
      injected_ok block w' w.db.db.0 (record w.db.db.1 { write_height = pos (suc n) }) (suc n)
        (written x t through block w.mm w'.db) (inject t block (w'.mm, w'.db))
        (inject-Holding x t o r through block n w e l done) done i
