-- ===== src/Sync/Live.antt =====
-- Where the node that sync.go starts is given blocks that can be applied and indexed, its loop takes
-- them all: the rest of the loop does not fail.
use mantlemint.Prelude.{
  ℕ, suc, ℤ, Option, none, List, [], ◌∷◌, Result, ok, err, some, ◌≡◌, refl, ap, ◌∙◌, continue_with,
}
use mantlemint.Tmdb.Session.{Session, IsReliable}
use mantlemint.SafeBatch.Block.{BlockDb}
use mantlemint.Mantlemint.Events.{Event}
use mantlemint.Mantlemint.Reactor.{
  Tendermint, Instance, Evc, inject, applied, run_block, new_evc, safe_run_before, safe_run_after,
}
use mantlemint.Sync.{Outside, World, begin_block, process_block, process_blocks}
use mantlemint.Sync.Writes.{WritesThrough}
use mantlemint.Sync.Round.{process_block_ok}
use mantlemint.Sync.Chain.{FollowOn}

module _ {Db : Type 0} (t : Tendermint Db) where
  -- ApplyBlock returns no error for a block.
  abbrev pub AppliesAll : Type 0
  AppliesAll =
      (state : t.State) (id : t.BlockId) (block : t.Block) (db : Db)
      → (next : t.State × ℤ) × ((t.apply_block state id block db).0 ≡ ok next)

  applied_ok :
      (block : t.Block) (mm : Instance t) (next : t.State × ℤ)
      (out : Result (t.State × ℤ) × (List (Event t.Block t.Response t.TxResult) × Db))
      → mm.run_before ≡ none
      → out.0 ≡ ok next
      → ((applied t block mm out).0 ≡ ok tt) × ((applied t block mm out).1.0.run_before ≡ none)
  unfolding applied safe_run_after
  applied_ok block mm next (err e, (events, db)) b h = cc
  applied_ok block mm next (ok (n, retain), (events, db)) b h = rw b (refl, refl)

  run_block_applied :
      AppliesAll
      → (q : Result (Unit {0})) (state : t.State) (block : t.Block) (mm : Instance t) (db : Db)
      → mm.run_before ≡ none
      → q ≡ ok tt
      → let out = run_block t q state block (mm, db) in
        (out.0 ≡ ok tt) × (out.1.0.run_before ≡ none)
  unfolding run_block
  run_block_applied applies (err e) state block mm db b h = cc
  run_block_applied applies (ok _) state block mm db b h =
      let (next, e) = applies state (t.block_id block) block db in
      applied_ok block mm next (t.apply_block state (t.block_id block) block db) b e

  no_callback :
      (mm : Instance t) (block : t.Block)
      → mm.run_before ≡ none
      → safe_run_before t mm block ≡ ok tt
  unfolding safe_run_before
  no_callback mm block b = rw b refl

  -- without a callback, a block that can be applied is injected
  pub inject_all :
      AppliesAll
      → (block : t.Block) (mm : Instance t) (db : Db) → mm.run_before ≡ none
      → ((inject t block (mm, db)).0 ≡ ok tt) × ((inject t block (mm, db)).1.0.run_before ≡ none)
  unfolding inject
  inject_all applies block mm db b =
      let mm' : Instance t = record mm { evc = some (new_evc t) } in
      run_block_applied applies (safe_run_before t mm' block) (t.with_app_hash block mm.last_state)
        block mm' db b (no_callback mm' block b)

module _ (x : Session) (t : Tendermint (BlockDb x)) (o : Outside x t) where
  -- The indexer returns no error for a block.
  abbrev pub IndexesAll : Type 0
  IndexesAll =
      (block : t.Block) (evc : Option (Evc t)) (index : o.Index)
      → (o.run_indexer block evc index).0 ≡ ok tt

  -- The node has no callbacks, as sync.go sets none, ApplyBlock and the indexer return no error,
  -- ApplyBlock writes only through its database, and the session does not fail. Then the loop takes
  -- blocks at heights that follow on, below 2 ^ 56, to the last one, without an error.
  pub process_blocks_ok :
      (r : IsReliable x) (through : WritesThrough x t) (applies : AppliesAll t)
      (indexes : IndexesAll) (blocks : List t.Block) (n : ℕ) (w : World x t o)
      → FollowOn x t o n blocks
      → w.mm.run_before ≡ none
      → (process_blocks x t o blocks w).0 ≡ ok tt
  unfolding process_blocks
  process_blocks_ok r through applies indexes [] n w f b = refl
  process_blocks_ok r through applies indexes (block ∷ blocks) n w (height, l, f) b =
      let db = (begin_block x t o block w).db in
      let (done, kept) = inject_all t applies block w.mm db b in
      let q = inject t block (w.mm, db) in
      let (went, same) =
        process_block_ok x t o r through block n w height l done
          (indexes block q.1.0.evc w.index) in
      rw (went, continue_with)
        (process_blocks_ok r through applies indexes blocks (suc n) (process_block x t o block w).1
          f (ap (λ mm. mm.run_before) same ∙ kept))
