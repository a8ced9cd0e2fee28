-- ===== src/Sync/Started.antt =====
-- What the node of sync.go is when it begins to follow the chain, and what its session stores.
use mantlemint.Prelude.{
  ℕ, suc, ◌^◌, ◌<◌, ℤ, pos, eq_ℤ, true, false, none, some, List, [], ◌∷◌, ok, ◌≡◌, sym, ◌∙◌, ap,
  subst, ◌⊎◌, inl, inr, Result-cases, err_is_not_ok,
}
use mantlemint.Tmdb.{Op, last_op, overlay}
use mantlemint.Tmdb.Session.{Session, IsReliable}
use mantlemint.Heleveldb.Keys.{desc}
use mantlemint.Heleveldb.Raw.{expand}
use mantlemint.Heleveldb.History.{History}
use mantlemint.Heleveldb.Stored.{Stores, add_block-Stores, same-Stores}
use mantlemint.Hld.{Hld, apply_height_limited, clear_write_height}
use mantlemint.Hld.Database.{hld_database}
use mantlemint.SafeBatch.{new_safe_batch, flush}
use mantlemint.SafeBatch.Block.{BlockDb}
use mantlemint.SafeBatch.Effect.{Holding, effect}
use mantlemint.Mantlemint.Reactor.{Tendermint, Instance, new_mantlemint, init}
use mantlemint.Sync.{Outside, World, on_heights}
use mantlemint.Sync.Pending.{Pends, open-Holding, client_writes-Pends, flush-Pends}
use mantlemint.Sync.Stages.{
  ReplaysThrough, Wrote, fresh_instance, new_instance, no_instance, init-Wrote, cleared,
  initialised_lem, initialised_ok, serve_lem,
}
use mantlemint.Sync.Start.{
  Given, begin_genesis, initialised, init_node, serve, main_from, start_node,
}

module _ (x : Session) (t : Tendermint (BlockDb x)) (o : Outside x t) (r : IsReliable x)
    (through : ReplaysThrough x t) (g : Given x t o) (n : ℕ) (s : x.State) (hist : History) where
  abbrev pub at_genesis : BlockDb x
  at_genesis = new_safe_batch (hld_database x desc) (s, apply_height_limited)

  -- the heights while the genesis is written
  abbrev writing : Hld
  writing = record { write_height = pos (suc n); read_height = pos 0 }

  -- what ReplayBlocks writes from the genesis state
  unfoldable pub genesis_ops : t.State → List Op
  unfolding begin_genesis
  genesis_ops state =
      effect (through g.genesis state (begin_genesis x t o g.initial_height at_genesis)).0 []

  -- What the session stores: the history, with the writes of the genesis where the state that is
  -- loaded has the last height 0.
  abbrev pub IsHeld : ℤ → x.State → Type 0
  IsHeld last_height s' =
      ((eq_ℤ last_height (pos 0) ≡ false) × Stores x r s' hist)
      ⊎ ((eq_ℤ last_height (pos 0) ≡ true)
          × ((state : t.State) × (t.make_genesis_state g.genesis ≡ ok state)
              × Stores x r s' ((suc n, genesis_ops state) ∷ hist)))

  pub flush_genesis :
      (mm : Instance t) (db : BlockDb x)
      → g.initial_height ≡ pos (suc n)
      → suc n < 2 ^ 56
      → Stores x r s hist
      → Wrote x t through g.genesis mm (begin_genesis x t o g.initial_height at_genesis) db
      → (rb : x.Batch) × (s' : x.State) × (flush (hld_database x desc) db
          ≡ (ok (some rb), record { db = (s', writing); batch = none }))
        × IsHeld mm.last_height s'
  unfolding begin_genesis new_safe_batch apply_height_limited overlay expand last_op genesis_ops
      effect
  flush_genesis mm db height l st (inl (old, same)) =
      let here = open-Holding x t o r g.initial_height n at_genesis height in
      let (rb, s', out, holds, back) = flush-Pends x t o r s writing (suc n) [] db (
        subst (Holding (hld_database x desc) (s, writing) (Pends x t o r s (suc n) [])) (sym same)
          here) in
      (rb, s', out, inl (old, same-Stores x r s s' hist holds st))
  flush_genesis mm db height l st (inr (new, (state, made, wrote))) =
      let here = open-Holding x t o r g.initial_height n at_genesis height in
      let all =
        client_writes-Pends x t o r n s writing
          (through g.genesis state (begin_genesis x t o g.initial_height at_genesis)).0
          (begin_genesis x t o g.initial_height at_genesis) l here in
      let (rb, s', out, holds, back) =
        flush-Pends x t o r s writing (suc n) (genesis_ops state) db (
          subst
            (Holding (hld_database x desc) (s, writing)
              (Pends x t o r s (suc n) (genesis_ops state)))
            (sym wrote) all) in
      (
        rb,
        s',
        out,
        inr (
          new,
          (state, made, add_block-Stores x r s s' (suc n) (genesis_ops state) hist l holds st),
        ),
      )

  -- The session does not fail and stores a history, the initial height of the genesis is from 1 to
  -- 2 ^ 56 - 1, and ReplayBlocks writes only through its database. If main gets to its loop, then no
  -- batch is open, the write and the read height are cleared, there is no rollback batch and no
  -- callback before blocks, a state is loaded from the session, and where its last height is not 0 the
  -- session stores the history still, else it stores the history with a block at the initial height that
  -- has what ReplayBlocks writes from the genesis state.
  pub start_node_stored :
      (w : World x t o)
      → g.initial_height ≡ pos (suc n)
      → suc n < 2 ^ 56
      → Stores x r s hist
      → (start_node x t o g s).0 ≡ ok w
      → (w.db.batch ≡ none)
        × (w.db.db.1 ≡ apply_height_limited)
        × (w.rollback ≡ none)
        × (w.mm.run_before ≡ none)
        × ((state : t.State) × (t.load_state at_genesis ≡ ok state)
            × IsHeld (t.last_block_height state) w.db.db.0)
  unfolding start_node main_from init_node new_mantlemint cleared on_heights clear_write_height
      apply_height_limited
  start_node_stored w height l st h = elim (Result-cases (t.load_state at_genesis)) [
    | inr (e, f) ↦
        err_is_not_ok
          (sym (ap (λ q. (main_from x t o g at_genesis q).0) (no_instance t at_genesis f)) ∙ h)
    | inl (state, f) ↦
        let mm = fresh_instance t state in
        let q = init t g.genesis (mm, begin_genesis x t o g.initial_height at_genesis) in
        let at : start_node x t o g s ≡ serve x t o g (initialised x t o q) =
          ap (main_from x t o g at_genesis) (new_instance t at_genesis state f) in
        let (done, same_mm, same_db, fresh) =
          serve_lem x t o g (initialised x t o q) w (sym (ap (λ z. z.0) at) ∙ h) in
        let (wrote, before) =
          init-Wrote x t through g.genesis mm (begin_genesis x t o g.initial_height at_genesis)
            (initialised_ok x t o q done) in
        let (rb, s', out, held) = flush_genesis mm q.1.1 height l st wrote in
        let (db2, before2) =
          initialised_lem x t o q (some rb) (record { db = (s', writing); batch = none }) out
            done in
        let end = same_db ∙ db2 in
        (
          ap (λ z. z.batch) end,
          ap (λ z. z.db.1) end,
          fresh,
          ap (λ z. z.run_before) same_mm ∙ before2 ∙ before,
          (state, f, subst (IsHeld (t.last_block_height state)) (sym (ap (λ z. z.db.0) end)) held),
        )
  ]
