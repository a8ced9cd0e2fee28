-- ===== src/Sync/Stages.antt =====
-- The stages of the start of sync.go: what each leaves where the next is reached.
use mantlemint.Prelude.{
  pos, eq_ℤ, true, false, Option, none, List, Result, ok, err, panic, ◌≡◌, refl, sym, ◌∙◌, ap,
  subst, ◌⊎◌, inl, inr, Bool-cases, Result-cases, ok_injective, err_is_not_ok,
}
use mantlemint.Tmdb.{TmDb}
use mantlemint.Tmdb.Session.{Session}
use mantlemint.Heleveldb.Keys.{desc}
use mantlemint.Hld.{clear_write_height}
use mantlemint.Hld.Database.{hld_database}
use mantlemint.SafeBatch.{flush}
use mantlemint.SafeBatch.Block.{BlockDb}
use mantlemint.SafeBatch.Contract.{Write, client_writes}
use mantlemint.Mantlemint.Reactor.{
  Tendermint, Instance, Node, new_mantlemint, init, init_from, replayed, load_from,
  load_initial_state,
}
use mantlemint.Sync.{Outside, World, on_heights}
use mantlemint.Sync.Start.{Given, loaded, flushed_genesis, initialised, serve, begin_world}

module _ {Db : Type 0} (t : Tendermint Db) where
  -- what NewMantlemint returns for the state that is loaded, without callbacks
  abbrev pub fresh_instance : t.State → Instance t
  fresh_instance state = record {
    last_state = state;
    last_height = t.last_block_height state;
    last_block = none;
    evc = none;
    run_before = none;
    run_after = none;
  }

  pub new_instance :
      (db : Db) (state : t.State)
      → t.load_state db ≡ ok state
      → new_mantlemint t db none none ≡ ok (fresh_instance state)
  unfolding new_mantlemint
  new_instance db state f = rw (f, new_mantlemint) refl

  pub no_instance :
      (db : Db) {e : _} → t.load_state db ≡ err e → new_mantlemint t db none none ≡ err panic
  unfolding new_mantlemint
  no_instance db f = rw (f, new_mantlemint) refl

module _ (x : Session) (t : Tendermint (BlockDb x)) where
  abbrev D : TmDb
  D = hld_database x desc

  -- ReplayBlocks writes only through the database that it is given, and through batches of it.
  abbrev pub ReplaysThrough : Type 0
  ReplaysThrough =
      (genesis : t.Genesis) (state : t.State) (db : BlockDb x)
      → (ws : List (Write D)) × ((t.replay_blocks genesis state db).1 ≡ client_writes D ws db)

  -- What Init has written where it ends well: nothing where the last height is not 0, and else what
  -- ReplayBlocks writes.
  abbrev pub Wrote : ReplaysThrough → t.Genesis → Instance t → BlockDb x → BlockDb x → Type 0
  Wrote through genesis mm db after =
      ((eq_ℤ mm.last_height (pos 0) ≡ false) × (after ≡ db))
      ⊎ ((eq_ℤ mm.last_height (pos 0) ≡ true)
          × ((state : t.State) × (t.make_genesis_state genesis ≡ ok state)
              × (after ≡ client_writes D (through genesis state db).0 db)))

  init_from_lem :
      (through : ReplaysThrough) (genesis : t.Genesis) (q : Result t.State) (mm : Instance t)
      (db : BlockDb x)
      → (init_from t genesis q (mm, db)).0 ≡ ok tt
      → ((state : t.State) × (q ≡ ok state)
          × ((init_from t genesis q (mm, db)).1.1
              ≡ client_writes D (through genesis state db).0 db))
        × ((init_from t genesis q (mm, db)).1.0.run_before ≡ mm.run_before)
  unfolding init_from replayed
  init_from_lem through genesis (err e) mm db h = cc
  init_from_lem through genesis (ok state) mm db h =
      ((state, refl, (through genesis state db).1), refl)

  pub init-Wrote :
      (through : ReplaysThrough) (genesis : t.Genesis) (mm : Instance t) (db : BlockDb x)
      → (init t genesis (mm, db)).0 ≡ ok tt
      → Wrote through genesis mm db (init t genesis (mm, db)).1.1
        × ((init t genesis (mm, db)).1.0.run_before ≡ mm.run_before)
  unfolding init
  init-Wrote through genesis mm db h = elim (Bool-cases (eq_ℤ mm.last_height (pos 0))) [
    | inr e ↦ (inl (e, rw e refl), rw e refl)
    | inl e ↦
        let at : init t genesis (mm, db)
            ≡ init_from t genesis (t.make_genesis_state genesis) (mm, db) =
          rw e refl in
        let (wrote, same) =
          init_from_lem through genesis (t.make_genesis_state genesis) mm db
            (sym (ap (λ q. q.0) at) ∙ h) in
        subst (λ q. Wrote through genesis mm db q.1.1 × (q.1.0.run_before ≡ mm.run_before)) (sym at)
          (inr (e, wrote), same)
  ]

module _ (x : Session) (t : Tendermint (BlockDb x)) (o : Outside x t) where
  -- ClearWriteHeight, on what the loaded state leaves
  unfoldable pub cleared : BlockDb x → BlockDb x
  unfolding on_heights
  cleared db = on_heights x t o (λ h. (clear_write_height h).1) db

  load_initial_state_db :
      (q : Result t.State) (mm : Instance t) (db : BlockDb x)
      → ((load_from t q (mm, db)).1.1 ≡ db)
        × ((load_from t q (mm, db)).1.0.run_before ≡ mm.run_before)
  unfolding load_from
  load_initial_state_db (err e) mm db = (refl, refl)
  load_initial_state_db (ok state) mm db = (refl, refl)

  loaded_lem :
      (q : Result (Unit {0}) × Node t)
      → (loaded x t o q).0 ≡ ok tt
      → (loaded x t o q).1 ≡ (q.1.0, cleared q.1.1)
  unfolding loaded cleared
  loaded_lem (err e, n) h = cc
  loaded_lem (ok _, (mm, db)) h = refl

  flushed_genesis_lem :
      (mm : Instance t) (q : Result (Option x.Batch) × BlockDb x) (rb : Option x.Batch)
      (db : BlockDb x)
      → q ≡ (ok rb, db)
      → (flushed_genesis x t o mm q).0 ≡ ok tt
      → ((flushed_genesis x t o mm q).1.1 ≡ cleared db)
        × ((flushed_genesis x t o mm q).1.0.run_before ≡ mm.run_before)
  unfolding flushed_genesis load_initial_state
  flushed_genesis_lem mm q rb db e h =
      let n = load_initial_state t (mm, db) in
      let at : flushed_genesis x t o mm q ≡ loaded x t o n = ap (flushed_genesis x t o mm) e in
      let all = loaded_lem n (sym (ap (λ z. z.0) at) ∙ h) in
      let (same, before) = load_initial_state_db (t.load_state db) mm db in
      (
        ap (λ z. z.1.1) at ∙ ap (λ z. z.1) all ∙ ap cleared same,
        ap (λ z. z.1.0.run_before) at ∙ ap (λ z. z.0.run_before) all ∙ before,
      )

  pub initialised_lem :
      (q : Result (Unit {0}) × Node t) (rb : Option x.Batch) (db : BlockDb x)
      → flush (hld_database x desc) q.1.1 ≡ (ok rb, db)
      → (initialised x t o q).0 ≡ ok tt
      → ((initialised x t o q).1.1 ≡ cleared db)
        × ((initialised x t o q).1.0.run_before ≡ q.1.0.run_before)
  unfolding initialised
  initialised_lem (err e, n) rb db f h = cc
  initialised_lem (ok _, (mm, db')) rb db f h =
      flushed_genesis_lem mm (flush (hld_database x desc) db') rb db f h

  pub initialised_ok :
      (q : Result (Unit {0}) × Node t) → (initialised x t o q).0 ≡ ok tt → q.0 ≡ ok tt
  unfolding initialised
  initialised_ok (err e, n) h = cc
  initialised_ok (ok u, n) h = refl

  begun :
      (mm : Instance t) (db : BlockDb x) (index : o.Index) (w : World x t o)
      → (ok (begin_world x t o mm db index)) ≡ ok w
      → (w.mm ≡ mm) × (w.db ≡ db) × (w.rollback ≡ none)
  begun mm db index w h =
      let e : begin_world x t o mm db index ≡ w = ok_injective h in
      (ap (λ z. z.mm) (sym e), ap (λ z. z.db) (sym e), ap (λ z. z.rollback) (sym e))

  pub serve_lem :
      (g : Given x t o) (q : Result (Unit {0}) × Node t) (w : World x t o)
      → (serve x t o g q).0 ≡ ok w
      → (q.0 ≡ ok tt) × (w.mm ≡ q.1.0) × (w.db ≡ q.1.1) × (w.rollback ≡ none)
  unfolding serve
  serve_lem g (err e, n) w h = err_is_not_ok h
  serve_lem g (ok u, (mm, db)) w h = elim (Result-cases g.new_index) [
    | inr (e, f) ↦
        let at : (serve x t o g (ok u, (mm, db))).0 ≡ err panic = rw f refl in
        err_is_not_ok (sym at ∙ h)
    | inl (index, f) ↦ elim (Result-cases g.start_rpc) [
      | inr (e, k) ↦
          let at : (serve x t o g (ok u, (mm, db))).0 ≡ err panic = rw (f, k) refl in
          err_is_not_ok (sym at ∙ h)
      | inl (_, k) ↦
          let at : (serve x t o g (ok u, (mm, db))).0 ≡ ok (begin_world x t o mm db index) =
            rw (f, k) refl in
          let (same, at_db, no_rollback) = begun mm db index w (sym at ∙ h) in
          (refl, same, at_db, no_rollback)
    ]
  ]
