-- ===== src/Sync/Starts.antt =====
-- The start of sync.go does not fail by itself: where what it is given works, main gets to its loop.
use mantlemint.Prelude.{
  ℕ, suc, ◌^◌, ◌<◌, pos, eq_ℤ, Option, some, Result, ok, err, ◌≡◌, refl, ◌∙◌, ap, Bool-cases, inl,
  inr,
}
use mantlemint.Tmdb.Session.{Session, IsReliable}
use mantlemint.Heleveldb.Keys.{desc}
use mantlemint.Heleveldb.History.{History}
use mantlemint.Heleveldb.Stored.{Stores}
use mantlemint.Hld.Database.{hld_database}
use mantlemint.SafeBatch.{flush}
use mantlemint.SafeBatch.Block.{BlockDb}
use mantlemint.Mantlemint.Reactor.{
  Tendermint, Node, init, init_from, replayed, load_from, load_initial_state,
}
use mantlemint.Sync.{Outside, World}
use mantlemint.Sync.Start.{
  Given, begin_genesis, begin_world, loaded, flushed_genesis, initialised, init_node, serve,
  main_from, start_node,
}
use mantlemint.Sync.Stages.{ReplaysThrough, fresh_instance, new_instance, init-Wrote}
use mantlemint.Sync.Started.{at_genesis, flush_genesis}

module _ (x : Session) (t : Tendermint (BlockDb x)) (o : Outside x t) where
  -- What the start is given works: states are loaded, the genesis state is made and replayed, and the
  -- index database and the servers start.
  pub record Works (g : Given x t o) : Type 0 where
    pub loads : (db : BlockDb x) → (state : t.State) × (t.load_state db ≡ ok state)
    pub makes : (state : t.State) × (t.make_genesis_state g.genesis ≡ ok state)
    pub replays :
        (state : t.State) (db : BlockDb x) → (t.replay_blocks g.genesis state db).0 ≡ ok tt
    pub indexes : (index : o.Index) × (g.new_index ≡ ok index)
    pub starts_rpc : g.start_rpc ≡ ok tt

  module _ (g : Given x t o) (works : Works g) where
    init_from_ok :
        (q : Result t.State) (state : t.State) (n : Node t)
        → q ≡ ok state
        → (init_from t g.genesis q n).0 ≡ ok tt
    unfolding init_from replayed
    init_from_ok (err e) state n f = cc
    init_from_ok (ok made) state (mm, db) f = works.replays made db

    init_ok : (n : Node t) → (init t g.genesis n).0 ≡ ok tt
    unfolding init
    init_ok (mm, db) =
        let (state, f) = works.makes in
        elim (Bool-cases (eq_ℤ mm.last_height (pos 0))) [
          | inr e ↦ rw e refl
          | inl e ↦ rw e (init_from_ok (t.make_genesis_state g.genesis) state (mm, db) f)
        ]

    load_initial_state_ok : (n : Node t) → (load_initial_state t n).0 ≡ ok tt
    unfolding load_initial_state load_from
    load_initial_state_ok (mm, db) = let (state, f) = works.loads db in rw (f, load_from) refl

    loaded_ok : (q : Result (Unit {0}) × Node t) → q.0 ≡ ok tt → (loaded x t o q).0 ≡ ok tt
    unfolding loaded
    loaded_ok (err e, n) h = cc
    loaded_ok (ok u, (mm, db)) h = refl

    initialised_all :
        (q : Result (Unit {0}) × Node t) (rb : Option x.Batch) (db : BlockDb x)
        → q.0 ≡ ok tt
        → flush (hld_database x desc) q.1.1 ≡ (ok rb, db)
        → (initialised x t o q).0 ≡ ok tt
    unfolding initialised flushed_genesis
    initialised_all (err e, n) rb db h f = cc
    initialised_all (ok u, (mm, db')) rb db h f =
        ap (λ z. (flushed_genesis x t o mm z).0) f
        ∙ loaded_ok (load_initial_state t (mm, db)) (load_initial_state_ok (mm, db))

    serve_ok :
        (q : Result (Unit {0}) × Node t)
        → q.0 ≡ ok tt
        → (w : World x t o) × ((serve x t o g q).0 ≡ ok w)
    unfolding serve
    serve_ok (err e, n) h = cc
    serve_ok (ok u, (mm, db)) h =
        let (index, f) = works.indexes in
        (begin_world x t o mm db index, rw (f, works.starts_rpc) refl)

    -- The session does not fail and stores a history, the initial height of the genesis is from 1 to
    -- 2 ^ 56 - 1, ReplayBlocks writes only through its database, states are loaded, the genesis state
    -- is made and replayed, and the index database and the servers start, all without an error. Then
    -- main gets to its loop: opening the batch, flushing it and the rest of the start do not fail.
    pub start_node_ok :
        (r : IsReliable x) (through : ReplaysThrough x t) (n : ℕ) (s : x.State) (hist : History)
        → g.initial_height ≡ pos (suc n)
        → suc n < 2 ^ 56
        → Stores x r s hist
        → (w : World x t o) × ((start_node x t o g s).0 ≡ ok w)
    unfolding start_node main_from init_node
    start_node_ok r through n s hist height l st =
        let base = at_genesis x t o r through g n s hist in
        let (state, f) = works.loads base in
        let mm = fresh_instance t state in
        let q = init t g.genesis (mm, begin_genesis x t o g.initial_height base) in
        let done = init_ok (mm, begin_genesis x t o g.initial_height base) in
        let (wrote, _) =
          init-Wrote x t through g.genesis mm (begin_genesis x t o g.initial_height base) done in
        let (rb, s', out, held) =
          flush_genesis x t o r through g n s hist mm q.1.1 height l st wrote in
        let (w, served) = serve_ok (initialised x t o q) (initialised_all q (some rb) _ done out) in
        (w, ap (λ z. (main_from x t o g base z).0) (new_instance t base state f) ∙ served)
