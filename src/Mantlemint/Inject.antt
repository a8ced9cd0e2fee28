-- ===== src/Mantlemint/Inject.antt =====
-- Inject moves the instance to the next state, or leaves its state where it was.
use mantlemint.Prelude.{
  Error, ◌⊎◌, ℤ, pos, ◌≡◌, refl, none, some, List, Result, ok, err, eq_ℤ, false,
}
use mantlemint.Mantlemint.Events.{Event}
use mantlemint.Mantlemint.Reactor.{
  Tendermint, Instance, inject, safe_run_before, safe_run_after, get_current_height,
}

module _ {Db : Type 0} (t : Tendermint Db) where
  abbrev pub SameState : Instance t → Instance t → Type 0
  SameState a b =
      (a.last_state ≡ b.last_state)
      × (a.last_height ≡ b.last_height)
      × (a.last_block ≡ b.last_block)
      × (a.run_before ≡ b.run_before)
      × (a.run_after ≡ b.run_after)

  -- ApplyBlock, of the block with the last state's app hash, has an error, which is passed on, or gives
  -- the next state and height, which are those of the instance, with the block as the last one.
  abbrev pub Applies : t.Block → Instance t → Db → Result (Unit {0}) × (Instance t × Db) → Type 0
  Applies block mm db out =
      let called =
        t.apply_block (t.with_app_hash block mm.last_state) (t.block_id block) block db in
      (out.1.1 ≡ called.1.1)
      × (((e : Error) × (called.0 ≡ err e) × (out.0 ≡ err e) × SameState out.1.0 mm)
          ⊎ ((next : t.State) × (retain : ℤ) × (called.0 ≡ ok (next, retain))
              × (out.1.0.last_state ≡ next)
              × (out.1.0.last_height ≡ retain)
              × (out.1.0.last_block ≡ some block)
              × ((out.0 ≡ ok tt)
                  ⊎ ((run : t.Block → Result (Unit {0})) × (mm.run_before ≡ some run)))))

  -- The callback before the block refuses it, and nothing is done.
  abbrev pub Refuses : t.Block → Instance t → Db → Result (Unit {0}) × (Instance t × Db) → Type 0
  Refuses block mm db out =
      (run : t.Block → Result (Unit {0})) × (e : Error) × (mm.run_before ≡ some run)
      × (run block ≡ err e)
      × (out.0 ≡ err e)
      × (out.1.1 ≡ db)
      × SameState out.1.0 mm

  -- A block that is applied becomes the last one, with the state that ApplyBlock returned from the last
  -- state with the block's app hash. Without a callback before the block Inject succeeds, whatever
  -- callback there is for after it.
  pub inject_applied :
      (mm : Instance t) (db : Db) (block : t.Block) (next : t.State) (retain : ℤ)
      (events : List (Event t.Block t.Response t.TxResult)) (db' : Db)
      → mm.run_before ≡ none
      → t.apply_block (t.with_app_hash block mm.last_state) (t.block_id block) block db
        ≡ (ok (next, retain), (events, db'))
      → let out = inject t block (mm, db) in
        (out.0 ≡ ok tt)
        × (out.1.1 ≡ db')
        × (out.1.0.last_state ≡ next)
        × (out.1.0.last_block ≡ some block)
        × (out.1.0.last_height ≡ retain)
  unfolding inject safe_run_before safe_run_after
  inject_applied mm db block next retain events db' b h = rw (b, h) (refl, refl, refl, refl, refl)

  -- After a block that is applied, the current height is the one of its state, if that is not 0.
  pub inject_height :
      (mm : Instance t) (db : Db) (block : t.Block) (next : t.State) (retain : ℤ)
      (events : List (Event t.Block t.Response t.TxResult)) (db' : Db)
      → mm.run_before ≡ none
      → eq_ℤ (t.last_block_height next) (pos 0) ≡ false
      → t.apply_block (t.with_app_hash block mm.last_state) (t.block_id block) block db
        ≡ (ok (next, retain), (events, db'))
      → get_current_height t (inject t block (mm, db)).1.0 ≡ t.last_block_height next
  unfolding get_current_height
  inject_height mm db block next retain events db' b nz h =
      let out = inject_applied mm db block next retain events db' b h in rw (out.2, nz) refl
