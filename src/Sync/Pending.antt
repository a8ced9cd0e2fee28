-- ===== src/Sync/Pending.antt =====
-- The open batch of a block while sync.go processes it: the writes of ApplyBlock are pending in it, and
-- the session is as it was.
use mantlemint.Prelude.{
  ℕ, suc, ◌^◌, ◌<◌, pos, ℤ, Option, none, some, List, [], ◌∷◌, ◌++◌, ok, ◌≡◌, sym, ◌∙◌, ap, arith,
  subst,
}
use mantlemint.Bytes.{Bytes}
use mantlemint.Tmdb.{Op, overlay}
use mantlemint.Tmdb.Session.{Session, IsReliable}
use mantlemint.Rollback.{new_rollbackable}
use mantlemint.Rollback.Undo.{rollback-restores}
use mantlemint.Heleveldb.Keys.{desc}
use mantlemint.Heleveldb.Raw.{expand}
use mantlemint.Heleveldb.Batch.{LevelBatch, new_level_batch, write, rollback_batch}
use mantlemint.Heleveldb.Driver
use mantlemint.Heleveldb.Commit.{IsAt, put_value, put_value_lem, new_level_batch-IsAt}
use mantlemint.Hld
use mantlemint.Hld.{Hld, set_write_height}
use mantlemint.Hld.Database.{hld_database, on_session}
use mantlemint.SafeBatch.{open_batch, flush}
use mantlemint.SafeBatch.Block.{BlockDb}
use mantlemint.SafeBatch.Contract.{flush_ok, Write, client_writes, client_writes_unseen}
use mantlemint.SafeBatch.Effect.{Holding, effect, client_writes-Holding}
use mantlemint.Mantlemint.Reactor.{Tendermint, inject}
use mantlemint.Sync.{Outside, World, begin_block, on_heights}
use mantlemint.Sync.Writes.{WritesThrough, written, inject_db, inject_ok}

set_write_height_pos :
    (n : ℕ) (h : Hld) → set_write_height (pos (suc n)) h ≡ record h { write_height = pos (suc n) }
unfolding set_write_height
set_write_height_pos n h = ground arith

module _ (x : Session) (t : Tendermint (BlockDb x)) (o : Outside x t) (r : IsReliable x) where
  -- the batch of a block at the height `h` that has made the writes `ops`
  abbrev pub Pends : x.State → ℕ → List Op → LevelBatch x → Type 0
  Pends s h ops b = IsAt x r s h b × (r.pending b.batch.batch ≡ expand h ops)

  pub open-Holding :
      (height : ℤ) (n : ℕ) (db : BlockDb x)
      → height ≡ pos (suc n)
      → Holding
          (hld_database x desc)
          (db.db.0, record db.db.1 { write_height = pos (suc n) })
          (Pends db.db.0 (suc n) [])
          (open_batch (hld_database x desc) (on_heights x t o (set_write_height height) db))
  unfolding on_heights open_batch Hld.new_batch Driver.new_batch new_level_batch new_rollbackable
      expand
  open-Holding height n db e = (
    new_level_batch x (pos (suc n)) db.db.0 desc,
    ap (λ h. open_batch (hld_database x desc) (on_heights x t o (set_write_height h) db)) e
        ∙ ap (λ h. open_batch (hld_database x desc) (record db { db = (db.db.0, h) }))
            (set_write_height_pos n db.db.1),
    (new_level_batch-IsAt x r db.db.0 (suc n), r.new_batch_pending db.db.0),
  )

  put_value-Pends :
      (s : x.State) (h : ℕ) (key : Bytes) (o : Option Bytes) (ops : List Op) (b : LevelBatch x)
      → h < 2 ^ 56
      → Pends s h ops b
      → ((put_value x s key o b).0 ≡ ok tt)
        × Pends s h (record { key = key; value = o } ∷ ops) (put_value x s key o b).1
  unfolding expand
  put_value-Pends s h key o ops b l (at, all) =
      let (done, more, at') = put_value_lem x r s h key o b l at in
      (done, (at', more ∙ ap (λ l. expand h (record { key = key; value = o } ∷ []) ++ l) all))

  pub client_writes-Pends :
      (n : ℕ) (s : x.State) (hl : Hld) (ws : List (Write (hld_database x desc))) (db : BlockDb x)
      → suc n < 2 ^ 56
      → Holding (hld_database x desc) (s, hl) (Pends s (suc n) []) db
      → Holding
          (hld_database x desc)
          (s, hl)
          (Pends s (suc n) (effect ws []))
          (client_writes (hld_database x desc) ws db)
  unfolding put_value
  client_writes-Pends n s hl ws db l here =
      client_writes-Holding (hld_database x desc) (s, hl) (Pends s (suc n))
        (λ k v ops b. put_value-Pends s (suc n) k (some v) ops b l)
        (λ k ops b. put_value-Pends s (suc n) k none ops b l) ws [] db here

  -- Flush puts the block into the session, and hands out what takes it back.
  pub flush-Pends :
      (s : x.State) (hl : Hld) (h : ℕ) (ops : List Op) (db : BlockDb x)
      → Holding (hld_database x desc) (s, hl) (Pends s h ops) db
      → (rb : x.Batch) × (s' : x.State) × (flush (hld_database x desc) db
          ≡ (ok (some rb), record { db = (s', hl); batch = none }))
        × ((k : Bytes) → r.view s' k ≡ overlay (expand h ops) (r.view s) k)
        × ((k : Bytes) → r.view (x.batch_write rb s').1 k ≡ r.view s k)
  unfolding on_session write rollback_batch
  flush-Pends s hl h ops db (lw, e, (at, all)) = (
    rollback_batch x lw,
    (write x lw s).1,
    ap (flush (hld_database x desc)) e
        ∙ flush_ok (hld_database x desc) (s, hl) lw (r.batch_write_ok lw.batch.batch s),
    λ k. r.batch_write_view lw.batch.batch s k ∙ ap (λ (l : List Op). overlay l (r.view s) k) all,
    λ k. rollback-restores x r s lw.batch at.can_undo k,
  )

  -- Inject leaves the session as it was: the block's writes are in the open batch.
  pub inject_unseen :
      (through : WritesThrough x t) (block : t.Block) (w : World x t o)
      → (inject t block (w.mm, (begin_block x t o block w).db)).1.1.db.0 ≡ w.db.db.0
  unfolding begin_block on_heights
  inject_unseen through block w =
      let (ws, wrote) = inject_db x t through block w.mm (begin_block x t o block w).db in
      let base : BlockDb x = on_heights x t o (set_write_height (o.block_height block)) w.db in
      ap (λ b. b.db.0) wrote
      ∙ ap (λ z. z.0) (client_writes_unseen (hld_database x desc) base ws []).0

  -- a block that is injected without an error has its writes in the open batch
  pub inject-Holding :
      (through : WritesThrough x t) (block : t.Block) (n : ℕ) (w : World x t o)
      → o.block_height block ≡ pos (suc n)
      → suc n < 2 ^ 56
      → let db = (begin_block x t o block w).db in
        (inject t block (w.mm, db)).0 ≡ ok tt
        → Holding
            (hld_database x desc)
            (w.db.db.0, record w.db.db.1 { write_height = pos (suc n) })
            (Pends w.db.db.0 (suc n) (written x t through block w.mm db))
            (inject t block (w.mm, db)).1.1
  unfolding written begin_block
  inject-Holding through block n w e l done =
      let db = (begin_block x t o block w).db in
      subst
        (Holding (hld_database x desc) (w.db.db.0, record w.db.db.1 { write_height = pos (suc n) })
          (Pends w.db.db.0 (suc n) _))
        (sym (inject_ok x t through block w.mm db done))
        (client_writes-Pends n w.db.db.0 (record w.db.db.1 { write_height = pos (suc n) }) _ db l
          (open-Holding (o.block_height block) n w.db e))
