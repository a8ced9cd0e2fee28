-- ===== src/Indexer/Run.antt =====
-- indexer/indexer.go: the indexers are run on a safe batch over the index database, which is written if
-- none of them fails.
use mantlemint.Prelude.{
  Option, some, none, List, [], ◌∷◌, ◌++◌, Result, ok, err, Exec, pure, continue_with, ◌>>◌, ◌≡◌,
  refl, ap, ◌∙◌, arith,
}
use mantlemint.Bytes.{Bytes}
use mantlemint.Tmdb.{TmDb}
use mantlemint.SafeBatch.{SafeBatchDb, new_safe_batch, open_batch, flush}
use mantlemint.SafeBatch.Contract.{Write, client_writes, client_writes_unseen, flush_ok}

module _ (d : TmDb) (Block Evc : Type 0) where
  -- An IndexFunc is given a copy of the safe batch, which shares its open batch.
  abbrev pub IndexFunc : Type 0
  IndexFunc = Block → Option Evc → Exec (SafeBatchDb d) Unit

  pub record Indexer : Type 0 where
    pub db : d.State
    pub indexer_tags : List Bytes
    pub indexers : List IndexFunc

  -- NewIndexer, over the database that is opened: `d` is what NewSnappyDB puts around it, whose operations
  -- are those of Snappy
  unfoldable pub new_indexer : d.State → Indexer
  new_indexer db = record { db = db; indexer_tags = []; indexers = [] }

  unfoldable pub register_indexer_service : Bytes → IndexFunc → Indexer → Indexer
  register_indexer_service tag f idx = record idx {
    indexer_tags = idx.indexer_tags ++ tag ∷ [];
    indexers = idx.indexers ++ f ∷ [];
  }

  -- the loop of Run, to the first error
  unfoldable pub run_all : List IndexFunc → Block → Option Evc → Exec (SafeBatchDb d) Unit
  run_all [] block evc = pure tt
  run_all (f ∷ fs) block evc = do f block evc; run_all fs block evc

  -- from the result of the loop on
  unfoldable pub flush_indexed :
      Result (Unit {0}) × SafeBatchDb d → Result (Unit {0}) × SafeBatchDb d
  flush_indexed (err e, b) = (err e, b)
  flush_indexed (ok _, b) = elim (flush d b).0 [
    | err e ↦ (err e, (flush d b).1)
    | ok _ ↦ (ok tt, (flush d b).1)
  ]

  -- Run
  unfoldable pub run : Block → Option Evc → Exec Indexer Unit
  unfolding flush_indexed
  run block evc idx =
      let done =
        flush_indexed (run_all idx.indexers block evc (open_batch d (new_safe_batch d idx.db))) in
      (done.0, record idx { db = done.1.db })

  -- a loop that leaves the batch `w` open, which is written without an error
  flush_indexed_ok :
      (s : d.State) (w : d.Batch)
      → (d.batch_write w s).0 ≡ ok tt
      → flush_indexed (ok tt, record { db = s; batch = some w })
        ≡ (ok tt, record { db = (d.batch_write w s).1; batch = none })
  unfolding flush_indexed
  flush_indexed_ok s w h =
      ap
        (λ (q : Result (Option d.Rollback) × SafeBatchDb d).
          elim q.0 as (λ _. Result (Unit {0}) × SafeBatchDb d) [
            | err e ↦ (err e, q.1)
            | ok _ ↦ (ok tt, q.1)
          ])
        (flush_ok d s w h)

  abbrev pub only : IndexFunc → d.State → Indexer
  only f s = record { db = s; indexer_tags = []; indexers = f ∷ [] }

  -- Run of one indexer that succeeds and leaves `w` in the batch.
  pub run_only :
      (f : IndexFunc) (block : Block) (evc : Option Evc) (s : d.State) (w : d.Batch)
      → f block evc (open_batch d (new_safe_batch d s)) ≡ (ok tt, record { db = s; batch = some w })
      → (d.batch_write w s).0 ≡ ok tt
      → run block evc (only f s) ≡ (ok tt, only f (d.batch_write w s).1)
  unfolding run run_all
  run_only f block evc s w e h =
      ap (λ (q : Result (Unit {0}) × SafeBatchDb d). (q.0, only f q.1.db))
        (ap (λ z. flush_indexed (continue_with z (λ _. pure tt))) e ∙ flush_indexed_ok s w h)

  -- An indexer writes only through the safe batch that it is given.
  abbrev pub WritesThrough : IndexFunc → Type 0
  WritesThrough f =
      (block : Block) (evc : Option Evc) (b : SafeBatchDb d)
      → (ws : List (Write d)) × ((f block evc b).1 ≡ client_writes d ws b)

  client_writes-append :
      (ws vs : List (Write d)) (b : SafeBatchDb d)
      → client_writes d vs (client_writes d ws b) ≡ client_writes d (ws ++ vs) b
  unfolding client_writes
  client_writes-append [] vs b = refl
  client_writes-append (w ∷ ws) vs b = client_writes-append ws vs _

  abbrev AllThrough : List IndexFunc → Type 0
  AllThrough [] = Unit
  AllThrough (f ∷ fs) = WritesThrough f × AllThrough fs

  run_next :
      (r : Result (Unit {0}) × SafeBatchDb d) (rest : Exec (SafeBatchDb d) Unit)
      (ws : List (Write d)) (b : SafeBatchDb d)
      → r.1 ≡ client_writes d ws b
      → ((c : SafeBatchDb d) → (vs : List (Write d)) × ((rest c).1 ≡ client_writes d vs c))
      → (vs : List (Write d)) × ((continue_with r (λ _. rest)).1 ≡ client_writes d vs b)
  run_next (err x, c) rest ws b e h = (ws, e)
  run_next (ok _, c) rest ws b e h =
      let (vs, e') = h c in
      (ws ++ vs, e' ∙ ap (client_writes d vs) e ∙ client_writes-append ws vs b)

  run_all-WritesThrough : (fs : List IndexFunc) → AllThrough fs → WritesThrough (run_all fs)
  unfolding run_all client_writes
  run_all-WritesThrough [] h block evc b = ([], refl)
  run_all-WritesThrough (f ∷ fs) h block evc b =
      let (ws, e) = h.0 block evc b in
      run_next (f block evc b) (run_all fs block evc) ws b e
        (run_all-WritesThrough fs h.1 block evc)

  kept :
      {e : _} (idx : Indexer) (r : Result (Unit {0}) × SafeBatchDb d)
      → r.0 ≡ err e
      → r.1.db ≡ idx.db
      → ◌≡◌ {A = Result (Unit {0}) × Indexer}
          ((flush_indexed r).0, record idx { db = (flush_indexed r).1.db })
          (err e, idx)
  unfolding flush_indexed
  kept idx (err x, b) h same = ground arith
  kept idx (ok _, b) h same = cc

  -- If one of the indexers fails, Run returns its error and the index database is as it was, whatever
  -- they have written before, if they write only through the safe batch.
  pub run_failed :
      (block : Block) (evc : Option Evc) (idx : Indexer) {e : _}
      → AllThrough idx.indexers
      → (run_all idx.indexers block evc (open_batch d (new_safe_batch d idx.db))).0 ≡ err e
      → run block evc idx ≡ (err e, idx)
  unfolding run new_safe_batch
  run_failed block evc idx through failed =
      let start = new_safe_batch d idx.db in
      let (ws, e) = run_all-WritesThrough idx.indexers through block evc (open_batch d start) in
      let same = ap (λ b. b.db) e ∙ (client_writes_unseen d start ws []).0 in
      kept idx (run_all idx.indexers block evc (open_batch d start)) failed same
