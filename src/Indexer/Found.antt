-- ===== src/Indexer/Found.antt =====
-- What the indexer writes is what the handlers answer.
use mantlemint.Prelude.{ℕ, ℤ, to_u64, Option, some, ◌∷◌, Result, ok, ◌≡◌, refl, ap, ◌∙◌, true}
use mantlemint.Bytes.{Bytes, bytes_eq}
use mantlemint.Bytes.Order.{bytes_eq_iff}
use mantlemint.Tmdb.{last_op, overlay}
use mantlemint.Tmdb.Session.{Session, IsReliable}
use mantlemint.SafeBatch.{new_safe_batch, open_batch, set}
use mantlemint.Indexer.Keys.{block_key}
use mantlemint.Indexer.Run.{Indexer, run, only, run_only}
use mantlemint.Indexer.Block.{BlockCodec, index_block, block_by_height_handler, respond, answer}

module _ (x : Session) (r : IsReliable x) (c : BlockCodec) (Evc : Type 0) where
  abbrev pub only_blocks : x.State → Indexer x.db c.Block Evc
  only_blocks s = only x.db c.Block Evc (λ block evc. index_block x.db c block) s

  abbrev one_set : x.State → Bytes → Bytes → x.Batch
  one_set s key json = (x.batch_set s key json (x.new_batch s)).1

  get-one_set :
      (s : x.State) (b : ℕ) (k json : Bytes)
      → x.get (x.batch_write (one_set s (b ∷ k) json) s).1 (b ∷ k) ≡ ok (some json)
  unfolding overlay last_op
  get-one_set s b k json =
      let w = one_set s (b ∷ k) json in
      let same : bytes_eq (b ∷ k) (b ∷ k) ≡ true = (bytes_eq_iff (b ∷ k) (b ∷ k)).1 refl in
      r.get_ok (x.batch_write w s).1 b k
      ∙ ap ok (
          r.batch_write_view w s (b ∷ k)
          ∙ rw (r.batch_set_pending s b k json (x.new_batch s), overlay, same) refl)

  block_key_ok :
      (s : x.State) (h : ℕ) (json : Bytes)
      → ((x.batch_set s (block_key h) json (x.new_batch s)).0 ≡ ok tt)
        × (x.get (x.batch_write (one_set s (block_key h) json) s).1 (block_key h) ≡ ok (some json))
  unfolding block_key
  block_key_ok s h json = (r.batch_set_ok s 98 _ json (x.new_batch s), get-one_set s 98 _ json)

  index_block_lem :
      (s : x.State) (block : c.Block) (json : Bytes)
      → c.marshal_block block ≡ ok json
      → index_block x.db c block (open_batch x.db (new_safe_batch x.db s)) ≡ (
        ok tt,
        record { db = s; batch = some (one_set s (block_key (to_u64 (c.height block))) json) },
      )
  unfolding index_block set open_batch new_safe_batch
  index_block_lem s block json m = rw (m, (block_key_ok s (to_u64 (c.height block)) json).0) refl

  run_lem :
      (s : x.State) (block : c.Block) (evc : Option Evc) (json : Bytes)
      → c.marshal_block block ≡ ok json
      → run x.db c.Block Evc block evc (only_blocks s) ≡ (
        ok tt,
        only_blocks (x.batch_write (one_set s (block_key (to_u64 (c.height block))) json) s).1,
      )
  run_lem s block evc json m =
      let w = one_set s (block_key (to_u64 (c.height block))) json in
      run_only x.db c.Block Evc _ block evc s w (index_block_lem s block json m)
        (r.batch_write_ok w s)

  -- An indexer of blocks over a session that does not fail is run on a block that can be encoded. It
  -- succeeds, and the handler answers the height of the block, in each spelling that is read as this
  -- height, with status 200 and the encoded block.
  pub indexed_block_found :
      (atoi : Bytes → Result ℤ) (s : x.State) (block : c.Block) (evc : Option Evc)
      (json height : Bytes)
      → c.marshal_block block ≡ ok json
      → atoi height ≡ ok (c.height block)
      → let out = run x.db c.Block Evc block evc (only_blocks s) in
        (out.0 ≡ ok tt)
        × (respond 500 (block_by_height_handler x.db atoi out.1.db height) ≡ answer 200 json)
  unfolding block_by_height_handler respond
  indexed_block_found atoi s block evc json height m a =
      let done = run_lem s block evc json m in
      (
        ap (λ z. z.0) done,
        ap (λ z. respond 500 (block_by_height_handler x.db atoi z.1.db height)) done
            ∙ rw (respond, block_by_height_handler, a)
                (ap (respond 500) (block_key_ok s (to_u64 (c.height block)) json).1),
      )
