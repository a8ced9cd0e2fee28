-- ===== src/Indexer/Block.antt =====
-- indexer/block/block.go, client.go and indexer/height/height.go: the record of a block and of the last
-- height. The encoder of tmjson and `strconv.Atoi` are parameters; a height is a uint64.
use mantlemint.Prelude.{
  ℕ, ℤ, to_u64, Option, none, some, [], Result, ok, err, Exec, raise, invalid_height,
}
use mantlemint.Bytes.{Bytes}
use mantlemint.Tmdb.{TmDb}
use mantlemint.SafeBatch.{SafeBatchDb, set}
use mantlemint.Indexer.Keys.{block_key, height_key, by_height_key, tx_key, richlist_key}

-- What a handler of the REST server answers.
pub data Response : Type 0 where
  answer : ℕ → Bytes → Response

-- `tmjson.Marshal` of the two records, and the height of a block
pub record BlockCodec : Type 1 where
  pub Block : Type 0
  pub height : Block → ℤ
  pub marshal_block : Block → Result Bytes
  pub marshal_height : ℕ → Result Bytes

-- the write of a record that may not be encoded
unfoldable pub set_record : (d : TmDb) → Bytes → Result Bytes → Exec (SafeBatchDb d) Unit
set_record d key (err e) = raise e
set_record d key (ok json) = set d key json

module _ (d : TmDb) (c : BlockCodec) where
  -- IndexBlock
  unfoldable pub index_block : c.Block → Exec (SafeBatchDb d) Unit
  unfolding set_record
  index_block block = set_record d (block_key (to_u64 (c.height block))) (c.marshal_block block)

  -- IndexHeight
  unfoldable pub index_height : c.Block → Exec (SafeBatchDb d) Unit
  unfolding set_record
  index_height block = set_record d height_key (c.marshal_height (to_u64 (c.height block)))

module _ (d : TmDb) (atoi : Bytes → Result ℤ) where
  by_height : (ℕ → Bytes) → d.State → Bytes → Result (Option Bytes)
  by_height key s height = elim (atoi height) [
    | err _ ↦ err invalid_height
    | ok h ↦ d.get s (key (to_u64 h))
  ]

  -- blockByHeightHandler, txsByHeightHandler, txByHashHandler, and richlistByHeightHandler
  unfoldable pub block_by_height_handler : d.State → Bytes → Result (Option Bytes)
  unfolding by_height
  block_by_height_handler = by_height block_key

  unfoldable pub txs_by_height_handler : d.State → Bytes → Result (Option Bytes)
  unfolding by_height
  txs_by_height_handler = by_height by_height_key

  unfoldable pub tx_by_hash_handler : d.State → Bytes → Result (Option Bytes)
  tx_by_hash_handler s hash = d.get s (tx_key hash)

  unfoldable pub richlist_by_height_handler : Bytes → d.State → Bytes → Result (Option Bytes)
  unfolding by_height
  richlist_by_height_handler denom = by_height (λ h. richlist_key h denom)

-- What a route answers for what its handler returned: the status of an error, and 400 where nothing is
-- kept yet. The texts of the errors are left out.
unfoldable pub respond : ℕ → Result (Option Bytes) → Response
respond status (err _) = answer status []
respond status (ok none) = answer 400 []
respond status (ok (some body)) = answer 200 body
