-- ===== src/Indexer/Tests.antt =====
-- Blocks that are numbers, encoded as one byte, over the session in memory.
use mantlemint.Prelude.{
  length, some, Option, ℕ, ℤ, pos, negsuc, none, [], ◌∷◌, Result, ok, err, panic, io, raise, ◌≡◌,
  refl,
}
use mantlemint.Bytes.{Bytes, bytes_eq}
use mantlemint.Tmdb.Memory.{memory, memory_db, memory_reliable}
use mantlemint.SafeBatch.{set, open_batch}
use mantlemint.SafeBatch.Contract.{client_writes, client_write, set_key}
use mantlemint.Indexer.Run.{Indexer, IndexFunc, WritesThrough, run, run_all, run_failed}
use mantlemint.Indexer.Block.{BlockCodec, block_by_height_handler, respond, answer}
use mantlemint.Mantlemint.Events.{EventCollector}
use mantlemint.Indexer.Tx
use mantlemint.Indexer.Tx.{
  TxCodec, TxRecord, DeliverTx, prepare, prepare_tx, responses_of, hex, to_response_deliver_tx_json,
}
use mantlemint.Indexer.TxFound.{only_txs}
use mantlemint.Indexer.TxGiven.{Included, included_txs_found}
use mantlemint.Indexer.Block.{tx_by_hash_handler, txs_by_height_handler}
use mantlemint.Indexer.Found.{only_blocks, indexed_block_found}

abbrev encode : ℤ → Result Bytes
encode (pos n) = ok (n ∷ [])
encode (negsuc n) = err (io n)

abbrev toy : BlockCodec
toy = record {
  Block = ℤ;
  height = λ b. b;
  marshal_block = encode;
  marshal_height = λ h. ok (h ∷ []);
}

abbrev atoi : Bytes → Result ℤ
atoi [] = err panic
atoi (n ∷ _) = ok (pos n)

indexed_block_found_example :
    let out = run memory_db ℤ ℕ (pos 7) none (only_blocks memory memory_reliable toy ℕ []) in
    (out.0 ≡ ok tt)
    × (respond 500 (block_by_height_handler memory_db atoi out.1.db (7 ∷ [])) ≡ answer 200 (7 ∷ []))
indexed_block_found_example =
    indexed_block_found memory memory_reliable toy ℕ atoi [] (pos 7) none (7 ∷ []) (7 ∷ []) refl
      refl

-- one indexer that writes, and one that fails
abbrev writes : IndexFunc memory_db ℤ ℕ
writes block evc = set memory_db (1 ∷ []) (2 ∷ [])

abbrev fails : IndexFunc memory_db ℤ ℕ
fails block evc = raise (io 4)

writes-WritesThrough : WritesThrough memory_db ℤ ℕ writes
unfolding client_writes client_write
writes-WritesThrough block evc b = (set_key (1 ∷ []) (2 ∷ []) ∷ [], refl)

fails-WritesThrough : WritesThrough memory_db ℤ ℕ fails
unfolding client_writes
fails-WritesThrough block evc b = ([], refl)

abbrev both : Indexer memory_db ℤ ℕ
both = record { db = []; indexer_tags = []; indexers = writes ∷ fails ∷ [] }

run_failed_example : run memory_db ℤ ℕ (pos 7) none both ≡ (err (io 4), both)
unfolding run_all set open_batch
run_failed_example =
    run_failed memory_db ℤ ℕ (pos 7) none both (writes-WritesThrough, (fails-WritesThrough, tt))
      refl

-- transactions that are their own hash, and a log for each; an encoder that keeps the log, and one that
-- counts the records
abbrev toy_txs : TxCodec
toy_txs = record {
  Tx = Bytes;
  Time = ℤ;
  hash = λ b. b;
  decode = λ b. ok b;
  encode_json = λ t. t;
  no_logs = 91 ∷ 93 ∷ [];
  marshal_response = λ response. ok response.log;
  marshal_record = λ t. ok t.tx_response;
  marshal_by_height = λ records. ok (length records ∷ []);
}

abbrev delivered : ℕ → DeliverTx
delivered n = record {
  code = 0;
  «data» = [];
  log = n ∷ [];
  info = [];
  gas_wanted = pos 0;
  gas_used = pos 0;
  events = [];
  codespace = [];
}

-- the bytes 0xAB, and 0x01
abbrev two_txs : Tx.Block toy_txs
two_txs = record { height = pos 7; time = pos 0; txs = (171 ∷ []) ∷ (1 ∷ []) ∷ [] }

abbrev two_results : Option (EventCollector ℕ ℕ DeliverTx)
two_results = some (record {
  height = pos 7;
  block = none;
  response_begin_block = none;
  response_end_block = none;
  response_deliver_txs = delivered 5 ∷ delivered 6 ∷ [];
})

abbrev included_at : ℕ → ℕ → Included toy_txs
included_at b n = record { tx_byte = b ∷ []; tx = b ∷ []; deliver = delivered n; json = n ∷ [] }

-- "AB"
included_txs_found_example :
    let out =
      run memory_db
        (Tx.Block toy_txs)
        (EventCollector ℕ ℕ DeliverTx)
        two_txs
        two_results
        (only_txs memory memory_reliable toy_txs (λ t. t.tx_response) (λ t. refl) ℕ ℕ []) in
    (out.0 ≡ ok tt)
    × (respond 500 (tx_by_hash_handler memory_db atoi out.1.db (65 ∷ 66 ∷ []))
        ≡ answer 200 (5 ∷ []))
    × (respond 400 (txs_by_height_handler memory_db atoi out.1.db (7 ∷ [])) ≡ answer 200 (2 ∷ []))
unfolding responses_of hex bytes_eq
included_txs_found_example =
    included_txs_found memory memory_reliable toy_txs (λ t. t.tx_response) (λ t. refl) ℕ ℕ atoi []
      two_txs two_results (included_at 171 5 ∷ included_at 1 6 ∷ []) [] (2 ∷ []) (7 ∷ [])
      (65 ∷ 66 ∷ []) (included_at 171 5) refl refl ((refl, refl), ((refl, refl), tt)) refl refl refl
