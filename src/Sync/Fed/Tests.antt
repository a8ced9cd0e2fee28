-- ===== src/Sync/Fed/Tests.antt =====
-- A chain that begins at the height 5, over the session in memory: the genesis writes one entry, and so
-- does each block.
use mantlemint.Bytes.{Bytes}
use mantlemint.Prelude.{
  All, ℕ, pos, ◌≡◌, refl, none, some, false, List, [], ◌∷◌, ok, err, panic, arith, ◌<◌, ◌⊎◌, take,
  map,
}
use mantlemint.Tmdb.{last_op}
use mantlemint.Tmdb.Memory.{memory, memory_reliable}
use mantlemint.Heleveldb.Keys.{desc}
use mantlemint.Heleveldb.History.{no_clash}
use mantlemint.Heleveldb.Commit.{commit_all}
use mantlemint.Heleveldb.Stored.{Stores, commit_all-Stores}
use mantlemint.Hld.{apply_height_limited}
use mantlemint.Hld.Database.{hld_database}
use mantlemint.SafeBatch.Block.{BlockDb}
use mantlemint.SafeBatch.Contract.{Write, set_key, client_writes}
use mantlemint.SafeBatch.Effect.{effect}
use mantlemint.Mantlemint.Reactor.{Tendermint}
use mantlemint.BlockFeed.Sources.{Endpoints}
use mantlemint.BlockFeed.Aggregate.{new_feed, subscribe}
use mantlemint.BlockFeed.Order.{Answers}
use mantlemint.Sync.{Outside, World, process_blocks}
use mantlemint.Sync.Writes.{WritesThrough}
use mantlemint.Sync.Chain.{FollowOn, history_of}
use mantlemint.Sync.Start.{Given, start_node}
use mantlemint.Sync.Stages.{ReplaysThrough}
use mantlemint.Sync.Started.{IsHeld, genesis_ops, start_node_stored}
use mantlemint.Sync.Starts.{Works, start_node_ok}
use mantlemint.Sync.Reads.{Answered}
use mantlemint.Sync.Fed.{at_start, subscribe-FollowOn, main_get}

abbrev one_write : ℕ → List (Write (hld_database memory desc))
one_write n = set_key (1 ∷ []) (n ∷ []) ∷ []

-- the state is the height; a database whose session is empty has the height 0
abbrev toy : Tendermint (BlockDb memory)
toy = record {
  Block = ℕ;
  BlockId = ℕ;
  State = ℕ;
  Genesis = ℕ;
  Response = ℕ;
  TxResult = ℕ;
  block_id = λ b. b;
  with_app_hash = λ b s. s;
  with_empty_results_hash = λ s. s;
  last_block_height = λ s. pos s;
  initial_height = λ s. pos 5;
  load_state = λ db. ok 0;
  make_genesis_state = λ g. ok g;
  replay_blocks = λ g s db. (ok tt, client_writes (hld_database memory desc) (one_write 1) db);
  apply_block =
      λ s id b db. (ok (b, pos 0), ([], client_writes (hld_database memory desc) (one_write b) db));
}

abbrev outside : Outside memory toy
outside = record { Index = ℕ; block_height = λ b. pos b; run_indexer = λ b evc i. (ok tt, i) }

toy-ReplaysThrough : ReplaysThrough memory toy
toy-ReplaysThrough g s db = (one_write 1, refl)

toy-WritesThrough : WritesThrough memory toy
toy-WritesThrough s id b db = (one_write b, refl)

abbrev given : Given memory toy outside
given = record {
  genesis = 9;
  initial_height = pos 5;
  disable_sync = false;
  new_index = ok 0;
  start_rpc = ok tt;
}

given-Works : Works memory toy outside given
given-Works = record {
  loads = λ db. (0, refl);
  makes = (9, refl);
  replays = λ s db. refl;
  indexes = (0, refl);
  starts_rpc = refl;
}

empty-Stores : Stores memory memory_reliable [] []
unfolding last_op commit_all
empty-Stores = (commit_all-Stores memory memory_reliable [] [] (λ k. refl) tt).1

abbrev node : (w : World memory toy outside) × ((start_node memory toy outside given []).0 ≡ ok w)
node =
    start_node_ok memory toy outside given given-Works memory_reliable toy-ReplaysThrough 4 [] []
      refl (omega arith) empty-Stores

start_node_ok_example :
    (w : World memory toy outside) × ((start_node memory toy outside given []).0 ≡ ok w)
start_node_ok_example =
    start_node_ok memory toy outside given given-Works memory_reliable toy-ReplaysThrough 4 [] []
      refl (omega arith) empty-Stores

start_node_stored_example :
    (node.0.db.batch ≡ none)
    × (node.0.db.db.1 ≡ apply_height_limited)
    × (node.0.rollback ≡ none)
    × (node.0.mm.run_before ≡ none)
    × ((state : ℕ) × (ok 0 ≡ ok state)
        × IsHeld memory toy outside memory_reliable toy-ReplaysThrough given 4 [] []
            (pos state)
            node.0.db.db.0)
start_node_stored_example =
    start_node_stored memory toy outside memory_reliable toy-ReplaysThrough given 4 [] [] node.0
      refl (omega arith) empty-Stores node.1

-- an RPC endpoint whose body for a height is the height
abbrev endpoints : Endpoints
endpoints = record {
  Block = ℕ;
  height = λ b. b;
  http_get = λ i h. ok (h ∷ []);
  extract_rpc = λ body. elim body [ [] ↦ err panic | b ∷ _ ↦ ok (some b) ];
  extract_ws = λ body. err panic;
  code = λ body. ok 0;
}

answers : Answers endpoints 0 (λ i. i)
answers i = (i ∷ [], refl, refl, refl)

subscribe-FollowOn_example : FollowOn memory toy outside 4 (
    map
      (λ b. b)
      (subscribe endpoints 0 (none ∷ some 7 ∷ some 8 ∷ none ∷ []) (new_feed endpoints 4 1)).1.out)
unfolding new_feed
subscribe-FollowOn_example =
    subscribe-FollowOn memory toy outside endpoints (λ b. b) (λ b. refl) 0 (λ i. i) answers none 7
      (some 8 ∷ none ∷ []) (new_feed endpoints 4 1) refl (omega arith) (omega arith)
      (refl, omega arith, tt)

abbrev blocks : List ℕ
blocks = 5 ∷ 6 ∷ []

abbrev asks : List (ℕ × Bytes)
asks = (5, 1 ∷ []) ∷ (6, 1 ∷ []) ∷ []

abbrev Outcome : Type 0
Outcome =
    (genesis : ℕ) × (ok 9 ≡ ok genesis)
    × (let out = process_blocks memory toy outside blocks node.0 in
        let Sees : List ℕ → Type 0 = λ some_blocks.
          All
            (Answered memory toy outside toy-WritesThrough out.1.db.db.0 apply_height_limited (
              history_of memory toy outside toy-WritesThrough some_blocks 4 node.0 (
                at_start memory toy outside memory_reliable toy-ReplaysThrough toy-WritesThrough
                  given 4 [] genesis)))
            asks in
        ((out.0 ≡ ok tt) × Sees blocks)
        ⊎ ((out.0 ≡ err panic) × ((m : ℕ) × (m < 2) × Sees (take m blocks))))

main_get_example : Outcome
unfolding effect no_clash toy-WritesThrough toy-ReplaysThrough genesis_ops
main_get_example =
    main_get memory toy outside memory_reliable toy-ReplaysThrough toy-WritesThrough given 4 []
      node.0 blocks apply_height_limited asks 0 refl (omega arith) empty-Stores refl refl node.1
      (refl, omega arith, (refl, omega arith, tt))
      (
        (omega arith, omega arith, λ s id b db. (refl, tt), tt),
        ((omega arith, omega arith, λ s id b db. (refl, tt), tt), tt),
      )
      (λ g. ((refl, tt), ((refl, tt), tt)))
