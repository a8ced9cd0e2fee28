-- ===== src/Lib.antt =====
-- Mantlemint is a node that is fed blocks of a Tendermint chain and serves reads at every past height.
-- A block goes through these parts, each with a file of its name and a folder of its children:
--
-- - BlockFeed (block_feed/): `sync_from_until`, `receive_block_events` and `subscribe` are the RPC source
--   (SyncFromUntil), the websocket source (receiveBlockEvents) and the aggregate (Subscribe), which sends
--   the blocks to the loop of Sync. Goroutines that a channel joins are sequences of what is sent.
--   BlockFeed.Reconnect is what follows the loss of a websocket, over a list of attempts with what each
--   websocket sends.
-- - Sync (sync.go): Sync.Start is main up to its loop: NewMantlemint, Init in a batch at the initial
--   height, Flush, LoadInitialState and ClearWriteHeight. `process_block` is one round of the loop:
--   SetWriteHeight and Open, Inject, the indexer, Flush and ClearWriteHeight; `undo_last` is what is
--   written back before the panic. Sync.Pending, Sync.Round and Sync.Chain follow the open batch through
--   a round and a run of the loop, where `history_of` is the abstract view: each block with what
--   ApplyBlock writes on it; Sync.Fed joins BlockFeed, the start and the loop.
-- - Mantlemint (mantlemint/): Reactor has the instance with Inject, Init and LoadInitialState, Events the
--   event collector. Tendermint, its executor included, is the record `Tendermint`. Client is the local
--   ABCI client (client.go): `guard_of` is the lock of each call, and Mantlemint.Exclusion has goroutines
--   that make calls under one mutex, as a step relation.
-- - Rpc (rpc/): the cache of responses (cache.go). `set`, `get` and `purge` are its methods; the sections
--   of HandleCachedHTTP that hold the lock are `count_request`, `enter`, `count_cached` and `leave`, and
--   Rpc.Handle has the requests and the goroutines that feed their subscribers, with a step for each
--   atomic part, which interleave in any order. Rpc.Register chooses the cache of a request (register.go),
--   and Rpc.Client passes queries on to the ABCI client (client.go).
-- - Rootmulti (store/rootmulti/): CacheMultiStoreWithVersion and the database adapter, over Hld.
-- - SafeBatch (db/safe_batch/): the open batch between Open and Flush. An open `SafeBatchNullified` is an
--   alias of the batch in the state of the database.
-- - Hld (db/hld/height_limited_db.go) and Height (db/hld/cluster_utils.go): the heights of reads and
--   writes over the driver. Hld.Database puts it under the interface of Tmdb; Hld.Limited is a wrapper of
--   an iterator that nothing constructs (db/hld/height_limited_iterator.go).
-- - Heleveldb (db/heleveldb/): Keys, Batch, Driver and Iterator translate the driver; History is its
--   abstract view, a list of committed blocks with their writes, the newest first.
-- - Rollback (db/rollbackable/): the batch that also collects what undoes it.
-- - Indexer (indexer/, without richlist/) and Richlist (indexer/richlist/): what is written for each block
--   to a database of its own, and read by the REST handlers; Snappy (db/snappy/) compresses that database.
-- - Export (export/): the circulating supply, the rows of accounts.csv, and Export.Workers, the flag of
--   ExportAllAccounts with requests and workers as steps.
-- - Config (config/config.go): `new_config` reads the environment.
-- - Bytes (lib/bytes.go), Tmdb (db/types.go) and Prelude: what they share.
--
-- State is passed explicitly: an operation takes the state and returns a result and the next state, on an
-- error too (Prelude.Results). A Go panic and a fatal log are the error `panic`. Numbers are natural
-- numbers with the wrap-around of uint64 written out, and int64 is ℤ; lengths, counts and the heights of
-- BlockFeed are natural numbers. Bytes are natural numbers that are not bounded, amounts of the SDK are integers without its bound of 256 bits, and nil is told from an
-- empty slice only where the code tells them apart. Loops are structural recursion, so nothing runs on
-- fuel but the walk of an iterator, whose fuel is one more than the entries ahead.
--
-- Third-party code is a parameter: GoLevelDB and PrefixDB (Tmdb.Session, with the laws `IsReliable` of a
-- session that does not fail, for keys and bounds that have a byte, which Tmdb.Memory shows can hold), Tendermint, the snappy codec and
-- `json.Valid`, the coins of the SDK and the B-tree (Richlist.Ranker, with laws that Richlist.Sorted shows
-- can hold), the JSON encoders, the keepers of the SDK (Export), the transaction decoder, the ABCI
-- application, the LRU cache (Rpc, with laws that Rpc.Tests shows can hold), the stores of the SDK, and the
-- endpoints of the block feed.
--
-- The index database of Indexer is a database of Tmdb, where the source puts Snappy around it, and
-- Richlist.Index applies the changes of a block in the order in which the addresses first change, where Go
-- takes a map in a random order.
--
-- Not modelled: logs, the files of the database, locks other than those of Rpc and of the ABCI client, the
-- construction of the application and of the servers at the start, the API server, and the parts of the
-- multistore that are copied from the Cosmos SDK.
pub mod Prelude
pub mod Bytes
pub mod Tmdb
pub mod Rollback
pub mod Height
pub mod Heleveldb
pub mod Hld
pub mod SafeBatch
pub mod Mantlemint
pub mod Sync
pub mod Snappy
pub mod Richlist
pub mod Indexer
pub mod BlockFeed
pub mod Rpc
pub mod Rootmulti
pub mod Config
pub mod Export
