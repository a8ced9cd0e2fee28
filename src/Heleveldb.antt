-- ===== src/Heleveldb.antt =====
-- db/heleveldb: the LevelDB driver that keeps every version of a key by height.
pub mod Keys
pub mod Batch
pub mod Driver
pub mod Iterator
pub mod History
pub mod Raw
pub mod Commit
pub mod Stored
pub mod Reads
pub mod Visited
pub mod Walk
pub mod Snapshots
mod Tests
