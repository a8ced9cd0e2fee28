-- ===== src/Richlist.antt =====
-- indexer/richlist: the accounts with the largest balances. The coins of the SDK, the B-tree that holds
-- the rankers, and the accounts and balances of the application are parameters; the mutex is left out.
pub mod Ranker
pub mod List
pub mod Lookup
pub mod Extract
pub mod Changes
pub mod Net
pub mod Bank
pub mod Index
pub mod Sorted
pub mod Saved
mod Tests
