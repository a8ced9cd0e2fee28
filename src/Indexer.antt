-- ===== src/Indexer.antt =====
-- indexer: the indexers, which write each block to a database of their own, and what is read from it.
pub mod Keys
pub mod Run
pub mod Block
pub mod Found
pub mod Tx
pub mod TxFound
pub mod TxGiven
mod Tests
