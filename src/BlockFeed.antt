-- ===== src/BlockFeed.antt =====
-- block_feed: the blocks that a node is fed, from the RPC endpoint while it is behind and from the
-- websocket then. The goroutines that a channel joins are run one after the other: what one sends, the
-- other receives next. What the endpoints answer is a parameter; a fatal log ends the process.
pub mod Sources
pub mod Aggregate
pub mod Order
pub mod Reconnect
mod Tests
