-- ===== src/Tmdb/Memory.antt =====
-- A session in memory, which shows that the laws of `IsReliable` can hold: a state is the list of all
-- writes, the newest first, and iterators sort what it holds.
mod Table
mod Laws
unfoldable pub use Table.{restrict, table}
pub use Laws.{memory_db, memory, memory_reliable}
