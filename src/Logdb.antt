-- ===== src/Logdb.antt =====
-- internal/logdb: the persistent log of a raft node, in batches of entries in a key-value store, and
-- the reader that the raft package sees.
pub mod Batch
pub mod Rdb
pub mod LogReader
mod Tests
