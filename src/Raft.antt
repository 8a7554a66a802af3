-- ===== src/Raft.antt =====
-- The package internal/raft: the progress of a remote, the in-memory log, the log, pending reads,
-- and the protocol's state machine.
pub mod EntryUtils
pub mod Remote
pub mod InMemory
pub mod EntryLog
pub mod ReadIndex
pub mod Node
pub mod Send
pub mod Replication
pub mod Transition
pub mod Members
pub mod Follower
pub mod Leader
pub mod Step
pub mod Peer
pub mod Safety
mod Tests
