-- ===== src/Queue.antt =====
-- queue.go: the queues between the users of a raft group and the goroutine that steps it. A mutex
-- guards every method, so that a method is one step. The slice that `get` returns shares its memory
-- with the queue, which writes to it again only after the next `get`; here it is a list of its own.
pub mod Slots
pub mod EntryQueue
pub mod ReadIndexQueue
pub mod ReadyCluster
mod Tests
