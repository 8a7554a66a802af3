-- ===== src/Lib.antt =====
-- dragonboat, a multi-group raft library: the consensus protocol, the state machine it replicates, and the
-- log it persists.
--
-- The program's parts. A NodeHost (nodehost.go, node.go) runs many raft groups. Each group is driven
-- through a Peer (internal/raft/peer.go), which turns calls into messages to a `raft`
-- (internal/raft/raft.go), the state machine of the protocol. It keeps the log of entries that are not
-- both persisted and applied (internal/raft/inmemory.go) on top of the persistent log
-- (internal/raft/logentry.go, the interface ILogDB), the progress of every other node
-- (internal/raft/remote.go), and the linearizable reads that wait for a quorum
-- (internal/raft/readindex.go). What raft commits is applied to the user's data store by a replicated
-- state machine (internal/rsm/statemachine.go), with the clients' sessions
-- (internal/rsm/managedstatemachine.go, session.go) and the membership; what raft has to persist is kept
-- in batches in a key-value store (internal/logdb/rdb.go) and read back through a log reader
-- (internal/logdb/logreader.go). A client proposes from a session of its own (client/session.go), through
-- a table of waiting requests (requests.go), which its node (node.go) tells what the state machine has
-- made of the entry.
--
-- What models what:
--   Prelude and its children: numbers, lists, maps and outcomes, shared by all.
--   Pb: raftpb/raft.proto, and the types and tests of raftpb/raft.go.
--   Raft/EntryUtils: internal/raft/entryutils.go.
--   Raft/Remote: internal/raft/remote.go.
--   Raft/InMemory: internal/raft/inmemory.go.
--   Raft/EntryLog: internal/raft/logentry.go.
--   Raft/ReadIndex: internal/raft/readindex.go.
--   Raft/Node, Send, Replication, Transition, Members, Follower, Leader and Step: the sections of
--     internal/raft/raft.go, from its state up to the handler table, `Handle` and `tick`.
--   Raft/Peer: internal/raft/peer.go, with `newRaft`; Raft/Peer/Update: its GetUpdate, HasUpdate and
--     Commit.
--   Raft/Safety: the relation between the states before and after a step, over all of raft.go.
--   Raft/Peer/Runs: the calls of a Peer as a relation.
--   Queue/EntryQueue, Queue/ReadIndexQueue and Queue/ReadyCluster: the queues of queue.go, through which
--     users and the stepping goroutine of a raft group exchange requests, and its set of groups with
--     work to do. Their mutexes make a method one step.
--   Quiesce: quiesce.go, the state machine by which an idle raft group stops its clock.
--   Client: client/session.go, the session that a client proposes from; Client/Protocol: a client that
--     uses it as it is meant to be used.
--   Requests/Proposals with Requests/Shards, Requests/Reads and Requests/ConfigChanges: the requests of
--     requests.go that wait for their result, with the types of Requests that they share;
--     Requests/Node: the calls of node.go that propose and that hand a result on.
--   Rsm/Session and Rsm/Sessions: internal/rsm/session.go and lrusession.go; Rsm/Offload and Rsm/Managed:
--     managedstatemachine.go; Rsm/Members, StateMachine, Apply and Recover: statemachine.go, from the
--     membership up to the batches of committed entries and the snapshots.
--   Logdb/Batch and Logdb/Rdb: the entries of internal/logdb/batch.go, rdb.go and rdbcache.go;
--     Logdb/LogReader: internal/logdb/logreader.go, which fills the interface of Raft/EntryLog.
-- The children of these modules hold the theorems about them; modules named Tests hold runs at
-- concrete inputs.
--
-- How the code is read. A function keeps its name in snake case: `handleReplicateMessage` is
-- `handle_replicate_message`. A method that changes its receiver returns the new value. A Go panic,
-- also one by an index out of range or a nil map entry, is the outcome `panic`; an `error` result is
-- `Fetched`. A uint64 is a natural number, with additions and subtractions that may wrap written as
-- `add64` and `sub64`. A Go map is an association list, and an iteration over it goes in the order of
-- the list: the theorems hold for a list in any order. The random number generator is a function of the
-- number of calls made. `sort.Slice` is insertion sort.
--
-- Bounds and fuel. `Handle` calls itself, through the clock, for messages of a node to itself:
-- `handle` takes the depth as fuel, and `handle_message` takes 2. `get_pending_config_change_count`
-- gets the last index and one more as fuel, since every round passes an index; out of fuel is `panic`.
--
-- Parameters. The cache of sessions is a copy of another project's package: Rsm/Sessions takes its
-- operations, and what is relied on is the law `IsCache` there. The user's data store, the decoding of
-- a configuration change and the files of a snapshot are the record `Env` of Rsm/StateMachine. For the
-- raft log the persistent log is the record `LogDb` of what it answers, with the law `IsLawful` of
-- Raft/EntryLog/Fetch. The key-value store of Logdb/Rdb is a map, and its codec reads what it wrote.
--
-- Not modelled: log messages, String methods and `describe`; the handlers and the recycling of request
-- objects; the test hook
-- `hasNotAppliedConfigChange`; the capacity of slices; the check of the handler table at start;
-- a Peer's status and its dumps to the log; hashes and snapshot files; states, bootstrap and snapshot
-- records of the log storage, and its removal of entries; NodeHost, transport and the drummer server.
pub mod Prelude
pub mod Pb
pub mod Raft
pub mod Queue
pub mod Quiesce
pub mod Client
pub mod Requests
pub mod Rsm
pub mod Logdb
