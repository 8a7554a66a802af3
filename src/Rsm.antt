-- ===== src/Rsm.antt =====
-- internal/rsm: the replicated state machine, which applies the entries that raft has committed. A
-- mutex guards every method, so that a method is one step.
pub mod Session
pub mod Sessions
pub mod Offload
pub mod Managed
pub mod Members
pub mod StateMachine
pub mod Apply
pub mod Recover
pub mod Tests
