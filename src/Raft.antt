-- ===== src/Raft.antt =====
-- oxidedb/raft: the replicated state machine and the Raft node.
pub mod ErrorCode
pub mod StateMachine
pub mod Disk
pub mod Node
pub mod Recovery
