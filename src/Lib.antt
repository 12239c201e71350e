-- ===== src/Lib.antt =====
-- OxideDB: a transactional key/value store whose shards are Raft groups.
--
-- The parts and how they interact. A client's command is proposed to the leader of a shard's Raft
-- group (oxidedb/raft/node.py), which appends it to its log, replicates it and, once a majority has
-- it, applies it to its state machine (oxidedb/raft/state_machine.py). The state machine keeps
-- versions, write records and locks in the rows of the MVCC storage (oxidedb/storage/mvcc.py), over
-- an ordered key/value engine (oxidedb/storage/engine.py); a transaction is a prewrite, which takes
-- locks, and a commit, which turns them into versions. The timestamps come from a group whose
-- state machine is a counter (oxidedb/tso/tso.py), and a key's shard from the range map
-- (oxidedb/shard/router.py).
--
-- Base                  Booleans, lists, dictionaries, bytes with the order of Python's `bytes`.
-- Storage/Engine        `MemoryEngine` as a list of items, `next_key`; a scan sorts the keys.
-- Storage/Keyspace      the namespaces, the checks of keys and timestamps, the layout of a row:
--                       namespace, key, a zero byte, the timestamp in eight bytes, big end first.
-- Storage/Mvcc          one function per method of `MVCCStorage`, over the engine; a method that may
--                       raise returns a `Result`. `Mvcc/Scan` has `scan_versions` and `scan`.
-- Storage/Timestamp     `TimestampAllocator`, the clock an argument of every call.
-- Raft/StateMachine     `MVCCStateMachine`: `apply` and the handler of every command in a monad of
--                       results that keeps what was written before an exception; the reads,
--                       `snapshot` and `restore` in `StateMachine/Reads`.
-- Raft/Disk             the records that a node saves, with the operations of `EngineRaftStorage`.
-- Raft/Node             `MemoryRaftNode` as a record over any state machine. `Apply` is
--                       `_apply_committed_entries` and `_maybe_snapshot`, `Commit` is
--                       `_update_commit_index`, `Election` the elections and `request_vote`,
--                       `Append` is `append_entries`, `Install` is `install_snapshot`, `Load` is
--                       `_load_from_storage`, `Leader` what a leader sends and does with answers,
--                       proposals, the freeze and the index of a read. `Steps` is the relation of
--                       everything that can happen to a node, crashes included.
-- Shard/Router          `default_range_map`, `locate` and `ShardRouter`.
-- Tso                   `TSOSMStateMachine`, `TSOClient` and the two calls of `TSOServicer`.
-- Groups                `wire_code` and `local_code` of oxidedb/groups.py.
-- Metadata              `Table` is `ShardPlacement` and `RoutingTable` of oxidedb/metadata/service.py,
--                       `Commands` the handlers of `MetadataStateMachine`, `Commands/Payload` the
--                       table as plain data, the read of it and the snapshots.
--                       `Cache` is `RoutingCache` of oxidedb/metadata/cache.py over an environment.
-- Raft/Recovery         `RecoveryRunner` of oxidedb/raft/recovery_runner.py over the calls of a recovery
--                       view: `Move` is `finish_move` and `_resume_migration` with what they call,
--                       `Split` is `finish_split` and `_resume_split`; `Notes` is
--                       oxidedb/raft/recovery_notes.py.
-- Client/Routing        `ShardLeaders` of oxidedb/client/routing.py and the loop of `ask_shard` on
--                       fuel, over an environment of handles, tables and answers.
-- Transaction           `Local` is oxidedb/transaction/local.py, `LockResolver` is
--                       oxidedb/transaction/lock_resolver.py over the machines of the leaders,
--                       `Coordinator` is oxidedb/transaction/coordinator.py over an environment of
--                       leaders and timestamps: `Phases` its loops over shards, `Commit` the commit,
--                       `Sessions` the other calls.
-- Tests                 the theorems at concrete inputs, and runs of the definitions.
--
-- Loops are structural: `_apply_committed_entries` runs as many rounds as there are entries between
-- its two indices, which is what its `while` does, so there is no fuel that could run out. The walk
-- of `ask_shard` takes fuel, and `ask_shard_returns` says how much is enough. A wait of a recovery that
-- polls until a deadline takes the number of polls that the deadline leaves. Numbers
-- are unbounded as in Python; a timestamp is checked against 2^64 where the code packs it in eight
-- bytes.
--
-- Parameters: msgpack, of which the only thing assumed is that it unpacks what it packed; the clock
-- that stamps a lock; what a node's state machine does; what a proposal of the timestamp client
-- comes back with.
--
-- Not modelled: threads, locks, deadlines and the pool of RPCs of a node, whose handlers run
-- under its lock and so are steps in any order; a crash of a node between two writes of one
-- handler, as between the snapshot and the compaction of the log, crashes being between
-- handlers; a negative batch of the timestamp group; the SQLite engine and the JSON files; the
-- gRPC services and clients, the SQL front, the launcher and the command line, which convert
-- and print; the coordinator's reads and its waiting on locks, the loops of a recovery over all
-- shards and the shard server. The coordinator's pool is one order of its tasks, the secondary
-- commits being left as submitted.
pub mod Base
pub mod Storage
pub mod Raft
pub mod Shard
pub mod Tso
pub mod Groups
pub mod Transaction
pub mod Metadata
pub mod Client
pub mod Tests
