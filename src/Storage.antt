-- ===== src/Storage.antt =====
-- oxidedb/storage: the engines, the MVCC encoding and the local timestamps.
pub mod Engine
pub mod Keyspace
pub mod Mvcc
pub mod Timestamp
