-- ===== src/Tests.antt =====
-- Runs of the definitions at concrete inputs, and the theorems applied there.
mod Codec
mod Storage
mod Transactions
mod Raft
mod Services
mod Metadata
mod Client
mod Coordinator
mod Cache
mod Recovery
mod Splits
mod Notes
