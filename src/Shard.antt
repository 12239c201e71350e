-- ===== src/Shard.antt =====
-- oxidedb/shard: which shard has a key.
pub mod Router
