-- ===== src/Metadata.antt =====
-- oxidedb/metadata: the routing table and who writes and reads it.
pub mod Table
pub mod Commands
pub mod Cache
