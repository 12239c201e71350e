-- ===== src/Client.antt =====
-- oxidedb/client: how a client finds the node to ask.
pub mod Routing
