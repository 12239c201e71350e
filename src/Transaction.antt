-- ===== src/Transaction.antt =====
-- oxidedb/transaction: the transaction of one process, and the locks of one that stopped.
pub mod Local
pub mod LockResolver
pub mod Coordinator
