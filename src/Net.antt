-- ===== src/Net.antt =====
-- senko-net: watched keys, transactions and the connections that use them.
pub mod Watch
pub mod Transaction
pub mod Server
