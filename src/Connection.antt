-- ===== src/Connection.antt =====
-- src/connection.rs: replies of transactions, and the callbacks of SFP transfers.
pub mod Transaction
pub mod Exchange
pub mod Lifetime
pub mod Metadata
pub mod Sfp
