-- ===== src/Billing.antt =====
-- The database of crates/zap-stream-db and what crates/zap-stream/src charges and credits through it.
pub mod Tables
pub mod Ledger
pub mod Segments
pub mod Payments
pub mod Streams
pub mod External
