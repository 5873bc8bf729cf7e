-- ===== src/Streams.antt =====
-- The bookkeeping of crates/zap-stream/src around streams.
pub mod Viewers
pub mod Manager
