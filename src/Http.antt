-- ===== src/Http.antt =====
-- The HLS routes of crates/zap-stream/src/http/hls.rs: path components, byte ranges, the parts that
-- a playlist has, blocking requests and viewer tokens.
pub mod Paths
pub mod Range
pub mod Parts
pub mod Blocking
