-- ===== src/Pipeline.antt =====
-- The parts of crates/core/src between the demuxer and the muxers: frame reordering, encoder
-- parameters, and the variants that are encoded.
pub mod Reorder
pub mod Params
pub mod Variants
pub mod Encoders
