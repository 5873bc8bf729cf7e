-- ===== src/Hls.antt =====
-- The HLS muxer of crates/core/src/mux/hls: segments, the state of one variant, its playlist, and
-- the segmentation of packets.
pub mod Time
pub mod Segment
pub mod State
pub mod Outcome
pub mod Window
pub mod Sequence
pub mod Tiling
pub mod Playlist
pub mod Splitting
pub mod Resume
pub mod Muxer
pub mod Renditions
