-- ===== src/Hls/Segment.antt =====
-- crates/core/src/mux/hls/segment.rs: the entries of a variant's playlist, and the types of the
-- m3u8 crate that they are written as.
use zap_stream_core.Prelude.{ℕ, ◌+◌, Bool, true, false, Option, none, some, List, ◌++◌, ℕ_discrete}
use zap_stream_core.Prelude.Int.{ℤ}
use zap_stream_core.Prelude.Text.{Text, codes, decimal}

pub data SegmentType : Type 0 where
  mpegts fmp4 : SegmentType

pub record SegmentInfo : Type 0 where
  pub index : ℕ
  pub duration : ℤ
  pub kind : SegmentType
  pub sha256 : List ℕ
  pub timestamp : ℤ
  pub discontinuity : Bool

-- `byte_range` is (length, start).
pub record PartialSegmentInfo : Type 0 where
  pub index : ℕ
  pub parent_index : ℕ
  pub parent_kind : SegmentType
  pub duration : ℤ
  pub independent : Bool
  pub byte_range : Option (ℕ × Option ℕ)

pub data HlsSegment : Type 0 where
  full : SegmentInfo → HlsSegment
  partial : PartialSegmentInfo → HlsSegment

-- The derived `PartialEq`.
pub ℤ-discrete : Discrete ℤ
ℤ-discrete = hlevel ℕ_discrete

pub HlsSegment-discrete : Discrete HlsSegment
HlsSegment-discrete = hlevel (ℕ_discrete, ℤ-discrete)

abbrev pub is_full : HlsSegment → Bool
is_full (full s) = true
is_full (partial p) = false

unfoldable pub segment_name : SegmentType → ℕ → Text
segment_name SegmentType.mpegts idx = decimal idx ++ codes ".ts"
segment_name SegmentType.fmp4 idx = decimal idx ++ codes ".m4s"

unfoldable pub end_pos : PartialSegmentInfo → Option ℕ
end_pos p = elim p.byte_range [
  | none ↦ none
  | some (len, none) ↦ some len
  | some (len, some start) ↦ some (start + len)
]

-- The m3u8 crate's `MediaSegment`, `Part` and `PreloadHint`, as far as the code fills them.
pub record MediaSegment : Type 0 where
  pub uri : Text
  pub duration : ℤ
  pub program_date_time : Option ℤ
  pub discontinuity : Bool

pub record ByteRange : Type 0 where
  pub length : ℕ
  pub offset : Option ℕ

pub record Part : Type 0 where
  pub uri : Text
  pub duration : ℤ
  pub independent : Bool
  pub gap : Bool
  pub byte_range : Option ByteRange

pub data MediaSegmentType : Type 0 where
  full : MediaSegment → MediaSegmentType
  partial : Part → MediaSegmentType
  preload_hint : Text → ℕ → MediaSegmentType

to_byte_range : Option (ℕ × Option ℕ) → Option ByteRange
to_byte_range none = none
to_byte_range (some (len, start)) = some (record { length = len; offset = start })

unfoldable pub to_media_segment : HlsSegment → MediaSegmentType
unfolding to_byte_range
to_media_segment (full s) = MediaSegmentType.full (record {
  uri = segment_name s.kind s.index;
  duration = s.duration;
  program_date_time = some s.timestamp;
  discontinuity = s.discontinuity;
})
to_media_segment (partial p) = MediaSegmentType.partial (record {
  uri = segment_name p.parent_kind p.parent_index;
  duration = p.duration;
  independent = p.independent;
  gap = false;
  byte_range = to_byte_range p.byte_range;
})

-- crates/core/src/egress/mod.rs: what a muxer reports of a segment.
pub record EgressSegment : Type 0 where
  pub variant : ℕ
  pub idx : ℕ
  pub duration : ℤ
  pub path : Text
  pub sha256 : List ℕ
  pub audio_only : Bool

pub data EgressResult : Type 0 where
  nothing : EgressResult
  segments : List EgressSegment → List EgressSegment → EgressResult

-- `path` is the name inside the variant's directory.
unfoldable pub to_egress_segment : HlsSegment → ℕ → Text → Bool → Option EgressSegment
to_egress_segment (full s) variant_id path audio_only = some (record {
  variant = variant_id;
  idx = s.index;
  duration = s.duration;
  path = path;
  sha256 = s.sha256;
  audio_only = audio_only;
})
to_egress_segment (partial p) variant_id path audio_only = none
