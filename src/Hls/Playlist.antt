-- ===== src/Hls/Playlist.antt =====
-- `write_playlist` of crates/core/src/mux/hls/variant.rs: what a variant publishes of itself.
pub mod Edge
use zap_stream_core.Prelude.{
  ℕ, ◌+◌, ◌*◌, ◌/◌, Bool, true, false, Option, none, some, List, [], ◌∷◌, map, reverse, ◌==◌, ◌&&◌,
  ◌≡◌, refl, if◌then◌else◌,
}
use zap_stream_core.Prelude.Int.{ℤ, pos, max_ℤ}
use zap_stream_core.Hls.Time.{second, round_seconds, max_ℕ}
use zap_stream_core.Hls.Segment.{
  SegmentType, HlsSegment, full, partial, to_media_segment, segment_name, end_pos,
}
use zap_stream_core.Hls.State.{
  HlsVariant, MediaPlaylist, Env, IoStep, M, ok, io, Outcome, attempt, modify, ◌>>◌,
}
use zap_stream_core.Hls.Outcome.{Outcome-attempt}

unfoldable pub segment_length : HlsVariant → ℕ
segment_length v = max_ℕ v.segment_length_target second

-- A quarter of the segment, and 0.2 s at least.
unfoldable pub partial_segment_length : HlsVariant → ℕ
unfolding segment_length
partial_segment_length v = max_ℕ (segment_length v / 4) (second / 5)

unfoldable pub playlist_version : HlsVariant → ℕ
playlist_version v = if v.low_latency then 6 else version v.segment_type
  where
    version : SegmentType → ℕ
    version SegmentType.fmp4 = 6
    version SegmentType.mpegts = 3

-- The fold over the rounded durations of the full segments.
unfoldable pub max_seg_duration : ℤ → List HlsSegment → ℤ
max_seg_duration acc [] = acc
max_seg_duration acc (full s ∷ segments) =
    max_seg_duration (max_ℤ acc (round_seconds s.duration)) segments
max_seg_duration acc (partial p ∷ segments) = max_seg_duration acc segments

unfoldable pub media_sequence : List HlsSegment → ℕ → ℕ
media_sequence [] idx = idx
media_sequence (full s ∷ segments) idx = s.index
media_sequence (partial p ∷ segments) idx = media_sequence segments idx

-- `find_map` over the reversed list: the end of the newest part of segment `idx`.
unfoldable pub last_part_end : ℕ → List HlsSegment → Option ℕ
unfolding end_pos
last_part_end idx [] = none
last_part_end idx (full s ∷ older) = last_part_end idx older
last_part_end idx (partial p ∷ older) =
    if p.parent_index == idx
    then elim (end_pos p) [ none ↦ last_part_end idx older | some e ↦ some e ]
    else last_part_end idx older

-- `unwrap_or(0)`.
abbrev or_zero : Option ℕ → ℕ
or_zero none = 0
or_zero (some e) = e

unfoldable pub next_part_start : HlsVariant → ℕ
unfolding last_part_end
next_part_start v = or_zero (last_part_end v.idx (reverse v.segments))

-- `(target * 3.5).max(target + 0.1)`.
unfoldable pub part_hold_back : ℕ → ℕ
part_hold_back target = max_ℕ (target * 7 / 2) (target + second / 10)

is_fmp4 : SegmentType → Bool
is_fmp4 SegmentType.fmp4 = true
is_fmp4 SegmentType.mpegts = false

is_some {ℓ} : {A : Type ℓ} → Option A → Bool
is_some none = false
is_some (some a) = true

unfoldable pub media_playlist : HlsVariant → MediaPlaylist
unfolding is_fmp4 is_some segment_length playlist_version max_seg_duration media_sequence
    next_part_start part_hold_back
media_playlist v = record {
  segments = map to_media_segment v.segments;
  has_map = is_fmp4 v.segment_type && is_some v.init_segment_path;
  part_hold_back = if v.low_latency then some (part_hold_back v.partial_target_duration) else none;
  version = playlist_version v;
  target_duration = max_seg_duration (round_seconds (pos (segment_length v))) v.segments;
  part_target = if v.low_latency then some v.partial_target_duration else none;
  media_sequence = media_sequence v.segments v.idx;
  end_list = false;
  hint =
      if v.low_latency then some (segment_name v.segment_type v.idx, next_part_start v) else none;
}

replace_playlist : M (Unit {0})
replace_playlist = modify (λ v. record v { playlist = some (media_playlist v) })

publish_playlist : Env → IoStep → M (Unit {0})
unfolding replace_playlist
publish_playlist env step = do attempt env step; replace_playlist

unless_empty : Env → IoStep → List HlsSegment → M (Unit {0})
unfolding publish_playlist
unless_empty env step [] v = (ok tt, v)
unless_empty env step (_ ∷ _) v = publish_playlist env step v

-- An empty playlist is not written. The new text replaces the old in one step (a rename).
unfoldable pub write_playlist : Env → IoStep → M (Unit {0})
unfolding unless_empty
write_playlist env step v = unless_empty env step v.segments v

-- A property that a new published playlist cannot break survives `write_playlist`, also a failed one.
pub write_playlist_rule :
    (P : HlsVariant → Type 0) (env : Env) (step : IoStep) (v : HlsVariant)
    → P v
    → P (record v { playlist = some (media_playlist v) })
    → Outcome (λ _ w. P w) (λ e w. P w × (e ≡ io step)) (write_playlist env step v)
unfolding write_playlist
write_playlist_rule P env step v h k = go v.segments
  where
    go :
        (segs : List HlsSegment)
        → Outcome (λ _ w. P w) (λ e w. P w × (e ≡ io step)) (unless_empty env step segs v)
    go [] = h
    go (_ ∷ _) =
        Outcome-attempt (λ _ w. P w) (λ e w. P w × (e ≡ io step)) env step replace_playlist v
          (h, refl) k
