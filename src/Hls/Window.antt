-- ===== src/Hls/Window.antt =====
-- What `HlsVariant` keeps in its segment list: `clean_segments` (the sliding window) and
-- `prune_old_partials` of crates/core/src/mux/hls/variant.rs.
pub mod Retention
pub mod Cleaning
use mathlib.Core.Logic.{ite}
use zap_stream_core.Prelude.{
  ℕ, suc, ◌-◌, Bool, true, Option, none, some, List, [], ◌∷◌, reverse, leb, if◌then◌else◌, retain,
  take, drop,
}
use zap_stream_core.Prelude.Int.{ℤ, pos, ◌+ℤ◌, leb_ℤ}
use zap_stream_core.Hls.Segment.{
  HlsSegment, full, partial, HlsSegment-discrete, SegmentInfo, is_full,
}
use zap_stream_core.Hls.State.{HlsVariant, Files, Env, remove_file}

-- `next_segment_idx.saturating_sub(3)` is the subtraction of ℕ.
abbrev pub keeps_partial : ℕ → HlsSegment → Bool
keeps_partial min_part_parent (full s) = true
keeps_partial min_part_parent (partial p) = leb min_part_parent p.parent_index

unfoldable pub prune_old_partials : List HlsSegment → ℕ → List HlsSegment
prune_old_partials segments next_segment_idx =
    retain (keeps_partial (next_segment_idx - 3)) segments

abbrev pub duration : HlsSegment → ℤ
duration (full s) = s.duration
duration (partial p) = pos 0

-- The backwards loop over the full segments: the first one met once `window` is covered.
unfoldable pub drain_from : ℤ → ℤ → List HlsSegment → Option HlsSegment
drain_from window acc [] = none
drain_from window acc (seg ∷ older) =
    if leb_ℤ window acc then some seg else drain_from window (acc +ℤ duration seg) older

-- `Iterator::position(|e| e == seg)`.
abbrev one_on : Option ℕ → Option ℕ
one_on none = none
one_on (some i) = some (suc i)

unfoldable pub position : HlsSegment → List HlsSegment → Option ℕ
position seg [] = none
position seg (s ∷ segments) =
    ite (HlsSegment-discrete s seg) (some 0) (one_on (position seg segments))

unfoldable pub drain_pos : ℤ → List HlsSegment → Option ℕ
unfolding drain_from position
drain_pos window segments = elim (drain_from window (pos 0) (reverse (retain is_full segments))) [
  | none ↦ none
  | some seg ↦ position seg segments
]

abbrev pub full_segments : List HlsSegment → List SegmentInfo
full_segments [] = []
full_segments (full s ∷ segments) = s ∷ full_segments segments
full_segments (partial p ∷ segments) = full_segments segments

-- `remove_file` of each drained segment; a failure is only logged.
unfoldable pub remove_segment_files : Env → List SegmentInfo → Files → Files
remove_segment_files env [] files = files
remove_segment_files env (s ∷ drained) files = remove_segment_files env drained (
    if env.remove_fails s.index
    then files
    else remove_file (record { kind = s.kind; index = s.index }) files)

-- The drained entries that are full segments are returned, the other drained entries are dropped.
unfoldable pub clean_segments : Env → HlsVariant → List SegmentInfo × HlsVariant
unfolding drain_pos remove_segment_files
clean_segments env v = elim (drain_pos v.segment_window v.segments) [
  | none ↦ ([], v)
  | some n ↦ (
    full_segments (take n v.segments),
    record v {
      segments = drop n v.segments;
      files = remove_segment_files env (full_segments (take n v.segments)) v.files;
    },
  )
]
