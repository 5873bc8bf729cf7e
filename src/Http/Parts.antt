-- ===== src/Http/Parts.antt =====
-- Which parts a published playlist has: `playlist_last_msn_part` and `playlist_has_part` of
-- crates/zap-stream/src/http/hls.rs, over a playlist as the m3u8 crate parses it.
pub mod Availability
use zap_stream_core.Prelude.{
  ℕ, ◌+◌, ◌-◌, Bool, true, false, Option, none, some, List, [], ◌∷◌, ltb, ◌==◌, if◌then◌else◌,
}
use zap_stream_core.Hls.Segment.{MediaSegmentType, full, partial, preload_hint}

pub record ParsedPlaylist : Type 0 where
  pub media_sequence : ℕ
  pub segments : List MediaSegmentType

pub data Playlist : Type 0 where
  master : Playlist
  media : ParsedPlaylist → Playlist

-- The loop over the segments: full segments so far, and parts since the last of them.
unfoldable pub count_segments : ℕ → ℕ → List MediaSegmentType → ℕ × ℕ
count_segments full_count trailing_parts [] = (full_count, trailing_parts)
count_segments full_count trailing_parts (full s ∷ segs) = count_segments (full_count + 1) 0 segs
count_segments full_count trailing_parts (partial p ∷ segs) =
    count_segments full_count (trailing_parts + 1) segs
count_segments full_count trailing_parts (preload_hint uri start ∷ segs) =
    count_segments full_count trailing_parts segs

last_of : ℕ → ℕ × ℕ → Option (ℕ × Option ℕ)
last_of media_sequence (full_count, trailing_parts) =
    if ltb 0 trailing_parts
    then some (media_sequence + full_count, some (trailing_parts - 1))
    else if ltb 0 full_count
    then some (media_sequence + full_count - 1, none)
    else none

last_msn_part : Option Playlist → Option (ℕ × Option ℕ)
unfolding last_of count_segments
last_msn_part none = none
last_msn_part (some master) = none
last_msn_part (some (media pl)) = last_of pl.media_sequence (count_segments 0 0 pl.segments)

-- `parse` is the m3u8 crate's parser.
unfoldable pub playlist_last_msn_part : (List ℕ → Option Playlist) → List ℕ → Option (ℕ × Option ℕ)
unfolding last_msn_part
playlist_last_msn_part parse content = last_msn_part (parse content)

has_of : ℕ → ℕ → ℕ → ℕ × ℕ → Bool
has_of want_msn want_part media_sequence (full_count, trailing_parts) =
    if ltb want_msn (media_sequence + full_count)
    then true
    else if want_msn == (media_sequence + full_count)
    then ltb want_part trailing_parts
    else false

has_part : ℕ → ℕ → Option Playlist → Bool
unfolding has_of count_segments
has_part want_msn want_part none = false
has_part want_msn want_part (some master) = true
has_part want_msn want_part (some (media pl)) =
    has_of want_msn want_part pl.media_sequence (count_segments 0 0 pl.segments)

unfoldable pub playlist_has_part : (List ℕ → Option Playlist) → List ℕ → ℕ → ℕ → Bool
unfolding has_part
playlist_has_part parse content want_msn want_part = has_part want_msn want_part (parse content)
