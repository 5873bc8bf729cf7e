-- ===== src/Scenarios.antt =====
-- Concrete states and requests on which the theorems apply, and runs of the models on them.
mod Starting
mod Watching
mod Reordering
mod Charging
mod Metering
mod Capabilities
mod Encoding
mod Renditions
mod Webhooks
mod Polling
use zap_stream_core.Prelude.{
  ℕ, zero, suc, ◌/◌, ◌*◌, ◌≤◌, ◌+◌, ◌-◌, ◌<◌, ◌≡◌, refl, ap, ◌⊎◌, true, false, ◌||◌, ◌&&◌, ◌==◌,
  ltb, Option, none, some, List, [], ◌∷◌, ◌++◌, length, take, drop, arith,
}
use zap_stream_core.Prelude.Int.{pos}
use zap_stream_core.Prelude.Text.{codes}
use zap_stream_core.Hls.Time.{second}
use zap_stream_core.Hls.Segment.{
  mpegts, fmp4, HlsSegment, full, partial, segment_name, to_media_segment,
}
use zap_stream_core.Hls.State.{HlsVariant, HlsVariantStream, Env, MediaType, Outcome}
use zap_stream_core.Hls.Sequence.{Chain}
use zap_stream_core.Hls.Tiling.{Tiled, trailing}
use zap_stream_core.Hls.Window.{clean_segments}
use zap_stream_core.Hls.Window.Cleaning.{Slides, Rests, clean_segments-Slides}
use zap_stream_core.Hls.Playlist.{media_playlist, media_sequence, next_part_start}
use zap_stream_core.Hls.Playlist.Edge.{media_sequence-Chain, next_part_start-written}
use zap_stream_core.Hls.Splitting.{Packet, process_packet}
use zap_stream_core.Hls.Splitting.Outcome.{On}
use zap_stream_core.Hls.Splitting.Index.{Advances, Fails, process_packet-Advances}
use zap_stream_core.Hls.Splitting.Parts.{Live, LiveOnError}
use zap_stream_core.Hls.Splitting.Publishing.{process_packet-Live}
use zap_stream_core.Http.Paths.{safe_path_component, next_segment_exists, add_token_to_url, ok}
use zap_stream_core.Http.Paths.Traversal.{walk, safe_path_component-walk}
use zap_stream_core.Http.Paths.Names.{query, before_query, with_token}
use zap_stream_core.Http.Range.{
  StartPosition, EndPosition, last_byte, SyntacticallyCorrectRange, get_range, range_response,
  max_unbounded_range, Round, wait_for_bytes,
}
use zap_stream_core.Http.Range.Bounds.{Serves, get_range-Serves}
use zap_stream_core.Http.Range.Body.{range_response-body}
use zap_stream_core.Http.Parts.{Playlist, media, playlist_has_part, playlist_last_msn_part}
use zap_stream_core.Http.Parts.Availability.{
  read_back, IsEdge, playlist_has_part-Live, playlist_last_msn_part-IsEdge,
}
use zap_stream_core.Http.Blocking.{
  Poll, Paced, Reply, read_playlist_blocking, AnyPoll, Answers, read_playlist_blocking-ends,
  read_playlist_blocking-content,
}

-- Two finished segments of two seconds, and one part of 376 bytes of the segment in progress.
abbrev two_seconds : ℕ → HlsSegment
two_seconds i = full (record {
  index = i;
  duration = pos (2 * second);
  kind = mpegts;
  sha256 = [];
  timestamp = pos 0;
  discontinuity = false;
})

abbrev first_part : HlsSegment
first_part = partial (record {
  index = 0;
  parent_index = 2;
  parent_kind = mpegts;
  duration = pos (second / 2);
  independent = true;
  byte_range = some (376, some 0);
})

abbrev variant : HlsVariant
variant = record {
  streams = HlsVariantStream.video 0 7 ∷ HlsVariantStream.audio 1 8 ∷ [];
  segment_length_target = 2 * second;
  segment_window = pos second;
  idx = 2;
  segments = two_seconds 0 ∷ two_seconds 1 ∷ first_part ∷ [];
  segment_type = mpegts;
  current_segment_start = pos (4 * second);
  current_partial_start = pos (4 * second + second / 2);
  packets_written = 30;
  ref_stream_index = 0;
  low_latency = true;
  partial_target_duration = second / 2;
  current_partial_index = 1;
  next_partial_independent = false;
  init_segment_path = none;
  has_video = true;
  sink = [];
  current_file = some (record { kind = mpegts; index = 2 });
  written = 376;
  pdt_anchor = some (pos 0, pos 0);
  files = [];
  playlist = none;
}

abbrev stream_kind : ℕ → MediaType
stream_kind zero = MediaType.video
stream_kind (suc _) = MediaType.audio

-- No call fails.
abbrev env : Env
env = record {
  fails = λ _. false;
  torn = 0;
  part_bytes = [];
  segment_bytes = [];
  packet_bytes = 71 ∷ [];
  remove_fails = λ _. false;
  codec_type = stream_kind;
  now = pos 1000;
  sha256 = λ bytes. bytes;
}

-- A key frame at six seconds, in ticks of a 90 kHz clock.
abbrev key_frame : Packet
key_frame = record {
  pts = some (pos 540000);
  dts = some (pos 540000);
  duration = pos 3000;
  time_base = second / 90000;
  key = true;
}

abbrev video_stream : HlsVariantStream
video_stream = HlsVariantStream.video 0 7

variant-Chain : Chain 0 variant.segments variant.idx
variant-Chain = (refl, (refl, (refl, refl)))

variant-Tiled : Tiled 0 variant.segments variant.written
variant-Tiled = (376, refl, refl)

variant-Live : On Live variant
unfolding trailing
variant-Live = ((0, variant-Chain), variant-Tiled, refl)

process_packet-Live_example :
    Outcome (λ _ w. On Live w) LiveOnError (process_packet env key_frame video_stream variant)
process_packet-Live_example = process_packet-Live env key_frame video_stream variant variant-Live

process_packet-Advances_example :
    Outcome (Advances 2) (Fails 2) (process_packet env key_frame video_stream variant)
process_packet-Advances_example =
    process_packet-Advances 2 env key_frame video_stream variant (0, variant-Chain) refl

next_part_start-written_example : next_part_start variant ≡ 376
next_part_start-written_example = next_part_start-written variant 0 variant-Chain variant-Tiled

clean_segments-Slides_example :
    Slides variant (clean_segments env variant).1 (clean_segments env variant).0
    ⊎ Rests variant (clean_segments env variant).1 (clean_segments env variant).0
clean_segments-Slides_example = clean_segments-Slides env variant (0, variant-Chain)

-- A parser that reads the variant's playlist back, whatever the text.
abbrev parse : List ℕ → Option Playlist
parse content = some (media (read_back (media_playlist variant)))

playlist_has_part-Live_example :
    playlist_has_part parse [] 2 0 ≡ (ltb 2 variant.idx || (2 == variant.idx && ltb 0 1))
playlist_has_part-Live_example = playlist_has_part-Live parse [] variant 2 0 variant-Live refl

last_is : playlist_last_msn_part parse [] ≡ some (2, some 0)
unfolding playlist_last_msn_part media_playlist read_back media_sequence to_media_segment
last_is = refl

playlist_last_msn_part-IsEdge_example : IsEdge (playlist_has_part parse []) (2, some 0)
playlist_last_msn_part-IsEdge_example = playlist_last_msn_part-IsEdge parse [] (2, some 0) last_is

range_is :
    get_range 5 (record { start = StartPosition.index 1; end = EndPosition.index 3 }) ≡ some (1, 3)
unfolding get_range
range_is = refl

abbrev five : List ℕ
five = 10 ∷ 11 ∷ 12 ∷ 13 ∷ 14 ∷ []

range_response-body_example :
    (range_response
        (some 5)
        (some (five ++ 15 ∷ []))
        (record { start = StartPosition.index 1; end = EndPosition.index 3 })
      ≡ ok (record { start = 1; end = 3; total = 5; body = take (3 - 1 + 1) (drop 1 five) }))
    × (length (take (3 - 1 + 1) (drop 1 five)) ≡ 3 - 1 + 1)
range_response-body_example =
    range_response-body five (15 ∷ [])
      (record { start = StartPosition.index 1; end = EndPosition.index 3 }) 1 3 (omega arith)
      range_is

-- A suffix longer than the file is the whole file.
get_range-Serves_example :
    let header : SyntacticallyCorrectRange = record {
      start = StartPosition.from_last 9;
      end = last_byte;
    } in
    Serves 5 header 0 (get_range 5 header)
get_range-Serves_example =
    get_range-Serves 5 (record { start = StartPosition.from_last 9; end = last_byte }) 0
      (omega arith) (omega arith)

component_is : safe_path_component (codes "hls") ≡ ok (codes "hls")
unfolding safe_path_component
component_is = refl

safe_path_component-walk_example :
    (codes "hls" ≡ codes "hls")
    × (walk (codes "out" ∷ []) [] (codes "hls") ≡ codes "hls" ∷ codes "out" ∷ [])
safe_path_component-walk_example =
    safe_path_component-walk (codes "hls") (codes "hls") (codes "out" ∷ []) component_is

-- 201 reads 30 ms apart.
abbrev every_30_ms : ℕ → ℕ → List Poll
every_30_ms zero now = []
every_30_ms (suc n) now = record { content = some []; now = now } ∷ every_30_ms n (now + 30)

every_30_ms-Paced : (n now : ℕ) → Paced now (every_30_ms n now)
every_30_ms-Paced zero now = tt
every_30_ms-Paced (suc n) now = (omega arith, every_30_ms-Paced n (now + 30))

every_30_ms-length : (n now : ℕ) → length (every_30_ms n now) ≡ n
every_30_ms-length zero now = refl
every_30_ms-length (suc n) now = ap suc (every_30_ms-length n (now + 30))

read_playlist_blocking-ends_example :
    (reply : Reply) × (read_playlist_blocking parse 0
        (some 9)
        none
        (record { content = some []; now = 0 } ∷ every_30_ms 200 30)
      ≡ some reply)
read_playlist_blocking-ends_example =
    read_playlist_blocking-ends parse 0 (some 9) none (record { content = some []; now = 0 })
      (every_30_ms 200 30) (omega arith, every_30_ms-Paced 200 30)
      (omega (arith, every_30_ms-length 200 30))

-- The part that is asked for is there in the first round.
reply_is :
    read_playlist_blocking parse 0 (some 2) none (record { content = some five; now = 0 } ∷ [])
    ≡ some (Reply.content five)
unfolding read_playlist_blocking playlist_has_part media_playlist read_back media_sequence
    to_media_segment
reply_is = refl

read_playlist_blocking-content_example :
    AnyPoll
      (Answers (playlist_has_part parse) 6000 2 0 five)
      (record { content = some five; now = 0 } ∷ [])
read_playlist_blocking-content_example =
    read_playlist_blocking-content parse 0 (some 2) none
      (record { content = some five; now = 0 } ∷ []) five reply_is
