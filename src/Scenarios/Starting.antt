-- ===== src/Scenarios/Starting.antt =====
-- A variant that resumes the playlist of the variant in the parent module, and a muxer of one variant.
use zap_stream_core.Prelude.{ℕ, ◌≡◌, refl, inr, Bool, true, false, none, some, List, [], ◌∷◌, ◌*◌}
use zap_stream_core.Prelude.Int.{pos}
use zap_stream_core.Prelude.Text.{decimal}
use zap_stream_core.Hls.Time.{second}
use zap_stream_core.Hls.Segment.{
  mpegts, HlsSegment, segment_name, to_media_segment, EgressSegment, to_egress_segment,
}
use zap_stream_core.Hls.State.{HlsVariant, stream_id}
use zap_stream_core.Hls.Playlist.{media_playlist}
use zap_stream_core.Hls.Resume.{
  Setup, EncoderVariant, encoded_video, encoded_audio, new, open_variant, try_load_media_seq,
}
use zap_stream_core.Hls.Resume.Start.{OnSuccess, new-open_variant-Live, new-resumes}
use zap_stream_core.Hls.Splitting.{is_audio_only, video_var_id}
use zap_stream_core.Hls.Splitting.Outcome.{On}
use zap_stream_core.Hls.Splitting.Parts.{Live}
use zap_stream_core.Hls.Muxer.{mux_packet_to_all, collect_remaining_segments}
use zap_stream_core.Hls.Muxer.Delivery.{Broadcasts, mux_packet_to_all-Broadcasts}
use zap_stream_core.Http.Parts.{media}
use zap_stream_core.Http.Parts.Availability.{read_back}
use zap_stream_core.Scenarios.{variant, variant-Chain, env, key_frame}

-- The directory is there, with the variant's playlist; every file hashes to the empty hash.
abbrev setup : Setup
setup = record {
  dir_exists = true;
  create_fails = false;
  playlist = some (media (read_back (media_playlist variant)));
  hash = λ _. some [];
  build_fails = false;
  muxer = λ n. some n;
  files = [];
}

abbrev group : List EncoderVariant
group = encoded_video 7 60 30000 ∷ encoded_audio 8 ∷ []

-- Two finished segments are taken over, the second marked; the index goes on at 2.
abbrev taken_over : Bool → ℕ → HlsSegment
taken_over discontinuity i = HlsSegment.full (record {
  index = i;
  duration = pos (2 * second);
  kind = mpegts;
  sha256 = [];
  timestamp = pos 0;
  discontinuity = discontinuity;
})

abbrev resumed_variant : HlsVariant
resumed_variant = record variant {
  segment_window = pos (30 * second);
  segments = taken_over false 0 ∷ taken_over true 1 ∷ [];
  current_segment_start = pos 0;
  current_partial_start = pos 0;
  packets_written = 0;
  low_latency = false;
  partial_target_duration = 0;
  current_partial_index = 0;
  current_file = none;
  written = 0;
  pdt_anchor = none;
}

new_is : new setup group mpegts (2 * second) ≡ some resumed_variant
unfolding new try_load_media_seq media_playlist read_back to_media_segment segment_name decimal
new_is = refl

loaded_is :
    try_load_media_seq setup.hash setup.playlist
    ≡ some (taken_over false 0 ∷ taken_over false 1 ∷ [])
unfolding try_load_media_seq media_playlist read_back to_media_segment segment_name decimal
loaded_is = refl

new-resumes_example : resumed_variant.idx ≡ 2
new-resumes_example =
    new-resumes setup group mpegts (2 * second) variant resumed_variant
      (taken_over false 0 ∷ taken_over false 1 ∷ []) (0, variant-Chain) refl refl refl loaded_is
      new_is

new-open_variant-Live_example : OnSuccess (On Live) (open_variant env [] resumed_variant)
new-open_variant-Live_example =
    new-open_variant-Live setup group mpegts (2 * second) resumed_variant env [] new_is (inr refl)

mux_packet_to_all-Broadcasts_example :
    Broadcasts
      (λ _. env)
      key_frame
      7
      (variant ∷ variant ∷ [])
      1
      variant
      (mux_packet_to_all (λ _. env) key_frame 7 (variant ∷ variant ∷ []))
mux_packet_to_all-Broadcasts_example =
    mux_packet_to_all-Broadcasts (λ _. env) key_frame 7 (variant ∷ variant ∷ []) 1 variant refl

abbrev left_over : ℕ → EgressSegment
left_over i = record {
  variant = 7;
  idx = i;
  duration = pos (2 * second);
  path = segment_name mpegts i;
  sha256 = [];
  audio_only = false;
}

remaining_is : collect_remaining_segments (variant ∷ []) ≡ some (left_over 0 ∷ left_over 1 ∷ [])
unfolding collect_remaining_segments to_egress_segment is_audio_only video_var_id stream_id
remaining_is = refl
