-- ===== src/Scenarios/Renditions.antt =====
-- A muxer of two groups that share one audio stream.
use zap_stream_core.Prelude.{
  ℕ, ◌*◌, ◌≡◌, refl, true, false, Option, none, some, List, [], ◌∷◌, ◌++◌, map, All, In, retain,
  Distinct,
}
use zap_stream_core.Hls.Time.{second}
use zap_stream_core.Hls.Segment.{SegmentType}
use zap_stream_core.Hls.Resume.{Setup, encoded_video, encoded_audio, new}
use zap_stream_core.Hls.Renditions.{
  EncoderVariantGroup, Rendition, member_id, is_audio_variant, all_streams, audio_plans,
  media_plans, plans, create_all, max_gop, new_muxer,
}
use zap_stream_core.Hls.Renditions.Sharing.{names, Refers, plans_share_audio}
use zap_stream_core.Hls.Renditions.Lengths.{Uniform, NearestIfKnown, new_muxer-Uniform}

-- Nothing is there yet.
abbrev setup : ℕ → Setup
setup name = record {
  dir_exists = false;
  create_fails = false;
  playlist = none;
  hash = λ _. none;
  build_fails = false;
  muxer = λ n. some n;
  files = [];
}

-- 60 frames a group at 30 frames a second.
abbrev groups : List EncoderVariantGroup
groups =
    record { id = 100; streams = encoded_video 7 60 30000 ∷ encoded_audio 8 ∷ [] }
    ∷ record { id = 101; streams = encoded_video 9 60 30000 ∷ encoded_audio 8 ∷ [] }
    ∷ []

abbrev or_empty : Option (List Rendition) → List Rendition
or_empty none = []
or_empty (some rs) = rs

abbrev made : List Rendition
made = or_empty (new_muxer true setup groups SegmentType.fmp4 (5 * second))

made_is : new_muxer true setup groups SegmentType.fmp4 (5 * second) ≡ some made
unfolding new_muxer create_all new plans audio_plans media_plans
made_is = refl

-- The audio comes first, and once; segments of five seconds become three groups of pictures.
names_are : map (λ r. r.name) made ≡ 8 ∷ 100 ∷ 101 ∷ []
unfolding new_muxer create_all new plans audio_plans media_plans
names_are = refl

lengths_are :
    map (λ r. r.variant.segment_length_target) made ≡ 6 * second ∷ 6 * second ∷ 6 * second ∷ []
unfolding new_muxer create_all new plans audio_plans media_plans
lengths_are = refl

plans_share_audio_example :
    (plans SegmentType.fmp4 groups ≡ audio_plans [] (all_streams groups) ++ media_plans groups)
    × Distinct (names (audio_plans [] (all_streams groups)))
    × All
        (λ s. In (member_id s) (names (audio_plans [] (all_streams groups))))
        (retain is_audio_variant (all_streams groups))
    × All (Refers (names (audio_plans [] (all_streams groups)))) (media_plans groups)
plans_share_audio_example = plans_share_audio groups

new_muxer-Uniform_example :
    (len : ℕ) × All (Uniform SegmentType.fmp4 len) made
    × NearestIfKnown (max_gop none made) (5 * second) len
new_muxer-Uniform_example =
    new_muxer-Uniform true setup groups SegmentType.fmp4 (5 * second) made made_is
