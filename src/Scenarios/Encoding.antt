-- ===== src/Scenarios/Encoding.antt =====
-- The configuration of an endpoint for an ingest of 1080 lines with sound.
use mathlib.Core.List.{Permᴰ}
use zap_stream_core.Pipeline.Variants.Levels.{derive_h264_level-least}
use zap_stream_core.Prelude.{
  Distinct, ℕ, ◌≤◌, sym, ◌∙◌, ◌+◌, ◌*◌, ◌/◌, ◌≡◌, refl, ap, inl, inr, true, false, Option, none,
  some, List, [], ◌∷◌, ◌==◌, if◌then◌else◌, arith, In, All, map,
}
use zap_stream_core.Prelude.Text.{Text, codes}
use zap_stream_core.Hls.Segment.{mpegts}
use zap_stream_core.Pipeline.Variants.{
  StreamType, IngressStream, Ffmpeg, VideoVariant, frame_unit, variant_id, variant_src_index,
  derive_h264_level, fits, levels, Level, macroblocks, macroblock_rate,
}
use zap_stream_core.Pipeline.Encoders.{
  EgressType, default_video_h264, default_audio_h264, same_config,
}
use zap_stream_core.Pipeline.Params.{add_params, eq_type, discriminant}
use zap_stream_core.Endpoint.{VariantType, source_variant, variant, dvr}
use zap_stream_core.Endpoint.Grouping.Ids.{Sourced}
use zap_stream_core.Endpoint.Grouping.Encoded.{Encoded}
use zap_stream_core.Endpoint.Config.{Setup}
use zap_stream_core.Endpoint.Config.Known.{GroupsFit, IndexedByKind}
use zap_stream_core.Endpoint.Config.Heights.{Requested}
use zap_stream_core.Endpoint.Built.{built, get_variants_from_endpoint}
use zap_stream_core.Endpoint.Built.Complete.{get_variants_from_endpoint_complete}
use zap_stream_core.Endpoint.Built.Upscaling.{built_heights}
use zap_stream_core.Endpoint.Built.Ids.{built-Distinct}
use zap_stream_core.Endpoint.Built.Listing.{get_variants_from_endpoint_any_order}

-- Codec 1 is H.264 and codec 2 is AAC.
abbrev codec_name : ℕ → Option Text
codec_name n = if n == 1 then some (codes "h264") else if n == 2 then some (codes "aac") else none

abbrev ff : Ffmpeg
ff = record {
  codec_name = codec_name;
  pixel_format_name = λ _. some (codes "yuv420p");
  sample_format_name = λ _. some (codes "fltp");
  d2q = λ fps. (fps, frame_unit);
  q2d = λ num den. num;
}

abbrev picture : IngressStream
picture = record {
  index = 0;
  stream_type = StreamType.video;
  codec = 1;
  format = 0;
  width = 1920;
  height = 1080;
  fps = 30 * frame_unit;
  sample_rate = 0;
  bitrate = 6000000;
  channels = 0;
}

abbrev sound : IngressStream
sound = record {
  index = 1;
  stream_type = StreamType.audio;
  codec = 2;
  format = 0;
  width = 0;
  height = 0;
  fps = 0;
  sample_rate = 48000;
  bitrate = 128000;
  channels = 2;
}

-- One egress for HLS, and a recorder of 720 lines.
abbrev setup : Setup
setup = record {
  ff = ff;
  scaled_width = λ height w h. (2 * (height * w) + h) / (2 * h);
  streams = picture ∷ sound ∷ [];
  egress = EgressType.hls 100 mpegts ∷ EgressType.recorder 200 720 ∷ [];
}

abbrev capabilities : List VariantType
capabilities = dvr 720 ∷ variant 720 2000000 ∷ source_variant ∷ []

-- The picture is copied and encoded again, the sound encoded once for all the groups.
ids_are : map variant_id (built setup capabilities).variants ≡ 0 ∷ 1 ∷ 2 ∷ []
unfolding built variant_id default_video_h264 default_audio_h264 same_config add_params eq_type
    discriminant
ids_are = refl

-- A second picture with the parameters of the first is not copied.
sources_are :
    map variant_src_index
      (built
        (record setup { streams = picture ∷ record picture { index = 2 } ∷ sound ∷ [] })
        (source_variant ∷ [])).variants
    ≡ 0 ∷ 1 ∷ []
unfolding built variant_src_index default_video_h264 default_audio_h264 same_config add_params
    eq_type discriminant
sources_are = refl

differ : (n : ℕ) → n ≡ 0 → n ≡ 1 → ⊥
differ n e f = omega (arith, e, f)

setup-IndexedByKind : IndexedByKind setup.streams
setup-IndexedByKind s t (inl e) (inl f) k =
    ap (λ x. x.stream_type) e ∙ sym (ap (λ x. x.stream_type) f)
setup-IndexedByKind s t (inl e) (inr (inl f)) k =
    absurd (differ s.index (ap (λ x. x.index) e) (k ∙ ap (λ x. x.index) f))
setup-IndexedByKind s t (inl e) (inr (inr f)) k = absurd f
setup-IndexedByKind s t (inr (inl e)) (inl f) k =
    absurd (differ t.index (ap (λ x. x.index) f) (sym k ∙ ap (λ x. x.index) e))
setup-IndexedByKind s t (inr (inl e)) (inr (inl f)) k =
    ap (λ x. x.stream_type) e ∙ sym (ap (λ x. x.stream_type) f)
setup-IndexedByKind s t (inr (inl e)) (inr (inr f)) k = absurd f
setup-IndexedByKind s t (inr (inr e)) i k = absurd e

get_variants_from_endpoint_complete_example :
    (get_variants_from_endpoint setup capabilities ≡ inr (built setup capabilities))
    × All (GroupsFit (built setup capabilities).variants) (built setup capabilities).egress_map
    × All (Sourced setup.streams) (built setup capabilities).variants
get_variants_from_endpoint_complete_example =
    get_variants_from_endpoint_complete setup capabilities setup-IndexedByKind

built_heights_example :
    All (Encoded (Requested setup capabilities)) (built setup capabilities).variants
built_heights_example = built_heights setup capabilities

swapped : Permᴰ capabilities (variant 720 2000000 ∷ dvr 720 ∷ source_variant ∷ [])
swapped = Permᴰ.swap refl refl

get_variants_from_endpoint_any_order_example :
    get_variants_from_endpoint setup capabilities
    ≡ get_variants_from_endpoint setup (variant 720 2000000 ∷ dvr 720 ∷ source_variant ∷ [])
get_variants_from_endpoint_any_order_example =
    get_variants_from_endpoint_any_order setup capabilities
      (variant 720 2000000 ∷ dvr 720 ∷ source_variant ∷ []) swapped

abbrev video_of : ℕ → ℕ → VideoVariant
video_of w h = record {
  id = 0;
  src_index = 0;
  width = w;
  height = h;
  fps = 30 * frame_unit;
  bitrate = 2000000;
  codec = [];
  preset = none;
  tune = none;
  gop = 60;
  max_b_frames = 3;
  profile = 77;
  level = 0;
  pixel_format = [];
  color_space = [];
  color_range = [];
  scaled = false;
}

-- The row that admits 720 lines at 30 frames a second.
abbrev level_31 : Level
level_31 = record { level_idc = 31; max_mbps = 108000; max_fs = 3600; max_br = 14000 }

has_level_31 : In level_31 levels
unfolding levels
has_level_31 = inr (inr (inr (inr (inr (inr (inr (inr (inl refl))))))))

derive_h264_level-least_example :
    ((m : Level) × In m levels
      × (fits (macroblocks (video_of 1280 720)) (macroblock_rate (video_of 1280 720)) 2000000 m
          ≡ true)
      × (derive_h264_level (video_of 1280 720) ≡ m.level_idc))
    × (derive_h264_level (video_of 1280 720) ≤ 31)
derive_h264_level-least_example =
    derive_h264_level-least (video_of 1280 720) level_31 has_level_31 refl

built-Distinct_example : Distinct (map variant_id (built setup capabilities).variants)
built-Distinct_example = built-Distinct setup capabilities
