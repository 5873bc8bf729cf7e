-- ===== src/Pipeline/Encoders.antt =====
-- What an egress asks of the encoders: `EgressEncoderConfig` and `EgressType` of
-- crates/core/src/egress/mod.rs, and `ingress_stream_to_params` of crates/core/src/endpoint.rs.
pub mod Heights
use zap_stream_core.Prelude.{
  ℕ, ◌+◌, ◌-◌, ◌*◌, ◌/◌, ◌%◌, ◌^◌, min, Bool, true, false, not, ◌&&◌, ◌||◌, Option, none, some,
  List, [], ◌∷◌, ◌++◌, ◌==◌, if◌then◌else◌, ltb,
}
use zap_stream_core.Prelude.Text.{same_text, Text, codes}
use zap_stream_core.Hls.Segment.{SegmentType}
use zap_stream_core.Pipeline.Params.{
  EncoderParam, framerate, gop_size, audio_channels, discriminant, add_param, add_params,
}
use zap_stream_core.Pipeline.Variants.{
  StreamType, IngressStream, Ffmpeg, frame_unit, pixel_format_of,
}

pub record EgressEncoderConfig : Type 0 where
  pub codec : Text
  pub codec_params : List EncoderParam
  pub stream_type : StreamType

-- `(fps * 2.0) as u32`.
abbrev pub gop_of : ℕ → ℕ
gop_of fps = min (fps * 2 / frame_unit) (2 ^ 32 - 1)

unfoldable pub default_video_h264 : Ffmpeg → ℕ → EgressEncoderConfig
default_video_h264 ff fps = record {
  codec = codes "h264";
  codec_params =
      EncoderParam.preset (codes "veryfast")
      ∷ EncoderParam.tune (codes "zerolatency")
      ∷ gop_size (gop_of fps)
      ∷ EncoderParam.max_b_frames 3
      ∷ EncoderParam.profile 77
      ∷ EncoderParam.pixel_format (codes "yuv420p")
      ∷ EncoderParam.color_range (codes "full")
      ∷ EncoderParam.color_space (codes "bt709")
      ∷ framerate (ff.d2q fps).0 (ff.d2q fps).1
      ∷ [];
  stream_type = StreamType.video;
}

unfoldable pub default_audio_h264 : ℕ → ℕ → EgressEncoderConfig
default_audio_h264 rate channels = record {
  codec = codes "aac";
  codec_params =
      EncoderParam.sample_format (codes "fltp")
      ∷ EncoderParam.sample_rate (if rate == 44100 || rate == 48000 then rate else 48000)
      ∷ audio_channels (if ltb channels 3 then channels else 2)
      ∷ [];
  stream_type = StreamType.audio;
}

abbrev pub default_of : Ffmpeg → IngressStream → StreamType → Option EgressEncoderConfig
default_of ff s StreamType.video = some (default_video_h264 ff s.fps)
default_of ff s StreamType.audio = some (default_audio_h264 (s.sample_rate % 2 ^ 32) s.channels)
default_of ff s StreamType.subtitle = none
default_of ff s StreamType.unknown = none

unfoldable pub default_h264 : Ffmpeg → IngressStream → Option EgressEncoderConfig
default_h264 ff s = default_of ff s s.stream_type

-- The recorder's height; the rest of an egress's settings plays no part here.
pub data EgressType : Type 0 where
  hls : ℕ → SegmentType → EgressType
  recorder : ℕ → ℕ → EgressType
  rtmp_forwarder moq : ℕ → EgressType

unfoldable pub egress_id : EgressType → ℕ
egress_id (hls id segment_type) = id
egress_id (recorder id height) = id
egress_id (rtmp_forwarder id) = id
egress_id (moq id) = id

abbrev pub is_recorder : EgressType → Bool
is_recorder (recorder id height) = true
is_recorder (hls id segment_type) = false
is_recorder (rtmp_forwarder id) = false
is_recorder (moq id) = false

abbrev is_hls : EgressType → Bool
is_hls (hls id segment_type) = true
is_hls (recorder id height) = false
is_hls (rtmp_forwarder id) = false
is_hls (moq id) = false

abbrev pub is_audio : StreamType → Bool
is_audio StreamType.audio = true
is_audio StreamType.video = false
is_audio StreamType.subtitle = false
is_audio StreamType.unknown = false

abbrev pub hls_audio_bitrate : ℕ
hls_audio_bitrate = 192000

-- HLS audio always has the same bitrate.
unfoldable pub requested_params : EgressType → IngressStream → List EncoderParam → List EncoderParam
requested_params e s params =
    if is_hls e && is_audio s.stream_type
    then add_param params (EncoderParam.bitrate hls_audio_bitrate)
    else params

unfoldable pub with_input :
    EgressType
    → IngressStream
    → List EncoderParam
    → Option EgressEncoderConfig
    → Option EgressEncoderConfig
unfolding requested_params
with_input e s input none = none
with_input e s input (some p) =
    some (record p { codec_params = requested_params e s (add_params p.codec_params input) })

-- A recorder copies variants and asks for none.
unfoldable pub get_encoder_params :
    Ffmpeg → EgressType → IngressStream → List EncoderParam → Option EgressEncoderConfig
unfolding with_input default_h264
get_encoder_params ff e s input =
    if is_recorder e then none else with_input e s input (default_h264 ff s)

unfoldable pub pushed : Bool → EncoderParam → List EncoderParam
pushed b p = if b then p ∷ [] else []

unfoldable pub named : Option Text → (Text → EncoderParam) → List EncoderParam
named none f = []
named (some name) f = f name ∷ []

abbrev pub params_of : Ffmpeg → IngressStream → StreamType → List EncoderParam
params_of ff s StreamType.video =
    pushed (ltb 0 s.fps) (framerate (ff.d2q s.fps).0 (ff.d2q s.fps).1)
    ++ pushed (not (s.width == 0)) (EncoderParam.width (s.width % 2 ^ 16))
    ++ pushed (not (s.height == 0)) (EncoderParam.height (s.height % 2 ^ 16))
    ++ pushed (not (s.bitrate == 0)) (EncoderParam.bitrate s.bitrate)
    ++ named (pixel_format_of ff s) EncoderParam.pixel_format
params_of ff s StreamType.audio =
    pushed (not (s.channels == 0)) (audio_channels s.channels)
    ++ pushed (not (s.sample_rate == 0)) (EncoderParam.sample_rate (s.sample_rate % 2 ^ 32))
    ++ pushed (not (s.bitrate == 0)) (EncoderParam.bitrate s.bitrate)
    ++ named (ff.sample_format_name s.format) EncoderParam.sample_format
params_of ff s StreamType.subtitle = []
params_of ff s StreamType.unknown = []

-- Of a subtitle stream the code stops the program (`todo!()`); no caller has one.
unfoldable pub ingress_stream_to_params : Ffmpeg → IngressStream → List EncoderParam
unfolding pushed named pixel_format_of
ingress_stream_to_params ff s = params_of ff s s.stream_type

-- The value of a parameter, as the derived equality compares it.
abbrev payload : EncoderParam → List ℕ
payload (EncoderParam.width value) = value ∷ []
payload (EncoderParam.height value) = value ∷ []
payload (EncoderParam.bitrate value) = value ∷ []
payload (framerate num den) = num ∷ den ∷ []
payload (EncoderParam.preset name) = name
payload (EncoderParam.tune name) = name
payload (EncoderParam.color_space name) = name
payload (EncoderParam.color_range name) = name
payload (gop_size size) = size ∷ []
payload (EncoderParam.max_b_frames size) = size ∷ []
payload (EncoderParam.profile id) = id ∷ []
payload (EncoderParam.level id) = id ∷ []
payload (EncoderParam.pixel_format name) = name
payload (EncoderParam.sample_format name) = name
payload (EncoderParam.sample_rate size) = size ∷ []
payload (audio_channels count) = count ∷ []

abbrev pub same_param : EncoderParam → EncoderParam → Bool
same_param a b = discriminant a == discriminant b && same_text (payload a) (payload b)

abbrev pub same_params : List EncoderParam → List EncoderParam → Bool
same_params [] [] = true
same_params [] (q ∷ qs) = false
same_params (p ∷ ps) [] = false
same_params (p ∷ ps) (q ∷ qs) = same_param p q && same_params ps qs

abbrev pub type_number : StreamType → ℕ
type_number StreamType.unknown = 0
type_number StreamType.video = 1
type_number StreamType.audio = 2
type_number StreamType.subtitle = 3

-- `PartialEq` of `EgressEncoderConfig`.
unfoldable pub same_config : EgressEncoderConfig → EgressEncoderConfig → Bool
same_config a b =
    same_text a.codec b.codec
    && same_params a.codec_params b.codec_params
    && type_number a.stream_type == type_number b.stream_type
