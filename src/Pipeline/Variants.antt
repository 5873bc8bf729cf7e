-- ===== src/Pipeline/Variants.antt =====
-- The variants of crates/core/src/variant. A frame rate is a number of millionths of a frame for each
-- second; one that is not a positive normal f32 is 0.
pub mod Levels
use zap_stream_core.Prelude.{
  ℕ, ◌+◌, ◌-◌, ◌*◌, ◌/◌, ◌%◌, ◌^◌, Bool, true, false, not, ◌&&◌, ◌||◌, Option, none, some, List, [],
  ◌∷◌, ◌==◌, if◌then◌else◌, ltb, leb, find,
}
use zap_stream_core.Prelude.Text.{same_text, Text}
use zap_stream_core.Pipeline.Params.{
  EncoderParam, width, height, bitrate, gop_size, max_b_frames, profile, level, sample_rate,
  audio_channels, framerate, preset, tune, color_space, color_range, pixel_format, sample_format,
}

pub data StreamType : Type 0 where
  unknown video audio subtitle : StreamType

-- crates/core/src/ingress/mod.rs: the columns that the configuration reads.
pub record IngressStream : Type 0 where
  pub index : ℕ
  pub stream_type : StreamType
  pub codec : ℕ
  pub format : ℕ
  pub width : ℕ
  pub height : ℕ
  pub fps : ℕ
  pub sample_rate : ℕ
  pub bitrate : ℕ
  pub channels : ℕ

-- What ffmpeg knows of the ids of codecs and formats, and its conversions of frame rates.
pub record Ffmpeg : Type 0 where
  pub codec_name : ℕ → Option Text
  pub pixel_format_name : ℕ → Option Text
  pub sample_format_name : ℕ → Option Text
  pub d2q : ℕ → ℕ × ℕ
  pub q2d : ℕ → ℕ → ℕ

pub record VideoVariant : Type 0 where
  pub id : ℕ
  pub src_index : ℕ
  pub width : ℕ
  pub height : ℕ
  pub fps : ℕ
  pub bitrate : ℕ
  pub codec : Text
  pub preset : Option Text
  pub tune : Option Text
  pub gop : ℕ
  pub max_b_frames : ℕ
  pub profile : ℕ
  pub level : ℕ
  pub pixel_format : Text
  pub color_space : Text
  pub color_range : Text
  -- Whether a scale mode is set.
  pub scaled : Bool

pub record AudioVariant : Type 0 where
  pub id : ℕ
  pub src_index : ℕ
  pub bitrate : ℕ
  pub codec : Text
  pub sample_format : Text
  pub sample_rate : ℕ
  pub channels : ℕ

pub data VariantStream : Type 0 where
  video copy_video : VideoVariant → VariantStream
  audio copy_audio : AudioVariant → VariantStream
  subtitle plugin : ℕ → ℕ → VariantStream

unfoldable pub variant_id : VariantStream → ℕ
variant_id (VariantStream.video v) = v.id
variant_id (copy_video v) = v.id
variant_id (VariantStream.audio a) = a.id
variant_id (copy_audio a) = a.id
variant_id (VariantStream.subtitle id src_index) = id
variant_id (plugin id src_index) = id

unfoldable pub variant_src_index : VariantStream → ℕ
variant_src_index (VariantStream.video v) = v.src_index
variant_src_index (copy_video v) = v.src_index
variant_src_index (VariantStream.audio a) = a.src_index
variant_src_index (copy_audio a) = a.src_index
variant_src_index (VariantStream.subtitle id src_index) = src_index
variant_src_index (plugin id src_index) = src_index

-- Without the group's own id, a fresh one that only names a directory.
pub record VariantGroup : Type 0 where
  pub video : Option ℕ
  pub audio : Option ℕ
  pub subtitle : Option ℕ

unfoldable pub apply_param : Ffmpeg → EncoderParam → VideoVariant → VideoVariant
apply_param ff (EncoderParam.width value) v = record v { width = value }
apply_param ff (EncoderParam.height value) v = record v { height = value }
apply_param ff (EncoderParam.bitrate value) v = record v { bitrate = value }
apply_param ff (framerate num den) v = record v { fps = ff.q2d num den }
apply_param ff (EncoderParam.preset name) v = record v { preset = some name }
apply_param ff (EncoderParam.tune name) v = record v { tune = some name }
apply_param ff (gop_size size) v = record v { gop = size }
apply_param ff (EncoderParam.max_b_frames size) v = record v { max_b_frames = size }
apply_param ff (EncoderParam.profile id) v = record v { profile = id }
apply_param ff (EncoderParam.level id) v = record v { level = id }
apply_param ff (EncoderParam.pixel_format name) v = record v { pixel_format = name }
apply_param ff (EncoderParam.color_range name) v = record v { color_range = name }
apply_param ff (EncoderParam.color_space name) v = record v { color_space = name }
apply_param ff (EncoderParam.sample_format name) v = v
apply_param ff (EncoderParam.sample_rate size) v = v
apply_param ff (audio_channels count) v = v

unfoldable pub apply_video_params : Ffmpeg → List EncoderParam → VideoVariant → VideoVariant
unfolding apply_param
apply_video_params ff [] v = v
apply_video_params ff (p ∷ params) v = apply_video_params ff params (apply_param ff p v)

-- `count as u8`.
unfoldable pub apply_audio_param : EncoderParam → AudioVariant → AudioVariant
apply_audio_param (EncoderParam.bitrate value) a = record a { bitrate = value }
apply_audio_param (EncoderParam.sample_format name) a = record a { sample_format = name }
apply_audio_param (EncoderParam.sample_rate size) a = record a { sample_rate = size }
apply_audio_param (audio_channels count) a = record a { channels = count % 2 ^ 8 }
apply_audio_param p a = a

unfoldable pub apply_audio_params : List EncoderParam → AudioVariant → AudioVariant
unfolding apply_audio_param
apply_audio_params [] a = a
apply_audio_params (p ∷ params) a = apply_audio_params params (apply_audio_param p a)

-- A row of the table of H.264: the level, and its greatest macroblocks for each second, macroblocks
-- of a frame, and bits for each second in units of 1200.
pub record Level : Type 0 where
  pub level_idc : ℕ
  pub max_mbps : ℕ
  pub max_fs : ℕ
  pub max_br : ℕ

abbrev row : ℕ → ℕ → ℕ → ℕ → Level
row idc mbps fs br = record { level_idc = idc; max_mbps = mbps; max_fs = fs; max_br = br }

unfoldable pub levels : List Level
levels =
    row 10 1485 99 64
    ∷ row 11 3000 396 192
    ∷ row 12 6000 396 384
    ∷ row 13 11880 396 768
    ∷ row 20 11880 396 2000
    ∷ row 21 19800 792 4000
    ∷ row 22 20250 1620 4000
    ∷ row 30 40500 1620 10000
    ∷ row 31 108000 3600 14000
    ∷ row 32 216000 5120 20000
    ∷ row 40 245760 8192 20000
    ∷ row 41 245760 8192 50000
    ∷ row 42 522240 8704 50000
    ∷ row 50 589824 22080 135000
    ∷ row 51 983040 36864 240000
    ∷ row 52 2073600 36864 240000
    ∷ row 60 4177920 139264 240000
    ∷ row 61 8355840 139264 480000
    ∷ row 62 16711680 139264 800000
    ∷ []

abbrev pub frame_unit : ℕ
frame_unit = 1000000

abbrev pub div_ceil : ℕ → ℕ → ℕ
div_ceil a b = (a + b - 1) / b

-- An unknown frame rate counts as 30.
abbrev pub level_fps : ℕ → ℕ
level_fps fps = if ltb 0 fps then fps else 30 * frame_unit

abbrev pub macroblocks : VideoVariant → ℕ
macroblocks v = div_ceil v.width 16 * div_ceil v.height 16

abbrev pub macroblock_rate : VideoVariant → ℕ
macroblock_rate v = div_ceil (macroblocks v * level_fps v.fps) frame_unit

abbrev pub fits : ℕ → ℕ → ℕ → Level → Bool
fits mbs mbps bits l = leb mbs l.max_fs && leb mbps l.max_mbps && leb bits (l.max_br * 1200)

abbrev pub level_or : Option Level → ℕ
level_or none = 62
level_or (some l) = l.level_idc

unfoldable pub derive_h264_level : VideoVariant → ℕ
derive_h264_level v = level_or (find (fits (macroblocks v) (macroblock_rate v) v.bitrate) levels)

unfoldable pub resolved_level : VideoVariant → ℕ
unfolding derive_h264_level
resolved_level v = if ltb 0 v.level then v.level else derive_h264_level v

abbrev pub other_name : Option Text → Text → Bool
other_name none wanted = true
other_name (some name) wanted = not (same_text name wanted)

-- `IngressStream::pixel_format_name`: only a video stream has one.
abbrev pub is_video : StreamType → Bool
is_video video = true
is_video unknown = false
is_video audio = false
is_video subtitle = false

unfoldable pub pixel_format_of : Ffmpeg → IngressStream → Option Text
pixel_format_of ff s = if is_video s.stream_type then ff.pixel_format_name s.format else none

-- A size or a pixel format that differs from the source's needs the scaler.
unfoldable pub patch_for_ingress : Ffmpeg → IngressStream → VideoVariant → VideoVariant
unfolding pixel_format_of
patch_for_ingress ff s v =
    if not (s.width % 2 ^ 16 == v.width)
      || not (s.height % 2 ^ 16 == v.height)
      || other_name (pixel_format_of ff s) v.pixel_format
    then record v { scaled = true }
    else v
