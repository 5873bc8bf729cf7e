-- ===== src/Endpoint/Grouping.antt =====
-- `get_streams_for_egress` of crates/core/src/endpoint.rs: which variants a group of source streams
-- needs, each shared by the egresses that ask for the same encoding. A fresh id is a counter's next
-- value; a map is a list of its entries.
pub mod Ids
pub mod Fresh
pub mod Placing
pub mod Encoded
pub mod Counting
use zap_stream_core.Prelude.{
  ℕ, ◌+◌, Bool, true, false, not, ◌||◌, Option, none, some, List, [], ◌∷◌, ◌++◌, ◌==◌,
  if◌then◌else◌, length,
}
use zap_stream_core.Prelude.Text.{same_text, Text}
use zap_stream_core.Pipeline.Params.{EncoderParam}
use zap_stream_core.Pipeline.Variants.{
  StreamType, IngressStream, Ffmpeg, VideoVariant, AudioVariant, VariantStream, VariantGroup,
  apply_video_params, apply_audio_params, patch_for_ingress,
}
use zap_stream_core.Pipeline.Encoders.{
  EgressEncoderConfig, EgressType, egress_id, get_encoder_params, same_config,
}

pub record GroupedIngressStream : Type 0 where
  pub video : Option IngressStream
  pub audio : Option IngressStream
  pub subtitle : Option IngressStream
  pub video_params : List EncoderParam
  pub audio_params : List EncoderParam
  pub subtitle_params : List EncoderParam

-- What an egress asks of a source stream, and the id of the variant to be.
pub record Request : Type 0 where
  pub egress : EgressType
  pub param : EgressEncoderConfig
  pub ingress_stream : IngressStream
  pub id : ℕ

abbrev pub codec_name_or_empty : Option Text → Text
codec_name_or_empty none = []
codec_name_or_empty (some name) = name

-- A copy needs the codec that the egress asks for.
pub accepted :
    Ffmpeg → Bool → EgressType → IngressStream → ℕ → Option EgressEncoderConfig → List Request
accepted ff copy e s next none = []
accepted ff copy e s next (some p) =
    if not copy || same_text p.codec (codec_name_or_empty (ff.codec_name s.codec))
    then record { egress = e; param = p; ingress_stream = s; id = next } ∷ []
    else []

pub request_of :
    Ffmpeg → Bool → EgressType → Option IngressStream → List EncoderParam → ℕ → List Request
unfolding accepted get_encoder_params
request_of ff copy e none params next = []
request_of ff copy e (some s) params next =
    accepted ff copy e s next (get_encoder_params ff e s params)

pub requests_of : Ffmpeg → Bool → GroupedIngressStream → EgressType → ℕ → List Request
unfolding request_of
requests_of ff copy g e next =
    let v = request_of ff copy e g.video g.video_params next in
    let a = request_of ff copy e g.audio g.audio_params (next + length v) in
    let s = request_of ff copy e g.subtitle g.subtitle_params (next + length v + length a) in
    v ++ a ++ s

unfoldable pub requests : Ffmpeg → Bool → GroupedIngressStream → List EgressType → ℕ → List Request
unfolding requests_of
requests ff copy g [] next = []
requests ff copy g (e ∷ egress) next =
    let r = requests_of ff copy g e next in r ++ requests ff copy g egress (next + length r)

-- The variants made so far, the group of each egress, and the id of each encoding.
pub record Streams : Type 0 where
  pub ret : List VariantStream
  pub egress_map : List (ℕ × VariantGroup)
  pub dup_map : List (EgressEncoderConfig × ℕ)

abbrev pub empty_group : VariantGroup
empty_group = record { video = none; audio = none; subtitle = none }

abbrev pub replace_slot : StreamType → ℕ → VariantGroup → VariantGroup
replace_slot StreamType.video id g = record g { video = some id }
replace_slot StreamType.audio id g = record g { audio = some id }
replace_slot StreamType.subtitle id g = record g { subtitle = some id }
replace_slot StreamType.unknown id g = g

-- `entry(key).or_default()`, and what is then done to the group.
abbrev pub change_group :
    ℕ → (VariantGroup → VariantGroup) → List (ℕ × VariantGroup) → List (ℕ × VariantGroup)
change_group key f [] = (key, f empty_group) ∷ []
change_group key f (entry ∷ entries) =
    if entry.0 == key then (key, f entry.1) ∷ entries else entry ∷ change_group key f entries

abbrev pub find_config : EgressEncoderConfig → List (EgressEncoderConfig × ℕ) → Option ℕ
find_config config [] = none
find_config config (entry ∷ entries) =
    if same_config entry.0 config then some entry.1 else find_config config entries

abbrev pub default_video : ℕ → ℕ → Text → VideoVariant
default_video new_id index name = record {
  id = new_id;
  src_index = index;
  width = 0;
  height = 0;
  fps = 0;
  bitrate = 0;
  codec = name;
  preset = none;
  tune = none;
  gop = 0;
  max_b_frames = 0;
  profile = 0;
  level = 0;
  pixel_format = [];
  color_space = [];
  color_range = [];
  scaled = false;
}

abbrev pub default_audio : ℕ → ℕ → Text → AudioVariant
default_audio new_id index name = record {
  id = new_id;
  src_index = index;
  bitrate = 0;
  codec = name;
  sample_format = [];
  sample_rate = 0;
  channels = 0;
}

unfoldable pub video_config : Ffmpeg → Request → VideoVariant
unfolding apply_video_params patch_for_ingress
video_config ff r = patch_for_ingress ff r.ingress_stream (
    apply_video_params ff r.param.codec_params
      (default_video r.id r.ingress_stream.index r.param.codec))

unfoldable pub audio_config : Request → AudioVariant
unfolding apply_audio_params
audio_config r =
    apply_audio_params r.param.codec_params
      (default_audio r.id r.ingress_stream.index r.param.codec)

-- Audio is never copied. Of a subtitle request the code stops the program (`todo!()`); no egress has
-- one.
unfoldable pub new_variant : Ffmpeg → Bool → Request → StreamType → Option VariantStream
unfolding video_config audio_config
new_variant ff copy r StreamType.video = some (
    if copy
    then VariantStream.copy_video (video_config ff r)
    else VariantStream.video (video_config ff r))
new_variant ff copy r StreamType.audio = some (VariantStream.audio (audio_config r))
new_variant ff copy r StreamType.subtitle = none
new_variant ff copy r StreamType.unknown = none

abbrev pub with_slot : Request → ℕ → Streams → Streams
with_slot r held s = record s {
  egress_map =
      change_group (egress_id r.egress) (replace_slot r.param.stream_type held) s.egress_map;
}

abbrev pub with_entry : Request → Streams → Streams
with_entry r s = record s { egress_map = change_group (egress_id r.egress) (λ g. g) s.egress_map }

pub insert_new : Option VariantStream → Request → Streams → Streams
insert_new none r s = with_entry r s
insert_new (some v) r s =
    with_slot r r.id (record s { ret = s.ret ++ v ∷ []; dup_map = (r.param, r.id) ∷ s.dup_map })

pub place_at : Ffmpeg → Bool → Request → Option ℕ → Streams → Streams
unfolding insert_new new_variant
place_at ff copy r (some held) s = with_slot r held s
place_at ff copy r none s = insert_new (new_variant ff copy r r.param.stream_type) r s

unfoldable pub place : Ffmpeg → Bool → Request → Streams → Streams
unfolding place_at
place ff copy r s = place_at ff copy r (find_config r.param s.dup_map) s

unfoldable pub place_all : Ffmpeg → Bool → List Request → Streams → Streams
unfolding place
place_all ff copy [] s = s
place_all ff copy (r ∷ rs) s = place_all ff copy rs (place ff copy r s)

-- The streams of a group and the next fresh id; `none` when no egress wants any.
pub streams_of :
    Ffmpeg → Bool → List (EgressEncoderConfig × ℕ) → ℕ → List Request → Option (Streams × ℕ)
unfolding place_all
streams_of ff copy dups next [] = none
streams_of ff copy dups next (r ∷ rs) = some (
  place_all ff copy (r ∷ rs) (record { ret = []; egress_map = []; dup_map = dups }),
  next + length (r ∷ rs),
)

unfoldable pub get_streams_for_egress :
    Ffmpeg
    → List EgressType
    → GroupedIngressStream
    → Bool
    → List (EgressEncoderConfig × ℕ)
    → ℕ
    → Option (Streams × ℕ)
unfolding streams_of requests
get_streams_for_egress ff egress g copy dups next =
    streams_of ff copy dups next (requests ff copy g egress next)
