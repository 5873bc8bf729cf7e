-- ===== src/Endpoint/Config.antt =====
-- `get_variants_from_endpoint` of crates/core/src/endpoint.rs: the capabilities, in order, become
-- variants and the groups of each egress.
pub mod Known
pub mod Loop
pub mod Heights
pub mod Sorting
pub mod Counting
use Prim.Native.Nat.{Ordering}
use zap_stream_core.Prelude.{
  ℕ, ◌+◌, ◌*◌, ◌%◌, ◌^◌, Bool, true, false, not, Option, none, some, List, [], ◌∷◌, ◌++◌, map, ◌⊎◌,
  inl, inr, ◌==◌, if◌then◌else◌, ltb, leb, find, any, retain,
}
use zap_stream_core.Pipeline.Params.{EncoderParam, add_params}
use zap_stream_core.Pipeline.Variants.{
  IngressStream, Ffmpeg, VariantStream, VariantGroup, variant_id, variant_src_index, is_video,
}
use zap_stream_core.Pipeline.Encoders.{
  EgressEncoderConfig, EgressType, egress_id, is_audio, ingress_stream_to_params,
}
use zap_stream_core.Endpoint.{u16_mod, VariantType, source_variant, variant, dvr, cmp}
use zap_stream_core.Endpoint.Grouping.{
  GroupedIngressStream, Streams, empty_group, get_streams_for_egress,
}

-- `cap` is `itertools`' `sorted`, which is stable.
abbrev pub insert_sorted : VariantType → List VariantType → List VariantType
insert_sorted c [] = c ∷ []
insert_sorted c (d ∷ ds) = elim (cmp d c) [ Ordering.lt ↦ d ∷ insert_sorted c ds | _ ↦ c ∷ d ∷ ds ]

unfoldable pub sorted : List VariantType → List VariantType
unfolding cmp
sorted [] = []
sorted (c ∷ cs) = insert_sorted c (sorted cs)

-- `max_by_key`: the last of several that are greatest.
abbrev pub later_max : (IngressStream → ℕ) → IngressStream → IngressStream → IngressStream
later_max key b s = if leb (key b) (key s) then s else b

abbrev pub max_from : (IngressStream → ℕ) → IngressStream → List IngressStream → IngressStream
max_from key b [] = b
max_from key b (s ∷ ss) = max_from key (later_max key b s) ss

abbrev pub max_by_key : (IngressStream → ℕ) → List IngressStream → Option IngressStream
max_by_key key [] = none
max_by_key key (s ∷ ss) = some (max_from key s ss)

abbrev pub video_streams : List IngressStream → List IngressStream
video_streams = retain λ s. is_video s.stream_type

unfoldable pub transcode_video_src : List IngressStream → Option IngressStream
transcode_video_src streams = max_by_key (λ s. s.width * s.height % 2 ^ 64) (video_streams streams)

unfoldable pub transcode_audio_src : List IngressStream → Option IngressStream
transcode_audio_src streams =
    max_by_key (λ s. s.sample_rate * s.channels % 2 ^ 64)
      (retain (λ s. is_audio s.stream_type) streams)

-- What the loop over the capabilities has made: `next` is the next fresh id.
pub record Building : Type 0 where
  pub variants : List VariantStream
  pub egress_map : List (ℕ × List VariantGroup)
  pub dup_map : List (EgressEncoderConfig × ℕ)
  pub next : ℕ

abbrev pub push_group :
    ℕ → VariantGroup → List (ℕ × List VariantGroup) → List (ℕ × List VariantGroup)
push_group key g [] = (key, g ∷ []) ∷ []
push_group key g (entry ∷ entries) =
    if entry.0 == key then (key, entry.1 ++ g ∷ []) ∷ entries else entry ∷ push_group key g entries

abbrev pub push_groups :
    List (ℕ × VariantGroup) → List (ℕ × List VariantGroup) → List (ℕ × List VariantGroup)
push_groups [] entries = entries
push_groups (new ∷ news) entries = push_groups news (push_group new.0 new.1 entries)

pub extend : Option (Streams × ℕ) → Building → Building
extend none b = b
extend (some made) b = record {
  variants = b.variants ++ made.0.ret;
  egress_map = push_groups made.0.egress_map b.egress_map;
  dup_map = made.0.dup_map;
  next = made.1;
}

-- The size of a video variant, or `none` for audio.
abbrev pub video_height : VariantStream → Option ℕ
video_height (VariantStream.video v) = some v.height
video_height (VariantStream.copy_video v) = some v.height
video_height (VariantStream.audio a) = none
video_height (VariantStream.copy_audio a) = none
video_height (VariantStream.subtitle id src_index) = none
video_height (VariantStream.plugin id src_index) = none

abbrev pub is_at : ℕ → Option ℕ → Bool
is_at height none = false
is_at height (some h) = h == height

abbrev pub has_height : ℕ → VariantStream → Bool
has_height height v = is_at height (video_height v)

-- H.264 needs even dimensions.
unfoldable pub even_size : ℕ → ℕ
even_size n = if n % 2 == 1 then (n + 1) % u16_mod else n

abbrev pub audio_params_of : Ffmpeg → Option IngressStream → List EncoderParam
audio_params_of ff none = []
audio_params_of ff (some a) = ingress_stream_to_params ff a

-- The settings of one run: `scaled_width` is the f32 computation of the width that keeps the ratio
-- of a source's width and height at a new height, `(height * (w / h)).round() as u16`.
pub record Setup : Type 0 where
  pub ff : Ffmpeg
  pub scaled_width : ℕ → ℕ → ℕ → ℕ
  pub streams : List IngressStream
  pub egress : List EgressType

abbrev pub source_group : Setup → IngressStream → GroupedIngressStream
source_group u s =
    let a = transcode_audio_src u.streams in
    record {
      video = some s;
      audio = a;
      subtitle = none;
      video_params = ingress_stream_to_params u.ff s;
      audio_params = audio_params_of u.ff a;
      subtitle_params = [];
    }

abbrev pub variant_group : Setup → IngressStream → ℕ → ℕ → GroupedIngressStream
variant_group u s height bitrate =
    let g = source_group u s in
    record g {
      video_params = add_params g.video_params (
          EncoderParam.bitrate bitrate
          ∷ EncoderParam.height (even_size height)
          ∷ EncoderParam.width (even_size (u.scaled_width height s.width s.height))
          ∷ []);
    }

-- One group of source streams, for all the egresses.
pub add_group : Setup → Bool → GroupedIngressStream → Building → Building
unfolding extend get_streams_for_egress
add_group u copy g b = extend (get_streams_for_egress u.ff u.egress g copy b.dup_map b.next) b

unfoldable pub configure_sources : Setup → List IngressStream → Building → Building
unfolding add_group transcode_audio_src ingress_stream_to_params
configure_sources u [] b = b
configure_sources u (s ∷ ss) b = configure_sources u ss (add_group u true (source_group u s) b)

pub configure_variant_from : Setup → ℕ → ℕ → Option IngressStream → Building → Building
unfolding add_group even_size
configure_variant_from u height bitrate none b = b
configure_variant_from u height bitrate (some s) b =
    if ltb s.height height
    then b
    else if any (has_height height) b.variants
    then b
    else add_group u false (variant_group u s height bitrate) b

unfoldable pub configure_variant : Setup → ℕ → ℕ → Building → Building
unfolding configure_variant_from transcode_video_src
configure_variant u height bitrate b =
    configure_variant_from u height bitrate (transcode_video_src u.streams) b

-- The id of the first recorder, when it records at the height.
abbrev pub recorder_at : ℕ → List EgressType → Option ℕ
recorder_at height [] = none
recorder_at height (EgressType.recorder id he ∷ es) = if he == height then some id else none
recorder_at height (EgressType.hls id t ∷ es) = recorder_at height es
recorder_at height (EgressType.rtmp_forwarder id ∷ es) = recorder_at height es
recorder_at height (EgressType.moq id ∷ es) = recorder_at height es

abbrev pub id_of_found : Option VariantStream → Option ℕ
id_of_found none = none
id_of_found (some v) = some (variant_id v)

abbrev pub from_source : Option IngressStream → List VariantStream → Option ℕ
from_source none vs = none
from_source (some s) vs = id_of_found (find (λ v. variant_src_index v == s.index) vs)

pub record_found : Setup → Option ℕ → Option VariantStream → Building → Building
unfolding transcode_audio_src variant_id
record_found u none found b = b
record_found u (some egress) none b = b
record_found u (some egress) (some v) b = record b {
  egress_map =
      push_group egress
        (record empty_group {
          video = some (variant_id v);
          audio = from_source (transcode_audio_src u.streams) b.variants;
        })
        b.egress_map;
}

unfoldable pub configure_dvr : Setup → ℕ → Building → Building
unfolding record_found
configure_dvr u height b =
    record_found u (recorder_at height u.egress) (find (has_height height) b.variants) b

unfoldable pub configure : Setup → VariantType → Building → Building
unfolding configure_sources configure_variant configure_dvr
configure u source_variant b = configure_sources u (video_streams u.streams) b
configure u (variant height bitrate) b = configure_variant u height bitrate b
configure u (dvr height) b = configure_dvr u height b

unfoldable pub configure_all : Setup → List VariantType → Building → Building
unfolding configure
configure_all u [] b = b
configure_all u (c ∷ cs) b = configure_all u cs (configure u c b)
