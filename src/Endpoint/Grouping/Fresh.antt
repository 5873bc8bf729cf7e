-- ===== src/Endpoint/Grouping/Fresh.antt =====
-- What the parameters of an encoding leave alone in a variant that crates/core/src/endpoint.rs makes:
-- its id and its source.
use zap_stream_core.Prelude.{
  ◌≡◌, refl, sym, subst, ◌∙◌, Bool, true, false, not, ◌||◌, ◌%◌, ◌^◌, some, List, [], ◌∷◌,
  if◌then◌else◌, ◌==◌, some_inj,
}
use zap_stream_core.Pipeline.Params.{EncoderParam}
use zap_stream_core.Pipeline.Variants.{
  StreamType, IngressStream, Ffmpeg, VideoVariant, AudioVariant, VariantStream, variant_id,
  variant_src_index, apply_param, apply_video_params, apply_audio_param, apply_audio_params,
  patch_for_ingress, pixel_format_of, other_name,
}
use zap_stream_core.Endpoint.Grouping.{
  Request, default_video, default_audio, video_config, audio_config, new_variant,
}
use zap_stream_core.Endpoint.Grouping.Ids.{kind_of}

abbrev KeepsVideo : VideoVariant → VideoVariant → Type 0
KeepsVideo v w = (v.id ≡ w.id) × (v.src_index ≡ w.src_index)

abbrev KeepsAudio : AudioVariant → AudioVariant → Type 0
KeepsAudio v w = (v.id ≡ w.id) × (v.src_index ≡ w.src_index)

apply_param-keeps :
    (ff : Ffmpeg) (p : EncoderParam) (v : VideoVariant) → KeepsVideo (apply_param ff p v) v
unfolding apply_param
apply_param-keeps ff (EncoderParam.width value) v = (refl, refl)
apply_param-keeps ff (EncoderParam.height value) v = (refl, refl)
apply_param-keeps ff (EncoderParam.bitrate value) v = (refl, refl)
apply_param-keeps ff (EncoderParam.framerate num den) v = (refl, refl)
apply_param-keeps ff (EncoderParam.preset name) v = (refl, refl)
apply_param-keeps ff (EncoderParam.tune name) v = (refl, refl)
apply_param-keeps ff (EncoderParam.color_space name) v = (refl, refl)
apply_param-keeps ff (EncoderParam.color_range name) v = (refl, refl)
apply_param-keeps ff (EncoderParam.gop_size size) v = (refl, refl)
apply_param-keeps ff (EncoderParam.max_b_frames size) v = (refl, refl)
apply_param-keeps ff (EncoderParam.profile id) v = (refl, refl)
apply_param-keeps ff (EncoderParam.level id) v = (refl, refl)
apply_param-keeps ff (EncoderParam.pixel_format name) v = (refl, refl)
apply_param-keeps ff (EncoderParam.sample_format name) v = (refl, refl)
apply_param-keeps ff (EncoderParam.sample_rate size) v = (refl, refl)
apply_param-keeps ff (EncoderParam.audio_channels count) v = (refl, refl)

apply_audio_param-keeps :
    (p : EncoderParam) (v : AudioVariant) → KeepsAudio (apply_audio_param p v) v
unfolding apply_audio_param
apply_audio_param-keeps (EncoderParam.width value) v = (refl, refl)
apply_audio_param-keeps (EncoderParam.height value) v = (refl, refl)
apply_audio_param-keeps (EncoderParam.bitrate value) v = (refl, refl)
apply_audio_param-keeps (EncoderParam.framerate num den) v = (refl, refl)
apply_audio_param-keeps (EncoderParam.preset name) v = (refl, refl)
apply_audio_param-keeps (EncoderParam.tune name) v = (refl, refl)
apply_audio_param-keeps (EncoderParam.color_space name) v = (refl, refl)
apply_audio_param-keeps (EncoderParam.color_range name) v = (refl, refl)
apply_audio_param-keeps (EncoderParam.gop_size size) v = (refl, refl)
apply_audio_param-keeps (EncoderParam.max_b_frames size) v = (refl, refl)
apply_audio_param-keeps (EncoderParam.profile id) v = (refl, refl)
apply_audio_param-keeps (EncoderParam.level id) v = (refl, refl)
apply_audio_param-keeps (EncoderParam.pixel_format name) v = (refl, refl)
apply_audio_param-keeps (EncoderParam.sample_format name) v = (refl, refl)
apply_audio_param-keeps (EncoderParam.sample_rate size) v = (refl, refl)
apply_audio_param-keeps (EncoderParam.audio_channels count) v = (refl, refl)

apply_video_params-keeps :
    (ff : Ffmpeg) (ps : List EncoderParam) (v : VideoVariant)
    → KeepsVideo (apply_video_params ff ps v) v
unfolding apply_video_params
apply_video_params-keeps ff [] v = (refl, refl)
apply_video_params-keeps ff (p ∷ ps) v =
    let (i, n) = apply_video_params-keeps ff ps (apply_param ff p v) in
    let (i1, n1) = apply_param-keeps ff p v in (i ∙ i1, n ∙ n1)

apply_audio_params-keeps :
    (ps : List EncoderParam) (v : AudioVariant) → KeepsAudio (apply_audio_params ps v) v
unfolding apply_audio_params
apply_audio_params-keeps [] v = (refl, refl)
apply_audio_params-keeps (p ∷ ps) v =
    let (i, n) = apply_audio_params-keeps ps (apply_audio_param p v) in
    let (i1, n1) = apply_audio_param-keeps p v in (i ∙ i1, n ∙ n1)

pub patch_for_ingress-keeps :
    (ff : Ffmpeg) (s : IngressStream) (v : VideoVariant)
    → KeepsVideo (patch_for_ingress ff s v) v × ((patch_for_ingress ff s v).height ≡ v.height)
unfolding patch_for_ingress
patch_for_ingress-keeps ff s v = (go (changed v), go_height (changed v))
  where
    changed : VideoVariant → Bool
    changed w =
        not (s.width % 2 ^ 16 == w.width)
        || not (s.height % 2 ^ 16 == w.height)
        || other_name (pixel_format_of ff s) w.pixel_format

    go : (b : Bool) → KeepsVideo (if b then record v { scaled = true } else v) v
    go true = (refl, refl)
    go false = (refl, refl)

    go_height : (b : Bool) → (if b then record v { scaled = true } else v).height ≡ v.height
    go_height true = refl
    go_height false = refl

-- A new variant has the id of its request, its kind and the index of its source.
pub new_variant-keeps :
    (ff : Ffmpeg) (copy : Bool) (r : Request) (v : VariantStream)
    → new_variant ff copy r r.param.stream_type ≡ some v
    → (variant_id v ≡ r.id)
      × (kind_of v ≡ r.param.stream_type)
      × (r.ingress_stream.index ≡ variant_src_index v)
unfolding new_variant variant_id variant_src_index video_config audio_config
new_variant-keeps ff copy r v = go r.param.stream_type copy
  where
    video : KeepsVideo (video_config ff r) (default_video r.id r.ingress_stream.index r.param.codec)
    video =
        let start = default_video r.id r.ingress_stream.index r.param.codec in
        let (i, n) =
          (patch_for_ingress-keeps ff r.ingress_stream
            (apply_video_params ff r.param.codec_params start)).0 in
        let (i1, n1) = apply_video_params-keeps ff r.param.codec_params start in (i ∙ i1, n ∙ n1)

    audio : KeepsAudio (audio_config r) (default_audio r.id r.ingress_stream.index r.param.codec)
    audio =
        apply_audio_params-keeps r.param.codec_params
          (default_audio r.id r.ingress_stream.index r.param.codec)

    Kept : VariantStream → StreamType → Type 0
    Kept w t =
        (variant_id w ≡ r.id) × (kind_of w ≡ t) × (r.ingress_stream.index ≡ variant_src_index w)

    go : (t : StreamType) (b : Bool) → new_variant ff b r t ≡ some v → Kept v t
    go StreamType.video true e =
        subst (λ w. Kept w StreamType.video) (some_inj e) (video.0, refl, sym video.1)
    go StreamType.video false e =
        subst (λ w. Kept w StreamType.video) (some_inj e) (video.0, refl, sym video.1)
    go StreamType.audio b e =
        subst (λ w. Kept w StreamType.audio) (some_inj e) (audio.0, refl, sym audio.1)
    go StreamType.subtitle b e = cc
    go StreamType.unknown b e = cc
