-- ===== src/Pipeline/Encoders/Heights.antt =====
-- The height that a request carries through `with_params`, `get_encoder_params` and `apply_params` of
-- crates/core/src/egress/mod.rs and crates/core/src/variant/video.rs.
use zap_stream_core.Prelude.{
  ℕ, ◌+◌, ◌≤◌, ◌≡◌, refl, sym, ap, ◌∙◌, subst, inl, inr, Bool, true, false, not, Bool-cases, Option,
  none, some, List, [], ◌∷◌, ◌++◌, ◌==◌, if◌then◌else◌, ltb, some_inj, arith, ◌%◌, ◌^◌,
}
use zap_stream_core.Prelude.Text.{Text}
use zap_stream_core.Pipeline.Params.{
  EncoderParam, discriminant, add_param, add_params, occurrences, value_of, or_else, last_value,
  add_params-value_of,
}
use zap_stream_core.Pipeline.Variants.{
  StreamType, IngressStream, Ffmpeg, VideoVariant, apply_param, apply_video_params, pixel_format_of,
}
use zap_stream_core.Pipeline.Encoders.{
  EgressEncoderConfig, EgressType, default_video_h264, default_of, default_h264, with_input,
  requested_params, get_encoder_params, hls_audio_bitrate, is_recorder, is_audio, pushed, named,
  params_of, ingress_stream_to_params,
}

last_value-absent :
    (kind : ℕ) (ps : List EncoderParam) → occurrences kind ps ≤ 0 → last_value kind ps ≡ none
unfolding occurrences
last_value-absent kind [] h = refl
last_value-absent kind (p ∷ ps) h = ground (arith, h, last_value-absent kind ps (ground (arith, h)))

-- With one value of a kind, the last is the first.
last_value-value_of :
    (kind : ℕ) (ps : List EncoderParam)
    → occurrences kind ps ≤ 1
    → last_value kind ps ≡ value_of kind ps
unfolding occurrences
last_value-value_of kind [] h = refl
last_value-value_of kind (p ∷ ps) h = elim (Bool-cases (discriminant p == kind)) [
  | inl t ↦ rw (t, last_value-absent kind ps (ground (arith, h, t))) refl
  | inr f ↦ rw (f, last_value-value_of kind ps (ground (arith, h, f))) (or_none (value_of kind ps))
]
  where
    or_none : (o : Option EncoderParam) → or_else o none ≡ o
    or_none none = refl
    or_none (some q) = refl

-- What a list of new parameters with a height, and no other behind it, makes of the height.
pub add_params-height :
    (params new : List EncoderParam) (h : ℕ)
    → occurrences 1 params ≤ 1
    → last_value 1 new ≡ some (EncoderParam.height h)
    → (occurrences 1 (add_params params new) ≤ 1)
      × (last_value 1 (add_params params new) ≡ some (EncoderParam.height h))
add_params-height params new h one e =
    let (still, value) = add_params-value_of params new 1 one in
    (
      still,
      last_value-value_of 1 (add_params params new) still
          ∙ value
          ∙ ap (λ o. or_else o (value_of 1 params)) e,
    )

requested_params-video :
    (e : EgressType) (s : IngressStream) (ps : List EncoderParam)
    → s.stream_type ≡ StreamType.video
    → requested_params e s ps ≡ ps
unfolding requested_params
requested_params-video (EgressType.hls id t) s ps video =
    ap (λ k. if is_audio k then add_param ps (EncoderParam.bitrate hls_audio_bitrate) else ps) video
requested_params-video (EgressType.recorder id h) s ps video = refl
requested_params-video (EgressType.rtmp_forwarder id) s ps video = refl
requested_params-video (EgressType.moq id) s ps video = refl

default_one_height :
    (ff : Ffmpeg) (fps : ℕ) → occurrences 1 (default_video_h264 ff fps).codec_params ≤ 1
unfolding default_video_h264 occurrences discriminant
default_one_height ff fps = omega arith

-- An egress that encodes a video stream keeps the height that is asked for.
pub get_encoder_params-height :
    (ff : Ffmpeg) (e : EgressType) (s : IngressStream) (input : List EncoderParam)
    (p : EgressEncoderConfig) (h : ℕ)
    → s.stream_type ≡ StreamType.video
    → last_value 1 input ≡ some (EncoderParam.height h)
    → get_encoder_params ff e s input ≡ some p
    → last_value 1 p.codec_params ≡ some (EncoderParam.height h)
unfolding get_encoder_params with_input default_h264
get_encoder_params-height ff e s input p h video last same = go (is_recorder e) (
    subst (λ t. (if is_recorder e then none else with_input e s input (default_of ff s t)) ≡ some p)
      video same)
  where
    D : List EncoderParam
    D = (default_video_h264 ff s.fps).codec_params

    go :
        (b : Bool)
        → (if b then none else with_input e s input (default_of ff s StreamType.video)) ≡ some p
        → last_value 1 p.codec_params ≡ some (EncoderParam.height h)
    go true k = cc
    go false k =
        ap (last_value 1) (
          sym (ap (λ c. c.codec_params) (some_inj k))
          ∙ requested_params-video e s (add_params D input) video)
        ∙ (add_params-height D input h (default_one_height ff s.fps) last).1

apply_param-other :
    (ff : Ffmpeg) (p : EncoderParam) (v : VideoVariant)
    → (discriminant p == 1) ≡ false
    → (apply_param ff p v).height ≡ v.height
unfolding apply_param discriminant
apply_param-other ff (EncoderParam.width value) v h = refl
apply_param-other ff (EncoderParam.height value) v h = cc
apply_param-other ff (EncoderParam.bitrate value) v h = refl
apply_param-other ff (EncoderParam.framerate num den) v h = refl
apply_param-other ff (EncoderParam.preset name) v h = refl
apply_param-other ff (EncoderParam.tune name) v h = refl
apply_param-other ff (EncoderParam.color_space name) v h = refl
apply_param-other ff (EncoderParam.color_range name) v h = refl
apply_param-other ff (EncoderParam.gop_size size) v h = refl
apply_param-other ff (EncoderParam.max_b_frames size) v h = refl
apply_param-other ff (EncoderParam.profile id) v h = refl
apply_param-other ff (EncoderParam.level id) v h = refl
apply_param-other ff (EncoderParam.pixel_format name) v h = refl
apply_param-other ff (EncoderParam.sample_format name) v h = refl
apply_param-other ff (EncoderParam.sample_rate size) v h = refl
apply_param-other ff (EncoderParam.audio_channels count) v h = refl

apply_video_params-other :
    (ff : Ffmpeg) (ps : List EncoderParam) (v : VideoVariant)
    → last_value 1 ps ≡ none
    → (apply_video_params ff ps v).height ≡ v.height
unfolding apply_video_params
apply_video_params-other ff [] v e = refl
apply_video_params-other ff (p ∷ ps) v e =
    go (last_value 1 ps) refl (discriminant p == 1) refl e
      (apply_video_params-other ff ps (apply_param ff p v))
  where
    go :
        (o : Option EncoderParam)
        → last_value 1 ps ≡ o
        → (b : Bool) → (discriminant p == 1) ≡ b
        → or_else o (if b then some p else none) ≡ none
        → (last_value 1 ps ≡ none
            → (apply_video_params ff ps (apply_param ff p v)).height ≡ (apply_param ff p v).height)
        → (apply_video_params ff ps (apply_param ff p v)).height ≡ v.height
    go (some q) l b d k later = cc
    go none l true d k later = cc
    go none l false d k later = later l ∙ apply_param-other ff p v d

-- The last height is the one applied.
pub apply_video_params-height :
    (ff : Ffmpeg) (ps : List EncoderParam) (v : VideoVariant) (h : ℕ)
    → last_value 1 ps ≡ some (EncoderParam.height h)
    → (apply_video_params ff ps v).height ≡ h
unfolding apply_video_params apply_param
apply_video_params-height ff [] v h e = cc
apply_video_params-height ff (p ∷ ps) v h e =
    go (last_value 1 ps) refl (discriminant p == 1) e
      (apply_video_params-height ff ps (apply_param ff p v) h)
  where
    go :
        (o : Option EncoderParam)
        → last_value 1 ps ≡ o
        → (b : Bool) → or_else o (if b then some p else none) ≡ some (EncoderParam.height h)
        → (last_value 1 ps ≡ some (EncoderParam.height h)
            → (apply_video_params ff ps (apply_param ff p v)).height ≡ h)
        → (apply_video_params ff ps (apply_param ff p v)).height ≡ h
    go (some q) l b k later = later (l ∙ k)
    go none l false k later = cc
    go none l true k later =
        apply_video_params-other ff ps (apply_param ff p v) l
        ∙ ap (λ q. (apply_param ff q v).height) (some_inj k)

occurrences-++ :
    (kind : ℕ) (ps qs : List EncoderParam)
    → occurrences kind (ps ++ qs) ≡ occurrences kind ps + occurrences kind qs
unfolding occurrences
occurrences-++ kind [] qs = omega arith
occurrences-++ kind (p ∷ ps) qs = omega (arith, occurrences-++ kind ps qs)

pushed-occurrences :
    (kind : ℕ) (b : Bool) (p : EncoderParam)
    → occurrences kind (pushed b p) ≤ (if discriminant p == kind then 1 else 0)
unfolding occurrences pushed
pushed-occurrences kind true p = omega arith
pushed-occurrences kind false p = omega arith

named-occurrences : (o : Option Text) → occurrences 1 (named o EncoderParam.pixel_format) ≤ 0
unfolding occurrences named discriminant
named-occurrences none = omega arith
named-occurrences (some name) = omega arith

pub ingress_stream_to_params-one_height :
    (ff : Ffmpeg) (s : IngressStream)
    → s.stream_type ≡ StreamType.video
    → occurrences 1 (ingress_stream_to_params ff s) ≤ 1
unfolding ingress_stream_to_params occurrences discriminant pushed named
ingress_stream_to_params-one_height ff s video =
    subst (λ t. occurrences 1 (params_of ff s t) ≤ 1) (sym video)
      (go (ltb 0 s.fps) (not (s.width == 0)) (not (s.height == 0)) (not (s.bitrate == 0))
        (pixel_format_of ff s))
  where
    go :
        (a b c d : Bool) (o : Option Text)
        → occurrences 1 (
            pushed a (EncoderParam.framerate (ff.d2q s.fps).0 (ff.d2q s.fps).1)
            ++ pushed b (EncoderParam.width (s.width % 2 ^ 16))
            ++ pushed c (EncoderParam.height (s.height % 2 ^ 16))
            ++ pushed d (EncoderParam.bitrate s.bitrate)
            ++ named o EncoderParam.pixel_format)
          ≤ 1
    go a b c d o =
        let p1 = pushed a (EncoderParam.framerate (ff.d2q s.fps).0 (ff.d2q s.fps).1) in
        let p2 = pushed b (EncoderParam.width (s.width % 2 ^ 16)) in
        let p3 = pushed c (EncoderParam.height (s.height % 2 ^ 16)) in
        let p4 = pushed d (EncoderParam.bitrate s.bitrate) in
        let p5 = named o EncoderParam.pixel_format in
        omega (
          arith,
          occurrences-++ 1 (p1 ++ p2 ++ p3 ++ p4) p5,
          occurrences-++ 1 (p1 ++ p2 ++ p3) p4,
          occurrences-++ 1 (p1 ++ p2) p3,
          occurrences-++ 1 p1 p2,
          pushed-occurrences 1 a (EncoderParam.framerate (ff.d2q s.fps).0 (ff.d2q s.fps).1),
          pushed-occurrences 1 b (EncoderParam.width (s.width % 2 ^ 16)),
          pushed-occurrences 1 c (EncoderParam.height (s.height % 2 ^ 16)),
          pushed-occurrences 1 d (EncoderParam.bitrate s.bitrate),
          named-occurrences o,
        )
