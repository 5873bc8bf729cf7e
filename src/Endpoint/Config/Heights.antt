-- ===== src/Endpoint/Config/Heights.antt =====
-- The heights at which crates/core/src/endpoint.rs has a video encoded.
use zap_stream_core.Prelude.{
  ℕ, ◌≤◌, ◌≡◌, refl, sym, subst, ◌∙◌, Bool, true, false, Option, none, some, List, [], ◌∷◌,
  if◌then◌else◌, some_inj, In, All, All-++, ltb, any, find, arith,
}
use zap_stream_core.Pipeline.Params.{EncoderParam, discriminant}
use zap_stream_core.Pipeline.Variants.{
  StreamType, IngressStream, Ffmpeg, VariantStream, is_video, apply_video_params,
}
use zap_stream_core.Pipeline.Encoders.{ingress_stream_to_params}
use zap_stream_core.Pipeline.Encoders.Heights.{
  add_params-height, get_encoder_params-height, apply_video_params-height,
  ingress_stream_to_params-one_height,
}
use zap_stream_core.Endpoint.{VariantType, source_variant, variant, dvr}
use zap_stream_core.Endpoint.Grouping.{
  GroupedIngressStream, Request, requests, Streams, default_video, video_config,
  get_streams_for_egress,
}
use zap_stream_core.Endpoint.Grouping.Ids.{get_encoder_params-type, Serves, requests-All}
use zap_stream_core.Endpoint.Grouping.Encoded.{Encoded, Wants, get_streams_for_egress-Encoded}
use zap_stream_core.Endpoint.Grouping.Fresh.{patch_for_ingress-keeps}
use zap_stream_core.Endpoint.Config.{
  Setup, Building, even_size, has_height, transcode_video_src, extend, variant_group, source_group,
  add_group, configure_sources, configure_variant_from, configure_variant, record_found,
  configure_dvr, configure, configure_all, video_streams, recorder_at,
}
use zap_stream_core.Endpoint.Config.Loop.{audio_src-In, video_src-In}

add_group-Encoded :
    (P : ℕ → Type 0) (u : Setup) (copy : Bool) (g : GroupedIngressStream) (b : Building)
    → All (Wants P u.ff copy) (requests u.ff copy g u.egress b.next)
    → All (Encoded P) b.variants
    → All (Encoded P) (add_group u copy g b).variants
unfolding add_group extend
add_group-Encoded P u copy g b wants h =
    go (get_streams_for_egress u.ff u.egress g copy b.dup_map b.next) refl
  where
    go :
        (o : Option (Streams × ℕ))
        → get_streams_for_egress u.ff u.egress g copy b.dup_map b.next ≡ o
        → All (Encoded P) (extend o b).variants
    go none e = h
    go (some made) e =
        All-++ (Encoded P) b.variants made.0.ret h
          (get_streams_for_egress-Encoded P u.ff copy u.egress g b.dup_map b.next made wants e)

-- A capability of the list has the height, which is no more than the source's, made even.
abbrev pub Requested : Setup → List VariantType → ℕ → Type 0
Requested u capabilities h =
    (height : ℕ) × (bitrate : ℕ) × (s : IngressStream) × In (variant height bitrate) capabilities
    × (transcode_video_src u.streams ≡ some s)
    × (height ≤ s.height)
    × (h ≡ even_size height)

is_video-type : (t : StreamType) → is_video t ≡ true → t ≡ StreamType.video
is_video-type StreamType.video e = refl
is_video-type StreamType.audio e = cc
is_video-type StreamType.subtitle e = cc
is_video-type StreamType.unknown e = cc

not_both : (t : StreamType) → t ≡ StreamType.audio → t ≡ StreamType.video → ⊥
not_both t a v = cc

-- Of a group to be encoded at a height, every video request has the height.
variant_group-Wants :
    (P : ℕ → Type 0) (u : Setup) (s : IngressStream) (height bitrate next : ℕ)
    → is_video s.stream_type ≡ true
    → P (even_size height)
    → All
        (Wants P u.ff false)
        (requests u.ff false (variant_group u s height bitrate) u.egress next)
unfolding video_config discriminant
variant_group-Wants P u s height bitrate next video holds =
    requests-All (Wants P u.ff false) u.ff false g u.egress next encoded audio (λ e t n p k. cc)
  where
    g : GroupedIngressStream
    g = variant_group u s height bitrate

    encoded : Serves (Wants P u.ff false) u.ff g.video g.video_params
    encoded e t n p same asked c k =
        let vs = is_video-type s.stream_type video in
        let vt : t.stream_type ≡ StreamType.video =
          subst (λ x. x.stream_type ≡ StreamType.video) (some_inj same) vs in
        let (one, last) =
          add_params-height (ingress_stream_to_params u.ff s)
            (EncoderParam.bitrate bitrate
              ∷ EncoderParam.height (even_size height)
              ∷ EncoderParam.width (even_size (u.scaled_width height s.width s.height))
              ∷ [])
            (even_size height) (ingress_stream_to_params-one_height u.ff s vs) refl in
        let kept =
          get_encoder_params-height u.ff e t g.video_params p (even_size height) vt last asked in
        let start = default_video n t.index p.codec in
        let applied = apply_video_params-height u.ff p.codec_params start (even_size height) kept in
        subst P
          (sym (
            (patch_for_ingress-keeps u.ff t (apply_video_params u.ff p.codec_params start)).1
            ∙ applied))
          holds

    audio : Serves (Wants P u.ff false) u.ff g.audio g.audio_params
    audio e t n p same asked c k =
        let type = get_encoder_params-type u.ff e t g.audio_params p asked in
        let (is, i) = audio_src-In u.streams t same in absurd (not_both t.stream_type is (type ∙ k))

-- A source is only copied.
copied-Wants : (P : ℕ → Type 0) (ff : Ffmpeg) (rs : List Request) → All (Wants P ff true) rs
copied-Wants P ff [] = tt
copied-Wants P ff (r ∷ rs) = ((λ c k. cc), copied-Wants P ff rs)

configure_sources-Encoded :
    (P : ℕ → Type 0) (u : Setup) (ss : List IngressStream) (b : Building)
    → All (Encoded P) b.variants
    → All (Encoded P) (configure_sources u ss b).variants
unfolding configure_sources
configure_sources-Encoded P u [] b h = h
configure_sources-Encoded P u (s ∷ ss) b h =
    configure_sources-Encoded P u ss (add_group u true (source_group u s) b) (
      add_group-Encoded P u true (source_group u s) b
        (copied-Wants P u.ff (requests u.ff true (source_group u s) u.egress b.next)) h)

configure_variant-Encoded :
    (u : Setup) (capabilities : List VariantType) (height bitrate : ℕ) (b : Building)
    → In (variant height bitrate) capabilities
    → All (Encoded (Requested u capabilities)) b.variants
    → All (Encoded (Requested u capabilities)) (configure_variant u height bitrate b).variants
unfolding configure_variant configure_variant_from
configure_variant-Encoded u capabilities height bitrate b i h =
    go (transcode_video_src u.streams) refl
  where
    P : ℕ → Type 0
    P = Requested u capabilities

    go :
        (o : Option IngressStream)
        → transcode_video_src u.streams ≡ o
        → All (Encoded P) (configure_variant_from u height bitrate o b).variants
    go none e = h
    go (some s) e = skip (ltb s.height height) refl (any (has_height height) b.variants)
      where
        skip :
            (low : Bool)
            → ltb s.height height ≡ low
            → (have : Bool)
            → All
                (Encoded P)
                (if low
                  then b
                  else if have
                  then b
                  else add_group u false (variant_group u s height bitrate) b).variants
        skip true l have = h
        skip false l true = h
        skip false l false =
            add_group-Encoded P u false (variant_group u s height bitrate) b
              (variant_group-Wants P u s height bitrate b.next (video_src-In u.streams s e).0
                (height, bitrate, s, i, e, ground (arith, l), refl))
              h

configure-Encoded :
    (u : Setup) (capabilities : List VariantType) (c : VariantType) (b : Building)
    → In c capabilities
    → All (Encoded (Requested u capabilities)) b.variants
    → All (Encoded (Requested u capabilities)) (configure u c b).variants
unfolding configure configure_dvr record_found
configure-Encoded u capabilities source_variant b i h =
    configure_sources-Encoded (Requested u capabilities) u (video_streams u.streams) b h
configure-Encoded u capabilities (variant height bitrate) b i h =
    configure_variant-Encoded u capabilities height bitrate b i h
configure-Encoded u capabilities (dvr height) b i h =
    go (recorder_at height u.egress) (find (has_height height) b.variants)
  where
    go :
        (e : Option ℕ) (o : Option VariantStream)
        → All (Encoded (Requested u capabilities)) (record_found u e o b).variants
    go none o = h
    go (some egress) none = h
    go (some egress) (some v) = h

pub configure_all-Encoded :
    (u : Setup) (capabilities cs : List VariantType) (b : Building)
    → All (λ c. In c capabilities) cs
    → All (Encoded (Requested u capabilities)) b.variants
    → All (Encoded (Requested u capabilities)) (configure_all u cs b).variants
unfolding configure_all
configure_all-Encoded u capabilities [] b i h = h
configure_all-Encoded u capabilities (c ∷ cs) b i h =
    configure_all-Encoded u capabilities cs (configure u c b) i.1
      (configure-Encoded u capabilities c b i.0 h)
