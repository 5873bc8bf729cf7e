-- ===== src/Endpoint/Config/Loop.antt =====
-- What the loop of `get_variants_from_endpoint` of crates/core/src/endpoint.rs keeps true of the
-- variants and groups that it makes.
use zap_stream_core.Prelude.{
  ℕ, ◌*◌, ◌%◌, ◌^◌, ◌≡◌, refl, sym, ◌∙◌, Bool, true, false, Option, none, some, List, [], ◌∷◌,
  if◌then◌else◌, ◌==◌, ==_iff, In, find, find-some, All, All-map, In-All, In-retain, ltb, any,
}
use zap_stream_core.Pipeline.Variants.{
  StreamType, IngressStream, VariantStream, variant_id, variant_src_index, is_video,
}
use zap_stream_core.Pipeline.Encoders.{is_audio}
use zap_stream_core.Endpoint.{VariantType, source_variant, variant, dvr}
use zap_stream_core.Endpoint.Grouping.{empty_group}
use zap_stream_core.Endpoint.Grouping.Ids.{kind_of, Slot, Sourced, Offered}
use zap_stream_core.Endpoint.Config.{
  Setup, Building, video_streams, transcode_audio_src, transcode_video_src, has_height,
  source_group, variant_group, add_group, configure_sources, configure_variant_from,
  configure_variant, recorder_at, id_of_found, from_source, record_found, configure_dvr, configure,
  configure_all,
}
use zap_stream_core.Endpoint.Config.Known.{
  BuildingFits, IndexedByKind, push_group-fits, add_group-BuildingFits, best-In,
}

is_audio-type : (t : StreamType) → is_audio t ≡ true → t ≡ StreamType.audio
is_audio-type StreamType.audio e = refl
is_audio-type StreamType.video e = cc
is_audio-type StreamType.subtitle e = cc
is_audio-type StreamType.unknown e = cc

pub audio_src-In :
    (streams : List IngressStream) (a : IngressStream)
    → transcode_audio_src streams ≡ some a
    → (a.stream_type ≡ StreamType.audio) × In a streams
unfolding transcode_audio_src
audio_src-In streams a e =
    let (t, i) =
      best-In (λ s. s.sample_rate * s.channels % 2 ^ 64) (λ s. is_audio s.stream_type) streams a
        e in
    (is_audio-type a.stream_type t, i)

pub video_src-In :
    (streams : List IngressStream) (s : IngressStream)
    → transcode_video_src streams ≡ some s
    → (is_video s.stream_type ≡ true) × In s streams
unfolding transcode_video_src
video_src-In streams s e =
    best-In (λ a. a.width * a.height % 2 ^ 64) (λ a. is_video a.stream_type) streams s e

audio-Offered : (streams : List IngressStream) → Offered streams (transcode_audio_src streams)
audio-Offered streams = go (transcode_audio_src streams) refl
  where
    go : (o : Option IngressStream) → transcode_audio_src streams ≡ o → Offered streams o
    go none e = tt
    go (some a) e = (audio_src-In streams a e).1

configure_sources-BuildingFits :
    (u : Setup) (ss : List IngressStream) (b : Building)
    → All (λ s. In s u.streams) ss
    → BuildingFits u b
    → BuildingFits u (configure_sources u ss b)
unfolding configure_sources
configure_sources-BuildingFits u [] b i h = h
configure_sources-BuildingFits u (s ∷ ss) b i h =
    configure_sources-BuildingFits u ss (add_group u true (source_group u s) b) i.1
      (add_group-BuildingFits u true (source_group u s) b (i.0, audio-Offered u.streams, tt) h)

configure_variant-BuildingFits :
    (u : Setup) (height bitrate : ℕ) (b : Building)
    → BuildingFits u b
    → BuildingFits u (configure_variant u height bitrate b)
unfolding configure_variant configure_variant_from
configure_variant-BuildingFits u height bitrate b h = go (transcode_video_src u.streams) refl
  where
    go :
        (o : Option IngressStream)
        → transcode_video_src u.streams ≡ o
        → BuildingFits u (configure_variant_from u height bitrate o b)
    go none e = h
    go (some s) e = skip (ltb s.height height) (any (has_height height) b.variants)
      where
        skip :
            (low have : Bool)
            → BuildingFits u (
                if low
                then b
                else if have
                then b
                else add_group u false (variant_group u s height bitrate) b)
        skip true have = h
        skip false true = h
        skip false false =
            add_group-BuildingFits u false (variant_group u s height bitrate) b
              ((video_src-In u.streams s e).1, audio-Offered u.streams, tt) h

has_height-video :
    (height : ℕ) (v : VariantStream) → has_height height v ≡ true → kind_of v ≡ StreamType.video
has_height-video height (VariantStream.video v) e = refl
has_height-video height (VariantStream.copy_video v) e = refl
has_height-video height (VariantStream.audio v) e = cc
has_height-video height (VariantStream.copy_audio v) e = cc
has_height-video height (VariantStream.subtitle id src_index) e = cc
has_height-video height (VariantStream.plugin id src_index) e = cc

-- A recorder's audio is the variant found by the index of the audio source: an audio variant.
from_source-audio :
    (streams : List IngressStream) (vs : List VariantStream)
    → IndexedByKind streams
    → All (Sourced streams) vs
    → Slot vs StreamType.audio (from_source (transcode_audio_src streams) vs)
from_source-audio streams vs indexed h = go (transcode_audio_src streams) refl
  where
    go :
        (o : Option IngressStream)
        → transcode_audio_src streams ≡ o
        → Slot vs StreamType.audio (from_source o vs)
    go none e = tt
    go (some a) e = found (find (λ v. variant_src_index v == a.index) vs) refl
      where
        found :
            (o : Option VariantStream)
            → find (λ v. variant_src_index v == a.index) vs ≡ o
            → Slot vs StreamType.audio (id_of_found o)
        found none f = tt
        found (some v) f =
            let (same, i) = find-some (λ w. variant_src_index w == a.index) vs v f in
            let (s, si, index, kind) = In-All (Sourced streams) vs h v i in
            let (t, ai) = audio_src-In streams a e in
            let at : s.index ≡ a.index = index ∙ (==_iff (variant_src_index v) a.index).0 same in
            (v, i, refl, sym kind ∙ indexed s a si ai at ∙ t)

configure_dvr-BuildingFits :
    (u : Setup) (height : ℕ) (b : Building)
    → IndexedByKind u.streams
    → BuildingFits u b
    → BuildingFits u (configure_dvr u height b)
unfolding configure_dvr record_found
configure_dvr-BuildingFits u height b indexed (groups, dups, sourced) =
    go (recorder_at height u.egress) (find (has_height height) b.variants) refl
  where
    go :
        (e : Option ℕ) (o : Option VariantStream)
        → find (has_height height) b.variants ≡ o
        → BuildingFits u (record_found u e o b)
    go none o f = (groups, dups, sourced)
    go (some egress) none f = (groups, dups, sourced)
    go (some egress) (some v) f =
        let (at, i) = find-some (has_height height) b.variants v f in
        (
          push_group-fits b.variants egress
              (record empty_group {
                video = some (variant_id v);
                audio = from_source (transcode_audio_src u.streams) b.variants;
              })
              b.egress_map
              (
                (v, i, refl, has_height-video height v at),
                from_source-audio u.streams b.variants indexed sourced,
                tt,
              )
              groups,
          dups,
          sourced,
        )

configure-BuildingFits :
    (u : Setup) (c : VariantType) (b : Building)
    → IndexedByKind u.streams
    → BuildingFits u b
    → BuildingFits u (configure u c b)
unfolding configure
configure-BuildingFits u source_variant b indexed h =
    configure_sources-BuildingFits u (video_streams u.streams) b
      (All-map _ (λ s. In s u.streams) (λ s i. i.1) (video_streams u.streams)
        (In-retain (λ s. is_video s.stream_type) u.streams))
      h
configure-BuildingFits u (variant height bitrate) b indexed h =
    configure_variant-BuildingFits u height bitrate b h
configure-BuildingFits u (dvr height) b indexed h = configure_dvr-BuildingFits u height b indexed h

pub configure_all-BuildingFits :
    (u : Setup) (cs : List VariantType) (b : Building)
    → IndexedByKind u.streams
    → BuildingFits u b
    → BuildingFits u (configure_all u cs b)
unfolding configure_all
configure_all-BuildingFits u [] b indexed h = h
configure_all-BuildingFits u (c ∷ cs) b indexed h =
    configure_all-BuildingFits u cs (configure u c b) indexed
      (configure-BuildingFits u c b indexed h)
