-- ===== src/Endpoint/Config/Counting.antt =====
-- The ids of the variants that the loop of crates/core/src/endpoint.rs makes.
use zap_stream_core.Prelude.{
  ℕ, ◌≡◌, refl, Bool, true, false, Option, none, some, List, [], ◌∷◌, if◌then◌else◌, ltb, any, find,
}
use zap_stream_core.Pipeline.Variants.{IngressStream, VariantStream}
use zap_stream_core.Endpoint.{VariantType, source_variant, variant, dvr}
use zap_stream_core.Endpoint.Grouping.{GroupedIngressStream, Streams, get_streams_for_egress}
use zap_stream_core.Endpoint.Grouping.Counting.{Rising, get_streams_for_egress-Rising}
use zap_stream_core.Endpoint.Config.{
  Setup, Building, extend, has_height, source_group, variant_group, add_group, configure_sources,
  configure_variant_from, configure_variant, record_found, configure_dvr, configure, configure_all,
  video_streams, recorder_at, transcode_video_src,
}

abbrev pub IsCounted : Building → Type 0
IsCounted b = Rising 0 b.variants b.next

add_group-IsCounted :
    (u : Setup) (copy : Bool) (g : GroupedIngressStream) (b : Building)
    → IsCounted b
    → IsCounted (add_group u copy g b)
unfolding add_group extend
add_group-IsCounted u copy g b h =
    go (get_streams_for_egress u.ff u.egress g copy b.dup_map b.next) refl
  where
    go :
        (o : Option (Streams × ℕ))
        → get_streams_for_egress u.ff u.egress g copy b.dup_map b.next ≡ o
        → IsCounted (extend o b)
    go none e = h
    go (some made) e =
        get_streams_for_egress-Rising b.variants u.ff u.egress g copy b.dup_map b.next made h e

configure_sources-IsCounted :
    (u : Setup) (ss : List IngressStream) (b : Building)
    → IsCounted b
    → IsCounted (configure_sources u ss b)
unfolding configure_sources
configure_sources-IsCounted u [] b h = h
configure_sources-IsCounted u (s ∷ ss) b h =
    configure_sources-IsCounted u ss (add_group u true (source_group u s) b)
      (add_group-IsCounted u true (source_group u s) b h)

configure_variant-IsCounted :
    (u : Setup) (height bitrate : ℕ) (b : Building)
    → IsCounted b
    → IsCounted (configure_variant u height bitrate b)
unfolding configure_variant configure_variant_from
configure_variant-IsCounted u height bitrate b h = go (transcode_video_src u.streams)
  where
    go : (o : Option IngressStream) → IsCounted (configure_variant_from u height bitrate o b)
    go none = h
    go (some s) = skip (ltb s.height height) (any (has_height height) b.variants)
      where
        skip :
            (low have : Bool)
            → IsCounted (
                if low
                then b
                else if have
                then b
                else add_group u false (variant_group u s height bitrate) b)
        skip true have = h
        skip false true = h
        skip false false = add_group-IsCounted u false (variant_group u s height bitrate) b h

configure-IsCounted :
    (u : Setup) (c : VariantType) (b : Building) → IsCounted b → IsCounted (configure u c b)
unfolding configure configure_dvr record_found
configure-IsCounted u source_variant b h =
    configure_sources-IsCounted u (video_streams u.streams) b h
configure-IsCounted u (variant height bitrate) b h =
    configure_variant-IsCounted u height bitrate b h
configure-IsCounted u (dvr height) b h =
    go (recorder_at height u.egress) (find (has_height height) b.variants)
  where
    go : (e : Option ℕ) (o : Option VariantStream) → IsCounted (record_found u e o b)
    go none o = h
    go (some egress) none = h
    go (some egress) (some v) = h

pub configure_all-IsCounted :
    (u : Setup) (cs : List VariantType) (b : Building)
    → IsCounted b
    → IsCounted (configure_all u cs b)
unfolding configure_all
configure_all-IsCounted u [] b h = h
configure_all-IsCounted u (c ∷ cs) b h =
    configure_all-IsCounted u cs (configure u c b) (configure-IsCounted u c b h)
