-- ===== src/Endpoint/Built/Listing.antt =====
-- The list in which a client's capabilities come, and what crates/core/src/endpoint.rs makes of it.
use mathlib.Core.List.{Permᴰ}
use zap_stream_core.Prelude.{◌≡◌, ap, List}
use zap_stream_core.Endpoint.{VariantType}
use zap_stream_core.Endpoint.Config.{Setup, configure_all, transcode_audio_src, transcode_video_src}
use zap_stream_core.Endpoint.Config.Sorting.{sorted-Permᴰ}
use zap_stream_core.Endpoint.Built.{nothing_built, verify, built, get_variants_from_endpoint}

-- The configuration of an endpoint, and whether it fails, do not depend on the order in which the
-- capabilities are listed.
pub get_variants_from_endpoint_any_order :
    (u : Setup) (cs ds : List VariantType)
    → Permᴰ cs ds
    → get_variants_from_endpoint u cs ≡ get_variants_from_endpoint u ds
unfolding get_variants_from_endpoint built
get_variants_from_endpoint_any_order u cs ds p =
    ap
      (λ es.
        let b = configure_all u es nothing_built in
        verify record {
          video_src = transcode_video_src u.streams;
          audio_src = transcode_audio_src u.streams;
          variants = b.variants;
          egress_map = b.egress_map;
          egress = u.egress;
        })
      (sorted-Permᴰ cs ds p)
