-- ===== src/Endpoint/Built/Upscaling.antt =====
-- crates/core/src/endpoint.rs never has a video encoded at more than its source's height, made even.
use zap_stream_core.Prelude.{List, All}
use zap_stream_core.Endpoint.{VariantType}
use zap_stream_core.Endpoint.Grouping.Encoded.{Encoded}
use zap_stream_core.Endpoint.Config.{Setup, sorted}
use zap_stream_core.Endpoint.Config.Heights.{Requested, configure_all-Encoded}
use zap_stream_core.Endpoint.Config.Sorting.{sorted-In}
use zap_stream_core.Endpoint.Built.{nothing_built, built}

-- Each video variant that is encoded, not copied, has the height of a capability that was asked for,
-- rounded up to an even number; that height is no more than the height of the source that is
-- transcoded.
pub built_heights :
    (u : Setup) (capabilities : List VariantType)
    → All (Encoded (Requested u capabilities)) (built u capabilities).variants
unfolding built
built_heights u capabilities =
    configure_all-Encoded u capabilities (sorted capabilities) nothing_built
      (sorted-In capabilities) tt
