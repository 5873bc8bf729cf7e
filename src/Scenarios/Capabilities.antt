-- ===== src/Scenarios/Capabilities.antt =====
-- The capabilities of an endpoint with a source, two variants and a recording.
use Prim.Native.Nat.{Ordering}
use zap_stream_core.Prelude.{◌≡◌, ◌↔◌, some, List, [], ◌∷◌, arith}
use zap_stream_core.Endpoint.{VariantType, source_variant, variant, dvr, cmp, parse_capabilities}
use zap_stream_core.Endpoint.Names.{joined, AreBounded, parse_capabilities-joined}
use zap_stream_core.Endpoint.Order.{Before, cmp-Before}

abbrev capabilities : List VariantType
capabilities = source_variant ∷ variant 720 3000000 ∷ variant 240 500000 ∷ dvr 720 ∷ []

capabilities-AreBounded : AreBounded capabilities
capabilities-AreBounded =
    (tt, ((omega arith, omega arith), ((omega arith, omega arith), (omega arith, tt))))

parse_capabilities-joined_example : parse_capabilities (some (joined capabilities)) ≡ capabilities
parse_capabilities-joined_example = parse_capabilities-joined capabilities capabilities-AreBounded

cmp-Before_example :
    ((cmp (variant 720 3000000) (variant 720 500000) ≡ Ordering.lt)
      ↔ Before (variant 720 3000000) (variant 720 500000))
    × ((cmp (variant 720 3000000) (variant 720 500000) ≡ Ordering.eq)
        ↔ (variant 720 3000000 ≡ variant 720 500000))
    × ((cmp (variant 720 3000000) (variant 720 500000) ≡ Ordering.gt)
        ↔ Before (variant 720 500000) (variant 720 3000000))
cmp-Before_example = cmp-Before (variant 720 3000000) (variant 720 500000)
