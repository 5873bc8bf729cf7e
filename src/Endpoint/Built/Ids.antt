-- ===== src/Endpoint/Built/Ids.antt =====
-- No two variants of a configuration of crates/core/src/endpoint.rs have one id.
use zap_stream_core.Prelude.{ℕ, ◌+◌, ◌≤◌, inl, inr, List, [], ◌∷◌, map, In, Distinct, arith}
use zap_stream_core.Pipeline.Variants.{VariantStream, variant_id}
use zap_stream_core.Endpoint.{VariantType}
use zap_stream_core.Endpoint.Grouping.Counting.{Rising}
use zap_stream_core.Endpoint.Config.{Setup, configure_all, sorted}
use zap_stream_core.Endpoint.Config.Counting.{configure_all-IsCounted}
use zap_stream_core.Endpoint.Built.{nothing_built, built}

Rising-least :
    (low : ℕ) (vs : List VariantStream) (high id : ℕ)
    → Rising low vs high
    → In id (map variant_id vs)
    → low ≤ id
Rising-least low [] high id r i = absurd i
Rising-least low (v ∷ vs) high id r (inl e) = omega (arith, e, r.0)
Rising-least low (v ∷ vs) high id r (inr i) =
    omega (arith, r.0, Rising-least (variant_id v + 1) vs high id r.1 i)

Rising-Distinct :
    (low : ℕ) (vs : List VariantStream) (high : ℕ)
    → Rising low vs high
    → Distinct (map variant_id vs)
Rising-Distinct low [] high r = tt
Rising-Distinct low (v ∷ vs) high r = (
  λ i. omega (arith, Rising-least (variant_id v + 1) vs high (variant_id v) r.1 i),
  Rising-Distinct (variant_id v + 1) vs high r.1,
)

-- The variants of a configuration have distinct ids.
pub built-Distinct :
    (u : Setup) (capabilities : List VariantType)
    → Distinct (map variant_id (built u capabilities).variants)
unfolding built
built-Distinct u capabilities =
    let b = configure_all u (sorted capabilities) nothing_built in
    Rising-Distinct 0 b.variants b.next
      (configure_all-IsCounted u (sorted capabilities) nothing_built (omega arith))
