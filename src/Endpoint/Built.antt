-- ===== src/Endpoint/Built.antt =====
-- The end of `get_variants_from_endpoint` of crates/core/src/endpoint.rs, and what is read off the
-- result.
pub mod Complete
pub mod Upscaling
pub mod Listing
pub mod Ids
use zap_stream_core.Prelude.{
  ℕ, Bool, Option, none, some, List, [], ◌∷◌, ◌++◌, map, ◌⊎◌, inl, inr, ◌==◌, if◌then◌else◌, find,
  any,
}
use zap_stream_core.Pipeline.Variants.{IngressStream, VariantStream, VariantGroup, variant_id}
use zap_stream_core.Pipeline.Encoders.{EgressType, egress_id}
use zap_stream_core.Endpoint.{VariantType}
use zap_stream_core.Endpoint.Config.{
  Setup, Building, configure_all, sorted, transcode_audio_src, transcode_video_src,
}

pub record EndpointConfig : Type 0 where
  pub video_src : Option IngressStream
  pub audio_src : Option IngressStream
  pub variants : List VariantStream
  pub egress_map : List (ℕ × List VariantGroup)
  pub egress : List EgressType

abbrev pub contains : List VariantStream → ℕ → Bool
contains vs id = any (λ v. variant_id v == id) vs

abbrev pub missing_slot : List VariantStream → Option ℕ → List ℕ
missing_slot vs none = []
missing_slot vs (some id) = if contains vs id then [] else id ∷ []

abbrev pub missing_group : List VariantStream → VariantGroup → List ℕ
missing_group vs g =
    missing_slot vs g.video ++ missing_slot vs g.audio ++ missing_slot vs g.subtitle

abbrev pub missing_groups : List VariantStream → List VariantGroup → List ℕ
missing_groups vs [] = []
missing_groups vs (g ∷ gs) = missing_group vs g ++ missing_groups vs gs

-- A set in the code; here an id that is missing twice is listed twice.
abbrev pub missing : List VariantStream → List (ℕ × List VariantGroup) → List ℕ
missing vs [] = []
missing vs (entry ∷ entries) = missing_groups vs entry.1 ++ missing vs entries

abbrev pub checked : EndpointConfig → List ℕ → List ℕ ⊎ EndpointConfig
checked c [] = inr c
checked c (id ∷ ids) = inl (id ∷ ids)

unfoldable pub verify : EndpointConfig → List ℕ ⊎ EndpointConfig
unfolding variant_id
verify c = checked c (missing c.variants c.egress_map)

abbrev pub nothing_built : Building
nothing_built = record { variants = []; egress_map = []; dup_map = []; next = 0 }

unfoldable pub built : Setup → List VariantType → EndpointConfig
unfolding configure_all sorted transcode_audio_src transcode_video_src
built u capabilities =
    let b = configure_all u (sorted capabilities) nothing_built in
    record {
      video_src = transcode_video_src u.streams;
      audio_src = transcode_audio_src u.streams;
      variants = b.variants;
      egress_map = b.egress_map;
      egress = u.egress;
    }

unfoldable pub get_variants_from_endpoint : Setup → List VariantType → List ℕ ⊎ EndpointConfig
unfolding built verify
get_variants_from_endpoint u capabilities = verify (built u capabilities)

-- The settings of an egress, with its groups.
pub record EgressConfig : Type 0 where
  pub kind : EgressType
  pub variants : List VariantGroup

abbrev pub with_groups : List VariantGroup → Option EgressType → List EgressConfig
with_groups groups none = []
with_groups groups (some e) = record { kind = e; variants = groups } ∷ []

abbrev pub configs_of : List EgressType → List (ℕ × List VariantGroup) → List EgressConfig
configs_of egress [] = []
configs_of egress (entry ∷ entries) =
    with_groups entry.1 (find (λ e. egress_id e == entry.0) egress) ++ configs_of egress entries

unfoldable pub get_egress_configs : EndpointConfig → List EgressConfig
unfolding egress_id
get_egress_configs c = configs_of c.egress c.egress_map
