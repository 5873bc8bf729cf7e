-- ===== src/Endpoint/Built/Complete.antt =====
-- The check at the end of `get_variants_from_endpoint` of crates/core/src/endpoint.rs finds nothing
-- missing.
use zap_stream_core.Prelude.{
  ℕ, ◌≡◌, refl, sym, ap, ◌∙◌, inl, inr, Bool, true, false, Option, none, some, List, [], ◌∷◌,
  if◌then◌else◌, ◌==◌, ==_iff, In, All,
}
use zap_stream_core.Pipeline.Variants.{StreamType, VariantStream, VariantGroup, variant_id}
use zap_stream_core.Endpoint.{VariantType}
use zap_stream_core.Endpoint.Grouping.Ids.{Slot, GroupFits, Sourced}
use zap_stream_core.Endpoint.Config.{Setup, configure_all, sorted}
use zap_stream_core.Endpoint.Config.Known.{GroupsFit, BuildingFits, IndexedByKind}
use zap_stream_core.Endpoint.Config.Loop.{configure_all-BuildingFits}
use zap_stream_core.Endpoint.Built.{
  contains, missing_slot, missing_group, missing_groups, missing, checked, verify, nothing_built,
  built, get_variants_from_endpoint,
}

contains-In :
    (vs : List VariantStream) (v : VariantStream) → In v vs → contains vs (variant_id v) ≡ true
contains-In [] v i = absurd i
contains-In (w ∷ vs) v (inl e) =
    ap (λ b. if b then true else contains vs (variant_id v))
      ((==_iff (variant_id w) (variant_id v)).1 (ap variant_id (sym e)))
contains-In (w ∷ vs) v (inr i) = go (variant_id w == variant_id v) (contains-In vs v i)
  where
    go :
        (b : Bool)
        → contains vs (variant_id v) ≡ true
        → (if b then true else contains vs (variant_id v)) ≡ true
    go true e = refl
    go false e = e

missing_slot-Slot :
    (vs : List VariantStream) (t : StreamType) (o : Option ℕ) → Slot vs t o → missing_slot vs o ≡ []
missing_slot-Slot vs t none h = refl
missing_slot-Slot vs t (some id) (v, i, e, k) =
    ap (λ b. if b then [] else id ∷ []) (ap (contains vs) (sym e) ∙ contains-In vs v i)

missing_group-GroupFits :
    (vs : List VariantStream) (g : VariantGroup) → GroupFits vs g → missing_group vs g ≡ []
missing_group-GroupFits vs g (v, a, s) =
    rw
      (
        missing_slot-Slot vs StreamType.video g.video v,
        missing_slot-Slot vs StreamType.audio g.audio a,
        missing_slot-Slot vs StreamType.subtitle g.subtitle s,
      )
      refl

missing_groups-fit :
    (vs : List VariantStream) (gs : List VariantGroup)
    → All (GroupFits vs) gs
    → missing_groups vs gs ≡ []
missing_groups-fit vs [] h = refl
missing_groups-fit vs (g ∷ gs) h =
    rw (missing_group-GroupFits vs g h.0, missing_groups-fit vs gs h.1) refl

missing-fit :
    (vs : List VariantStream) (entries : List (ℕ × List VariantGroup))
    → All (GroupsFit vs) entries
    → missing vs entries ≡ []
missing-fit vs [] h = refl
missing-fit vs (entry ∷ entries) h =
    rw (missing_groups-fit vs entry.1 h.0, missing-fit vs entries h.1) refl

built-fits :
    (u : Setup) (capabilities : List VariantType)
    → IndexedByKind u.streams
    → BuildingFits u (configure_all u (sorted capabilities) nothing_built)
built-fits u capabilities indexed =
    configure_all-BuildingFits u (sorted capabilities) nothing_built indexed (tt, tt, tt)

-- Where streams of one index are of one kind: the configuration of an endpoint never fails; every
-- video id of a group is that of a video variant, every audio id that of an audio variant; and every
-- variant is of the kind of a stream of the ingress that has its source index.
pub get_variants_from_endpoint_complete :
    (u : Setup) (capabilities : List VariantType)
    → IndexedByKind u.streams
    → (get_variants_from_endpoint u capabilities ≡ inr (built u capabilities))
      × All (GroupsFit (built u capabilities).variants) (built u capabilities).egress_map
      × All (Sourced u.streams) (built u capabilities).variants
unfolding get_variants_from_endpoint verify built
get_variants_from_endpoint_complete u capabilities indexed =
    let (groups, dups, sourced) = built-fits u capabilities indexed in
    let c = built u capabilities in
    (ap (checked c) (missing-fit c.variants c.egress_map groups), groups, sourced)
