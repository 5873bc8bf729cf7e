-- ===== src/Endpoint/Grouping/Placing.antt =====
-- The variants that `get_streams_for_egress` of crates/core/src/endpoint.rs makes, one request at a
-- time: every id it hands out is that of a variant.
use zap_stream_core.Prelude.{
  ℕ, ◌≡◌, refl, sym, ap, subst, ◌∙◌, inl, inr, Bool, true, false, Option, none, some, List, [], ◌∷◌,
  ◌++◌, if◌then◌else◌, ◌==◌, Bool-cases, some_inj, both, In-++, All, All-map, All-++, append_assoc,
  append-nil,
}
use zap_stream_core.Pipeline.Variants.{
  StreamType, IngressStream, Ffmpeg, VariantStream, variant_id, VariantGroup,
}
use zap_stream_core.Pipeline.Encoders.{
  EgressEncoderConfig, EgressType, egress_id, same_config, type_number,
}
use zap_stream_core.Endpoint.Grouping.{
  GroupedIngressStream, Request, requests, Streams, empty_group, replace_slot, change_group,
  find_config, new_variant, insert_new, place_at, place, place_all, streams_of,
  get_streams_for_egress,
}
use zap_stream_core.Endpoint.Grouping.Ids.{
  kind_of, Is, Is-++, GroupFits, GroupFits-++, EntryFits, Sourced, Asked, GroupOffered,
  requests-Asked,
}
use zap_stream_core.Endpoint.Grouping.Fresh.{new_variant-keeps}

-- What holds of the variants, groups and encodings made so far, `base` being the variants of before.
abbrev pub StreamsFit : List IngressStream → List VariantStream → Streams → Type 0
StreamsFit streams base s =
    All (λ e. GroupFits (base ++ s.ret) e.1) s.egress_map
    × All (EntryFits (base ++ s.ret)) s.dup_map
    × All (Sourced streams) s.ret

type_number-inj : (s t : StreamType) → (type_number s == type_number t) ≡ true → s ≡ t
type_number-inj StreamType.unknown StreamType.unknown e = refl
type_number-inj StreamType.unknown StreamType.video e = cc
type_number-inj StreamType.unknown StreamType.audio e = cc
type_number-inj StreamType.unknown StreamType.subtitle e = cc
type_number-inj StreamType.video StreamType.unknown e = cc
type_number-inj StreamType.video StreamType.video e = refl
type_number-inj StreamType.video StreamType.audio e = cc
type_number-inj StreamType.video StreamType.subtitle e = cc
type_number-inj StreamType.audio StreamType.unknown e = cc
type_number-inj StreamType.audio StreamType.video e = cc
type_number-inj StreamType.audio StreamType.audio e = refl
type_number-inj StreamType.audio StreamType.subtitle e = cc
type_number-inj StreamType.subtitle StreamType.unknown e = cc
type_number-inj StreamType.subtitle StreamType.video e = cc
type_number-inj StreamType.subtitle StreamType.audio e = cc
type_number-inj StreamType.subtitle StreamType.subtitle e = refl

same_config-type :
    (a b : EgressEncoderConfig) → same_config a b ≡ true → a.stream_type ≡ b.stream_type
unfolding same_config
same_config-type a b e = type_number-inj a.stream_type b.stream_type (both _ _ e).1

-- The encoding found again has a variant of the kind that is asked for.
find_config-Is :
    (vs : List VariantStream) (p : EgressEncoderConfig) (dups : List (EgressEncoderConfig × ℕ))
    (id : ℕ)
    → All (EntryFits vs) dups
    → find_config p dups ≡ some id
    → Is vs p.stream_type id
find_config-Is vs p [] id h e = cc
find_config-Is vs p (entry ∷ dups) id h e = elim (Bool-cases (same_config entry.0 p)) [
  | inl t ↦
      subst (λ k. Is vs k id) (same_config-type entry.0 p t)
        (subst (Is vs entry.0.stream_type)
          (some_inj (ap (λ b. if b then some entry.1 else find_config p dups) (sym t) ∙ e)) h.0)
  | inr f ↦
      find_config-Is vs p dups id h.1
        (ap (λ b. if b then some entry.1 else find_config p dups) (sym f) ∙ e)
]

replace_slot-GroupFits :
    (vs : List VariantStream) (t : StreamType) (id : ℕ) (g : VariantGroup)
    → Is vs t id
    → GroupFits vs g
    → GroupFits vs (replace_slot t id g)
replace_slot-GroupFits vs StreamType.video id g i (v, a, s) = (i, a, s)
replace_slot-GroupFits vs StreamType.audio id g i (v, a, s) = (v, i, s)
replace_slot-GroupFits vs StreamType.subtitle id g i (v, a, s) = (v, a, i)
replace_slot-GroupFits vs StreamType.unknown id g i h = h

change_group-All :
    (P : VariantGroup → Type 0) (f : VariantGroup → VariantGroup) (key : ℕ)
    (entries : List (ℕ × VariantGroup))
    → ((g : VariantGroup) → P g → P (f g))
    → P empty_group
    → All (λ e. P e.1) entries
    → All (λ e. P e.1) (change_group key f entries)
change_group-All P f key [] keeps start h = (keeps empty_group start, tt)
change_group-All P f key (entry ∷ entries) keeps start h =
    go (entry.0 == key) (change_group-All P f key entries keeps start h.1)
  where
    go :
        (b : Bool)
        → All (λ e. P e.1) (change_group key f entries)
        → All
            (λ e. P e.1)
            (if b then (key, f entry.1) ∷ entries else entry ∷ change_group key f entries)
    go true rest = (keeps entry.1 h.0, h.1)
    go false rest = (h.0, rest)

-- What fits goes on to fit when a variant is added behind.
add_variant-StreamsFit :
    (streams : List IngressStream) (base : List VariantStream) (s : Streams) (v : VariantStream)
    → Sourced streams v
    → StreamsFit streams base s
    → StreamsFit streams base (record s { ret = s.ret ++ v ∷ [] })
add_variant-StreamsFit streams base s v source (groups, dups, sourced) =
    let vs = base ++ s.ret in
    let grown : vs ++ v ∷ [] ≡ base ++ (s.ret ++ v ∷ []) = append_assoc base s.ret (v ∷ []) in
    (
      subst (λ ws. All (λ e. GroupFits ws e.1) s.egress_map) grown
          (All-map (λ e. GroupFits vs e.1) (λ e. GroupFits (vs ++ v ∷ []) e.1)
            (λ e. GroupFits-++ vs (v ∷ []) e.1) s.egress_map groups),
      subst (λ ws. All (EntryFits ws) s.dup_map) grown
          (All-map (EntryFits vs) (EntryFits (vs ++ v ∷ []))
            (λ e. Is-++ vs (v ∷ []) e.0.stream_type e.1) s.dup_map dups),
      All-++ (Sourced streams) s.ret (v ∷ []) sourced (source, tt),
    )

-- The variant added last is there.
added-Is :
    (base ret : List VariantStream) (v : VariantStream) (t : StreamType) (id : ℕ)
    → variant_id v ≡ id
    → kind_of v ≡ t
    → Is (base ++ (ret ++ v ∷ [])) t id
added-Is base ret v t id i k =
    (v, In-++ v base (ret ++ v ∷ []) (inr (In-++ v ret (v ∷ []) (inr (inl refl)))), i, k)

fill_slot-fits :
    (vs : List VariantStream) (key : ℕ) (t : StreamType) (id : ℕ)
    (entries : List (ℕ × VariantGroup))
    → Is vs t id
    → All (λ e. GroupFits vs e.1) entries
    → All (λ e. GroupFits vs e.1) (change_group key (replace_slot t id) entries)
fill_slot-fits vs key t id entries i h =
    change_group-All (GroupFits vs) (replace_slot t id) key entries
      (λ g. replace_slot-GroupFits vs t id g i) (tt, tt, tt) h

place-StreamsFit :
    (streams : List IngressStream) (base : List VariantStream) (ff : Ffmpeg) (copy : Bool)
    (r : Request) (s : Streams)
    → Asked streams r
    → StreamsFit streams base s
    → StreamsFit streams base (place ff copy r s)
unfolding place place_at insert_new
place-StreamsFit streams base ff copy r s asked fits = at (find_config r.param s.dup_map) refl
  where
    key : ℕ
    key = egress_id r.egress

    new :
        (o : Option VariantStream)
        → new_variant ff copy r r.param.stream_type ≡ o
        → StreamsFit streams base (insert_new o r s)
    new none e = (
      change_group-All (GroupFits (base ++ s.ret)) (λ g. g) key s.egress_map (λ g h. h) (tt, tt, tt)
          fits.0,
      fits.1,
      fits.2,
    )
    new (some v) e =
        let (i, k, index) = new_variant-keeps ff copy r v e in
        let (groups, dups, sourced) =
          add_variant-StreamsFit streams base s v
            (r.ingress_stream, asked.0, index, asked.1 ∙ sym k) fits in
        let here = added-Is base s.ret v r.param.stream_type r.id i k in
        let vs = base ++ (s.ret ++ v ∷ []) in
        (
          fill_slot-fits vs key r.param.stream_type r.id s.egress_map here groups,
          (here, dups),
          sourced,
        )

    at :
        (o : Option ℕ)
        → find_config r.param s.dup_map ≡ o
        → StreamsFit streams base (place_at ff copy r o s)
    at none e = new (new_variant ff copy r r.param.stream_type) refl
    at (some held) e = (
      fill_slot-fits (base ++ s.ret) key r.param.stream_type held s.egress_map
          (find_config-Is (base ++ s.ret) r.param s.dup_map held fits.1 e) fits.0,
      fits.1,
      fits.2,
    )

place_all-StreamsFit :
    (streams : List IngressStream) (base : List VariantStream) (ff : Ffmpeg) (copy : Bool)
    (rs : List Request) (s : Streams)
    → All (Asked streams) rs
    → StreamsFit streams base s
    → StreamsFit streams base (place_all ff copy rs s)
unfolding place_all
place_all-StreamsFit streams base ff copy [] s asked h = h
place_all-StreamsFit streams base ff copy (r ∷ rs) s asked h =
    place_all-StreamsFit streams base ff copy rs (place ff copy r s) asked.1
      (place-StreamsFit streams base ff copy r s asked.0 h)

pub get_streams_for_egress-StreamsFit :
    (streams : List IngressStream) (base : List VariantStream) (ff : Ffmpeg)
    (egress : List EgressType) (g : GroupedIngressStream) (copy : Bool)
    (dups : List (EgressEncoderConfig × ℕ)) (next : ℕ) (made : Streams) (later : ℕ)
    → GroupOffered streams g
    → All (EntryFits base) dups
    → get_streams_for_egress ff egress g copy dups next ≡ some (made, later)
    → StreamsFit streams base made
unfolding get_streams_for_egress streams_of
get_streams_for_egress-StreamsFit streams base ff egress g copy dups next made later i h =
    go (requests ff copy g egress next) (requests-Asked streams ff copy g egress next i)
  where
    go :
        (rs : List Request)
        → All (Asked streams) rs
        → streams_of ff copy dups next rs ≡ some (made, later)
        → StreamsFit streams base made
    go [] asked e = cc
    go (r ∷ rs) asked e = subst (StreamsFit streams base) (ap (λ m. m.0) (some_inj e)) (
        place_all-StreamsFit streams base ff copy (r ∷ rs)
          (record { ret = []; egress_map = []; dup_map = dups }) asked
          (tt, subst (λ vs. All (EntryFits vs) dups) (sym (append-nil base)) h, tt))
