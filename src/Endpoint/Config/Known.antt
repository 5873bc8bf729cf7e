-- ===== src/Endpoint/Config/Known.antt =====
-- What one step of `get_variants_from_endpoint` of crates/core/src/endpoint.rs, a group of source
-- streams, keeps true of the variants and groups made so far.
use zap_stream_core.Prelude.{
  ℕ, ◌≡◌, refl, subst, inl, inr, Bool, true, false, Option, none, some, List, [], ◌∷◌, ◌++◌,
  if◌then◌else◌, ◌==◌, some_inj, In, All, All-map, All-++, In-All, In-retain, retain, leb,
}
use zap_stream_core.Pipeline.Variants.{IngressStream, VariantStream, VariantGroup}
use zap_stream_core.Endpoint.Grouping.{GroupedIngressStream, Streams, get_streams_for_egress}
use zap_stream_core.Endpoint.Grouping.Ids.{
  GroupFits, GroupFits-++, EntryFits, Sourced, GroupOffered,
}
use zap_stream_core.Endpoint.Grouping.Placing.{get_streams_for_egress-StreamsFit}
use zap_stream_core.Endpoint.Config.{
  Setup, Building, max_from, max_by_key, push_group, push_groups, extend, add_group,
}

abbrev pub GroupsFit : List VariantStream → ℕ × List VariantGroup → Type 0
GroupsFit vs entry = All (GroupFits vs) entry.1

-- Every id of a group, and of an encoding that is remembered, is that of a variant of its kind; every
-- variant is of the kind of its source.
abbrev pub BuildingFits : Setup → Building → Type 0
BuildingFits u b =
    All (GroupsFit b.variants) b.egress_map
    × All (EntryFits b.variants) b.dup_map
    × All (Sourced u.streams) b.variants

-- Streams of one index are of one kind.
abbrev pub IndexedByKind : List IngressStream → Type 0
IndexedByKind streams =
    (s t : IngressStream)
    → In s streams
    → In t streams
    → s.index ≡ t.index
    → s.stream_type ≡ t.stream_type

pub push_group-fits :
    (vs : List VariantStream) (key : ℕ) (g : VariantGroup) (entries : List (ℕ × List VariantGroup))
    → GroupFits vs g
    → All (GroupsFit vs) entries
    → All (GroupsFit vs) (push_group key g entries)
push_group-fits vs key g [] i h = ((i, tt), tt)
push_group-fits vs key g (entry ∷ entries) i h =
    go (entry.0 == key) (push_group-fits vs key g entries i h.1)
  where
    go :
        (b : Bool)
        → All (GroupsFit vs) (push_group key g entries)
        → All
            (GroupsFit vs)
            (if b then (key, entry.1 ++ g ∷ []) ∷ entries else entry ∷ push_group key g entries)
    go true rest = (All-++ (GroupFits vs) entry.1 (g ∷ []) h.0 (i, tt), h.1)
    go false rest = (h.0, rest)

push_groups-fits :
    (vs : List VariantStream) (news : List (ℕ × VariantGroup))
    (entries : List (ℕ × List VariantGroup))
    → All (λ e. GroupFits vs e.1) news
    → All (GroupsFit vs) entries
    → All (GroupsFit vs) (push_groups news entries)
push_groups-fits vs [] entries i h = h
push_groups-fits vs (new ∷ news) entries i h =
    push_groups-fits vs news (push_group new.0 new.1 entries) i.1
      (push_group-fits vs new.0 new.1 entries i.0 h)

pub add_group-BuildingFits :
    (u : Setup) (copy : Bool) (g : GroupedIngressStream) (b : Building)
    → GroupOffered u.streams g
    → BuildingFits u b
    → BuildingFits u (add_group u copy g b)
unfolding add_group extend
add_group-BuildingFits u copy g b offered (groups, dups, sourced) =
    go (get_streams_for_egress u.ff u.egress g copy b.dup_map b.next) refl
  where
    go :
        (o : Option (Streams × ℕ))
        → get_streams_for_egress u.ff u.egress g copy b.dup_map b.next ≡ o
        → BuildingFits u (extend o b)
    go none e = (groups, dups, sourced)
    go (some made) e =
        let (new_groups, new_dups, new_sourced) =
          get_streams_for_egress-StreamsFit u.streams b.variants u.ff u.egress g copy b.dup_map
            b.next made.0 made.1 offered dups e in
        let vs = b.variants ++ made.0.ret in
        (
          push_groups-fits vs made.0.egress_map b.egress_map new_groups (
              All-map (GroupsFit b.variants) (GroupsFit vs)
                (λ entry.
                  All-map (GroupFits b.variants) (GroupFits vs) (GroupFits-++ b.variants made.0.ret)
                    entry.1)
                b.egress_map groups),
          new_dups,
          All-++ (Sourced u.streams) b.variants made.0.ret sourced new_sourced,
        )

max_from-In :
    (key : IngressStream → ℕ) (b : IngressStream) (ss : List IngressStream)
    → In (max_from key b ss) (b ∷ ss)
max_from-In key b [] = inl refl
max_from-In key b (s ∷ ss) = go (leb (key b) (key s)) (max_from-In key s ss) (max_from-In key b ss)
  where
    go :
        (t : Bool)
        → In (max_from key s ss) (s ∷ ss)
        → In (max_from key b ss) (b ∷ ss)
        → In (max_from key (if t then s else b) ss) (b ∷ s ∷ ss)
    go true i1 i2 = inr i1
    go false i1 (inl e) = inl e
    go false i1 (inr i) = inr (inr i)

-- The source that is chosen is one of the streams that pass.
pub best-In :
    (key : IngressStream → ℕ) (p : IngressStream → Bool) (ss : List IngressStream)
    (s : IngressStream)
    → max_by_key key (retain p ss) ≡ some s
    → (p s ≡ true) × In s ss
best-In key p ss s = go (retain p ss) (In-retain p ss)
  where
    go :
        (xs : List IngressStream)
        → All (λ x. (p x ≡ true) × In x ss) xs
        → max_by_key key xs ≡ some s
        → (p s ≡ true) × In s ss
    go [] h e = cc
    go (x ∷ xs) h e =
        In-All (λ y. (p y ≡ true) × In y ss) (x ∷ xs) h s
          (subst (λ y. In y (x ∷ xs)) (some_inj e) (max_from-In key x xs))
