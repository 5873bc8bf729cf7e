-- ===== src/Hls/Renditions/Sharing.antt =====
-- How the renditions of crates/core/src/mux/hls/mod.rs share audio.
use zap_stream_core.Prelude.{
  ℕ, ◌≡◌, refl, sym, ap, subst, ◌∙◌, ◌⊎◌, inl, inr, Bool, true, false, not, ◌&&◌, Option, none,
  some, List, [], ◌∷◌, ◌++◌, ◌==◌, ==_iff, if◌then◌else◌, map, find, retain, In, In-++, All,
  All-map, All-++, In-retain, Distinct, find-some, both,
}
use zap_stream_core.Hls.Segment.{SegmentType}
use zap_stream_core.Hls.Resume.{EncoderVariant}
use zap_stream_core.Hls.Renditions.{
  EncoderVariantGroup, member_id, is_audio_variant, Plan, all_streams, audio_plan, seen,
  audio_plans, id_of_member, media_members, media_plan, unless_empty, media_plans, plans,
}

abbrev pub names : List Plan → List ℕ
names = map λ p. p.name

not_both : {b : Bool} → b ≡ true → b ≡ false → ⊥
not_both e f = cc

In-seen : (id : ℕ) (ids : List ℕ) → In id ids → seen id ids ≡ true
In-seen id [] i = absurd i
In-seen id (x ∷ ids) (inl same) =
    ap (λ b. if b then true else seen id ids) ((==_iff x id).1 (sym same))
In-seen id (x ∷ ids) (inr i) = go (x == id) (In-seen id ids i)
  where
    go : (b : Bool) → seen id ids ≡ true → (if b then true else seen id ids) ≡ true
    go true e = refl
    go false e = e

not-true : (b : Bool) → not b ≡ true → b ≡ true → ⊥
not-true true n e = cc
not-true false n e = cc

-- The audio plans are of other ids than those seen, and no two of one id.
audio_plans-Distinct :
    (ids : List ℕ) (ss : List EncoderVariant)
    → ((id : ℕ) → In id (names (audio_plans ids ss)) → In id ids → ⊥)
      × Distinct (names (audio_plans ids ss))
unfolding audio_plans
audio_plans-Distinct ids [] = ((λ id i j. i), tt)
audio_plans-Distinct ids (s ∷ ss) =
    go (is_audio_variant s && not (seen (member_id s) ids)) refl
      (audio_plans-Distinct (member_id s ∷ ids) ss) (audio_plans-Distinct ids ss)
  where
    chosen : Bool → List Plan
    chosen b = if b then audio_plan s ∷ audio_plans (member_id s ∷ ids) ss else audio_plans ids ss

    Fresh : List ℕ → List Plan → Type 0
    Fresh old ps = ((id : ℕ) → In id (names ps) → In id old → ⊥) × Distinct (names ps)

    go :
        (b : Bool)
        → (is_audio_variant s && not (seen (member_id s) ids)) ≡ b
        → Fresh (member_id s ∷ ids) (audio_plans (member_id s ∷ ids) ss)
        → Fresh ids (audio_plans ids ss)
        → Fresh ids (chosen b)
    go true e (apart, distinct) rest =
        (head_or (is_new.1) apart, (λ i. apart (member_id s) i (inl refl), distinct))
      where
        is_new : (is_audio_variant s ≡ true) × (not (seen (member_id s) ids) ≡ true)
        is_new = both (is_audio_variant s) (not (seen (member_id s) ids)) e

        head_or :
            not (seen (member_id s) ids) ≡ true
            → ((id : ℕ)
                → In id (names (audio_plans (member_id s ∷ ids) ss))
                → In id (member_id s ∷ ids)
                → ⊥)
            → (id : ℕ) → In id (member_id s ∷ names (audio_plans (member_id s ∷ ids) ss))
            → In id ids
            → ⊥
        head_or n apart id (inl same) j =
            not-true (seen (member_id s) ids) n
              (subst (λ x. seen x ids ≡ true) same (In-seen id ids j))
        head_or n apart id (inr k) j = apart id k (inr j)
    go false e taken rest = rest

seen-In : (id : ℕ) (ids : List ℕ) → seen id ids ≡ true → In id ids
seen-In id [] e = cc
seen-In id (x ∷ ids) e = go (x == id) refl e (seen-In id ids)
  where
    go :
        (b : Bool)
        → (x == id) ≡ b
        → (if b then true else seen id ids) ≡ true
        → (seen id ids ≡ true → In id ids)
        → In id (x ∷ ids)
    go true t e rest = inl (sym ((==_iff x id).0 t))
    go false t e rest = inr (rest e)

-- Each audio stream is seen already or gets a plan.
audio_plans-In :
    (ids : List ℕ) (ss : List EncoderVariant) (s : EncoderVariant)
    → In s ss
    → is_audio_variant s ≡ true
    → In (member_id s) (names (audio_plans ids ss)) ⊎ In (member_id s) ids
unfolding audio_plans
audio_plans-In ids [] s i e = absurd i
audio_plans-In ids (t ∷ ss) s i e =
    go (is_audio_variant t) refl (seen (member_id t) ids) refl i
      (λ j. audio_plans-In (member_id t ∷ ids) ss s j e) (λ j. audio_plans-In ids ss s j e)
  where
    Found : List ℕ → List Plan → Type 0
    Found old ps = In (member_id s) (names ps) ⊎ In (member_id s) old

    skipped :
        In s (t ∷ ss)
        → (s ≡ t → In (member_id s) ids)
        → (In s ss → Found ids (audio_plans ids ss))
        → Found ids (audio_plans ids ss)
    skipped (inl same) here rest = inr (here same)
    skipped (inr j) here rest = rest j

    take_in :
        Found (member_id t ∷ ids) (audio_plans (member_id t ∷ ids) ss)
        → Found ids (audio_plan t ∷ audio_plans (member_id t ∷ ids) ss)
    take_in (inl j) = inl (inr j)
    take_in (inr (inl same)) = inl (inl same)
    take_in (inr (inr j)) = inr j

    go :
        (a : Bool)
        → is_audio_variant t ≡ a
        → (b : Bool) → seen (member_id t) ids ≡ b
        → In s (t ∷ ss)
        → (In s ss → Found (member_id t ∷ ids) (audio_plans (member_id t ∷ ids) ss))
        → (In s ss → Found ids (audio_plans ids ss))
        → Found ids (
            if a && not b
            then audio_plan t ∷ audio_plans (member_id t ∷ ids) ss
            else audio_plans ids ss)
    go true is false k (inl same) taken rest = inl (inl (ap member_id same))
    go true is false k (inr j) taken rest = take_in (taken j)
    go true is true k j taken rest =
        skipped j
          (λ same. subst (λ x. In (member_id x) ids) (sym same) (seen-In (member_id t) ids k)) rest
    go false is b k j taken rest =
        skipped j (λ same. absurd (not_both e (ap is_audio_variant same ∙ is))) rest

-- What a group's variant refers to: no audio is in it, and its audio group is one that has a plan.
abbrev pub Named : List ℕ → Option ℕ → Type 0
Named audio none = Unit {0}
Named audio (some id) = In id audio

abbrev pub Refers : List ℕ → Plan → Type 0
Refers audio p = All (λ s. is_audio_variant s ≡ false) p.members × Named audio p.audio_group

not-false : (b : Bool) → not b ≡ true → b ≡ false
not-false true e = cc
not-false false e = refl

media_plan-Refers :
    (audio : List ℕ) (g : EncoderVariantGroup)
    → ((s : EncoderVariant) → In s g.streams → is_audio_variant s ≡ true → In (member_id s) audio)
    → Refers audio (media_plan g)
media_plan-Refers audio g there = (
  All-map _ (λ s. is_audio_variant s ≡ false) (λ s h. not-false (is_audio_variant s) h.0)
      (media_members g) (In-retain (λ s. not (is_audio_variant s)) g.streams),
  go (find is_audio_variant g.streams) refl,
)
  where
    go :
        (o : Option EncoderVariant)
        → find is_audio_variant g.streams ≡ o
        → Named audio (id_of_member o)
    go none f = tt
    go (some s) f = let (is, i) = find-some is_audio_variant g.streams s f in there s i is

media_plans-Refers :
    (audio : List ℕ) (groups : List EncoderVariantGroup)
    → ((s : EncoderVariant)
        → In s (all_streams groups)
        → is_audio_variant s ≡ true
        → In (member_id s) audio)
    → All (Refers audio) (media_plans groups)
unfolding media_plans
media_plans-Refers audio [] there = tt
media_plans-Refers audio (g ∷ groups) there =
    All-++ (Refers audio) (unless_empty (media_members g) (media_plan g)) (media_plans groups)
      (go (media_members g))
      (media_plans-Refers audio groups
        (λ s i. there s (In-++ s g.streams (all_streams groups) (inr i))))
  where
    go : (members : List EncoderVariant) → All (Refers audio) (unless_empty members (media_plan g))
    go [] = tt
    go (s ∷ members) = (
      media_plan-Refers audio g (λ x i. there x (In-++ x g.streams (all_streams groups) (inl i))),
      tt,
    )

-- Of fMP4 segments, the renditions are first those of the audio, then those of the groups. The
-- audio renditions have distinct names, and every audio stream of a group has the one named by its
-- id. A group's rendition has no audio in it, and the audio rendition that it refers to is there.
pub plans_share_audio :
    (groups : List EncoderVariantGroup)
    → let audio = audio_plans [] (all_streams groups) in
      (plans SegmentType.fmp4 groups ≡ audio ++ media_plans groups)
      × Distinct (names audio)
      × All (λ s. In (member_id s) (names audio)) (retain is_audio_variant (all_streams groups))
      × All (Refers (names audio)) (media_plans groups)
unfolding plans
plans_share_audio groups = (
  refl,
  (audio_plans-Distinct [] (all_streams groups)).1,
  All-map _ (λ s. In (member_id s) (names (audio_plans [] (all_streams groups))))
      (λ s h. there s h.1 h.0) (retain is_audio_variant (all_streams groups))
      (In-retain is_audio_variant (all_streams groups)),
  media_plans-Refers (names (audio_plans [] (all_streams groups))) groups there,
)
  where
    there :
        (s : EncoderVariant)
        → In s (all_streams groups)
        → is_audio_variant s ≡ true
        → In (member_id s) (names (audio_plans [] (all_streams groups)))
    there s i e = elim (audio_plans-In [] (all_streams groups) s i e) [
      | inl j ↦ j
      | inr j ↦ absurd j
    ]
