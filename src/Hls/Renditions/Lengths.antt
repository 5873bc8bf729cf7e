-- ===== src/Hls/Renditions/Lengths.antt =====
-- The common segment length that crates/core/src/mux/hls/mod.rs gives to all variants.
use native.Mathlib.Nat.{lt-mul-div-succ, mul-div-le}
use zap_stream_core.Prelude.{
  ℕ, zero, suc, ◌+◌, ◌*◌, ◌/◌, ◌≤◌, ◌<◌, ◌≡◌, refl, sym, ap, subst, ◌∙◌, ◌⊎◌, inl, inr, Bool, true,
  false, Option, none, some, List, [], ◌∷◌, map, All, some_inj, arith,
}
use zap_stream_core.Hls.Time.{second, max_ℕ}
use zap_stream_core.Hls.Segment.{SegmentType}
use zap_stream_core.Hls.Playlist.{segment_length, partial_segment_length}
use zap_stream_core.Hls.Resume.{Setup, enable_low_latency}
use zap_stream_core.Hls.Renditions.{
  EncoderVariantGroup, Rendition, create_all, plans, max_gop, max_known, aligned, common_from,
  common_len, finish, finish_all, new_muxer,
}

-- A whole number of groups of pictures, at least one, and the nearest to the length.
abbrev pub Nearest : ℕ → ℕ → ℕ → Type 0
Nearest gop wanted len =
    (k : ℕ) × (len ≡ gop * k)
    × (1 ≤ k)
    × (2 * wanted < 2 * len + gop)
    × ((2 * len ≤ 2 * wanted + gop) ⊎ (len ≡ gop))

twice_mul : (gop q : ℕ) → 2 * gop * q ≡ 2 * (gop * q)
twice_mul gop q = grind arith

twice_mul_next : (gop q : ℕ) → 2 * gop * (q + 1) ≡ 2 * (gop * q) + 2 * gop
twice_mul_next gop q = grind arith

suc_max : (n : ℕ) → max_ℕ (suc n) 1 ≡ suc n
suc_max n = ground arith

mul_zero : (n : ℕ) → n * 0 ≡ 0
mul_zero n = grind arith

mul_one : (n : ℕ) → n * 1 ≡ n
mul_one n = grind arith

aligned-Nearest : (gop wanted : ℕ) → 0 < gop → Nearest gop wanted (aligned gop wanted)
unfolding aligned
aligned-Nearest gop wanted h = go q low high
  where
    q : ℕ
    q = (2 * wanted + gop) / (2 * gop)

    low : 2 * (gop * q) ≤ 2 * wanted + gop
    low = omega (arith, twice_mul gop q, mul-div-le (2 * wanted + gop) (2 * gop))

    high : 2 * wanted + gop < 2 * (gop * q) + 2 * gop
    high = omega (
      arith,
      twice_mul_next gop q,
      lt-mul-div-succ (2 * wanted + gop) {b = 2 * gop} (omega (arith, h)),
    )

    go :
        (n : ℕ)
        → 2 * (gop * n) ≤ 2 * wanted + gop
        → 2 * wanted + gop < 2 * (gop * n) + 2 * gop
        → Nearest gop wanted (gop * max_ℕ n 1)
    go zero l h1 =
        (1, refl, omega arith, omega (arith, h1, mul_zero gop, mul_one gop), inr (mul_one gop))
    go (suc n) l h1 = (
      suc n,
      ap (λ m. gop * m) (suc_max n),
      omega arith,
      subst (λ m. 2 * wanted < 2 * (gop * m) + gop) (sym (suc_max n)) (omega (arith, h1)),
      inl (subst (λ m. 2 * (gop * m) ≤ 2 * wanted + gop) (sym (suc_max n)) l),
    )

abbrev pub NearestIfKnown : Option ℕ → ℕ → ℕ → Type 0
NearestIfKnown none wanted len = Unit {0}
NearestIfKnown (some gop) wanted len = Nearest gop wanted len ⊎ (gop ≡ 0)

-- Every variant has the length; with fMP4 every one has parts of a quarter of it.
abbrev pub Uniform : SegmentType → ℕ → Rendition → Type 0
Uniform SegmentType.mpegts len r = r.variant.segment_length_target ≡ len
Uniform SegmentType.fmp4 len r =
    (r.variant.segment_length_target ≡ len)
    × (r.variant.low_latency ≡ true)
    × (r.variant.partial_target_duration ≡ max_ℕ (max_ℕ len second / 4) (second / 5))

common_len-NearestIfKnown :
    (wanted : ℕ) (rs : List Rendition)
    → NearestIfKnown (max_gop none rs) wanted (common_len wanted rs)
unfolding common_len
common_len-NearestIfKnown wanted rs = go (max_gop none rs)
  where
    go : (o : Option ℕ) → NearestIfKnown o wanted (common_from wanted rs o)
    go none = tt
    go (some zero) = inr refl
    go (some (suc gop)) = inl (aligned-Nearest (suc gop) wanted (omega arith))

finish-Uniform : (t : SegmentType) (len : ℕ) (r : Rendition) → Uniform t len (finish t len r)
unfolding finish enable_low_latency partial_segment_length segment_length
finish-Uniform SegmentType.mpegts len r = refl
finish-Uniform SegmentType.fmp4 len r = (refl, refl, refl)

finish-gop :
    (t : SegmentType) (len : ℕ) (r : Rendition) → (finish t len r).gop_length ≡ r.gop_length
unfolding finish
finish-gop SegmentType.mpegts len r = refl
finish-gop SegmentType.fmp4 len r = refl

map-Uniform :
    (t : SegmentType) (len : ℕ) (rs : List Rendition) → All (Uniform t len) (map (finish t len) rs)
map-Uniform t len [] = tt
map-Uniform t len (r ∷ rs) = (finish-Uniform t len r, map-Uniform t len rs)

max_gop-map :
    (t : SegmentType) (len : ℕ) (acc : Option ℕ) (rs : List Rendition)
    → max_gop acc (map (finish t len) rs) ≡ max_gop acc rs
max_gop-map t len acc [] = refl
max_gop-map t len acc (r ∷ rs) =
    ap (λ g. max_gop (max_known g acc) (map (finish t len) rs)) (finish-gop t len r)
    ∙ max_gop-map t len (max_known r.gop_length acc) rs

-- The variants of a muxer have one segment length; with fMP4 all have low latency, with parts of a
-- quarter of that length, taken as one second at the least, and no shorter than a fifth of a second.
-- When the duration of a group of pictures is known and not zero, the length is a whole number of
-- the longest such groups, the nearest to the length that was asked for, or one group.
pub new_muxer-Uniform :
    (root : Bool) (setup : ℕ → Setup) (encoders : List EncoderVariantGroup) (t : SegmentType)
    (wanted : ℕ) (rs : List Rendition)
    → new_muxer root setup encoders t wanted ≡ some rs
    → (len : ℕ) × All (Uniform t len) rs × NearestIfKnown (max_gop none rs) wanted len
unfolding new_muxer
new_muxer-Uniform true setup encoders t wanted rs =
    go (create_all setup t wanted (plans t encoders))
  where
    go :
        (o : Option (List Rendition))
        → finish_all t wanted o ≡ some rs
        → (len : ℕ) × All (Uniform t len) rs × NearestIfKnown (max_gop none rs) wanted len
    go none e = cc
    go (some found) e =
        let len = common_len wanted found in
        (
          len,
          subst (All (Uniform t len)) (some_inj e) (map-Uniform t len found),
          subst (λ o. NearestIfKnown o wanted len)
              (sym (max_gop-map t len none found) ∙ ap (max_gop none) (some_inj e))
              (common_len-NearestIfKnown wanted found),
        )
new_muxer-Uniform false setup encoders t wanted rs = λ e. cc
