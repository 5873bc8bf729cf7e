-- ===== src/Pipeline/Variants/Levels.antt =====
-- The H.264 level of a variant, `derive_h264_level` of crates/core/src/variant/video.rs.
use zap_stream_core.Prelude.{
  ℕ, ◌*◌, ◌≤◌, ◌≡◌, refl, sym, ap, subst, ◌⊎◌, inl, inr, Bool, true, false, Option-cases, some,
  List, [], ◌∷◌, if◌then◌else◌, find, find-some, In, some_inj, arith,
}
use zap_stream_core.Pipeline.Variants.{
  VideoVariant, Level, levels, fits, level_or, derive_h264_level, macroblocks, macroblock_rate,
  div_ceil, level_fps, frame_unit,
}

-- The levels ascend along the table.
abbrev AllFrom : ℕ → List Level → Type 0
AllFrom idc [] = Unit {0}
AllFrom idc (l ∷ ls) = (idc ≤ l.level_idc) × AllFrom l.level_idc ls

levels-AllFrom : AllFrom 10 levels
unfolding levels
levels-AllFrom = omega arith

from_below : (idc : ℕ) (ls : List Level) (l : Level) → AllFrom idc ls → In l ls → idc ≤ l.level_idc
from_below idc [] l h i = absurd i
from_below idc (m ∷ ls) l h (inl e) = subst (λ x. idc ≤ x.level_idc) (sym e) h.0
from_below idc (m ∷ ls) l h (inr i) = omega (arith, h.0, from_below m.level_idc ls l h.1 i)

-- The first row that fits has the least level of those that fit.
first_least :
    (p : Level → Bool) (idc : ℕ) (ls : List Level) (l m : Level)
    → AllFrom idc ls
    → In l ls
    → p l ≡ true
    → find p ls ≡ some m
    → m.level_idc ≤ l.level_idc
first_least p idc [] l m h i t e = absurd i
first_least p idc (x ∷ ls) l m h i t e = go (p x) refl (first_least p x.level_idc ls l m h.1) e i
  where
    clash : p x ≡ false → l ≡ x → ⊥
    clash f same = absurd (not_both (p x) f (subst (λ z. p z ≡ true) same t))
      where
        not_both : (b : Bool) → b ≡ false → b ≡ true → ⊥
        not_both b f t = cc

    go :
        (b : Bool)
        → p x ≡ b
        → (In l ls → p l ≡ true → find p ls ≡ some m → m.level_idc ≤ l.level_idc)
        → (if b then some x else find p ls) ≡ some m
        → (l ≡ x) ⊎ In l ls
        → m.level_idc ≤ l.level_idc
    go true f ih e (inl same) =
        omega (arith, ap (λ z. z.level_idc) same, ap (λ z. z.level_idc) (some_inj e))
    go true f ih e (inr i) =
        omega (arith, from_below x.level_idc ls l h.1 i, ap (λ z. z.level_idc) (some_inj e))
    go false f ih e (inl same) = absurd (clash f same)
    go false f ih e (inr i) = ih i t e

found_row :
    (p : Level → Bool) (ls : List Level) (l : Level)
    → In l ls
    → p l ≡ true
    → (m : Level) × (find p ls ≡ some m)
found_row p [] l i t = absurd i
found_row p (x ∷ ls) l i t = go (p x) refl (found_row p ls l) i
  where
    go :
        (b : Bool)
        → p x ≡ b
        → (In l ls → p l ≡ true → (m : Level) × (find p ls ≡ some m))
        → (l ≡ x) ⊎ In l ls
        → (m : Level) × ((if b then some x else find p ls) ≡ some m)
    go true f ih i = (x, refl)
    go false f ih (inl same) = cc
    go false f ih (inr i) = ih i t

-- When some row of the table admits the variant, its level is the least of a row that does.
pub derive_h264_level-least :
    (v : VideoVariant) (l : Level)
    → In l levels
    → fits (macroblocks v) (macroblock_rate v) v.bitrate l ≡ true
    → ((m : Level) × In m levels
        × (fits (macroblocks v) (macroblock_rate v) v.bitrate m ≡ true)
        × (derive_h264_level v ≡ m.level_idc))
      × (derive_h264_level v ≤ l.level_idc)
unfolding derive_h264_level
derive_h264_level-least v l i t =
    let admits = fits (macroblocks v) (macroblock_rate v) v.bitrate in
    let (m, e) = found_row admits levels l i t in
    let (fine, there) = find-some admits levels m e in
    let same = ap level_or e in
    (
      (m, there, fine, same),
      omega (arith, same, first_least admits 10 levels l m levels-AllFrom i t e),
    )

-- Nothing is above the highest level.
at_most_62 : (p : Level → Bool) → level_or (find p levels) ≤ 62
unfolding levels
at_most_62 p = elim (Option-cases (find p levels)) [
  | inl e ↦ omega (arith, ap level_or e)
  | inr (m, e) ↦
      omega (arith, ap level_or e, highest levels m (find-some p levels m e).1 levels_up_to)
]
  where
    UpTo : List Level → Type 0
    UpTo [] = Unit {0}
    UpTo (l ∷ ls) = (l.level_idc ≤ 62) × UpTo ls

    levels_up_to : UpTo levels
    levels_up_to = omega arith

    highest : (ls : List Level) (m : Level) → In m ls → UpTo ls → m.level_idc ≤ 62
    highest [] m i h = absurd i
    highest (l ∷ ls) m (inl e) h = omega (arith, h.0, ap (λ z. z.level_idc) e)
    highest (l ∷ ls) m (inr i) h = highest ls m i h.1

fits_less :
    (mbs mbps bits mbs' mbps' bits' : ℕ) (l : Level)
    → mbs ≤ mbs'
    → mbps ≤ mbps'
    → bits ≤ bits'
    → fits mbs' mbps' bits' l ≡ true
    → fits mbs mbps bits l ≡ true
fits_less mbs mbps bits mbs' mbps' bits' l a b c t = ground (arith, a, b, c, t)

blocks_mono : (a b : ℕ) → a ≤ b → div_ceil a 16 ≤ div_ceil b 16
blocks_mono a b h = omega (arith, h)

rate_mono : (a b : ℕ) → a ≤ b → div_ceil a frame_unit ≤ div_ceil b frame_unit
rate_mono a b h = omega (arith, h)

mul_mono : (a b c d : ℕ) → a ≤ b → c ≤ d → a * c ≤ b * d
mul_mono a b c d h k = grind (arith, h, k)

-- A variant that is no smaller, slower or of fewer bits has no lower level.
derive_h264_level_mono :
    (v w : VideoVariant)
    → v.width ≤ w.width
    → v.height ≤ w.height
    → level_fps v.fps ≤ level_fps w.fps
    → v.bitrate ≤ w.bitrate
    → derive_h264_level v ≤ derive_h264_level w
unfolding derive_h264_level
derive_h264_level_mono v w a b c d =
    let bigger =
      mul_mono (div_ceil v.width 16) (div_ceil w.width 16) (div_ceil v.height 16)
        (div_ceil w.height 16) (blocks_mono v.width w.width a) (blocks_mono v.height w.height b) in
    let faster =
      rate_mono (macroblocks v * level_fps v.fps) (macroblocks w * level_fps w.fps)
        (mul_mono (macroblocks v) (macroblocks w) (level_fps v.fps) (level_fps w.fps) bigger c) in
    elim (Option-cases (find (fits (macroblocks w) (macroblock_rate w) w.bitrate) levels)) [
      | inl none_fits ↦ omega (
        arith,
        ap level_or none_fits,
        at_most_62 (fits (macroblocks v) (macroblock_rate v) v.bitrate),
      )
      | inr (m, e) ↦
          let (fine, there) =
            find-some (fits (macroblocks w) (macroblock_rate w) w.bitrate) levels m e in
          let least =
            (derive_h264_level-least v m there (
              fits_less (macroblocks v) (macroblock_rate v) v.bitrate (macroblocks w)
                (macroblock_rate w) w.bitrate m bigger faster d fine)).1 in
          omega (arith, least, ap level_or e)
    ]
