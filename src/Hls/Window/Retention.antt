-- ===== src/Hls/Window/Retention.antt =====
-- The sliding window of crates/core/src/mux/hls/variant.rs: what `clean_segments` removes and what
-- it keeps.
use mathlib.Core.List.{reverse-cons}
use mathlib.Core.Logic.{if_pos, if_neg}
use zap_stream_core.Prelude.{
  ℕ, suc, ◌≤◌, ◌≡◌, ◌≢◌, false, refl, sym, ap, subst, ◌∙◌, inl, inr, List, [], ◌∷◌, ◌++◌, Option,
  none, some, take, drop, retain, reverse, Bool-cases, arith,
}
use zap_stream_core.Prelude.Int.{ℤ, pos, ◌+ℤ◌, ◌≤ℤ◌, leb_ℤ, +ℤ_parts, int_laws}
use zap_stream_core.Hls.Segment.{
  HlsSegment, full, partial, HlsSegment-discrete, SegmentInfo, is_full,
}
use zap_stream_core.Hls.Window.{duration, drain_from, position, one_on}
use zap_stream_core.Hls.Sequence.{Chain}

-- The media time that a list of segments covers.
unfoldable pub total : List HlsSegment → ℤ
total [] = pos 0
total (s ∷ segs) = duration s +ℤ total segs

total-append : (xs ys : List HlsSegment) → total (xs ++ ys) ≡ total xs +ℤ total ys
unfolding total
total-append [] ys = omega int_laws
total-append (x ∷ xs) ys = rw (total-append xs ys) (omega int_laws)

pub total-reverse : (xs : List HlsSegment) → total (reverse xs) ≡ total xs
unfolding total
total-reverse [] = refl
total-reverse (x ∷ xs) =
    ap total (reverse-cons x xs)
    ∙ total-append (reverse xs) (x ∷ [])
    ∙ rw (total-reverse xs) (omega int_laws)

-- The segments are `newer ++ s ∷ older`, newest first: `newer` covers the window, and does not
-- without its oldest segment.
pub record Split (window acc : ℤ) (segs : List HlsSegment) (s : HlsSegment) : Type 0 where
  pub newer : List HlsSegment
  pub older : List HlsSegment
  pub split : segs ≡ newer ++ s ∷ older
  pub covers : window ≤ℤ acc +ℤ total newer
  pub tight :
      (xs : List HlsSegment) (x : HlsSegment) → newer ≡ xs ++ x ∷ [] → ¬ (window ≤ℤ acc +ℤ total xs)

nil-ne-snoc : (xs : List HlsSegment) (x : HlsSegment) → [] ≢ xs ++ x ∷ []
nil-ne-snoc [] x e = cc
nil-ne-snoc (y ∷ xs) x e = cc

uncovered : (window acc : ℤ) → leb_ℤ window acc ≡ false → ¬ (window ≤ℤ acc)
uncovered window acc f h = ground arith

tight-cons :
    (window acc : ℤ) (y : HlsSegment) (newer xs : List HlsSegment) (x : HlsSegment)
    → leb_ℤ window acc ≡ false
    → ((zs : List HlsSegment) (z : HlsSegment)
        → newer ≡ zs ++ z ∷ []
        → ¬ (window ≤ℤ (acc +ℤ duration y) +ℤ total zs))
    → y ∷ newer ≡ xs ++ x ∷ []
    → ¬ (window ≤ℤ acc +ℤ total xs)
unfolding total
tight-cons window acc y newer [] x f h e k = uncovered window acc f (omega (int_laws, k))
tight-cons window acc y newer (z ∷ zs) x f h e k =
    let same : z ≡ y = cc in
    h zs x (cc) (subst (λ d. window ≤ℤ (acc +ℤ duration d) +ℤ total zs) same (omega (int_laws, k)))

pub drain_from-Split :
    (window acc : ℤ) (segs : List HlsSegment) (s : HlsSegment)
    → drain_from window acc segs ≡ some s
    → Split window acc segs s
unfolding drain_from total
drain_from-Split window acc [] s e = cc
drain_from-Split window acc (x ∷ segs) s e = elim (Bool-cases (leb_ℤ window acc)) [
  | inl t ↦ record {
    newer = [];
    older = segs;
    split = ap (λ y. y ∷ segs) (ground arith);
    covers = ground (arith, +ℤ_parts acc (pos 0));
    tight = λ xs y n. absurd (nil-ne-snoc xs y n);
  }
  | inr f ↦
      let ih : Split window (acc +ℤ duration x) segs s =
        drain_from-Split window (acc +ℤ duration x) segs s (ground arith) in
      record {
        newer = x ∷ ih.newer;
        older = ih.older;
        split = ap (◌∷◌ x) ih.split;
        covers = omega (int_laws, ih.covers);
        tight = λ xs y n. tight-cons window acc x ih.newer xs y f ih.tight n;
      }
]

pub drain_from-none :
    (window acc : ℤ) (xs : List HlsSegment) (x : HlsSegment) (ys : List HlsSegment)
    → drain_from window acc (xs ++ x ∷ ys) ≡ none
    → ¬ (window ≤ℤ acc +ℤ total xs)
unfolding drain_from total
drain_from-none window acc [] x ys e k = elim (Bool-cases (leb_ℤ window acc)) [
  | inl t ↦ ground arith
  | inr f ↦ uncovered window acc f (omega (int_laws, k))
]
drain_from-none window acc (z ∷ xs) x ys e k = elim (Bool-cases (leb_ℤ window acc)) [
  | inl t ↦ ground arith
  | inr f ↦ drain_from-none window (acc +ℤ duration z) xs x ys (ground arith) (omega (int_laws, k))
]

-- Full segments with consecutive indexes from `n` on.
abbrev pub Run : ℕ → List HlsSegment → Type 0
Run n [] = Unit {0}
Run n (full s ∷ segs) = (s.index ≡ n) × Run (suc n) segs
Run n (partial p ∷ segs) = ⊥

pub Run-retain : (n m : ℕ) (segs : List HlsSegment) → Chain n segs m → Run n (retain is_full segs)
Run-retain n m [] h = tt
Run-retain n m (full s ∷ segs) h = (h.0, Run-retain (suc n) m segs h.1)
Run-retain n m (partial p ∷ segs) h = Run-retain n m segs h.1

Run-tail : (n : ℕ) (x : HlsSegment) (xs : List HlsSegment) → Run n (x ∷ xs) → Run (suc n) xs
Run-tail n (full s) xs r = r.1
Run-tail n (partial p) xs r = absurd r

Run-index :
    (n : ℕ) (xs : List HlsSegment) (t : SegmentInfo) (ys : List HlsSegment)
    → Run n (xs ++ full t ∷ ys)
    → n ≤ t.index
Run-index n [] t ys r = omega arith
Run-index n (x ∷ xs) t ys r =
    omega (arith, Run-index (suc n) xs t ys (Run-tail n x (xs ++ full t ∷ ys) r))

-- In such a run a segment stands at one place only.
pub Run-split :
    (n : ℕ) (t : SegmentInfo) (xs ys zs ws : List HlsSegment)
    → Run n (xs ++ full t ∷ ys)
    → xs ++ full t ∷ ys ≡ zs ++ full t ∷ ws
    → ys ≡ ws
Run-split n t [] ys [] ws r e = cc
Run-split n t [] ys (z ∷ zs) ws r e =
    let e' : ys ≡ zs ++ full t ∷ ws = cc in
    absurd (omega (arith, r.0, Run-index (suc n) zs t ws (subst (Run (suc n)) e' r.1)))
Run-split n t (x ∷ xs) ys [] ws r e =
    let e' : x ≡ full t = cc in
    let r' : Run n (full t ∷ xs ++ full t ∷ ys) = subst (λ z. Run n (z ∷ xs ++ full t ∷ ys)) e' r in
    absurd (omega (arith, r'.0, Run-index (suc n) xs t ys r'.1))
Run-split n t (x ∷ xs) ys (z ∷ zs) ws r e =
    Run-split (suc n) t xs ys zs ws (Run-tail n x (xs ++ full t ∷ ys) r) (cc)

-- The first place of a segment.
pub record Place (s : HlsSegment) (segs : List HlsSegment) (n : ℕ) : Type 0 where
  pub before : List HlsSegment
  pub after : List HlsSegment
  pub place : segs ≡ before ++ s ∷ after
  pub taken : take n segs ≡ before
  pub left : drop n segs ≡ s ∷ after

position-here : (s x : HlsSegment) (segs : List HlsSegment) → x ≡ s → position s (x ∷ segs) ≡ some 0
unfolding position
position-here s x segs e = if_pos (HlsSegment-discrete x s) e (some 0) (one_on (position s segs))

position-later :
    (s x : HlsSegment) (segs : List HlsSegment)
    → ¬ (x ≡ s)
    → position s (x ∷ segs) ≡ one_on (position s segs)
unfolding position
position-later s x segs e = if_neg (HlsSegment-discrete x s) e (some 0) (one_on (position s segs))

zero_of_some : (n : ℕ) → ◌≡◌ {A = Option ℕ} (some 0) (some n) → 0 ≡ n
zero_of_some n e = ground arith

one_on-some : (o : Option ℕ) (n : ℕ) → one_on o ≡ some n → (i : ℕ) × (o ≡ some i) × (n ≡ suc i)
one_on-some none n e = cc
one_on-some (some i) n e = (i, refl, ground arith)

Place-later :
    (s x : HlsSegment) (segs : List HlsSegment) (i : ℕ)
    → Place s segs i
    → Place s (x ∷ segs) (suc i)
Place-later s x segs i p = record {
  before = x ∷ p.before;
  after = p.after;
  place = ap (◌∷◌ x) p.place;
  taken = ap (◌∷◌ x) p.taken;
  left = p.left;
}

Place-here : (s x : HlsSegment) (segs : List HlsSegment) → x ≡ s → Place s (x ∷ segs) 0
Place-here s x segs e = record {
  before = [];
  after = segs;
  place = ap (λ y. y ∷ segs) e;
  taken = refl;
  left = ap (λ y. y ∷ segs) e;
}

pub position-Place :
    (s : HlsSegment) (segs : List HlsSegment) (n : ℕ) → position s segs ≡ some n → Place s segs n
unfolding position
position-Place s [] n e = cc
position-Place s (x ∷ segs) n e = elim (HlsSegment-discrete x s) [
  | yes same ↦
      let at : 0 ≡ n = zero_of_some n (sym (position-here s x segs same) ∙ e) in
      subst (Place s (x ∷ segs)) at (Place-here s x segs same)
  | no other ↦
      let (i, found, next) =
        one_on-some (position s segs) n (sym (position-later s x segs other) ∙ e) in
      subst (Place s (x ∷ segs)) (sym next) (Place-later s x segs i (position-Place s segs i found))
]

-- A full segment of the list has a place.
pub position-full :
    (t : SegmentInfo) (segs xs ys : List HlsSegment)
    → retain is_full segs ≡ xs ++ full t ∷ ys
    → (n : ℕ) × (position (full t) segs ≡ some n)
position-full t [] [] ys e = cc
position-full t [] (x ∷ xs) ys e = cc
position-full t (partial p ∷ segs) xs ys e =
    let (n, at) = position-full t segs xs ys e in
    (
      suc n,
      position-later (full t) (partial p) segs (λ (c : partial p ≡ full t). cc) ∙ ap one_on at,
    )
position-full t (full s ∷ segs) [] ys e = (0, position-here (full t) (full s) segs (cc))
position-full t (full s ∷ segs) (x ∷ xs) ys e = elim (HlsSegment-discrete (full s) (full t)) [
  | yes same ↦ (0, position-here (full t) (full s) segs same)
  | no other ↦
      let (n, at) = position-full t segs xs ys (cc) in
      (suc n, position-later (full t) (full s) segs other ∙ ap one_on at)
]
