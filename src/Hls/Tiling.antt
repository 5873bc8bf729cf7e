-- ===== src/Hls/Tiling.antt =====
-- The byte ranges of the parts in a segment list of crates/core/src/mux/hls/variant.rs: those of one
-- segment follow each other without a gap from the start of its file.
use zap_stream_core.Prelude.{
  ℕ, suc, ◌+◌, ◌-◌, ◌≤◌, ◌<◌, ◌≡◌, refl, sym, ap, subst, inl, inr, List, [], ◌∷◌, ◌++◌, some,
  retain, leb, ltb, Bool-cases, arith,
}
use zap_stream_core.Hls.Segment.{HlsSegment, full, partial, SegmentInfo, PartialSegmentInfo}
use zap_stream_core.Hls.Window.{keeps_partial, prune_old_partials}
use zap_stream_core.Hls.Sequence.{Chain}

-- From the offset `o` in the current file the parts follow each other up to `size`. Each full
-- segment begins a new file.
abbrev pub Tiled : ℕ → List HlsSegment → ℕ → Type 0
Tiled o [] size = o ≡ size
Tiled o (full s ∷ segs) size = Tiled 0 segs size
Tiled o (partial p ∷ segs) size =
    (len : ℕ) × (p.byte_range ≡ some (len, some o)) × Tiled (o + len) segs size

-- The number of parts behind the last full segment.
unfoldable pub trailing : ℕ → List HlsSegment → ℕ
trailing c [] = c
trailing c (full s ∷ segs) = trailing 0 segs
trailing c (partial p ∷ segs) = trailing (c + 1) segs

pub Tiled-push_partial :
    (o size len : ℕ) (segs : List HlsSegment) (p : PartialSegmentInfo)
    → p.byte_range ≡ some (len, some size)
    → Tiled o segs size
    → Tiled o (segs ++ partial p ∷ []) (size + len)
Tiled-push_partial o size len [] p e h = (len, rw h e, rw h refl)
Tiled-push_partial o size len (full s ∷ segs) p e h = Tiled-push_partial 0 size len segs p e h
Tiled-push_partial o size len (partial q ∷ segs) p e h =
    (h.0, h.1, Tiled-push_partial (o + h.0) size len segs p e h.2)

pub Tiled-push_full :
    (o size : ℕ) (segs : List HlsSegment) (s : SegmentInfo)
    → Tiled o segs size
    → Tiled o (segs ++ full s ∷ []) 0
Tiled-push_full o size [] s h = refl
Tiled-push_full o size (full t ∷ segs) s h = Tiled-push_full 0 size segs s h
Tiled-push_full o size (partial q ∷ segs) s h =
    (h.0, h.1, Tiled-push_full (o + h.0) size segs s h.2)

pub trailing-push_partial :
    (c : ℕ) (segs : List HlsSegment) (p : PartialSegmentInfo)
    → trailing c (segs ++ partial p ∷ []) ≡ trailing c segs + 1
unfolding trailing
trailing-push_partial c [] p = refl
trailing-push_partial c (full s ∷ segs) p = trailing-push_partial 0 segs p
trailing-push_partial c (partial q ∷ segs) p = trailing-push_partial (c + 1) segs p

pub trailing-push_full :
    (c : ℕ) (segs : List HlsSegment) (s : SegmentInfo) → trailing c (segs ++ full s ∷ []) ≡ 0
unfolding trailing
trailing-push_full c [] s = refl
trailing-push_full c (full t ∷ segs) s = trailing-push_full 0 segs s
trailing-push_full c (partial q ∷ segs) s = trailing-push_full (c + 1) segs s

-- Pruning removes nothing of a list that begins at the oldest index to keep, ...
retain_all :
    (n m k : ℕ) (segs : List HlsSegment)
    → k ≤ n
    → Chain n segs m
    → retain (keeps_partial k) segs ≡ segs
retain_all n m k [] le h = refl
retain_all n m k (full s ∷ segs) le h =
    ap (◌∷◌ (full s)) (retain_all (suc n) m k segs (omega arith) h.1)
retain_all n m k (partial p ∷ segs) le h = elim (Bool-cases (leb k p.parent_index)) [
  | inl e ↦ rw e (ap (◌∷◌ (partial p)) (retain_all n m k segs le h.1))
  | inr e ↦ absurd (ground arith)
]

-- ... and below that index it removes the parts of whole segments.
Tiled-retain :
    (n m k o p size : ℕ) (segs : List HlsSegment)
    → n < k
    → k ≤ m
    → Chain n segs m
    → Tiled o segs size
    → Tiled p (retain (keeps_partial k) segs) size
Tiled-retain n m k o p size [] lt le h t = absurd (omega arith)
Tiled-retain n m k o p size (full s ∷ segs) lt le h t = elim (Bool-cases (ltb (suc n) k)) [
  | inl e ↦ Tiled-retain (suc n) m k 0 0 size segs (ground arith) le h.1 t
  | inr e ↦ subst (λ xs. Tiled 0 xs size) (sym (retain_all (suc n) m k segs (ground arith) h.1)) t
]
Tiled-retain n m k o p size (partial q ∷ segs) lt le h t =
    elim (Bool-cases (leb k q.parent_index)) [
      | inl e ↦ absurd (ground arith)
      | inr e ↦ rw e (Tiled-retain n m k (o + t.0) p size segs lt le h.1 t.2)
    ]

trailing-retain :
    (n m k c d : ℕ) (segs : List HlsSegment)
    → n < k
    → k ≤ m
    → Chain n segs m
    → trailing d (retain (keeps_partial k) segs) ≡ trailing c segs
unfolding trailing
trailing-retain n m k c d [] lt le h = absurd (omega arith)
trailing-retain n m k c d (full s ∷ segs) lt le h = elim (Bool-cases (ltb (suc n) k)) [
  | inl e ↦ trailing-retain (suc n) m k 0 0 segs (ground arith) le h.1
  | inr e ↦ ap (trailing 0) (retain_all (suc n) m k segs (ground arith) h.1)
]
trailing-retain n m k c d (partial q ∷ segs) lt le h = elim (Bool-cases (leb k q.parent_index)) [
  | inl e ↦ absurd (ground arith)
  | inr e ↦ rw e (trailing-retain n m k (c + 1) d segs lt le h.1)
]

-- Both survive the pruning at the index that the list leads up to.
pub Tiled-prune_old_partials :
    (n m size : ℕ) (segs : List HlsSegment)
    → Chain n segs m
    → Tiled 0 segs size
    → Tiled 0 (prune_old_partials segs m) size
unfolding prune_old_partials
Tiled-prune_old_partials n m size segs h t = elim (Bool-cases (ltb n (m - 3))) [
  | inl e ↦ Tiled-retain n m (m - 3) 0 0 size segs (ground arith) (omega arith) h t
  | inr e ↦ subst (λ xs. Tiled 0 xs size) (sym (retain_all n m (m - 3) segs (ground arith) h)) t
]

pub trailing-prune_old_partials :
    (n m : ℕ) (segs : List HlsSegment)
    → Chain n segs m
    → trailing 0 (prune_old_partials segs m) ≡ trailing 0 segs
unfolding prune_old_partials
trailing-prune_old_partials n m segs h = elim (Bool-cases (ltb n (m - 3))) [
  | inl e ↦ trailing-retain n m (m - 3) 0 0 segs (ground arith) (omega arith) h
  | inr e ↦ ap (trailing 0) (retain_all n m (m - 3) segs (ground arith) h)
]

-- A suffix that begins with a full segment is tiled and counted as the whole list is.
pub Tiled-suffix :
    (o p size : ℕ) (xs : List HlsSegment) (s : SegmentInfo) (ys : List HlsSegment)
    → Tiled o (xs ++ full s ∷ ys) size
    → Tiled p (full s ∷ ys) size
Tiled-suffix o p size [] s ys t = t
Tiled-suffix o p size (full x ∷ xs) s ys t = Tiled-suffix 0 p size xs s ys t
Tiled-suffix o p size (partial x ∷ xs) s ys t = Tiled-suffix (o + t.0) p size xs s ys t.2

trailing-suffix :
    (c d : ℕ) (xs : List HlsSegment) (s : SegmentInfo) (ys : List HlsSegment)
    → trailing c (xs ++ full s ∷ ys) ≡ trailing d (full s ∷ ys)
unfolding trailing
trailing-suffix c d [] s ys = refl
trailing-suffix c d (full x ∷ xs) s ys = trailing-suffix 0 d xs s ys
trailing-suffix c d (partial x ∷ xs) s ys = trailing-suffix (c + 1) d xs s ys
