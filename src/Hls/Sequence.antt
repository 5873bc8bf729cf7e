-- ===== src/Hls/Sequence.antt =====
-- The media sequence: the segment list of crates/core/src/mux/hls/variant.rs as a run of
-- consecutive indexes, kept by the window, the pruning and the pushes.
use zap_stream_core.Prelude.{
  ℕ, zero, suc, ◌+◌, ◌-◌, ◌≡◌, refl, List, [], ◌∷◌, ◌++◌, drop, inl, inr, Bool-cases, Option-cases,
  arith, leb, retain,
}
use zap_stream_core.Hls.Segment.{HlsSegment, full, partial, SegmentInfo, PartialSegmentInfo}
use zap_stream_core.Hls.State.{HlsVariant, Env}
use zap_stream_core.Hls.Window.{prune_old_partials, keeps_partial, clean_segments, drain_pos}

-- From index `n` on: the full segments are n, n + 1, … and the next one would be `m`; the parts
-- between them belong to the full segment that follows.
abbrev pub Chain : ℕ → List HlsSegment → ℕ → Type 0
Chain n [] m = n ≡ m
Chain n (full s ∷ segs) m = (s.index ≡ n) × Chain (suc n) segs m
Chain n (partial p ∷ segs) m = (p.parent_index ≡ n) × Chain n segs m

abbrev pub Sequence : List HlsSegment → ℕ → Type 0
Sequence segs idx = (n : ℕ) × Chain n segs idx

pub Chain-push_full :
    (n m : ℕ) (segs : List HlsSegment) (s : SegmentInfo)
    → s.index ≡ m
    → Chain n segs m
    → Chain n (segs ++ full s ∷ []) (m + 1)
Chain-push_full n m [] s e h = (omega arith, omega arith)
Chain-push_full n m (full t ∷ segs) s e h = (h.0, Chain-push_full (suc n) m segs s e h.1)
Chain-push_full n m (partial p ∷ segs) s e h = (h.0, Chain-push_full n m segs s e h.1)

pub Chain-push_partial :
    (n m : ℕ) (segs : List HlsSegment) (p : PartialSegmentInfo)
    → p.parent_index ≡ m
    → Chain n segs m
    → Chain n (segs ++ partial p ∷ []) m
Chain-push_partial n m [] p e h = (omega arith, h)
Chain-push_partial n m (full t ∷ segs) p e h = (h.0, Chain-push_partial (suc n) m segs p e h.1)
Chain-push_partial n m (partial q ∷ segs) p e h = (h.0, Chain-push_partial n m segs p e h.1)

Chain-retain :
    (n m k : ℕ) (segs : List HlsSegment)
    → Chain n segs m
    → Chain n (retain (keeps_partial k) segs) m
Chain-retain n m k [] h = h
Chain-retain n m k (full s ∷ segs) h = (h.0, Chain-retain (suc n) m k segs h.1)
Chain-retain n m k (partial p ∷ segs) h = elim (Bool-cases (leb k p.parent_index)) [
  | inl e ↦ rw e (h.0, Chain-retain n m k segs h.1)
  | inr e ↦ rw e (Chain-retain n m k segs h.1)
]

pub Chain-prune_old_partials :
    (n m k : ℕ) (segs : List HlsSegment) → Chain n segs m → Chain n (prune_old_partials segs k) m
unfolding prune_old_partials
Chain-prune_old_partials n m k segs h = Chain-retain n m (k - 3) segs h

Sequence-drop : (n m k : ℕ) (segs : List HlsSegment) → Chain n segs m → Sequence (drop k segs) m
Sequence-drop n m zero segs h = (n, h)
Sequence-drop n m (suc k) [] h = (n, h)
Sequence-drop n m (suc k) (full s ∷ segs) h = Sequence-drop (suc n) m k segs h.1
Sequence-drop n m (suc k) (partial p ∷ segs) h = Sequence-drop n m k segs h.1

pub Sequence-clean_segments :
    (env : Env) (v : HlsVariant)
    → Sequence v.segments v.idx
    → Sequence (clean_segments env v).1.segments (clean_segments env v).1.idx
      × ((clean_segments env v).1.idx ≡ v.idx)
unfolding clean_segments
Sequence-clean_segments env v h = elim (Option-cases (drain_pos v.segment_window v.segments)) [
  | inl e ↦ rw (e, clean_segments) (h, refl)
  | inr (k, e) ↦ rw (e, clean_segments) (Sequence-drop h.0 v.idx k v.segments h.1, refl)
]

pub clean_segments-written :
    (env : Env) (v : HlsVariant) → (clean_segments env v).1.written ≡ v.written
unfolding clean_segments
clean_segments-written env v = elim (Option-cases (drain_pos v.segment_window v.segments)) [
  | inl e ↦ rw (e, clean_segments) refl
  | inr (k, e) ↦ rw (e, clean_segments) refl
]
