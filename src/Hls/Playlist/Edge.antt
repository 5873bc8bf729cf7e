-- ===== src/Hls/Playlist/Edge.antt =====
-- The live edge that `write_playlist` of crates/core/src/mux/hls/variant.rs publishes: the first
-- media sequence number and the start of the next part.
use mathlib.Core.List.{reverse-cons}
use zap_stream_core.Prelude.{
  ℕ, suc, ◌+◌, ◌≤◌, ◌<◌, ◌≡◌, refl, sym, ap, ◌∙◌, none, some, List, [], ◌∷◌, ◌++◌, reverse,
  append_assoc, append-nil, arith,
}
use zap_stream_core.Hls.Segment.{HlsSegment, full, partial, SegmentInfo, PartialSegmentInfo}
use zap_stream_core.Hls.State.{HlsVariant}
use zap_stream_core.Hls.Sequence.{Chain}
use zap_stream_core.Hls.Tiling.{Tiled}
use zap_stream_core.Hls.Playlist.{media_sequence, last_part_end, next_part_start, or_zero}

-- The published media sequence number is the index at which the list begins.
pub media_sequence-Chain :
    (n m : ℕ) (segs : List HlsSegment) → Chain n segs m → media_sequence segs m ≡ n
unfolding media_sequence
media_sequence-Chain n m [] h = sym h
media_sequence-Chain n m (full s ∷ segs) h = h.0
media_sequence-Chain n m (partial p ∷ segs) h = media_sequence-Chain n m segs h.1

Chain-le : (n m : ℕ) (segs : List HlsSegment) → Chain n segs m → n ≤ m
Chain-le n m [] h = omega arith
Chain-le n m (full s ∷ segs) h = omega (arith, Chain-le (suc n) m segs h.1)
Chain-le n m (partial p ∷ segs) h = Chain-le n m segs h.1

-- What has been passed, newest first, on the way through a chain at index `n` and offset `o`.
record Passed (m n o : ℕ) (older : List HlsSegment) : Type 0 where
  at_end : n ≡ m → or_zero (last_part_end m older) ≡ o
  before_end : n < m → last_part_end m older ≡ none

Passed-full :
    (m n o : ℕ) (older : List HlsSegment) (s : HlsSegment)
    → n < m
    → last_part_end m (s ∷ older) ≡ last_part_end m older
    → Passed m n o older
    → Passed m (suc n) 0 (s ∷ older)
Passed-full m n o older s lt e p = record {
  at_end = λ _. ap or_zero (e ∙ p.before_end lt);
  before_end = λ _. e ∙ p.before_end lt;
}

last_part_end-own :
    (m o len : ℕ) (p : PartialSegmentInfo) (older : List HlsSegment)
    → p.parent_index ≡ m
    → p.byte_range ≡ some (len, some o)
    → last_part_end m (partial p ∷ older) ≡ some (o + len)
unfolding last_part_end
last_part_end-own m o len p older e r = ground arith

last_part_end-other :
    (m n : ℕ) (p : PartialSegmentInfo) (older : List HlsSegment)
    → p.parent_index ≡ n
    → n < m
    → last_part_end m (partial p ∷ older) ≡ last_part_end m older
unfolding last_part_end
last_part_end-other m n p older e lt = ground arith

Passed-partial :
    (m n o len : ℕ) (older : List HlsSegment) (p : PartialSegmentInfo)
    → p.parent_index ≡ n
    → p.byte_range ≡ some (len, some o)
    → Passed m n o older
    → Passed m n (o + len) (partial p ∷ older)
Passed-partial m n o len older p e r h = record {
  at_end = λ same. ap or_zero (last_part_end-own m o len p older (e ∙ same) r);
  before_end = λ lt. last_part_end-other m n p older e lt ∙ h.before_end lt;
}

last_part_end-full :
    (m : ℕ) (s : SegmentInfo) (older : List HlsSegment)
    → last_part_end m (full s ∷ older) ≡ last_part_end m older
unfolding last_part_end
last_part_end-full m s older = refl

edge_from :
    (n m o size : ℕ) (segs older : List HlsSegment)
    → Chain n segs m
    → Tiled o segs size
    → Passed m n o older
    → or_zero (last_part_end m (reverse segs ++ older)) ≡ size
edge_from n m o size [] older h t p = p.at_end h ∙ t
edge_from n m o size (full s ∷ segs) older h t p =
    rw (reverse-cons (full s) segs, append_assoc)
      (edge_from (suc n) m 0 size segs (full s ∷ older) h.1 t (
        Passed-full m n o older (full s) (Chain-le (suc n) m segs h.1)
          (last_part_end-full m s older) p))
edge_from n m o size (partial q ∷ segs) older h t p =
    rw (reverse-cons (partial q) segs, append_assoc)
      (edge_from n m (o + t.0) size segs (partial q ∷ older) h.1 t.2
        (Passed-partial m n o t.0 older q h.0 t.1 p))

-- The hinted start of the next part is the published size of the current file.
pub next_part_start-written :
    (v : HlsVariant) (n : ℕ)
    → Chain n v.segments v.idx
    → Tiled 0 v.segments v.written
    → next_part_start v ≡ v.written
unfolding next_part_start
next_part_start-written v n h t =
    ap (λ xs. or_zero (last_part_end v.idx xs)) (sym (append-nil (reverse v.segments)))
    ∙ edge_from n v.idx 0 v.written v.segments [] h t none_passed
  where
    none_passed : Passed v.idx n 0 []
    none_passed = unfold last_part_end in record { at_end = λ _. refl; before_end = λ _. refl }
