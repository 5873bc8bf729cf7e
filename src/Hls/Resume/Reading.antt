-- ===== src/Hls/Resume/Reading.antt =====
-- A playlist that a variant (crates/core/src/mux/hls/variant.rs) wrote, read back by the next one.
use zap_stream_core.Prelude.{
  ℕ, ◌+◌, ◌≡◌, refl, sym, subst, ◌∙◌, inl, inr, true, false, Bool-cases, some_inj, Option, none,
  some, List, [], ◌∷◌, ◌++◌, map, any, arith,
}
use zap_stream_core.Prelude.Text.{Text}
use zap_stream_core.Hls.Segment.{
  HlsSegment, MediaSegment, SegmentInfo, segment_name, is_full, to_media_segment,
}
use zap_stream_core.Hls.State.{HlsVariant}
use zap_stream_core.Hls.Playlist.{media_playlist}
use zap_stream_core.Hls.Playlist.Edge.{media_sequence-Chain}
use zap_stream_core.Http.Parts.Availability.{hints, read_back}
use zap_stream_core.Hls.Sequence.{Chain}
use zap_stream_core.Http.Parts.{media}
use zap_stream_core.Hls.Resume.{
  prepend, load_segments, loaded_segment, try_load_media_seq, mark, mark_last, resumed, next_index,
  Setup, found_segments,
}
use zap_stream_core.Hls.Resume.Loading.{Finished, mark_last-Finished, next_index-Finished}

-- What the server reads of the hint is no segment.
load-hints :
    (hash : Text → Option (List ℕ)) (n : ℕ) (h : Option (Text × ℕ))
    → load_segments hash n (hints h) ≡ some []
unfolding load_segments hints
load-hints hash n none = refl
load-hints hash n (some (uri, start)) = refl

abbrev written_segment : SegmentInfo → MediaSegment
written_segment s = record {
  uri = segment_name s.kind s.index;
  duration = s.duration;
  program_date_time = some s.timestamp;
  discontinuity = s.discontinuity;
}

prepend-some :
    (n : ℕ) (f : MediaSegment) (h : Option (List ℕ)) (rest : Option (List HlsSegment))
    (ret : List HlsSegment)
    → prepend n f h rest ≡ some ret
    → (d : List ℕ) × (r : List HlsSegment) × (rest ≡ some r)
      × (HlsSegment.full (loaded_segment n f d) ∷ r ≡ ret)
unfolding prepend
prepend-some n f none rest ret e = cc
prepend-some n f (some d) none ret e = cc
prepend-some n f (some d) (some r) ret e = (d, r, refl, some_inj e)

load_written :
    (hash : Text → Option (List ℕ)) (n m : ℕ) (segs : List HlsSegment) (h : Option (Text × ℕ))
    (ret : List HlsSegment)
    → Chain n segs m
    → load_segments hash n (map to_media_segment segs ++ hints h) ≡ some ret
    → Finished n ret m × (any is_full ret ≡ any is_full segs)
unfolding load_segments to_media_segment loaded_segment
load_written hash n m [] h ret c e =
    subst (λ r. Finished n r m × (any is_full r ≡ false)) (some_inj (sym (load-hints hash n h) ∙ e))
      (c, refl)
load_written hash n m (HlsSegment.full s ∷ segs) h ret c e =
    let (d, r, found, same) =
      prepend-some n (written_segment s) (hash (written_segment s).uri)
        (load_segments hash (n + 1) (map to_media_segment segs ++ hints h)) ret e in
    let (f, _) =
      load_written hash (n + 1) m segs h r (subst (λ i. Chain i segs m) (omega arith) c.1) found in
    subst (λ r. Finished n r m × (any is_full r ≡ true)) same
      ((refl, subst (λ i. Finished i r m) (omega arith) f), refl)
load_written hash n m (HlsSegment.partial p ∷ segs) h ret c e =
    load_written hash n m segs h ret c.1 e

mark_last-full : (segs : List HlsSegment) → any is_full (mark_last segs) ≡ any is_full segs
unfolding mark_last mark
mark_last-full [] = refl
mark_last-full (HlsSegment.full s ∷ segs) = elim (Bool-cases (any is_full segs)) [
  | inl e ↦ rw e refl
  | inr e ↦ rw e refl
]
mark_last-full (HlsSegment.partial p ∷ segs) = elim (Bool-cases (any is_full segs)) [
  | inl e ↦ rw e (mark_last-full segs ∙ e)
  | inr e ↦ rw e e
]

pub resumed_index :
    (hash : Text → Option (List ℕ)) (old : HlsVariant) (n : ℕ) (ret segs : List HlsSegment)
    → Chain n old.segments old.idx
    → any is_full old.segments ≡ true
    → try_load_media_seq hash (some (media (read_back (media_playlist old)))) ≡ some ret
    → mark_last ret ≡ segs
    → next_index segs ≡ old.idx
unfolding try_load_media_seq media_playlist read_back
resumed_index hash old n ret segs chain full e marked =
    let hint = (media_playlist old).hint in
    let (f, same) = load_written hash n old.idx old.segments hint ret chain (
      subst (λ i. load_segments hash i (map to_media_segment old.segments ++ hints hint) ≡ some ret)
        (media_sequence-Chain n old.idx old.segments chain) e) in
    subst (λ s. next_index s ≡ old.idx) marked
      (next_index-Finished n old.idx (mark_last ret) (mark_last-full ret ∙ same ∙ full)
        (mark_last-Finished n old.idx ret f))

pub found-loaded :
    (setup : Setup) (ret : List HlsSegment)
    → setup.dir_exists ≡ true
    → try_load_media_seq setup.hash setup.playlist ≡ some ret
    → found_segments setup ≡ some (mark_last ret)
unfolding found_segments resumed
found-loaded setup ret there loaded = rw (there, loaded) refl
