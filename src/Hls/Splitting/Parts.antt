-- ===== src/Hls/Splitting/Parts.antt =====
-- The parts of the segment in progress across `process_packet` of
-- crates/core/src/mux/hls/variant.rs: their byte ranges and their number.
use zap_stream_core.Prelude.{
  ℕ, ◌+◌, ◌≡◌, refl, sym, ap, subst, ◌∙◌, inl, inr, Bool, true, false, List, [], ◌∷◌, ◌==◌, Option,
  none, some, Bool-cases, arith,
}
use zap_stream_core.Prelude.Int.{ℤ}
use zap_stream_core.Hls.Segment.{HlsSegment}
use zap_stream_core.Hls.State.{
  HlsVariant, Env, IoStep, Error, io, FileId, append_part, write_part_playlist, create_segment,
  hash_segment, misaligned_part, panicked, modify, Outcome, ◌>>◌,
}
use zap_stream_core.Hls.Outcome.{Outcome-bind, Outcome-weaken}
use zap_stream_core.Hls.Playlist.{write_playlist}
use zap_stream_core.Hls.Sequence.{Sequence, Chain-push_partial}
use zap_stream_core.Hls.Tiling.{Tiled, trailing, Tiled-push_partial, trailing-push_partial}
use zap_stream_core.Hls.Splitting.Outcome.{On, write_playlist-Keeps}
use zap_stream_core.Hls.Splitting.{
  append_chunk, drain_to_current_file, publish_pushed, push_partial, is_aligned, ensure,
  publish_partial, split_partial_segment,
}

-- The list is in sequence; the parts of each file are tiled, those of the current file up to its
-- published size; and `current_partial_index` is the number of the latter.
abbrev pub Live : List HlsSegment → ℕ → ℕ → ℕ → Type 0
Live segs idx count size = Sequence segs idx × Tiled 0 segs size × (trailing 0 segs ≡ count)

-- The failures that leave the parts as they should be: all but those between the closing of a
-- segment and its commit, and a part that is not aligned.
abbrev pub is_harmless : Error → Bool
is_harmless (io create_segment) = false
is_harmless (io hash_segment) = false
is_harmless misaligned_part = false
is_harmless panicked = false
is_harmless _ = true

abbrev pub LiveOnError : Error → HlsVariant → Type 0
LiveOnError e w = is_harmless e ≡ true → On Live w

-- The bytes that are appended are counted.
append_chunk-written :
    (P : List HlsSegment → ℕ → ℕ → Type 0) (env : Env) (step : IoStep) (f : Option FileId)
    (chunk : List ℕ) (v : HlsVariant)
    → P v.segments v.idx v.current_partial_index
    → Outcome
        (λ size w. P w.segments w.idx w.current_partial_index × (w.written ≡ v.written + size))
        (λ e w. P w.segments w.idx w.current_partial_index × (w.written ≡ v.written))
        (append_chunk env step f chunk v)
unfolding append_chunk
append_chunk-written P env step f [] v h = (h, omega arith)
append_chunk-written P env step none (b ∷ chunk) v h = (h, refl)
append_chunk-written P env step (some k) (b ∷ chunk) v h = elim (Bool-cases (env.fails step)) [
  | inl e ↦ rw e (h, refl)
  | inr e ↦ rw e (h, refl)
]

pub drain-written :
    (P : List HlsSegment → ℕ → ℕ → Type 0) (env : Env) (step : IoStep) (flushed : List ℕ)
    (v : HlsVariant)
    → P v.segments v.idx v.current_partial_index
    → Outcome
        (λ size w. P w.segments w.idx w.current_partial_index × (w.written ≡ v.written + size))
        (λ e w. P w.segments w.idx w.current_partial_index × (w.written ≡ v.written))
        (drain_to_current_file env step flushed v)
unfolding drain_to_current_file
drain-written P env step flushed v h = append_chunk-written P env step v.current_file _ _ h

-- The list as it was at a published size of `start`, with `size` bytes appended since.
abbrev Grown : ℕ → ℕ → HlsVariant → Type 0
Grown start size v =
    Live v.segments v.idx v.current_partial_index start × (v.written ≡ start + size)

push_partial-Live :
    (t : ℤ) (start size : ℕ) (v : HlsVariant)
    → Grown start size v
    → On Live (push_partial t size start v)
unfolding push_partial
push_partial-Live t start size v ((seq, tiled, counted), grown) = (
  (seq.0, Chain-push_partial seq.0 v.idx v.segments _ refl seq.1),
  rw grown (Tiled-push_partial 0 start size v.segments _ refl tiled),
  trailing-push_partial 0 v.segments _ ∙ ap (λ (n : ℕ). n + 1) counted,
)

publish_pushed-Live :
    (env : Env) (t : ℤ) (start size : ℕ) (v : HlsVariant)
    → Grown start size v
    → Outcome (λ _ w. On Live w) LiveOnError (publish_pushed env t start size v)
unfolding publish_pushed
publish_pushed-Live env t start size v h =
    Outcome-bind (λ _ w. Grown start size w) (λ _ w. On Live w) LiveOnError
      (ensure (is_aligned v.segment_type v.written) misaligned_part)
      (λ _. do modify (push_partial t size start); write_playlist env write_part_playlist) v
      (aligned (is_aligned v.segment_type v.written))
      (λ _ w p.
        Outcome-weaken _ _ _ _
          (write_playlist env write_part_playlist (push_partial t size start w))
          (write_playlist-Keeps Live env write_part_playlist (push_partial t size start w)
            (push_partial-Live t start size w p))
          (λ _ _ q. q) (λ _ _ q _. q))
  where
    aligned :
        (b : Bool) → Outcome (λ _ w. Grown start size w) LiveOnError (ensure b misaligned_part v)
    aligned true = unfold ensure in h
    aligned false = unfold ensure in λ c. cc

publish_partial-Live :
    (env : Env) (t : ℤ) (start size : ℕ) (v : HlsVariant)
    → Grown start size v
    → Outcome (λ _ w. On Live w) LiveOnError (publish_partial env t start size v)
unfolding publish_partial
publish_partial-Live env t start size v h = elim (Bool-cases (size == 0)) [
  | inl e ↦
      let same : start ≡ v.written = ground (arith, h.1) in
      rw e (subst (Live v.segments v.idx v.current_partial_index) same h.0)
  | inr e ↦ rw e (publish_pushed-Live env t start size v h)
]

pub split_partial_segment-Live :
    (env : Env) (t : ℤ) (v : HlsVariant)
    → On Live v
    → Outcome (λ _ w. On Live w) LiveOnError (split_partial_segment env t v)
unfolding split_partial_segment
split_partial_segment-Live env t v h =
    Outcome-bind (λ size w. Grown v.written size w) (λ _ w. On Live w) LiveOnError
      (drain_to_current_file env append_part env.part_bytes) (publish_partial env t v.written) v
      (Outcome-weaken _ _ _ _ (drain_to_current_file env append_part env.part_bytes v)
        (drain-written (λ segs i c. Live segs i c v.written) env append_part env.part_bytes v h)
        (λ size w p. p)
        (λ e w p _. subst (Live w.segments w.idx w.current_partial_index) (sym p.1) p.0))
      (λ size w p. publish_partial-Live env t v.written size w p)
