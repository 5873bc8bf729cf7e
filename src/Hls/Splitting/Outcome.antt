-- ===== src/Hls/Splitting/Outcome.antt =====
-- The steps of a split that leave alone what reads only the segment list, the index, the count of
-- parts and the published size, whether the step succeeds or fails.
use zap_stream_core.Prelude.{
  ℕ, Bool, true, false, List, Option, none, some, [], ◌∷◌, inl, inr, Bool-cases,
}
use zap_stream_core.Prelude.Int.{ℤ}
use zap_stream_core.Hls.Segment.{HlsSegment}
use zap_stream_core.Hls.State.{
  HlsVariant, Env, IoStep, Error, FileId, HlsVariantStream, flush_queue, flush_frame,
  create_segment, M, ◌>>=◌, modify, attempt, Outcome,
}
use zap_stream_core.Hls.Outcome.{Outcome-bind, Outcome-weaken, Outcome-attempt}
use zap_stream_core.Hls.Playlist.{write_playlist, write_playlist_rule}
use zap_stream_core.Hls.Splitting.{
  append_chunk, drain_to_current_file, flush_muxer, video_var_id, anchor_pdt, ensure,
  create_segment_file, open_file, id_or_first, video_stream,
}

module _ (P : List HlsSegment → ℕ → ℕ → ℕ → Type 0) where
  abbrev pub On : HlsVariant → Type 0
  On v = P v.segments v.idx v.current_partial_index v.written

  abbrev pub Keeps : {A : Type 0} → M A → Type 0
  Keeps m = (v : HlsVariant) → On v → Outcome (λ _ w. On w) (λ _ w. On w) (m v)

  pub Keeps-bind :
      {A B : Type 0} (m : M A) (f : A → M B) → Keeps m → ((a : A) → Keeps (f a)) → Keeps (m >>= f)
  Keeps-bind m f h k v p =
      Outcome-bind (λ _ w. On w) (λ _ w. On w) (λ _ w. On w) m f v (h v p) (λ a w q. k a w q)

  pub attempt-Keeps : (env : Env) (step : IoStep) → Keeps (attempt env step)
  attempt-Keeps env step v h = elim (Bool-cases (env.fails step)) [
    | inl e ↦ rw e h
    | inr e ↦ rw e h
  ]

  pub write_playlist-Keeps : (env : Env) (step : IoStep) → Keeps (write_playlist env step)
  write_playlist-Keeps env step v h =
      Outcome-weaken _ _ _ _ (write_playlist env step v) (write_playlist_rule On env step v h h)
        (λ _ w p. p) (λ _ w p. p.0)

  pub flush_muxer-Keeps : (env : Env) (flush : Bool) → Keeps (flush_muxer env flush)
  unfolding flush_muxer
  flush_muxer-Keeps env false v h = h
  flush_muxer-Keeps env true v h =
      Outcome-attempt (λ _ w. On w) (λ _ w. On w) env flush_queue (attempt env flush_frame) v h
        (attempt-Keeps env flush_frame v h)

  pub ensure-Keeps : (b : Bool) (e : Error) → Keeps (ensure b e)
  unfolding ensure
  ensure-Keeps true e v h = h
  ensure-Keeps false e v h = h

  id_or_first-Keeps :
      (s : Option HlsVariantStream) (ss : List HlsVariantStream) → Keeps (id_or_first s ss)
  unfolding id_or_first
  id_or_first-Keeps s [] v h = h
  id_or_first-Keeps (some s) (_ ∷ _) v h = h
  id_or_first-Keeps none (_ ∷ _) v h = h

  pub video_var_id-Keeps : (u : HlsVariant) → Keeps (video_var_id u)
  unfolding video_var_id
  video_var_id-Keeps u v h = id_or_first-Keeps (video_stream u) u.streams v h

  pub anchor_pdt-Keeps : (env : Env) (d : ℤ) → Keeps (anchor_pdt env d)
  unfolding anchor_pdt
  anchor_pdt-Keeps env d v h = h

-- The two steps that change the published size.
module _ (P : List HlsSegment → ℕ → ℕ → ℕ → Type 0)
    (resize : (segs : List HlsSegment) (i c m n : ℕ) → P segs i c m → P segs i c n) where
  append_chunk-Keeps :
      (env : Env) (step : IoStep) (f : Option FileId) (chunk : List ℕ)
      → Keeps P (append_chunk env step f chunk)
  unfolding append_chunk
  append_chunk-Keeps env step f [] v h = h
  append_chunk-Keeps env step none (b ∷ chunk) v h = h
  append_chunk-Keeps env step (some k) (b ∷ chunk) v h = elim (Bool-cases (env.fails step)) [
    | inl e ↦ rw e h
    | inr e ↦ rw e (resize _ _ _ _ _ h)
  ]

  pub drain_to_current_file-Keeps :
      (env : Env) (step : IoStep) (flushed : List ℕ)
      → Keeps P (drain_to_current_file env step flushed)
  unfolding drain_to_current_file
  drain_to_current_file-Keeps env step flushed v h =
      append_chunk-Keeps env step v.current_file _ _ h

  pub create_segment_file-Keeps : (env : Env) (index : ℕ) → Keeps P (create_segment_file env index)
  unfolding create_segment_file
  create_segment_file-Keeps env index v h =
      Outcome-attempt (λ _ w. On P w) (λ _ w. On P w) env create_segment (modify (open_file index))
        (record v { current_file = none }) h (resize _ _ _ _ _ h)
