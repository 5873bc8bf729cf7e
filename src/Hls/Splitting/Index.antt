-- ===== src/Hls/Splitting/Index.antt =====
-- The segment index across `split_partial_segment`, `split_next_seg` and `process_packet` of
-- crates/core/src/mux/hls/variant.rs, failures included.
use zap_stream_core.Prelude.{
  ℕ, ◌+◌, ◌≡◌, refl, ap, subst, ◌⊎◌, inl, inr, Bool, true, false, List, [], ◌∷◌, map, not, Option,
  none, some, ◌&&◌, Bool-cases, if◌then◌else◌,
}
use zap_stream_core.Prelude.Int.{ℤ, ◌-ℤ◌}
use zap_stream_core.Hls.Segment.{EgressSegment, EgressResult, nothing, segments}
use zap_stream_core.Hls.State.{
  HlsVariant, HlsVariantStream, Env, Error, io, append_segment, write_segment_playlist,
  write_packet, M, get, pure, modify, Outcome, ◌>>=◌, ◌>>◌,
}
use zap_stream_core.Hls.Outcome.{Outcome-bind, Outcome-weaken, Outcome-attempt}
use zap_stream_core.Hls.Playlist.{write_playlist, write_playlist_rule}
use zap_stream_core.Hls.Sequence.{Sequence}
use zap_stream_core.Hls.Splitting.Outcome.{
  On, Keeps, Keeps-bind, drain_to_current_file-Keeps, flush_muxer-Keeps,
}
use zap_stream_core.Hls.Splitting.{
  Packet, split_partial_segment, drain_to_current_file, split_next_seg, flush_muxer, finish_segment,
  start_segment, split_at_packet, close_partial, split_if_reference, is_reference, mux_packet,
  sink_packet, process_packet, publish_segment, finish_and_publish, should_end_segment,
  should_split_partial,
}
use zap_stream_core.Hls.Splitting.Finishing.{
  At, At-resize, split_partial_segment-At, Created, finish_segment-Commits,
}

-- The segment `k` is reported as created and the index is the next one; or no segment was finished.
abbrev pub Advances : ℕ → EgressResult → HlsVariant → Type 0
Advances k nothing w = On (At k) w
Advances k (segments created deleted) w = (map (λ s. s.idx) created ≡ k ∷ []) × On (At (k + 1)) w

-- A failure leaves the index as it was, but for the two calls that follow the commit.
abbrev pub Fails : ℕ → Error → HlsVariant → Type 0
Fails k e w =
    On (At k) w ⊎ (On (At (k + 1)) w × ((e ≡ io write_segment_playlist) ⊎ (e ≡ io write_packet)))

publish_segment-Outcome :
    (k : ℕ) (env : Env) (t : ℤ) (created : EgressSegment) (deleted : List EgressSegment)
    (v : HlsVariant)
    → created.idx ≡ k
    → On (At (k + 1)) v
    → Outcome (Advances k) (Fails k) (publish_segment env t created deleted v)
unfolding publish_segment
publish_segment-Outcome k env t created deleted v e h =
    Outcome-bind (λ _ w. On (At (k + 1)) w) (Advances k) (Fails k)
      (write_playlist env write_segment_playlist)
      (λ _. do modify (start_segment t); pure (segments (created ∷ []) deleted)) v
      (Outcome-weaken _ _ _ _ (write_playlist env write_segment_playlist v)
        (write_playlist_rule (On (At (k + 1))) env write_segment_playlist v h h) (λ _ w p. p)
        (λ e w p. inr (p.0, inl p.1)))
      (λ _ w p. (ap (λ (i : ℕ). i ∷ []) e, p))

abbrev pub Settles : ℕ → M EgressResult → Type 0
Settles k m = (v : HlsVariant) → On (At k) v → Outcome (Advances k) (Fails k) (m v)

Settles-bind :
    {A : Type 0} (k : ℕ) (m : M A) (f : A → M EgressResult)
    → Keeps (At k) m
    → ((a : A) → Settles k (f a))
    → Settles k (m >>= f)
Settles-bind k m f h c v p =
    Outcome-bind (λ _ w. On (At k) w) (Advances k) (Fails k) m f v
      (Outcome-weaken _ _ _ _ (m v) (h v p) (λ _ w q. q) (λ _ w q. inl q)) (λ a w q. c a w q)

finish_and_publish-Settles :
    (k : ℕ) (env : Env) (d t : ℤ) → Settles k (finish_and_publish env k d t)
unfolding finish_and_publish
finish_and_publish-Settles k env d t v h =
    Outcome-bind (λ a w. Created k a × On (At (k + 1)) w) (Advances k) (Fails k)
      (finish_segment env k d) (λ r. publish_segment env t r.0 r.1) v
      (Outcome-weaken _ _ _ _ (finish_segment env k d v) (finish_segment-Commits k env d v h)
        (λ a w p. p) (λ e w p. inl p))
      (λ a w p. publish_segment-Outcome k env t a.0 a.1 w p.0 p.1)

split_next_seg_here :
    (env : Env) (t : ℤ) (flush : Bool) (v : HlsVariant)
    → Sequence v.segments v.idx
    → Outcome (Advances v.idx) (Fails v.idx) (split_next_seg env t flush v)
unfolding split_next_seg
split_next_seg_here env t flush v h =
    Settles-bind v.idx (flush_muxer env flush)
      (λ _. do
        _ ← drain_to_current_file env append_segment env.segment_bytes
        w ← get
        finish_and_publish env v.idx (t -ℤ w.current_segment_start) t)
      (flush_muxer-Keeps (At v.idx) env flush)
      (λ _.
        Settles-bind v.idx (drain_to_current_file env append_segment env.segment_bytes)
          (λ _. do w ← get; finish_and_publish env v.idx (t -ℤ w.current_segment_start) t)
          (drain_to_current_file-Keeps (At v.idx) (At-resize v.idx) env append_segment
            env.segment_bytes)
          (λ _ w. finish_and_publish-Settles v.idx env (t -ℤ w.current_segment_start) t w))
      v (h, refl)

-- A split from index `k` reports segment `k` and goes on to the next index, or fails.
split_next_seg-Settles :
    (k : ℕ) (env : Env) (t : ℤ) (flush : Bool) → Settles k (split_next_seg env t flush)
split_next_seg-Settles k env t flush v h =
    subst (λ i. Outcome (Advances i) (Fails i) (split_next_seg env t flush v)) h.1
      (split_next_seg_here env t flush v h.0)

close_partial-At :
    (k : ℕ) (env : Env) (t : ℤ) (split splittable : Bool)
    → Keeps (At k) (close_partial env t split splittable)
unfolding close_partial
close_partial-At k env t false splittable v h = h
close_partial-At k env t true splittable v h =
    Keeps-bind (At k) (split_partial_segment env t)
      (λ _. modify (λ v. record v { next_partial_independent = splittable }))
      (split_partial_segment-At k env t) (λ _ w p. p) v h

split_or_not-Settles :
    (k : ℕ) (env : Env) (t : ℤ) (split flush : Bool)
    → Settles k (if split then split_next_seg env t flush else pure nothing)
split_or_not-Settles k env t true flush v h = split_next_seg-Settles k env t flush v h
split_or_not-Settles k env t false flush v h = h

split_at_packet-Settles :
    (k : ℕ) (env : Env) (pts dts d : ℤ) (splittable : Bool)
    → Settles k (split_at_packet env pts dts d splittable)
unfolding split_at_packet
split_at_packet-Settles k env pts dts d splittable v h =
    let split_seg = splittable && should_end_segment v pts in
    let split_partial = should_split_partial v dts d split_seg in
    Settles-bind k (close_partial env dts split_partial splittable)
      (λ _. if split_seg then split_next_seg env pts (not split_partial) else pure nothing)
      (close_partial-At k env dts split_partial splittable)
      (λ _. split_or_not-Settles k env pts split_seg (not split_partial)) v h

split_if_reference-Settles :
    (k : ℕ) (env : Env) (pkt : Packet) (var : HlsVariantStream) (pts : Option ℤ)
    → Settles k (split_if_reference env pkt var pts)
unfolding split_if_reference
split_if_reference-Settles k env pkt var none v h = h
split_if_reference-Settles k env pkt var (some pts) v h = elim (Bool-cases (is_reference v var)) [
  | inl e ↦ rw e (split_at_packet-Settles k env _ _ _ _ v h)
  | inr e ↦ rw e h
]

mux_packet-Settles :
    (k : ℕ) (env : Env) (r : EgressResult) (v : HlsVariant)
    → Advances k r v
    → Outcome (Advances k) (Fails k) ((do mux_packet env; pure r) v)
unfolding mux_packet
mux_packet-Settles k env r v h =
    Outcome-bind (λ _ w. Advances k r w) (Advances k) (Fails k) (mux_packet env) (λ _. pure r) v
      (Outcome-attempt (λ _ w. Advances k r w) (Fails k) env write_packet (modify (sink_packet env))
        v (failed r h) (sunk r h))
      (λ _ w p. p)
  where
    failed : (r : EgressResult) → Advances k r v → Fails k (io write_packet) v
    failed nothing p = inl p
    failed (segments created deleted) p = inr (p.1, inr refl)

    sunk : (r : EgressResult) → Advances k r v → Advances k r (sink_packet env v)
    sunk nothing p = p
    sunk (segments created deleted) p = p

-- A packet processed by a variant at index `k`, whatever calls fail on the way: a success either
-- reports nothing and leaves the index, or reports exactly segment `k` as created and advances to
-- `k + 1`; a failure leaves the index, unless the call that failed was the playlist write of the
-- split or the write of the packet. In every case the list stays a run of consecutive indexes that
-- ends before the variant's index.
pub process_packet-Advances :
    (k : ℕ) (env : Env) (pkt : Packet) (var : HlsVariantStream) (v : HlsVariant)
    → Sequence v.segments v.idx
    → v.idx ≡ k
    → Outcome (Advances k) (Fails k) (process_packet env pkt var v)
unfolding process_packet
process_packet-Advances k env pkt var v h e =
    Outcome-bind (Advances k) (Advances k) (Fails k) (split_if_reference env pkt var pkt.pts)
      (λ r. do mux_packet env; pure r) v (split_if_reference-Settles k env pkt var pkt.pts v (h, e))
      (λ r w p. mux_packet-Settles k env r w p)
