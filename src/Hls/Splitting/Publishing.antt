-- ===== src/Hls/Splitting/Publishing.antt =====
-- `split_next_seg` and `process_packet` of crates/core/src/mux/hls/variant.rs keep the parts of the
-- segment in progress as the playlist describes them.
use zap_stream_core.Prelude.{
  ℕ, ◌≡◌, refl, sym, subst, inl, inr, Bool, true, false, List, Option, none, some, not, ◌&&◌,
  Bool-cases, if◌then◌else◌,
}
use zap_stream_core.Prelude.Int.{ℤ, ◌-ℤ◌}
use zap_stream_core.Hls.Segment.{HlsSegment, nothing}
use zap_stream_core.Hls.State.{
  HlsVariant, HlsVariantStream, Env, append_segment, write_packet, M, get, pure, modify, Outcome,
  ◌>>=◌, ◌>>◌,
}
use zap_stream_core.Hls.Outcome.{Outcome-bind, Outcome-weaken, Outcome-attempt}
use zap_stream_core.Hls.Splitting.Outcome.{On, Keeps, flush_muxer-Keeps}
use zap_stream_core.Hls.Splitting.Parts.{
  Live, LiveOnError, drain-written, split_partial_segment-Live,
}
use zap_stream_core.Hls.Splitting.Committing.{Closing, finish_segment-Live, publish_segment-Live}
use zap_stream_core.Hls.Splitting.{
  Packet, drain_to_current_file, split_partial_segment, finish_segment, publish_segment,
  finish_and_publish, split_next_seg, flush_muxer, close_partial, split_at_packet,
  should_end_segment, should_split_partial, split_if_reference, is_reference, mux_packet,
  sink_packet, process_packet,
}

abbrev Lives : {A : Type 0} → M A → Type 0
Lives m = (v : HlsVariant) → On Live v → Outcome (λ _ w. On Live w) LiveOnError (m v)

Lives-bind :
    {A B : Type 0} (m : M A) (f : A → M B) → Lives m → ((a : A) → Lives (f a)) → Lives (m >>= f)
Lives-bind m f h k v p =
    Outcome-bind (λ _ w. On Live w) (λ _ w. On Live w) LiveOnError m f v (h v p) (λ a w q. k a w q)

Lives-Keeps : {A : Type 0} (m : M A) → Keeps Live m → Lives m
Lives-Keeps m h v p = Outcome-weaken _ _ _ _ (m v) (h v p) (λ _ _ q. q) (λ _ _ q _. q)

finish_and_publish-Live :
    (k : ℕ) (env : Env) (d t : ℤ) (v : HlsVariant)
    → Closing k v.segments v.idx v.current_partial_index
    → Outcome (λ _ w. On Live w) LiveOnError (finish_and_publish env k d t v)
unfolding finish_and_publish
finish_and_publish-Live k env d t v p =
    Outcome-bind (λ _ w. On Live w) (λ _ w. On Live w) LiveOnError (finish_segment env k d)
      (λ r. publish_segment env t r.0 r.1) v (finish_segment-Live k env d v p)
      (λ r w q. publish_segment-Live env t r.0 r.1 w q)

-- A list with its parts, of which the segment `k` is to be closed.
abbrev LiveAt : ℕ → List HlsSegment → ℕ → ℕ → ℕ → Type 0
LiveAt k segs idx count size = Live segs idx count size × (idx ≡ k)

drained_and_finished :
    (k : ℕ) (env : Env) (t : ℤ) (v : HlsVariant)
    → On (LiveAt k) v
    → Outcome
        (λ _ w. On Live w)
        LiveOnError
        ((do
          _ ← drain_to_current_file env append_segment env.segment_bytes
          w ← get
          finish_and_publish env k (t -ℤ w.current_segment_start) t)
          v)
drained_and_finished k env t v p =
    Outcome-bind (λ size w. LiveAt k w.segments w.idx w.current_partial_index v.written)
      (λ _ w. On Live w) LiveOnError (drain_to_current_file env append_segment env.segment_bytes)
      (λ _. do w ← get; finish_and_publish env k (t -ℤ w.current_segment_start) t) v
      (Outcome-weaken _ _ _ _ (drain_to_current_file env append_segment env.segment_bytes v)
        (drain-written (λ segs i c. LiveAt k segs i c v.written) env append_segment
          env.segment_bytes v p)
        (λ size w q. q.0)
        (λ e w q _. subst (Live w.segments w.idx w.current_partial_index) (sym q.1) q.0.0))
      (λ _ w q.
        finish_and_publish-Live k env (t -ℤ w.current_segment_start) t w
          (q.0.0, q.1, (v.written, q.0.1)))

split_next_seg-Lives : (env : Env) (t : ℤ) (flush : Bool) → Lives (split_next_seg env t flush)
unfolding split_next_seg
split_next_seg-Lives env t flush v p =
    Outcome-bind (λ _ w. On (LiveAt v.idx) w) (λ _ w. On Live w) LiveOnError (flush_muxer env flush)
      (λ _. do
        _ ← drain_to_current_file env append_segment env.segment_bytes
        w ← get
        finish_and_publish env v.idx (t -ℤ w.current_segment_start) t)
      v
      (Outcome-weaken _ _ _ _ (flush_muxer env flush v)
        (flush_muxer-Keeps (LiveAt v.idx) env flush v (p, refl)) (λ _ _ q. q) (λ _ _ q _. q.0))
      (λ _ w q. drained_and_finished v.idx env t w q)

close_partial-Lives :
    (env : Env) (t : ℤ) (split splittable : Bool) → Lives (close_partial env t split splittable)
unfolding close_partial
close_partial-Lives env t false splittable v p = p
close_partial-Lives env t true splittable v p =
    Lives-bind (split_partial_segment env t)
      (λ _. modify (λ v. record v { next_partial_independent = splittable }))
      (split_partial_segment-Live env t) (λ _ w q. q) v p

split_or_not-Lives :
    (env : Env) (t : ℤ) (split flush : Bool)
    → Lives (if split then split_next_seg env t flush else pure nothing)
split_or_not-Lives env t true flush v p = split_next_seg-Lives env t flush v p
split_or_not-Lives env t false flush v p = p

split_at_packet-Lives :
    (env : Env) (pts dts d : ℤ) (splittable : Bool)
    → Lives (split_at_packet env pts dts d splittable)
unfolding split_at_packet
split_at_packet-Lives env pts dts d splittable v p =
    let split_seg = splittable && should_end_segment v pts in
    let split_partial = should_split_partial v dts d split_seg in
    Lives-bind (close_partial env dts split_partial splittable)
      (λ _. if split_seg then split_next_seg env pts (not split_partial) else pure nothing)
      (close_partial-Lives env dts split_partial splittable)
      (λ _. split_or_not-Lives env pts split_seg (not split_partial)) v p

split_if_reference-Lives :
    (env : Env) (pkt : Packet) (var : HlsVariantStream) (pts : Option ℤ)
    → Lives (split_if_reference env pkt var pts)
unfolding split_if_reference
split_if_reference-Lives env pkt var none v p = p
split_if_reference-Lives env pkt var (some pts) v p = elim (Bool-cases (is_reference v var)) [
  | inl e ↦ rw e (split_at_packet-Lives env _ _ _ _ v p)
  | inr e ↦ rw e p
]

mux_packet-Lives : (env : Env) → Lives (mux_packet env)
unfolding mux_packet sink_packet
mux_packet-Lives env v p =
    Outcome-attempt (λ _ w. On Live w) LiveOnError env write_packet (modify (sink_packet env)) v
      (λ _. p) p

-- A packet processed by a variant whose parts are as described (see `Live`) leaves them so: when it
-- succeeds, and when it fails, unless the next segment's file could not be created, the completed
-- file could not be hashed, the variant has no stream, or a part was not aligned.
pub process_packet-Live :
    (env : Env) (pkt : Packet) (var : HlsVariantStream) (v : HlsVariant)
    → On Live v
    → Outcome (λ _ w. On Live w) LiveOnError (process_packet env pkt var v)
unfolding process_packet
process_packet-Live env pkt var v p =
    Lives-bind (split_if_reference env pkt var pkt.pts) (λ r. do mux_packet env; pure r)
      (split_if_reference-Lives env pkt var pkt.pts)
      (λ r. Lives-bind (mux_packet env) (λ _. pure r) (mux_packet-Lives env) (λ _ w q. q)) v p
