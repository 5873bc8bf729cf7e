-- ===== src/Hls/Muxer/Broadcast.antt =====
-- What a packet does to all the variants of an `HlsMuxer` (crates/core/src/mux/hls/mod.rs).
use zap_stream_core.Prelude.{
  ℕ, ◌+◌, ◌≡◌, refl, sym, ap, ◌∙◌, inl, inr, true, Option, none, some, Option-cases, List, [], ◌∷◌,
  ◌++◌, map,
}
use zap_stream_core.Hls.Segment.{
  HlsSegment, full, partial, EgressSegment, EgressResult, to_egress_segment, SegmentInfo,
}
use zap_stream_core.Hls.State.{HlsVariant, Env, Result, ok, err, Outcome}
use zap_stream_core.Hls.Window.{full_segments}
use zap_stream_core.Hls.Splitting.{Packet, process_packet, video_var_id}
use zap_stream_core.Hls.Splitting.Outcome.{On}
use zap_stream_core.Hls.Splitting.Parts.{Live, LiveOnError, is_harmless}
use zap_stream_core.Hls.Splitting.Publishing.{process_packet-Live}
use zap_stream_core.Hls.Muxer.{
  Muxed, after, egress_result, mux_variants, extend, stream_of, mux_packet_to_all, empty,
  collect_segments, append_some, prefix_with, collect_remaining_segments,
}

abbrev AllLive : List HlsVariant → Type 0
AllLive [] = Unit {0}
AllLive (v ∷ variants) = On Live v × AllLive variants

abbrev KeepsLive : {A : Type 0} → Result A × List HlsVariant → Type 0
KeepsLive (ok a, ws) = AllLive ws
KeepsLive (err e, ws) = is_harmless e ≡ true → AllLive ws

KeepsLive-cons :
    {A : Type 0} (v : HlsVariant) (r : Result A × List HlsVariant)
    → On Live v
    → KeepsLive r
    → KeepsLive (let (x, ws) = r in (x, v ∷ ws))
KeepsLive-cons v (ok a, ws) h k = (h, k)
KeepsLive-cons v (err e, ws) h k = λ harmless. (h, k harmless)

mux_variants-Live :
    (env : ℕ → Env) (pkt : Packet) (id n : ℕ) (acc : Muxed) (variants : List HlsVariant)
    → AllLive variants
    → KeepsLive (mux_variants env pkt id n acc variants)
unfolding mux_variants after
mux_variants-Live env pkt id n acc [] h = tt
mux_variants-Live env pkt id n acc (v ∷ variants) h = elim (Option-cases (stream_of id v)) [
  | inl e ↦
      rw (e, mux_variants)
        (KeepsLive-cons v (mux_variants env pkt id (n + 1) acc variants) h.0
          (mux_variants-Live env pkt id (n + 1) acc variants h.1))
  | inr (s, e) ↦
      rw (e, mux_variants)
        (go (λ acc. mux_variants-Live env pkt id (n + 1) acc variants h.1)
          (process_packet (env n) pkt s v) (process_packet-Live (env n) pkt s v h.0))
]
  where
    go :
        ((acc : Muxed) → KeepsLive (mux_variants env pkt id (n + 1) acc variants))
        → (r : Result EgressResult × HlsVariant) → Outcome (λ _ w. On Live w) LiveOnError r
        → KeepsLive (after acc variants (λ acc. mux_variants env pkt id (n + 1) acc variants) r)
    go rest (ok result, w) q =
        KeepsLive-cons w (mux_variants env pkt id (n + 1) (extend result acc) variants) q
          (rest (extend result acc))
    go rest (err e, w) q = λ harmless. (q harmless, h.1)

-- When every variant is as its playlist describes it, a packet muxed into all variants that have
-- its stream leaves them all so: when it succeeds, and when the first variant to fail does so with
-- one of the errors that keep a single variant so.
mux_packet_to_all-Live :
    (env : ℕ → Env) (pkt : Packet) (id : ℕ) (variants : List HlsVariant)
    → AllLive variants
    → KeepsLive (mux_packet_to_all env pkt id variants)
unfolding mux_packet_to_all
mux_packet_to_all-Live env pkt id variants h =
    go (mux_variants env pkt id 0 empty variants) (mux_variants-Live env pkt id 0 empty variants h)
  where
    go :
        (r : Result Muxed × List HlsVariant)
        → KeepsLive r
        → KeepsLive (elim r.0 [ ok acc ↦ ok (egress_result acc) | err e ↦ err e ], r.1)
    go (ok acc, ws) k = k
    go (err e, ws) k = k

-- The full segments of all variants.
abbrev all_full : List HlsVariant → List SegmentInfo
all_full [] = []
all_full (v ∷ variants) = full_segments v.segments ++ all_full variants

map-append : {A : Type 0} (f : A → ℕ) (xs ys : List A) → map f (xs ++ ys) ≡ map f xs ++ map f ys
map-append f [] ys = refl
map-append f (x ∷ xs) ys = ap (◌∷◌ (f x)) (map-append f xs ys)

collect_segments-full :
    (id : ℕ) (v : HlsVariant) (segs : List HlsSegment)
    → map (λ s. s.idx) (collect_segments id v segs) ≡ map (λ s. s.index) (full_segments segs)
unfolding collect_segments append_some to_egress_segment
collect_segments-full id v [] = refl
collect_segments-full id v (full s ∷ segs) = ap (◌∷◌ s.index) (collect_segments-full id v segs)
collect_segments-full id v (partial p ∷ segs) = collect_segments-full id v segs

list_inj : {xs ys : List EgressSegment} → some xs ≡ some ys → xs ≡ ys
list_inj e = cc

prefix_with-some :
    (xs : List EgressSegment) (o : Option (List EgressSegment)) (ret : List EgressSegment)
    → prefix_with xs o ≡ some ret
    → (ys : List EgressSegment) × (o ≡ some ys) × (xs ++ ys ≡ ret)
unfolding prefix_with
prefix_with-some xs none ret e = cc
prefix_with-some xs (some ys) ret e = (ys, refl, list_inj e)

-- What is left to delete at the end: exactly the full segments of all variants, in order.
collect_remaining_segments-full :
    (variants : List HlsVariant) (remaining : List EgressSegment)
    → collect_remaining_segments variants ≡ some remaining
    → map (λ s. s.idx) remaining ≡ map (λ s. s.index) (all_full variants)
unfolding collect_remaining_segments
collect_remaining_segments-full [] remaining e = ap (map (λ s. s.idx)) (sym (list_inj e))
collect_remaining_segments-full (v ∷ variants) remaining e =
    go (video_var_id v v).0 (collect_remaining_segments variants)
      (collect_remaining_segments-full variants) e
  where
    go :
        (r : Result ℕ) (o : Option (List EgressSegment))
        → ((ys : List EgressSegment)
            → o ≡ some ys
            → map (λ s. s.idx) ys ≡ map (λ s. s.index) (all_full variants))
        → (elim r [ err e ↦ none | ok id ↦ prefix_with (collect_segments id v v.segments) o ])
          ≡ some remaining
        → map (λ s. s.idx) remaining ≡ map (λ s. s.index) (all_full (v ∷ variants))
    go (err x) o ih e = cc
    go (ok id) o ih e =
        let (ys, found, same) = prefix_with-some (collect_segments id v v.segments) o remaining e in
        ap (map (λ s. s.idx)) (sym same)
        ∙ map-append (λ s. s.idx) (collect_segments id v v.segments) ys
        ∙ ap (λ ns. ns ++ map (λ s. s.idx) ys) (collect_segments-full id v v.segments)
        ∙ ap (λ ns. map (λ s. s.index) (full_segments v.segments) ++ ns) (ih ys found)
        ∙ sym (map-append (λ s. s.index) (full_segments v.segments) (all_full variants))
