-- ===== src/Hls/Muxer.antt =====
-- `HlsMuxer` of crates/core/src/mux/hls/mod.rs: a packet goes to every variant that has its stream.
pub mod Broadcast
pub mod Alone
mod Reports
pub mod Delivery
use zap_stream_core.Prelude.{
  ℕ, ◌+◌, Bool, true, false, Option, none, some, List, [], ◌∷◌, ◌++◌, ◌==◌, find,
}
use zap_stream_core.Hls.Segment.{
  HlsSegment, full, partial, EgressSegment, EgressResult, nothing, segments, to_egress_segment,
  segment_name,
}
use zap_stream_core.Hls.State.{HlsVariant, HlsVariantStream, stream_id, Env, Result, ok, err}
use zap_stream_core.Hls.Splitting.{Packet, process_packet, is_audio_only, video_var_id}

-- What the loop over the variants has collected.
pub record Muxed : Type 0 where
  pub found : Bool
  pub created : List EgressSegment
  pub deleted : List EgressSegment

extend : EgressResult → Muxed → Muxed
extend nothing acc = record acc { found = true }
extend (segments created deleted) acc = record {
  found = true;
  created = acc.created ++ created;
  deleted = acc.deleted ++ deleted;
}

stream_of : ℕ → HlsVariant → Option HlsVariantStream
stream_of id v = find (λ s. stream_id s == id) v.streams

-- An error ends the loop (`?`), else `go_on` does the rest of it.
after :
    Muxed
    → List HlsVariant
    → (Muxed → Result Muxed × List HlsVariant)
    → Result EgressResult × HlsVariant
    → Result Muxed × List HlsVariant
unfolding extend
after acc variants go_on (err e, w) = (err e, w ∷ variants)
after acc variants go_on (ok result, w) = let (r, ws) = go_on (extend result acc) in (r, w ∷ ws)

-- The variants from position `n` on; `env` is what happens in the variant at each position.
pub mux_variants :
    (ℕ → Env) → Packet → ℕ → ℕ → Muxed → List HlsVariant → Result Muxed × List HlsVariant
unfolding stream_of after
mux_variants env pkt id n acc [] = (ok acc, [])
mux_variants env pkt id n acc (v ∷ variants) = elim (stream_of id v) [
  | none ↦ let (r, ws) = mux_variants env pkt id (n + 1) acc variants in (r, v ∷ ws)
  | some s ↦
      after acc variants (λ acc. mux_variants env pkt id (n + 1) acc variants)
        (process_packet (env n) pkt s v)
]

reported : List EgressSegment → List EgressSegment → EgressResult
reported [] [] = nothing
reported [] (d ∷ deleted) = segments [] (d ∷ deleted)
reported (c ∷ created) deleted = segments (c ∷ created) deleted

-- A packet that no variant takes is no error.
pub egress_result : Muxed → EgressResult
unfolding reported
egress_result acc = elim acc.found [ true ↦ reported acc.created acc.deleted | false ↦ nothing ]

empty : Muxed
empty = record { found = false; created = []; deleted = [] }

unfoldable pub mux_packet_to_all :
    (ℕ → Env) → Packet → ℕ → List HlsVariant → Result EgressResult × List HlsVariant
unfolding mux_variants egress_result empty
mux_packet_to_all env pkt id variants =
    let (r, ws) = mux_variants env pkt id 0 empty variants in
    (elim r [ ok acc ↦ ok (egress_result acc) | err e ↦ err e ], ws)

named_index : HlsSegment → ℕ
named_index (full s) = s.index
named_index (partial p) = p.parent_index

append_some : Option EgressSegment → List EgressSegment → List EgressSegment
append_some none rest = rest
append_some (some s) rest = s ∷ rest

collect_segments : ℕ → HlsVariant → List HlsSegment → List EgressSegment
unfolding named_index append_some
collect_segments id v [] = []
collect_segments id v (s ∷ segs) =
    append_some
      (to_egress_segment s id (segment_name v.segment_type (named_index s)) (is_audio_only v))
      (collect_segments id v segs)

prefix_with : List EgressSegment → Option (List EgressSegment) → Option (List EgressSegment)
prefix_with xs none = none
prefix_with xs (some ys) = some (xs ++ ys)

-- `none` is the panic on a variant without streams.
unfoldable pub collect_remaining_segments : List HlsVariant → Option (List EgressSegment)
unfolding collect_segments prefix_with
collect_remaining_segments [] = some []
collect_remaining_segments (v ∷ variants) =
    let rest = collect_remaining_segments variants in
    elim (video_var_id v v).0 [
      | err e ↦ none
      | ok id ↦ prefix_with (collect_segments id v v.segments) rest
    ]
