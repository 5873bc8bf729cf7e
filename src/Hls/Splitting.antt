-- ===== src/Hls/Splitting.antt =====
-- The segmentation of packets: crates/core/src/mux/hls/variant.rs from `append_sink_to_file` to
-- `split_next_seg`, and `process_packet`.
pub mod Outcome
pub mod Finishing
pub mod Index
pub mod Parts
pub mod Committing
pub mod Publishing
use zap_stream_core.Prelude.{
  ℕ, ◌+◌, ◌%◌, ◌/◌, Bool, true, false, not, ◌&&◌, ◌||◌, Option, none, some, List, [], ◌∷◌, ◌++◌,
  map, ◌==◌, ltb, if◌then◌else◌, find, any, length, take,
}
use zap_stream_core.Prelude.Int.{ℤ, pos, ◌+ℤ◌, ◌-ℤ◌, scale, leb_ℤ, ltb_ℤ}
use zap_stream_core.Hls.Time.{second, to_millis}
use zap_stream_core.Hls.Segment.{
  SegmentType, SegmentInfo, HlsSegment, full, partial, segment_name, EgressSegment, EgressResult,
  nothing, segments,
}
use zap_stream_core.Hls.State.{
  HlsVariant, HlsVariantStream, stream_index, stream_id, Env, IoStep, append_part,
  write_part_playlist, flush_queue, flush_frame, append_segment, create_segment, hash_segment,
  write_segment_playlist, write_packet, Error, io, no_segment_file, misaligned_part, panicked,
  MediaType, FileId, content, put_file, M, ok, err, pure, get, modify, attempt, ◌>>=◌, ◌>>◌,
}
use zap_stream_core.Hls.Window.{clean_segments, prune_old_partials}
use zap_stream_core.Hls.Playlist.{segment_length, write_playlist}

unfoldable pub append_bytes : FileId → List ℕ → HlsVariant → HlsVariant
append_bytes k bytes v = record v { files = put_file k (content k v.files ++ bytes) v.files }

pub append_chunk : Env → IoStep → Option FileId → List ℕ → M ℕ
unfolding append_bytes
append_chunk env step f [] v = (ok 0, v)
append_chunk env step none (b ∷ chunk) v = (err no_segment_file, v)
append_chunk env step (some k) (b ∷ chunk) v =
    if env.fails step then (err (io step), append_bytes k (take env.torn (b ∷ chunk)) v) else (
      ok (length (b ∷ chunk)),
      record (append_bytes k (b ∷ chunk) v) { written = v.written + length (b ∷ chunk) },
    )

unfoldable pub append_sink_to_file : Env → IoStep → M ℕ
unfolding append_chunk
append_sink_to_file env step v =
    append_chunk env step v.current_file v.sink (record v { sink = [] })

-- The flush of the muxer's buffer puts `flushed` into the sink first.
unfoldable pub drain_to_current_file : Env → IoStep → List ℕ → M ℕ
unfolding append_sink_to_file
drain_to_current_file env step flushed v =
    append_sink_to_file env step (record v { sink = v.sink ++ flushed })

-- MPEG-TS files consist of packets of 188 bytes.
is_aligned : SegmentType → ℕ → Bool
is_aligned SegmentType.mpegts written = written % 188 == 0
is_aligned SegmentType.fmp4 written = true

pub ensure : Bool → Error → M (Unit {0})
ensure true e v = (ok tt, v)
ensure false e v = (err e, v)

new_partial : HlsVariant → ℤ → ℕ → ℕ → HlsSegment
new_partial v next_pkt_start partial_size previous_end_pos = partial (record {
  index = v.current_partial_index;
  parent_index = v.idx;
  parent_kind = v.segment_type;
  duration = next_pkt_start -ℤ v.current_partial_start;
  independent = v.next_partial_independent;
  byte_range = some (partial_size, some previous_end_pos);
})

pub push_partial : ℤ → ℕ → ℕ → HlsVariant → HlsVariant
unfolding new_partial
push_partial next_pkt_start partial_size previous_end_pos v = record v {
  segments = v.segments ++ new_partial v next_pkt_start partial_size previous_end_pos ∷ [];
  current_partial_index = v.current_partial_index + 1;
  next_partial_independent = false;
  current_partial_start = next_pkt_start;
}

publish_pushed : Env → ℤ → ℕ → ℕ → M (Unit {0})
unfolding is_aligned ensure push_partial
publish_pushed env next_pkt_start previous_end_pos partial_size = do
  v ← get
  ensure (is_aligned v.segment_type v.written) misaligned_part
  modify (push_partial next_pkt_start partial_size previous_end_pos)
  write_playlist env write_part_playlist

-- Nothing is published when nothing was flushed since the last part.
pub publish_partial : Env → ℤ → ℕ → ℕ → M (Unit {0})
unfolding publish_pushed
publish_partial env next_pkt_start previous_end_pos partial_size =
    if partial_size == 0
    then pure tt
    else publish_pushed env next_pkt_start previous_end_pos partial_size

-- The results of the two ffmpeg flushes are ignored here.
unfoldable pub split_partial_segment : Env → ℤ → M (Unit {0})
unfolding publish_partial drain_to_current_file
split_partial_segment env next_pkt_start = do
  v ← get
  partial_size ← drain_to_current_file env append_part env.part_bytes
  publish_partial env next_pkt_start v.written partial_size

abbrev is_video : HlsVariantStream → Bool
is_video (HlsVariantStream.video index id) = true
is_video (HlsVariantStream.audio index id) = false
is_video (HlsVariantStream.subtitle index id) = false

abbrev is_audio : HlsVariantStream → Bool
is_audio (HlsVariantStream.audio index id) = true
is_audio (HlsVariantStream.video index id) = false
is_audio (HlsVariantStream.subtitle index id) = false

unfoldable pub video_stream : HlsVariant → Option HlsVariantStream
video_stream v = find is_video v.streams

unfoldable pub is_audio_only : HlsVariant → Bool
is_audio_only v = not v.has_video && any is_audio v.streams

-- `self.video_stream().unwrap_or(self.streams.first().unwrap()).id()`: the inner `unwrap` panics
-- on a variant with no stream.
id_or_first : Option HlsVariantStream → List HlsVariantStream → M ℕ
id_or_first video [] v = (err panicked, v)
id_or_first (some s) (first ∷ _) v = (ok (stream_id s), v)
id_or_first none (first ∷ _) v = (ok (stream_id first), v)

unfoldable pub video_var_id : HlsVariant → M ℕ
unfolding video_stream id_or_first
video_var_id v = id_or_first (video_stream v) v.streams

pub flush_muxer : Env → Bool → M (Unit {0})
flush_muxer env false = pure tt
flush_muxer env true = do attempt env flush_queue; attempt env flush_frame

-- `File::create`: the old file is closed first, an existing one is truncated.
unfoldable pub open_file : ℕ → HlsVariant → HlsVariant
open_file index v =
    let k : FileId = record { kind = v.segment_type; index = index } in
    record v { current_file = some k; written = 0; files = put_file k [] v.files }

pub create_segment_file : Env → ℕ → M (Unit {0})
unfolding open_file
create_segment_file env index = do
  modify (λ v. record v { current_file = none })
  attempt env create_segment
  modify (open_file index)

pub clean : Env → M (List SegmentInfo)
clean env v = let (removed, w) = clean_segments env v in (ok removed, w)

-- Media time and wall clock (in milliseconds) of the first split.
anchor_at : Env → ℤ → Option (ℤ × ℤ) → ℤ → ℤ × ℤ
anchor_at env cur_duration (some anchor) start = anchor
anchor_at env cur_duration none start = (start, env.now -ℤ to_millis cur_duration)

pub anchor_pdt : Env → ℤ → M ℤ
unfolding anchor_at
anchor_pdt env cur_duration v =
    let anchor : ℤ × ℤ = anchor_at env cur_duration v.pdt_anchor v.current_segment_start in
    (
      ok (anchor.1 +ℤ to_millis (v.current_segment_start -ℤ anchor.0)),
      record v { pdt_anchor = some anchor },
    )

-- The completed segment enters the list, old parts leave it, and the index advances.
pub commit_segment : ℕ → ℤ → ℤ → List ℕ → HlsVariant → HlsVariant
commit_segment index cur_duration seg_pdt hash v = record v {
  segments = prune_old_partials (v.segments ++ completed ∷ []) (index + 1);
  idx = index + 1;
  current_partial_index = 0;
}
  where
    completed : HlsSegment
    completed = full (record {
      index = index;
      duration = cur_duration;
      kind = v.segment_type;
      sha256 = hash;
      timestamp = seg_pdt;
      discontinuity = false;
    })

deleted_segment : HlsVariant → ℕ → SegmentInfo → EgressSegment
deleted_segment v variant seg = record {
  variant = variant;
  idx = seg.index;
  duration = seg.duration;
  path = segment_name v.segment_type seg.index;
  sha256 = seg.sha256;
  audio_only = is_audio_only v;
}

created_segment : Env → HlsVariant → ℕ → ℕ → ℤ → EgressSegment
created_segment env v variant completed cur_duration = record {
  variant = variant;
  idx = completed;
  duration = cur_duration;
  path = segment_name v.segment_type completed;
  sha256 = env.sha256 (content (record { kind = v.segment_type; index = completed }) v.files);
  audio_only = is_audio_only v;
}

-- The completed file is read back and hashed; only then the new index is committed.
hash_and_commit : Env → ℕ → ℤ → ℕ → List SegmentInfo → ℤ → M (EgressSegment × List EgressSegment)
unfolding commit_segment deleted_segment created_segment
hash_and_commit env completed cur_duration variant removed seg_pdt = do
  attempt env hash_segment
  v ← get
  let created = created_segment env v variant completed cur_duration
  modify (commit_segment completed cur_duration seg_pdt created.sha256)
  pure (created, map (deleted_segment v variant) removed)

-- From the creation of the next file to the commit: every step here can still be abandoned with
-- the old index.
pub finish_segment : Env → ℕ → ℤ → M (EgressSegment × List EgressSegment)
unfolding create_segment_file video_var_id clean anchor_pdt hash_and_commit
finish_segment env completed cur_duration = do
  create_segment_file env (completed + 1)
  v ← get
  variant ← video_var_id v
  removed ← clean env
  seg_pdt ← anchor_pdt env cur_duration
  hash_and_commit env completed cur_duration variant removed seg_pdt

pub start_segment : ℤ → HlsVariant → HlsVariant
start_segment next_pkt_start v = record v {
  packets_written = 0;
  current_segment_start = next_pkt_start;
}

pub publish_segment : Env → ℤ → EgressSegment → List EgressSegment → M EgressResult
unfolding start_segment
publish_segment env next_pkt_start created deleted = do
  write_playlist env write_segment_playlist
  modify (start_segment next_pkt_start)
  pure (segments (created ∷ []) deleted)

pub finish_and_publish : Env → ℕ → ℤ → ℤ → M EgressResult
unfolding finish_segment publish_segment
finish_and_publish env completed cur_duration next_pkt_start = do
  (created, deleted) ← finish_segment env completed cur_duration
  publish_segment env next_pkt_start created deleted

unfoldable pub split_next_seg : Env → ℤ → Bool → M EgressResult
unfolding flush_muxer drain_to_current_file finish_and_publish
split_next_seg env next_pkt_start flush v = finish v
  where
    finish : M EgressResult
    finish = do
      flush_muxer env flush
      _ ← drain_to_current_file env append_segment env.segment_bytes
      w ← get
      finish_and_publish env v.idx (next_pkt_start -ℤ w.current_segment_start) next_pkt_start

unfoldable pub partial_would_exceed_target : ℤ → ℤ → ℤ → Bool
partial_would_exceed_target cur_part_duration next_pkt_duration target =
    if ltb_ℤ (pos 0) next_pkt_duration
    then ltb_ℤ target (cur_part_duration +ℤ next_pkt_duration)
    else leb_ℤ target cur_part_duration

-- An `AvPacketRef`, its times in ticks of `time_base` units; `none` is `AV_NOPTS_VALUE`.
pub record Packet : Type 0 where
  pub pts : Option ℤ
  pub dts : Option ℤ
  pub duration : ℤ
  pub time_base : ℕ
  pub key : Bool

abbrev has_type_video : MediaType → Bool
has_type_video MediaType.video = true
has_type_video MediaType.audio = false
has_type_video MediaType.subtitle = false

abbrev has_type_audio : MediaType → Bool
has_type_audio MediaType.audio = true
has_type_audio MediaType.video = false
has_type_audio MediaType.subtitle = false

unfoldable pub can_split : HlsVariant → MediaType → Bool → Bool
can_split v stream_type key =
    if v.has_video then has_type_video stream_type && key else has_type_audio stream_type

unfoldable pub should_end_segment : HlsVariant → ℤ → Bool
unfolding segment_length
should_end_segment v pkt_pts =
    leb_ℤ (pos (segment_length v) -ℤ pos (second / 20)) (pkt_pts -ℤ v.current_segment_start)

unfoldable pub should_split_partial : HlsVariant → ℤ → ℤ → Bool → Bool
unfolding partial_would_exceed_target
should_split_partial v pkt_dts pkt_duration split_seg =
    v.low_latency
    && (partial_would_exceed_target (pkt_dts -ℤ v.current_partial_start) pkt_duration
          (pos v.partial_target_duration)
        || split_seg)

pub close_partial : Env → ℤ → Bool → Bool → M (Unit {0})
close_partial env pkt_dts false splittable = pure tt
close_partial env pkt_dts true splittable = do
  split_partial_segment env pkt_dts
  modify (λ v. record v { next_partial_independent = splittable })

-- The block of `process_packet` for a packet of the reference stream that is not the first.
unfoldable pub split_at_packet : Env → ℤ → ℤ → ℤ → Bool → M EgressResult
unfolding close_partial
split_at_packet env pkt_pts pkt_dts pkt_duration splittable = do
  v ← get
  let split_seg = splittable && should_end_segment v pkt_pts
  let split_partial = should_split_partial v pkt_dts pkt_duration split_seg
  close_partial env pkt_dts split_partial splittable
  if split_seg then split_next_seg env pkt_pts (not split_partial) else pure nothing

-- The DTS, or the PTS of a packet that has none.
decode_time : Packet → ℤ → ℤ
decode_time pkt pts = elim pkt.dts [
  | none ↦ scale pts pkt.time_base
  | some dts ↦ scale dts pkt.time_base
]

is_reference : HlsVariant → HlsVariantStream → Bool
is_reference v var = stream_index var == v.ref_stream_index && ltb 0 v.packets_written

-- A packet with no PTS is neither a reference packet nor a place to split.
split_if_reference : Env → Packet → HlsVariantStream → Option ℤ → M EgressResult
unfolding split_at_packet can_split decode_time is_reference
split_if_reference env pkt var none v = (ok nothing, v)
split_if_reference env pkt var (some pts) v =
    if is_reference v var
    then split_at_packet env (scale pts pkt.time_base) (decode_time pkt pts)
        (scale pkt.duration pkt.time_base) (can_split v (env.codec_type (stream_index var)) pkt.key)
        v
    else (ok nothing, v)

sink_packet : Env → HlsVariant → HlsVariant
sink_packet env v = record v {
  sink = v.sink ++ env.packet_bytes;
  packets_written = v.packets_written + 1;
}

mux_packet : Env → M (Unit {0})
unfolding sink_packet
mux_packet env = do attempt env write_packet; modify (sink_packet env)

unfoldable pub process_packet : Env → Packet → HlsVariantStream → M EgressResult
unfolding split_if_reference mux_packet
process_packet env pkt var = do
  result ← split_if_reference env pkt var pkt.pts
  mux_packet env
  pure result
