-- ===== src/Hls/Resume.antt =====
-- The start of a variant: `try_load_media_seq`, `new`, `enable_low_latency`, `open` and `reset` of
-- crates/core/src/mux/hls/variant.rs. A variant resumes the playlist of an earlier run.
pub mod Loading
pub mod Reading
pub mod Start
use zap_stream_core.Prelude.{
  ℕ, ◌+◌, ◌*◌, ◌/◌, Bool, true, false, not, ◌&&◌, Option, none, some, List, [], ◌∷◌, ◌++◌, ◌==◌,
  ltb, leb, if◌then◌else◌, any, reverse, take, length,
}
use zap_stream_core.Prelude.Int.{ℤ, pos}
use zap_stream_core.Prelude.Text.{Text, codes}
use zap_stream_core.Hls.Time.{second, max_ℕ}
use zap_stream_core.Hls.Segment.{
  SegmentType, HlsSegment, SegmentInfo, MediaSegment, MediaSegmentType, is_full,
}
use zap_stream_core.Hls.State.{
  HlsVariant, HlsVariantStream, Files, Env, M, ok, err, io, pure, get, modify, attempt, ◌>>=◌, ◌>>◌,
  create_segment, open_muxer, write_header, append_segment,
}
use zap_stream_core.Hls.Splitting.{append_bytes, open_file, append_sink_to_file}
use zap_stream_core.Http.Parts.{ParsedPlaylist, Playlist, master, media}

starts_with : Text → Text → Bool
starts_with [] text = true
starts_with (c ∷ prefix) [] = false
starts_with (c ∷ prefix) (d ∷ text) = let rest = starts_with prefix text in (c == d) && rest

kind_of : Text → SegmentType
unfolding starts_with
kind_of uri =
    if starts_with (reverse (codes ".ts")) (reverse uri)
    then SegmentType.mpegts
    else SegmentType.fmp4

-- `unwrap_or_default`.
or_epoch : Option ℤ → ℤ
or_epoch none = pos 0
or_epoch (some t) = t

loaded_segment : ℕ → MediaSegment → List ℕ → SegmentInfo
unfolding kind_of or_epoch
loaded_segment idx f sha256 = record {
  index = idx;
  duration = f.duration;
  kind = kind_of f.uri;
  sha256 = sha256;
  timestamp = or_epoch f.program_date_time;
  discontinuity = f.discontinuity;
}

prepend : ℕ → MediaSegment → Option (List ℕ) → Option (List HlsSegment) → Option (List HlsSegment)
unfolding loaded_segment
prepend idx f none rest = none
prepend idx f (some sha256) none = none
prepend idx f (some sha256) (some rest) =
    some (HlsSegment.full (loaded_segment idx f sha256) ∷ rest)

-- `hash` opens and hashes a file of the directory. Parts and hints are dropped.
load_segments : (Text → Option (List ℕ)) → ℕ → List MediaSegmentType → Option (List HlsSegment)
unfolding prepend
load_segments hash idx [] = some []
load_segments hash idx (MediaSegmentType.full f ∷ segs) =
    prepend idx f (hash f.uri) (load_segments hash (idx + 1) segs)
load_segments hash idx (MediaSegmentType.partial p ∷ segs) = load_segments hash idx segs
load_segments hash idx (MediaSegmentType.preload_hint uri start ∷ segs) =
    load_segments hash idx segs

-- The playlist is `none` when it cannot be read or parsed.
unfoldable pub try_load_media_seq :
    (Text → Option (List ℕ)) → Option Playlist → Option (List HlsSegment)
unfolding load_segments
try_load_media_seq hash none = none
try_load_media_seq hash (some master) = none
try_load_media_seq hash (some (media pl)) = load_segments hash pl.media_sequence pl.segments

mark : HlsSegment → HlsSegment
mark (HlsSegment.full s) = HlsSegment.full (record s { discontinuity = true })
mark (HlsSegment.partial p) = HlsSegment.partial p

-- The last full segment is marked as a discontinuity.
pub mark_last : List HlsSegment → List HlsSegment
unfolding mark
mark_last [] = []
mark_last (s ∷ segments) =
    let rest = mark_last segments in if any is_full segments then s ∷ rest else mark s ∷ segments

resumed : Option (List HlsSegment) → List HlsSegment
unfolding mark_last
resumed none = []
resumed (some segments) = mark_last segments

-- `max_by` keeps the left of two only when it is greater.
later : HlsSegment → HlsSegment → HlsSegment
later (HlsSegment.full a) (HlsSegment.full b) =
    if ltb b.index a.index then HlsSegment.full a else HlsSegment.full b
later (HlsSegment.full a) (HlsSegment.partial b) = HlsSegment.partial b
later (HlsSegment.partial a) b = b

latest : HlsSegment → List HlsSegment → HlsSegment
unfolding later
latest s [] = s
latest s (t ∷ segments) = latest (later s t) segments

index_after : HlsSegment → ℕ
index_after (HlsSegment.full s) = s.index + 1
index_after (HlsSegment.partial p) = 1

pub next_index : List HlsSegment → ℕ
unfolding latest index_after
next_index [] = 1
next_index (s ∷ segments) = index_after (latest s segments)

-- The stream of a group member: encoded by the pipeline, or copied from the source. `gop` and `fps`
-- (in frames per 1000 s) are those of an encoded video variant.
pub data EncoderVariant : Type 0 where
  encoded_video : ℕ → ℕ → ℕ → EncoderVariant
  encoded_audio encoded_subtitle copied_video copied_audio unsupported : ℕ → EncoderVariant

-- What `new` collects over the streams.
pub record Streams : Type 0 where
  pub streams : List HlsVariantStream
  pub reference : Option ℕ
  pub has_video : Bool
  pub segment_length : ℕ

gop_length : ℕ → ℕ → ℕ → ℕ
gop_length gop fps segment_length =
    if ltb 0 fps && ltb 0 gop
    then max_ℕ segment_length (gop * (1000 * second) / fps)
    else segment_length

video_at : ℕ → ℕ → ℕ → Streams → Streams
video_at index id segment_length s = record {
  streams = s.streams ++ HlsVariantStream.video index id ∷ [];
  reference = some index;
  has_video = true;
  segment_length = segment_length;
}

-- Audio is the reference only when nothing else is.
audio_reference : ℕ → Bool → Option ℕ → Option ℕ
audio_reference index has_video (some r) = some r
audio_reference index true none = none
audio_reference index false none = some index

audio_at : ℕ → ℕ → Streams → Streams
unfolding audio_reference
audio_at index id s = record s {
  streams = s.streams ++ HlsVariantStream.audio index id ∷ [];
  reference = audio_reference index s.has_video s.reference;
}

-- `index` is the stream that the muxer has added.
add_stream : ℕ → EncoderVariant → Streams → Option Streams
unfolding gop_length video_at audio_at
add_stream index (encoded_video id gop fps) s =
    some (video_at index id (gop_length gop fps s.segment_length) s)
add_stream index (encoded_audio id) s = some (audio_at index id s)
add_stream index (encoded_subtitle id) s =
    some (record s { streams = s.streams ++ HlsVariantStream.subtitle index id ∷ [] })
add_stream index (copied_video id) s = some (video_at index id s.segment_length s)
add_stream index (copied_audio id) s = some (audio_at index id s)
add_stream index (unsupported id) s = none

-- `muxer` adds a stream and gives its index; `none` is an error of ffmpeg.
add_streams : (ℕ → Option ℕ) → ℕ → List EncoderVariant → Option Streams → Option Streams
unfolding add_stream
add_streams muxer n streams none = none
add_streams muxer n [] (some s) = some s
add_streams muxer n (v ∷ streams) (some s) =
    add_streams muxer (n + 1) streams
      (elim (muxer n) [ none ↦ none | some index ↦ add_stream index v s ])

fresh : ℕ → Streams
fresh segment_length = record {
  streams = [];
  reference = none;
  has_video = false;
  segment_length = segment_length;
}

-- What `new` finds: whether the directory exists or can be made, its playlist and files, and what
-- the muxer's builder does.
pub record Setup : Type 0 where
  pub dir_exists : Bool
  pub create_fails : Bool
  pub playlist : Option Playlist
  pub hash : Text → Option (List ℕ)
  pub build_fails : Bool
  pub muxer : ℕ → Option ℕ
  pub files : Files

pub found_segments : Setup → Option (List HlsSegment)
unfolding resumed try_load_media_seq
found_segments setup =
    if setup.dir_exists
    then some (resumed (try_load_media_seq setup.hash setup.playlist))
    else if setup.create_fails
    then none
    else some []

initial : Setup → SegmentType → List HlsSegment → ℕ → Streams → HlsVariant
unfolding next_index
initial setup segment_type segments reference s = record {
  streams = s.streams;
  segment_length_target = s.segment_length;
  segment_window = pos (30 * second);
  idx = next_index segments;
  segments = segments;
  segment_type = segment_type;
  current_segment_start = pos 0;
  current_partial_start = pos 0;
  packets_written = 0;
  ref_stream_index = reference;
  low_latency = false;
  partial_target_duration = 0;
  current_partial_index = 0;
  next_partial_independent = false;
  init_segment_path = none;
  has_video = s.has_video;
  sink = [];
  current_file = none;
  written = 0;
  pdt_anchor = none;
  files = setup.files;
  playlist = none;
}

-- There must be a reference stream.
with_streams : Setup → SegmentType → List HlsSegment → Option Streams → Option HlsVariant
unfolding initial
with_streams setup segment_type segments none = none
with_streams setup segment_type segments (some s) = elim s.reference [
  | none ↦ none
  | some reference ↦ some (initial setup segment_type segments reference s)
]

with_segments :
    Setup → List EncoderVariant → SegmentType → ℕ → Option (List HlsSegment) → Option HlsVariant
unfolding with_streams add_streams fresh
with_segments setup streams_in segment_type segment_length none = none
with_segments setup streams_in segment_type segment_length (some segments) =
    if setup.build_fails
    then none
    else with_streams setup segment_type segments
        (add_streams setup.muxer 0 streams_in (some (fresh segment_length)))

-- `HlsVariant::new`; `none` is an error.
unfoldable pub new : Setup → List EncoderVariant → SegmentType → ℕ → Option HlsVariant
unfolding found_segments with_segments
new setup streams_in segment_type segment_length =
    with_segments setup streams_in segment_type segment_length (found_segments setup)

unfoldable pub enable_low_latency : ℕ → HlsVariant → HlsVariant
enable_low_latency target_duration v = record v {
  low_latency = true;
  partial_target_duration = target_duration;
}

-- MPEG-TS: the header starts the first segment file. A failed write leaves `env.torn` bytes.
write_start : Env → List ℕ → M (Unit {0})
unfolding append_bytes
write_start env [] v = (ok tt, v)
write_start env (b ∷ header) v = elim v.current_file [
  | none ↦ (ok tt, v)
  | some k ↦
      if env.fails write_header
      then (err (io write_header), append_bytes k (take env.torn (b ∷ header)) v)
      else (
        ok tt,
        record (append_bytes k (b ∷ header) v) { written = v.written + length (b ∷ header) },
      )
]

-- fMP4: the header is the initialization segment.
route_header : Env → List ℕ → SegmentType → M (Unit {0})
unfolding write_start
route_header env header SegmentType.fmp4 = do
  attempt env write_header
  modify (λ v. record v { init_segment_path = some (codes "init.mp4") })
route_header env header SegmentType.mpegts = write_start env header

-- `header` is what the muxer writes on opening; it takes what is in the sink with it.
start_muxer : Env → List ℕ → M (Unit {0})
unfolding route_header
start_muxer env header = do
  attempt env open_muxer
  v ← get
  modify (λ v. record v { sink = [] })
  route_header env (v.sink ++ header) v.segment_type

unfoldable pub open_variant : Env → List ℕ → M (Unit {0})
unfolding open_file start_muxer
open_variant env header = do
  attempt env create_segment
  modify (λ v. open_file v.idx v)
  start_muxer env header

-- `trailer` is what the muxer writes on closing.
unfoldable pub reset : Env → List ℕ → M (Unit {0})
unfolding append_sink_to_file
reset env trailer = do
  attempt env open_muxer
  modify (λ v. record v { sink = v.sink ++ trailer })
  _ ← append_sink_to_file env append_segment
  modify (λ v. record v { current_file = none })
