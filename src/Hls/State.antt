-- ===== src/Hls/State.antt =====
-- The state of `HlsVariant` (crates/core/src/mux/hls/variant.rs) with the files that it writes, the
-- calls that can fail, and the monad of its `&mut self` methods. A method that fails keeps the
-- state that it has reached.
use zap_stream_core.Prelude.{ℕ, Bool, true, false, Option, List, [], ◌∷◌, ◌==◌, ◌&&◌, if◌then◌else◌}
use zap_stream_core.Prelude.Int.{ℤ}
use zap_stream_core.Prelude.Text.{Text}
use zap_stream_core.Hls.Segment.{SegmentType, HlsSegment, MediaSegmentType}

-- crates/core/src/mux/hls/mod.rs. Stream ids (UUIDs) are numbers.
pub data HlsVariantStream : Type 0 where
  video audio subtitle : ℕ → ℕ → HlsVariantStream

unfoldable pub stream_index : HlsVariantStream → ℕ
stream_index (HlsVariantStream.video index id) = index
stream_index (HlsVariantStream.audio index id) = index
stream_index (HlsVariantStream.subtitle index id) = index

unfoldable pub stream_id : HlsVariantStream → ℕ
stream_id (HlsVariantStream.video index id) = id
stream_id (HlsVariantStream.audio index id) = id
stream_id (HlsVariantStream.subtitle index id) = id

-- A media playlist as it is written to disk: what the m3u8 crate prints, and the appended hint.
pub record MediaPlaylist : Type 0 where
  pub segments : List MediaSegmentType
  pub has_map : Bool
  pub part_hold_back : Option ℕ
  pub version : ℕ
  pub target_duration : ℤ
  pub part_target : Option ℕ
  pub media_sequence : ℕ
  pub end_list : Bool
  pub hint : Option (Text × ℕ)

-- A segment file is named by `segment_name` of its type and index.
pub record FileId : Type 0 where
  pub kind : SegmentType
  pub index : ℕ

abbrev pub Files : Type 0
Files = List (FileId × List ℕ)

abbrev same_kind : SegmentType → SegmentType → Bool
same_kind SegmentType.mpegts SegmentType.mpegts = true
same_kind SegmentType.fmp4 SegmentType.fmp4 = true
same_kind _ _ = false

abbrev pub same_file : FileId → FileId → Bool
same_file a b = same_kind a.kind b.kind && a.index == b.index

abbrev pub content : FileId → Files → List ℕ
content k [] = []
content k ((j, bytes) ∷ files) = if same_file k j then bytes else content k files

abbrev pub remove_file : FileId → Files → Files
remove_file k [] = []
remove_file k ((j, bytes) ∷ files) =
    if same_file k j then remove_file k files else (j, bytes) ∷ remove_file k files

-- `File::create` truncates; `write_all` appends to the open file.
abbrev pub put_file : FileId → List ℕ → Files → Files
put_file k bytes files = (k, bytes) ∷ remove_file k files

pub record HlsVariant : Type 0 where
  pub streams : List HlsVariantStream
  pub segment_length_target : ℕ
  pub segment_window : ℤ
  pub idx : ℕ
  pub segments : List HlsSegment
  pub segment_type : SegmentType
  pub current_segment_start : ℤ
  pub current_partial_start : ℤ
  pub packets_written : ℕ
  pub ref_stream_index : ℕ
  pub low_latency : Bool
  pub partial_target_duration : ℕ
  pub current_partial_index : ℕ
  pub next_partial_independent : Bool
  pub init_segment_path : Option Text
  pub has_video : Bool
  pub sink : List ℕ
  pub current_file : Option FileId
  pub written : ℕ
  pub pdt_anchor : Option (ℤ × ℤ)
  -- The variant's directory.
  pub files : Files
  pub playlist : Option MediaPlaylist

-- The fallible calls made for one packet, in the order of the code.
pub data IoStep : Type 0 where
  append_part write_part_playlist : IoStep
  flush_queue flush_frame append_segment create_segment hash_segment : IoStep
  write_segment_playlist : IoStep
  write_packet open_muxer write_header : IoStep

pub data Error : Type 0 where
  io : IoStep → Error
  no_segment_file : Error
  misaligned_part : Error
  panicked : Error

pub data MediaType : Type 0 where
  video audio subtitle : MediaType

-- What ffmpeg, the clock and the file system do while one packet is processed: which calls fail,
-- how many bytes of a failed append reach the file, what the muxer has put into the sink by the
-- time that a part, a segment or the packet is written, and the SHA-256 of a file.
pub record Env : Type 0 where
  pub fails : IoStep → Bool
  pub torn : ℕ
  pub part_bytes : List ℕ
  pub segment_bytes : List ℕ
  pub packet_bytes : List ℕ
  pub remove_fails : ℕ → Bool
  pub codec_type : ℕ → MediaType
  pub now : ℤ
  pub sha256 : List ℕ → List ℕ

pub data Result {ℓ} (A : Type ℓ) : Type ℓ where
  ok : A → Result A
  err : Error → Result A

abbrev pub M {ℓ} : Type ℓ → Type ℓ
M A = HlsVariant → Result A × HlsVariant

abbrev pub pure {ℓ} : {A : Type ℓ} → A → M A
pure a v = (ok a, v)

abbrev pub throw {ℓ} : {A : Type ℓ} → Error → M A
throw e v = (err e, v)

abbrev pub get : M HlsVariant
get v = (ok v, v)

abbrev pub modify : (HlsVariant → HlsVariant) → M (Unit {0})
modify f v = (ok tt, f v)

infixl 5 ◌>>=◌ ◌>>◌
abbrev pub ◌>>=◌ {ℓ κ} : {A : Type ℓ} {B : Type κ} → M A → (A → M B) → M B
◌>>=◌ m f v = let (r, w) = m v in elim r [ ok a ↦ f a w | err e ↦ (err e, w) ]

abbrev pub ◌>>◌ {ℓ} : {B : Type ℓ} → M (Unit {0}) → M B → M B
m >> k = m >>= λ _. k

abbrev pub attempt : Env → IoStep → M (Unit {0})
attempt env step v = if env.fails step then (err (io step), v) else (ok tt, v)

-- A postcondition of a run: `Q` of a result, `E` of an error, both with the state reached.
abbrev pub Outcome {ℓ} :
    {A : Type ℓ}
    → (A → HlsVariant → Type 0)
    → (Error → HlsVariant → Type 0)
    → Result A × HlsVariant
    → Type 0
Outcome Q E (ok a, w) = Q a w
Outcome Q E (err e, w) = E e w
