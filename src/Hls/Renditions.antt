-- ===== src/Hls/Renditions.antt =====
-- `HlsMuxer::new` of crates/core/src/mux/hls/mod.rs: the variants of a stream, with the audio that
-- groups share in renditions of its own when segments are fMP4.
pub mod Sharing
pub mod Lengths
use zap_stream_core.Prelude.{
  ℕ, ◌+◌, ◌*◌, ◌/◌, Bool, true, false, not, ◌&&◌, Option, none, some, List, [], ◌∷◌, ◌++◌, ◌==◌,
  ltb, if◌then◌else◌, map, any, find, retain, max,
}
use zap_stream_core.Hls.Time.{second, max_ℕ}
use zap_stream_core.Hls.Segment.{SegmentType}
use zap_stream_core.Hls.State.{HlsVariant}
use zap_stream_core.Hls.Playlist.{partial_segment_length}
use zap_stream_core.Hls.Resume.{
  Setup, EncoderVariant, encoded_video, encoded_audio, encoded_subtitle, copied_video, copied_audio,
  unsupported, new, enable_low_latency,
}

pub record EncoderVariantGroup : Type 0 where
  pub id : ℕ
  pub streams : List EncoderVariant

abbrev pub member_id : EncoderVariant → ℕ
member_id (encoded_video id gop fps) = id
member_id (encoded_audio id) = id
member_id (encoded_subtitle id) = id
member_id (copied_video id) = id
member_id (copied_audio id) = id
member_id (unsupported id) = id

-- An unsupported member makes `HlsVariant::new` fail, whatever it is.
abbrev pub is_audio_variant : EncoderVariant → Bool
is_audio_variant (encoded_video id gop fps) = false
is_audio_variant (encoded_audio id) = true
is_audio_variant (encoded_subtitle id) = false
is_audio_variant (copied_video id) = false
is_audio_variant (copied_audio id) = true
is_audio_variant (unsupported id) = false

-- What `HlsVariant::new` is called with. A directory and an audio group are named by a UUID.
pub record Plan : Type 0 where
  pub name : ℕ
  pub members : List EncoderVariant
  pub audio_group : Option ℕ

abbrev pub all_streams : List EncoderVariantGroup → List EncoderVariant
all_streams [] = []
all_streams (g ∷ groups) = g.streams ++ all_streams groups

abbrev pub audio_plan : EncoderVariant → Plan
audio_plan s = record { name = member_id s; members = s ∷ []; audio_group = some (member_id s) }

abbrev pub seen : ℕ → List ℕ → Bool
seen id ids = any (λ i. i == id) ids

-- Each audio stream once.
unfoldable pub audio_plans : List ℕ → List EncoderVariant → List Plan
audio_plans ids [] = []
audio_plans ids (s ∷ streams) =
    if is_audio_variant s && not (seen (member_id s) ids)
    then audio_plan s ∷ audio_plans (member_id s ∷ ids) streams
    else audio_plans ids streams

abbrev pub id_of_member : Option EncoderVariant → Option ℕ
id_of_member none = none
id_of_member (some s) = some (member_id s)

abbrev pub media_members : EncoderVariantGroup → List EncoderVariant
media_members g = retain (λ s. not (is_audio_variant s)) g.streams

abbrev pub media_plan : EncoderVariantGroup → Plan
media_plan g = record {
  name = g.id;
  members = media_members g;
  audio_group = id_of_member (find is_audio_variant g.streams);
}

abbrev pub unless_empty : List EncoderVariant → Plan → List Plan
unless_empty [] p = []
unless_empty (s ∷ members) p = p ∷ []

-- A group of audio only has no variant of its own.
unfoldable pub media_plans : List EncoderVariantGroup → List Plan
media_plans [] = []
media_plans (g ∷ groups) = unless_empty (media_members g) (media_plan g) ++ media_plans groups

abbrev muxed_plan : EncoderVariantGroup → Plan
muxed_plan g = record { name = g.id; members = g.streams; audio_group = none }

unfoldable pub plans : SegmentType → List EncoderVariantGroup → List Plan
unfolding audio_plans media_plans
plans SegmentType.fmp4 groups = audio_plans [] (all_streams groups) ++ media_plans groups
plans SegmentType.mpegts groups = map muxed_plan groups

abbrev gop_length_or : ℕ → ℕ → Option ℕ → Option ℕ
gop_length_or gop fps known =
    if ltb 0 fps && ltb 0 gop then some (gop * (1000 * second) / fps) else known

-- The duration of a group of pictures of the last encoded video that tells it.
abbrev pub gop_seconds : Option ℕ → List EncoderVariant → Option ℕ
gop_seconds known [] = known
gop_seconds known (encoded_video id gop fps ∷ ss) = gop_seconds (gop_length_or gop fps known) ss
gop_seconds known (encoded_audio id ∷ ss) = gop_seconds known ss
gop_seconds known (encoded_subtitle id ∷ ss) = gop_seconds known ss
gop_seconds known (copied_video id ∷ ss) = gop_seconds known ss
gop_seconds known (copied_audio id ∷ ss) = gop_seconds known ss
gop_seconds known (unsupported id ∷ ss) = gop_seconds known ss

-- A variant with the fields of `HlsVariant` that only the muxer reads.
pub record Rendition : Type 0 where
  pub name : ℕ
  pub audio_group : Option ℕ
  pub gop_length : Option ℕ
  pub variant : HlsVariant

abbrev pub rendition : Plan → HlsVariant → Rendition
rendition p v = record {
  name = p.name;
  audio_group = p.audio_group;
  gop_length = gop_seconds none p.members;
  variant = v;
}

abbrev pub cons_rendition :
    Plan → Option HlsVariant → Option (List Rendition) → Option (List Rendition)
cons_rendition p none rest = none
cons_rendition p (some v) none = none
cons_rendition p (some v) (some rest) = some (rendition p v ∷ rest)

-- `setup` is what is found under a name.
unfoldable pub create_all : (ℕ → Setup) → SegmentType → ℕ → List Plan → Option (List Rendition)
unfolding new
create_all setup segment_type segment_length [] = some []
create_all setup segment_type segment_length (p ∷ ps) =
    cons_rendition p (new (setup p.name) p.members segment_type segment_length)
      (create_all setup segment_type segment_length ps)

abbrev pub max_known : Option ℕ → Option ℕ → Option ℕ
max_known none acc = acc
max_known (some g) none = some g
max_known (some g) (some a) = some (max_ℕ a g)

abbrev pub max_gop : Option ℕ → List Rendition → Option ℕ
max_gop acc [] = acc
max_gop acc (r ∷ rs) = max_gop (max_known r.gop_length acc) rs

-- The last of the sorted lengths.
abbrev pub greatest : ℕ → List Rendition → ℕ
greatest acc [] = acc
greatest acc (r ∷ rs) = greatest (max_ℕ acc r.variant.segment_length_target) rs

abbrev pub greatest_or : ℕ → List Rendition → ℕ
greatest_or segment_length [] = segment_length
greatest_or segment_length (r ∷ rs) = greatest r.variant.segment_length_target rs

-- The whole number of groups of pictures, at least one, that is nearest to the length.
unfoldable pub aligned : ℕ → ℕ → ℕ
aligned gop segment_length = gop * max_ℕ ((2 * segment_length + gop) / (2 * gop)) 1

abbrev pub common_from : ℕ → List Rendition → Option ℕ → ℕ
common_from segment_length rs none = greatest_or segment_length rs
common_from segment_length rs (some gop) = aligned gop segment_length

unfoldable pub common_len : ℕ → List Rendition → ℕ
unfolding aligned
common_len segment_length rs = common_from segment_length rs (max_gop none rs)

abbrev pub with_length : ℕ → HlsVariant → HlsVariant
with_length len v = record v { segment_length_target = len }

-- Parts need byte ranges, so only fMP4 has them.
abbrev pub finished : SegmentType → HlsVariant → HlsVariant
finished SegmentType.fmp4 v = enable_low_latency (partial_segment_length v) v
finished SegmentType.mpegts v = v

unfoldable pub finish : SegmentType → ℕ → Rendition → Rendition
unfolding enable_low_latency partial_segment_length
finish segment_type len r = record r { variant = finished segment_type (with_length len r.variant) }

abbrev pub finish_all : SegmentType → ℕ → Option (List Rendition) → Option (List Rendition)
finish_all segment_type segment_length none = none
finish_all segment_type segment_length (some rs) =
    some (map (finish segment_type (common_len segment_length rs)) rs)

-- `HlsMuxer::new`; `none` is an error. `root` says whether the directory is there or can be made.
unfoldable pub new_muxer :
    Bool → (ℕ → Setup) → List EncoderVariantGroup → SegmentType → ℕ → Option (List Rendition)
unfolding plans create_all common_len finish
new_muxer root setup encoders segment_type segment_length =
    if root
    then finish_all segment_type segment_length
        (create_all setup segment_type segment_length (plans segment_type encoders))
    else none
