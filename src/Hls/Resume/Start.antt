-- ===== src/Hls/Resume/Start.antt =====
-- A new variant (crates/core/src/mux/hls/variant.rs) begins in the state that `process_packet` keeps,
-- where the variant of an earlier run stopped.
use zap_stream_core.Prelude.{
  ℕ, ◌≡◌, refl, sym, ap, subst, ◌∙◌, ◌⊎◌, inl, inr, Bool, true, false, Option-cases, some_inj,
  Option, none, some, List, [], ◌∷◌, ◌++◌, if◌then◌else◌, any, arith,
}
use zap_stream_core.Prelude.Text.{codes}
use zap_stream_core.Hls.Segment.{SegmentType, fmp4, mpegts, HlsSegment, is_full}
use zap_stream_core.Hls.State.{
  HlsVariant, Env, Result, Outcome, get, modify, ◌>>=◌, ◌>>◌, write_header, open_muxer,
  create_segment,
}
use zap_stream_core.Hls.Outcome.{Outcome-attempt}
use zap_stream_core.Hls.Splitting.{open_file}
use zap_stream_core.Hls.Playlist.{media_playlist}
use zap_stream_core.Http.Parts.Availability.{read_back}
use zap_stream_core.Hls.Sequence.{Sequence}
use zap_stream_core.Hls.Splitting.Outcome.{On}
use zap_stream_core.Hls.Splitting.Parts.{Live}
use zap_stream_core.Http.Parts.{media}
use zap_stream_core.Hls.Resume.{
  try_load_media_seq, next_index, Setup, Streams, EncoderVariant, found_segments, with_streams,
  with_segments, new, open_variant, initial, write_start, route_header, start_muxer,
}
use zap_stream_core.Hls.Resume.Loading.{
  Finished, Finished-Chain, Finished-Tiled, Finished-trailing, Begins, found_segments-Begins,
}
use zap_stream_core.Hls.Resume.Reading.{resumed_index, found-loaded}

-- What `open` needs of a variant.
abbrev pub Ready : HlsVariant → Type 0
Ready v = ((n : ℕ) × Finished n v.segments v.idx) × (v.current_partial_index ≡ 0) × (v.sink ≡ [])

-- What `new` makes of the segments found.
abbrev Made : SegmentType → List HlsSegment → HlsVariant → Type 0
Made t segs v = Ready v × (v.segment_type ≡ t) × (v.idx ≡ next_index segs)

initial-Made :
    (setup : Setup) (t : SegmentType) (segs : List HlsSegment) (r : ℕ) (s : Streams)
    → Begins segs
    → Made t segs (initial setup t segs r s)
unfolding initial
initial-Made setup t segs r s h = ((h, refl, refl), refl, refl)

with_streams-Made :
    (setup : Setup) (t : SegmentType) (segs : List HlsSegment) (o : Option Streams) (v : HlsVariant)
    → Begins segs
    → with_streams setup t segs o ≡ some v
    → Made t segs v
unfolding with_streams
with_streams-Made setup t segs none v h e = cc
with_streams-Made setup t segs (some s) v h e = elim (Option-cases s.reference) [
  | inl none_found ↦ absurd (ground (arith, none_found, e))
  | inr (r, found) ↦
      subst (Made t segs)
        (some_inj (
          sym (ap (λ o. elim o [ none ↦ none | some r ↦ some (initial setup t segs r s) ]) found)
          ∙ e))
        (initial-Made setup t segs r s h)
]

otherwise :
    (b : Bool) (o : Option HlsVariant) (v : HlsVariant)
    → (if b then none else o) ≡ some v
    → o ≡ some v
otherwise true o v e = cc
otherwise false o v e = e

no_segments :
    (setup : Setup) (streams : List EncoderVariant) (t : SegmentType) (target : ℕ) (v : HlsVariant)
    → ¬ (with_segments setup streams t target none ≡ some v)
unfolding with_segments
no_segments setup streams t target v e = cc

with_segments-Made :
    (setup : Setup) (streams : List EncoderVariant) (t : SegmentType) (target : ℕ)
    (segs : List HlsSegment) (v : HlsVariant)
    → Begins segs
    → with_segments setup streams t target (some segs) ≡ some v
    → Made t segs v
unfolding with_segments
with_segments-Made setup streams t target segs v h e =
    with_streams-Made setup t segs _ v h (otherwise setup.build_fails _ v e)

new-Made :
    (setup : Setup) (streams : List EncoderVariant) (t : SegmentType) (target : ℕ) (v : HlsVariant)
    → new setup streams t target ≡ some v
    → (segs : List HlsSegment) × (found_segments setup ≡ some segs) × Made t segs v
unfolding new
new-Made setup streams t target v e = go (found_segments setup) (found_segments-Begins setup) e
  where
    go :
        (o : Option (List HlsSegment))
        → ((segs : List HlsSegment) → o ≡ some segs → Begins segs)
        → with_segments setup streams t target o ≡ some v
        → (segs : List HlsSegment) × (o ≡ some segs) × Made t segs v
    go none h e = absurd (no_segments setup streams t target v e)
    go (some segs) h e =
        (segs, refl, with_segments-Made setup streams t target segs v (h segs refl) e)

-- A postcondition of success only.
abbrev pub OnSuccess : (HlsVariant → Type 0) → {A : Type 0} → Result A × HlsVariant → Type 0
OnSuccess P r = Outcome (λ _ w. P w) (λ _ _. Unit {0}) r

write_start-empty :
    (env : Env) (header : List ℕ) (v : HlsVariant)
    → header ≡ []
    → On Live v
    → OnSuccess (On Live) (write_start env header v)
unfolding write_start
write_start-empty env [] v e h = h
write_start-empty env (b ∷ header) v e h = cc

Ready-Live : (v : HlsVariant) → Ready v → Live v.segments v.idx v.current_partial_index 0
Ready-Live v ((n, f), counted, empty) = (
  (n, Finished-Chain n v.idx v.segments f),
  Finished-Tiled n v.idx v.segments f,
  Finished-trailing n v.idx v.segments f ∙ sym counted,
)

route_header-Live :
    (env : Env) (header : List ℕ) (t : SegmentType) (v : HlsVariant)
    → (t ≡ fmp4) ⊎ (header ≡ [])
    → On Live v
    → OnSuccess (On Live) (route_header env header t v)
unfolding route_header
route_header-Live env header fmp4 v c h =
    Outcome-attempt (λ _ w. On Live w) (λ _ _. Unit {0}) env write_header
      (modify (λ v. record v { init_segment_path = some (codes "init.mp4") })) v tt h
route_header-Live env header mpegts v c h = elim c [
  | inl e ↦ cc
  | inr e ↦ write_start-empty env header v e h
]

start_muxer-Live :
    (env : Env) (header : List ℕ) (v : HlsVariant)
    → (v.segment_type ≡ fmp4) ⊎ (v.sink ++ header ≡ [])
    → On Live v
    → OnSuccess (On Live) (start_muxer env header v)
unfolding start_muxer
start_muxer-Live env header v c h =
    Outcome-attempt (λ _ w. On Live w) (λ _ _. Unit {0}) env open_muxer
      (do
        v ← get
        modify (λ v. record v { sink = [] })
        route_header env (v.sink ++ header) v.segment_type)
      v tt (route_header-Live env (v.sink ++ header) v.segment_type (record v { sink = [] }) c h)

-- A variant that is ready and opened begins as its playlist describes it: an fMP4 variant, and an
-- MPEG-TS variant whose muxer writes no header bytes on opening.
open_variant-Live :
    (env : Env) (header : List ℕ) (v : HlsVariant)
    → (v.segment_type ≡ fmp4) ⊎ (header ≡ [])
    → Ready v
    → OnSuccess (On Live) (open_variant env header v)
unfolding open_variant open_file
open_variant-Live env header v c h =
    Outcome-attempt (λ _ w. On Live w) (λ _ _. Unit {0}) env create_segment
      (do modify (λ v. open_file v.idx v); start_muxer env header) v tt
      (start_muxer-Live env header (open_file v.idx v)
        (elim c [ inl e ↦ inl e | inr e ↦ inr (ap (λ xs. xs ++ header) h.2 ∙ e) ]) (Ready-Live v h))

-- A variant that `new` makes, over whatever it finds of an earlier run, and that `open` opens
-- begins in the state `Live`, which `process_packet` keeps: when it is fMP4, or when its muxer
-- writes no header bytes on opening.
pub new-open_variant-Live :
    (setup : Setup) (streams : List EncoderVariant) (t : SegmentType) (target : ℕ) (v : HlsVariant)
    (env : Env) (header : List ℕ)
    → new setup streams t target ≡ some v
    → (t ≡ fmp4) ⊎ (header ≡ [])
    → OnSuccess (On Live) (open_variant env header v)
new-open_variant-Live setup streams t target v env header e c =
    let (segs, found, made) = new-Made setup streams t target v e in
    open_variant-Live env header v (elim c [ inl f ↦ inl (made.1 ∙ f) | inr f ↦ inr f ]) made.0

-- A new variant over the directory of an earlier one, whose playlist is read back as it was written
-- with a finished segment in it and whose files can be hashed, goes on at the index of the earlier
-- one.
pub new-resumes :
    (setup : Setup) (streams : List EncoderVariant) (t : SegmentType) (target : ℕ)
    (old v : HlsVariant) (ret : List HlsSegment)
    → Sequence old.segments old.idx
    → any is_full old.segments ≡ true
    → setup.dir_exists ≡ true
    → setup.playlist ≡ some (media (read_back (media_playlist old)))
    → try_load_media_seq setup.hash setup.playlist ≡ some ret
    → new setup streams t target ≡ some v
    → v.idx ≡ old.idx
new-resumes setup streams t target old v ret (n, chain) full there same loaded e =
    let (segs, found, made) = new-Made setup streams t target v e in
    made.2
    ∙ resumed_index setup.hash old n ret segs chain full
        (sym (ap (try_load_media_seq setup.hash) same) ∙ loaded)
        (some_inj (sym (found-loaded setup ret there loaded) ∙ found))
