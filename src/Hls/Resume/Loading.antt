-- ===== src/Hls/Resume/Loading.antt =====
-- The segments that a new variant (crates/core/src/mux/hls/variant.rs) takes over from the playlist of
-- an earlier run.
use zap_stream_core.Prelude.{
  ℕ, suc, ◌+◌, ◌≡◌, refl, sym, subst, ◌∙◌, inl, inr, Bool, true, false, Bool-cases, some_inj,
  Option, none, some, List, [], ◌∷◌, ltb, if◌then◌else◌, any, arith,
}
use zap_stream_core.Prelude.Text.{Text}
use zap_stream_core.Hls.Segment.{HlsSegment, MediaSegmentType, is_full}
use zap_stream_core.Hls.Sequence.{Chain}
use zap_stream_core.Hls.Tiling.{Tiled, trailing}
use zap_stream_core.Http.Parts.{Playlist, master, media}
use zap_stream_core.Hls.Resume.{
  prepend, load_segments, loaded_segment, try_load_media_seq, mark, mark_last, resumed, later,
  latest, index_after, next_index, Setup, found_segments,
}

-- A run of full segments from `n` up to `m`, without parts.
abbrev pub Finished : ℕ → List HlsSegment → ℕ → Type 0
Finished n [] m = n ≡ m
Finished n (HlsSegment.full s ∷ segs) m = (s.index ≡ n) × Finished (suc n) segs m
Finished n (HlsSegment.partial p ∷ segs) m = ⊥

load_segments-Finished :
    (hash : Text → Option (List ℕ)) (n : ℕ) (segs : List MediaSegmentType) (ret : List HlsSegment)
    → load_segments hash n segs ≡ some ret
    → (m : ℕ) × Finished n ret m
unfolding load_segments prepend loaded_segment
load_segments-Finished hash n [] ret e = (n, subst (λ r. Finished n r n) (some_inj e) refl)
load_segments-Finished hash n (MediaSegmentType.full f ∷ segs) ret e =
    go (hash f.uri) (load_segments hash (n + 1) segs) (load_segments-Finished hash (n + 1) segs) e
  where
    go :
        (h : Option (List ℕ)) (rest : Option (List HlsSegment))
        → ((r : List HlsSegment) → rest ≡ some r → (m : ℕ) × Finished (n + 1) r m)
        → prepend n f h rest ≡ some ret
        → (m : ℕ) × Finished n ret m
    go none rest ih e = cc
    go (some d) none ih e = cc
    go (some d) (some r) ih e =
        let (m, h) = ih r refl in
        (
          m,
          subst (λ r. Finished n r m) (some_inj e)
              (refl, subst (λ i. Finished i r m) (omega arith) h),
        )
load_segments-Finished hash n (MediaSegmentType.partial p ∷ segs) ret e =
    load_segments-Finished hash n segs ret e
load_segments-Finished hash n (MediaSegmentType.preload_hint u s ∷ segs) ret e =
    load_segments-Finished hash n segs ret e

pub mark_last-Finished :
    (n m : ℕ) (segs : List HlsSegment) → Finished n segs m → Finished n (mark_last segs) m
unfolding mark_last mark
mark_last-Finished n m [] h = h
mark_last-Finished n m (HlsSegment.full s ∷ segs) h = elim (Bool-cases (any is_full segs)) [
  | inl e ↦ rw e (h.0, mark_last-Finished (suc n) m segs h.1)
  | inr e ↦ rw e (h.0, h.1)
]
mark_last-Finished n m (HlsSegment.partial p ∷ segs) h = absurd h

latest-Finished :
    (n m : ℕ) (s : HlsSegment) (segs : List HlsSegment)
    → index_after s ≡ n
    → is_full s ≡ true
    → Finished n segs m
    → index_after (latest s segs) ≡ m
unfolding latest later index_after
latest-Finished n m s [] e f h = e ∙ h
latest-Finished n m (HlsSegment.full s) (HlsSegment.full t ∷ segs) e f h =
    elim (Bool-cases (ltb t.index s.index)) [
      | inl b ↦ absurd (ground (arith, e, h.0))
      | inr b ↦
          rw b (latest-Finished (suc n) m (HlsSegment.full t) segs (omega (arith, h.0)) refl h.1)
    ]
latest-Finished n m (HlsSegment.partial s) (t ∷ segs) e f h = absurd (ground (arith, f))
latest-Finished n m (HlsSegment.full s) (HlsSegment.partial t ∷ segs) e f h = absurd h

pub Finished-Chain : (n m : ℕ) (segs : List HlsSegment) → Finished n segs m → Chain n segs m
Finished-Chain n m [] h = h
Finished-Chain n m (HlsSegment.full s ∷ segs) h = (h.0, Finished-Chain (suc n) m segs h.1)
Finished-Chain n m (HlsSegment.partial p ∷ segs) h = absurd h

pub Finished-Tiled : (n m : ℕ) (segs : List HlsSegment) → Finished n segs m → Tiled 0 segs 0
Finished-Tiled n m [] h = refl
Finished-Tiled n m (HlsSegment.full s ∷ segs) h = Finished-Tiled (suc n) m segs h.1
Finished-Tiled n m (HlsSegment.partial p ∷ segs) h = absurd h

pub Finished-trailing : (n m : ℕ) (segs : List HlsSegment) → Finished n segs m → trailing 0 segs ≡ 0
unfolding trailing
Finished-trailing n m [] h = refl
Finished-trailing n m (HlsSegment.full s ∷ segs) h = Finished-trailing (suc n) m segs h.1
Finished-trailing n m (HlsSegment.partial p ∷ segs) h = absurd h

pub next_index-Finished :
    (n m : ℕ) (segs : List HlsSegment)
    → any is_full segs ≡ true
    → Finished n segs m
    → next_index segs ≡ m
unfolding next_index index_after
next_index-Finished n m [] some_full h = absurd (ground (arith, some_full))
next_index-Finished n m (HlsSegment.full s ∷ segs) some_full h =
    latest-Finished (suc n) m (HlsSegment.full s) segs (omega (arith, h.0)) refl h.1
next_index-Finished n m (HlsSegment.partial p ∷ segs) some_full h = absurd h

-- The segments that a variant begins with: finished ones, up to its index.
abbrev pub Begins : List HlsSegment → Type 0
Begins segs = (n : ℕ) × Finished n segs (next_index segs)

Finished-Begins : (n m : ℕ) (segs : List HlsSegment) → Finished n segs m → Begins segs
Finished-Begins n m [] h = (next_index [], refl)
Finished-Begins n m (HlsSegment.full s ∷ segs) h = (
  n,
  subst (Finished n (HlsSegment.full s ∷ segs))
      (sym (next_index-Finished n m (HlsSegment.full s ∷ segs) refl h)) h,
)
Finished-Begins n m (HlsSegment.partial p ∷ segs) h = absurd h

try_load-Finished :
    (hash : Text → Option (List ℕ)) (pl : Option Playlist) (ret : List HlsSegment)
    → try_load_media_seq hash pl ≡ some ret
    → (n : ℕ) × (m : ℕ) × Finished n ret m
unfolding try_load_media_seq
try_load-Finished hash none ret e = cc
try_load-Finished hash (some master) ret e = cc
try_load-Finished hash (some (media pl)) ret e =
    let (m, h) = load_segments-Finished hash pl.media_sequence pl.segments ret e in
    (pl.media_sequence, m, h)

resumed-Begins :
    (hash : Text → Option (List ℕ)) (pl : Option Playlist)
    → Begins (resumed (try_load_media_seq hash pl))
unfolding resumed
resumed-Begins hash pl = go (try_load_media_seq hash pl) (try_load-Finished hash pl)
  where
    go :
        (o : Option (List HlsSegment))
        → ((ret : List HlsSegment) → o ≡ some ret → (n : ℕ) × (m : ℕ) × Finished n ret m)
        → Begins (resumed o)
    go none h = (next_index [], refl)
    go (some ret) h =
        let (n, m, f) = h ret refl in
        Finished-Begins n m (mark_last ret) (mark_last-Finished n m ret f)

pub found_segments-Begins :
    (setup : Setup) (segs : List HlsSegment) → found_segments setup ≡ some segs → Begins segs
unfolding found_segments
found_segments-Begins setup segs e = go setup.dir_exists setup.create_fails e
  where
    go :
        (exists fails : Bool)
        → (if exists
            then some (resumed (try_load_media_seq setup.hash setup.playlist))
            else if fails
            then none
            else some [])
          ≡ some segs
        → Begins segs
    go true fails e = subst Begins (some_inj e) (resumed-Begins setup.hash setup.playlist)
    go false true e = cc
    go false false e = subst Begins (some_inj e) (next_index [], refl)
