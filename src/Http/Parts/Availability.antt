-- ===== src/Http/Parts/Availability.antt =====
-- What the HTTP server (crates/zap-stream/src/http/hls.rs) reads off a playlist is what the muxer
-- (crates/core/src/mux/hls/variant.rs) has published.
use zap_stream_core.Prelude.{
  ℕ, suc, ◌+◌, ◌≡◌, refl, ap, ◌∙◌, Bool, true, false, ◌&&◌, ◌||◌, Option, none, some, List, [], ◌∷◌,
  ◌++◌, map, ltb, ◌==◌, arith,
}
use zap_stream_core.Prelude.Text.{Text}
use zap_stream_core.Hls.Segment.{
  HlsSegment, MediaSegmentType, full, partial, preload_hint, to_media_segment,
}
use zap_stream_core.Hls.State.{HlsVariant, MediaPlaylist}
use zap_stream_core.Hls.Playlist.{media_playlist, media_sequence}
use zap_stream_core.Hls.Playlist.Edge.{media_sequence-Chain}
use zap_stream_core.Hls.Sequence.{Chain}
use zap_stream_core.Hls.Tiling.{trailing}
use zap_stream_core.Hls.Splitting.Outcome.{On}
use zap_stream_core.Hls.Splitting.Parts.{Live}
use zap_stream_core.Http.Parts.{
  ParsedPlaylist, Playlist, media, master, last_msn_part, has_part, count_segments, last_of, has_of,
  playlist_has_part, playlist_last_msn_part,
}

unfoldable pub hints : Option (Text × ℕ) → List MediaSegmentType
hints none = []
hints (some (uri, start)) = preload_hint uri start ∷ []

-- What a parser reads of a playlist that the muxer has written: its media sequence number, its
-- segments, and the preload hint behind them.
unfoldable pub read_back : MediaPlaylist → ParsedPlaylist
unfolding hints
read_back pl = record {
  media_sequence = pl.media_sequence;
  segments = pl.segments ++ hints pl.hint;
}

count-hints : (f t : ℕ) (h : Option (Text × ℕ)) → count_segments f t (hints h) ≡ (f, t)
unfolding count_segments hints
count-hints f t none = refl
count-hints f t (some (uri, start)) = refl

-- On a chain from `n` to `m` the count advances by m - n and ends with the trailing parts.
count-Chain :
    (n m f t : ℕ) (segs : List HlsSegment) (h : Option (Text × ℕ))
    → Chain n segs m
    → (g : ℕ) × (g + n ≡ m + f)
      × (count_segments f t (map to_media_segment segs ++ hints h) ≡ (g, trailing t segs))
unfolding count_segments trailing to_media_segment
count-Chain n m f t [] h c = (f, omega arith, count-hints f t h)
count-Chain n m f t (full s ∷ segs) h c =
    let (g, e, same) = count-Chain (suc n) m (f + 1) 0 segs h c.1 in (g, omega (arith, e), same)
count-Chain n m f t (partial p ∷ segs) h c = count-Chain n m f (t + 1) segs h c.1

has_of-eq :
    (msn part start g t idx count : ℕ)
    → start + g ≡ idx
    → t ≡ count
    → has_of msn part start (g, t) ≡ (ltb msn idx || (msn == idx && ltb part count))
unfolding has_of
has_of-eq msn part start g t idx count e c = rw (e, c) (ground arith)

-- When the playlist's text is parsed back as what the muxer wrote of a variant in the state `Live`,
-- the server finds part `part` of segment `msn` in it exactly when that segment is finished, or is
-- the one in progress and at least `part + 1` of its parts have been published.
pub playlist_has_part-Live :
    (parse : List ℕ → Option Playlist) (content : List ℕ) (v : HlsVariant) (msn part : ℕ)
    → On Live v
    → parse content ≡ some (media (read_back (media_playlist v)))
    → playlist_has_part parse content msn part
      ≡ (ltb msn v.idx || (msn == v.idx && ltb part v.current_partial_index))
unfolding playlist_has_part has_part media_playlist read_back
playlist_has_part-Live parse content v msn part ((n, chain), tiled, counted) e =
    ap (has_part msn part) e
    ∙ ap (has_of msn part start) counts.2
    ∙ has_of-eq msn part start counts.0 (trailing 0 v.segments) v.idx v.current_partial_index
        (omega (arith, counts.1, media_sequence-Chain n v.idx v.segments chain)) counted
  where
    start : ℕ
    start = media_sequence v.segments v.idx

    counts :
        (g : ℕ) × (g + n ≡ v.idx + 0)
        × (count_segments 0 0 (map to_media_segment v.segments ++ hints (media_playlist v).hint)
            ≡ (g, trailing 0 v.segments))
    counts = count-Chain n v.idx 0 0 v.segments (media_playlist v).hint chain

-- What a rendition report says of a playlist, against what the blocking reload finds in it.
abbrev pub IsEdge : (ℕ → ℕ → Bool) → ℕ × Option ℕ → Type 0
IsEdge has (msn, some part) =
    (has msn part ≡ true) × (has msn (part + 1) ≡ false) × ((q : ℕ) → has (msn + 1) q ≡ false)
IsEdge has (msn, none) = ((q : ℕ) → has msn q ≡ true) × ((q : ℕ) → has (msn + 1) q ≡ false)

last_of-IsEdge :
    (start f t : ℕ) (last : ℕ × Option ℕ)
    → last_of start (f, t) ≡ some last
    → IsEdge (λ msn part. has_of msn part start (f, t)) last
unfolding last_of has_of
last_of-IsEdge start f t (msn, some part) e = (ground arith, ground arith, λ q. ground arith)
last_of-IsEdge start f t (msn, none) e = (λ q. ground arith, λ q. ground arith)

-- The (LAST-MSN, LAST-PART) that is reported of a playlist is its edge: that part is in it, and the
-- next part and every part of the next segment are not; with no LAST-PART, every part of LAST-MSN
-- is in it, and none of the next segment.
pub playlist_last_msn_part-IsEdge :
    (parse : List ℕ → Option Playlist) (content : List ℕ) (last : ℕ × Option ℕ)
    → playlist_last_msn_part parse content ≡ some last
    → IsEdge (playlist_has_part parse content) last
unfolding playlist_last_msn_part playlist_has_part
playlist_last_msn_part-IsEdge parse content last e = go (parse content) e
  where
    go :
        (pl : Option Playlist)
        → last_msn_part pl ≡ some last
        → IsEdge (λ msn part. has_part msn part pl) last
    go none h = cc
    go (some master) h = cc
    go (some (media p)) h =
        last_of-IsEdge p.media_sequence (count_segments 0 0 p.segments).0
          (count_segments 0 0 p.segments).1 last h
