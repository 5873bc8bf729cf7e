-- ===== src/Http/Paths/Names.antt =====
-- The names that the HLS routes read back and hand out (crates/zap-stream/src/http/hls.rs).
use zap_stream_core.Prelude.{
  ℕ, ◌+◌, ◌%◌, ◌<◌, ◌≡◌, refl, sym, ap, ◌∙◌, inl, inr, Bool, true, false, Option, none, some, [],
  ◌∷◌, ◌++◌, append-nil, ◌==◌, if◌then◌else◌, Bool-cases, arith,
}
use zap_stream_core.Prelude.Text.{Text, codes, decimal, parse_u64, parse_u64-decimal, u64_mod}
use zap_stream_core.Hls.Segment.{SegmentType, mpegts, fmp4, segment_name}
use zap_stream_core.Http.Paths.{
  contains, rsplit_once_dot, exists_after, exists_next, next_segment_exists, add_token_to_url,
}

rsplit_once_dot-append :
    (xs ys stem ext : Text)
    → rsplit_once_dot ys ≡ some (stem, ext)
    → rsplit_once_dot (xs ++ ys) ≡ some (xs ++ stem, ext)
unfolding rsplit_once_dot
rsplit_once_dot-append [] ys stem ext e = e
rsplit_once_dot-append (x ∷ xs) ys stem ext e =
    rw (rsplit_once_dot-append xs ys stem ext e, rsplit_once_dot) refl

abbrev extension : SegmentType → Text
extension mpegts = codes "ts"
extension fmp4 = codes "m4s"

segment_name-extension :
    (t : SegmentType) (i : ℕ) → segment_name t i ≡ decimal i ++ b'.' ∷ extension t
unfolding segment_name
segment_name-extension mpegts i = refl
segment_name-extension fmp4 i = refl

rsplit_once_dot-extension :
    (t : SegmentType) → rsplit_once_dot (b'.' ∷ extension t) ≡ some ([], extension t)
unfolding rsplit_once_dot
rsplit_once_dot-extension mpegts = refl
rsplit_once_dot-extension fmp4 = refl

-- For the name of a segment that the muxer writes, with an index below 2^64 - 1,
-- `next_segment_exists` asks exactly for the name that the muxer gives to the next segment.
next_segment_exists-segment_name :
    (exists : Text → Bool) (t : SegmentType) (i : ℕ)
    → i + 1 < u64_mod
    → next_segment_exists exists (segment_name t i) ≡ exists (segment_name t (i + 1))
unfolding next_segment_exists exists_after exists_next
next_segment_exists-segment_name exists t i h =
    ap (exists_after exists) split
    ∙ ap (exists_next exists (extension t)) parsed
    ∙ ap (λ n. exists (decimal n ++ b'.' ∷ extension t)) next
    ∙ sym (ap exists (segment_name-extension t (i + 1)))
  where
    split : rsplit_once_dot (segment_name t i) ≡ some (decimal i ++ [], extension t)
    split =
        ap rsplit_once_dot (segment_name-extension t i)
        ∙ rsplit_once_dot-append (decimal i) _ [] (extension t) (rsplit_once_dot-extension t)

    parsed : parse_u64 (decimal i ++ []) ≡ some i
    parsed = ap parse_u64 (append-nil (decimal i)) ∙ parse_u64-decimal i (omega arith)

    next : (i + 1) % u64_mod ≡ i + 1
    next = omega arith

-- The query of a URL, behind its first `?`.
abbrev pub query : Text → Option Text
query [] = none
query (c ∷ cs) = if c == b'?' then some cs else query cs

abbrev pub before_query : Text → Text
before_query [] = []
before_query (c ∷ cs) = if c == b'?' then [] else c ∷ before_query cs

-- The query with the viewer token as its last parameter.
abbrev pub with_token : Option Text → Text → Text
with_token none token = codes "vt=" ++ token
with_token (some q) token = q ++ codes "&vt=" ++ token

query-amp :
    (url token : Text)
    → contains b'?' url ≡ true
    → (query (url ++ codes "&vt=" ++ token) ≡ some (with_token (query url) token))
      × (before_query (url ++ codes "&vt=" ++ token) ≡ before_query url)
query-amp [] token h = cc
query-amp (c ∷ url) token h = elim (Bool-cases (c == b'?')) [
  | inl e ↦ rw e (refl, refl)
  | inr e ↦ let ih = query-amp url token (ground arith) in rw e (ih.0, ap (◌∷◌ c) ih.1)
]

query-mark :
    (url token : Text)
    → contains b'?' url ≡ false
    → (query (url ++ codes "?vt=" ++ token) ≡ some (with_token (query url) token))
      × (before_query (url ++ codes "?vt=" ++ token) ≡ before_query url)
query-mark [] token h = (refl, refl)
query-mark (c ∷ url) token h = elim (Bool-cases (c == b'?')) [
  | inl e ↦ absurd (ground arith)
  | inr e ↦ let ih = query-mark url token (ground arith) in rw e (ih.0, ap (◌∷◌ c) ih.1)
]

-- The rewritten URL names the same resource, and its query is the old one, if any, followed by the
-- viewer token.
query-add_token_to_url :
    (url token : Text)
    → (query (add_token_to_url url token) ≡ some (with_token (query url) token))
      × (before_query (add_token_to_url url token) ≡ before_query url)
unfolding add_token_to_url
query-add_token_to_url url token = elim (Bool-cases (contains b'?' url)) [
  | inl e ↦ rw e (query-amp url token e)
  | inr e ↦ rw e (query-mark url token e)
]
