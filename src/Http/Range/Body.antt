-- ===== src/Http/Range/Body.antt =====
-- The body of `range_response`, and the wait of a hinted request
-- (crates/zap-stream/src/http/hls.rs).
use zap_stream_core.Prelude.{
  ℕ, zero, suc, ap, ◌∙◌, [], ◌∷◌, ◌+◌, ◌-◌, ◌≤◌, ◌<◌, ◌≡◌, refl, some, List, ◌++◌, take, drop,
  length, length-take, length-drop, arith,
}
use zap_stream_core.Http.Paths.{ok}
use zap_stream_core.Http.Range.{
  SyntacticallyCorrectRange, RangeResponse, get_range, serve_range, range_response,
}
use zap_stream_core.Http.Range.Bounds.{get_range-bounds}

take-append : (n : ℕ) (xs ys : List ℕ) → n ≤ length xs → take n (xs ++ ys) ≡ take n xs
take-append zero xs ys h = refl
take-append (suc n) [] ys h = absurd (omega arith)
take-append (suc n) (x ∷ xs) ys h = ap (◌∷◌ x) (take-append n xs ys (omega arith))

take-drop-append :
    (m n : ℕ) (xs ys : List ℕ) → m + n ≤ length xs → take n (drop m (xs ++ ys)) ≡ take n (drop m xs)
take-drop-append zero n xs ys h = take-append n xs ys (omega arith)
take-drop-append (suc m) n [] ys h = absurd (omega arith)
take-drop-append (suc m) n (x ∷ xs) ys h = take-drop-append m n xs ys (omega arith)

abbrev slice : ℕ → ℕ → List ℕ → List ℕ
slice s t bytes = take (t - s + 1) (drop s bytes)

served : ℕ → ℕ → ℕ → List ℕ → RangeResponse
served s t total body = record { start = s; end = t; total = total; body = body }

-- A segment file only grows between the reading of its size and of its bytes. Of a file that was
-- not empty, the response to an accepted range has exactly the bytes of that range, in the file as
-- it was when its size was read, and as many as the range is long.
pub range_response-body :
    (bytes more : List ℕ) (header : SyntacticallyCorrectRange) (s t : ℕ)
    → 0 < length bytes
    → get_range (length bytes) header ≡ some (s, t)
    → (range_response (some (length bytes)) (some (bytes ++ more)) header
        ≡ ok (record {
          start = s;
          end = t;
          total = length bytes;
          body = take (t - s + 1) (drop s bytes);
        }))
      × (length (take (t - s + 1) (drop s bytes)) ≡ t - s + 1)
unfolding range_response serve_range served
range_response-body bytes more header s t pos e = (
  ap (λ r. serve_range (length bytes) r (some (bytes ++ more))) e
      ∙ ap (λ b. ok (served s t (length bytes) b))
          (take-drop-append s (t - s + 1) bytes more (omega (arith, bounds))),
  length-take (t - s + 1) (drop s bytes) (omega (arith, bounds, length-drop s bytes)),
)
  where
    bounds : (s ≤ t) × (t < length bytes)
    bounds = get_range-bounds (length bytes) header s t pos e
