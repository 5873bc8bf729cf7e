-- ===== src/Http/Range.antt =====
-- Byte ranges of segment files: `get_range`, `range_response` and the range branch of `get_segment`
-- in crates/zap-stream/src/http/hls.rs. The range header is parsed by the http_range_header crate.
pub mod Bounds
pub mod Body
pub mod Waiting
use zap_stream_core.Prelude.{
  ℕ, zero, suc, ◌+◌, ◌-◌, ◌%◌, ◌*◌, Bool, true, false, Option, none, some, List, [], ◌∷◌, min, ltb,
  leb, if◌then◌else◌, take, drop,
}
use zap_stream_core.Prelude.Text.{u64_mod}
use zap_stream_core.Http.Paths.{
  StatusCode, bad_request, not_found, range_not_satisfiable, Result, ok, err, ◌>>=◌,
}

pub data StartPosition : Type 0 where
  index from_last : ℕ → StartPosition

pub data EndPosition : Type 0 where
  index : ℕ → EndPosition
  last_byte : EndPosition

pub record SyntacticallyCorrectRange : Type 0 where
  pub start : StartPosition
  pub end : EndPosition

abbrev pub max_unbounded_range : ℕ
max_unbounded_range = 1024 * 1024

-- `none` is the error of an `ensure!`.
range_start : ℕ → StartPosition → Option ℕ
range_start file_size (StartPosition.index i) = if ltb i file_size then some i else none
range_start file_size (StartPosition.from_last i) = some (file_size - i)

range_end : ℕ → ℕ → EndPosition → Option ℕ
range_end file_size start (EndPosition.index i) = if ltb i file_size then some i else none
range_end file_size start EndPosition.last_byte =
    some (min (file_size - 1) ((start + max_unbounded_range) % u64_mod))

ordered : ℕ → Option ℕ → Option (ℕ × ℕ)
ordered start none = none
ordered start (some end) = if leb start end then some (start, end) else none

from_start : ℕ → EndPosition → Option ℕ → Option (ℕ × ℕ)
unfolding range_end ordered
from_start file_size end none = none
from_start file_size end (some start) = ordered start (range_end file_size start end)

-- The inclusive range.
unfoldable pub get_range : ℕ → SyntacticallyCorrectRange → Option (ℕ × ℕ)
unfolding range_start from_start
get_range file_size header = from_start file_size header.end (range_start file_size header.start)

pub record RangeResponse : Type 0 where
  pub start : ℕ
  pub end : ℕ
  pub total : ℕ
  pub body : List ℕ

-- The file when its size is read, and when its bytes are. `none` is a failure to open.
serve_range : ℕ → Option (ℕ × ℕ) → Option (List ℕ) → Result RangeResponse
serve_range file_size none file = err range_not_satisfiable
serve_range file_size (some (start, end)) none = err not_found
serve_range file_size (some (start, end)) (some bytes) = ok (record {
  start = start;
  end = end;
  total = file_size;
  body = take (end - start + 1) (drop start bytes);
})

unfoldable pub range_response :
    Option ℕ → Option (List ℕ) → SyntacticallyCorrectRange → Result RangeResponse
unfolding get_range serve_range
range_response none file header = err not_found
range_response (some file_size) file header =
    serve_range file_size (get_range file_size header) file

-- What one round of the wait sees: the file's size, whether the next segment exists, and the time
-- in milliseconds.
pub record Round : Type 0 where
  pub size : Option ℕ
  pub next_exists : Bool
  pub now : ℕ

pub data Wait : Type 0 where
  ready : Wait
  failed : StatusCode → Wait
  sleep : Wait

round_result : ℕ → ℕ → Round → Option ℕ → Wait
round_result start deadline r none = failed not_found
round_result start deadline r (some size) =
    if ltb start size
    then ready
    else if r.next_exists
    then failed range_not_satisfiable
    else if leb deadline r.now
    then failed range_not_satisfiable
    else sleep

unfoldable pub wait_round : ℕ → ℕ → Round → Wait
unfolding round_result
wait_round start deadline r = round_result start deadline r r.size

-- The loop of a hinted request over the rounds to come; `none` when they run out.
unfoldable pub wait_for_bytes : ℕ → ℕ → List Round → Option (Result (Unit {0}))
unfolding wait_round
wait_for_bytes start deadline [] = none
wait_for_bytes start deadline (r ∷ rounds) = elim (wait_round start deadline r) [
  | ready ↦ some (ok tt)
  | failed e ↦ some (err e)
  | sleep ↦ wait_for_bytes start deadline rounds
]
