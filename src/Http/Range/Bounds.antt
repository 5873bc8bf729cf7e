-- ===== src/Http/Range/Bounds.antt =====
-- The bytes of a file that `get_range` (crates/zap-stream/src/http/hls.rs) accepts a range for.
use zap_stream_core.Prelude.{ℕ, ◌+◌, ◌*◌, ◌≤◌, ◌<◌, ◌≡◌, ◌⊎◌, ◌↔◌, Option, none, some, arith}
use zap_stream_core.Prelude.Text.{u64_mod}
use zap_stream_core.Http.Range.{
  SyntacticallyCorrectRange, StartPosition, EndPosition, last_byte, max_unbounded_range,
  range_start, range_end, ordered, from_start, get_range,
}

from_start-bounds :
    (size : ℕ) (end : EndPosition) (start : Option ℕ) (s e : ℕ)
    → 0 < size
    → from_start size end start ≡ some (s, e)
    → (start ≡ some s) × (s ≤ e) × (e < size)
unfolding from_start range_end ordered
from_start-bounds size end none s e pos h = cc
from_start-bounds size (EndPosition.index i) (some a) s e pos h = ground arith
from_start-bounds size last_byte (some a) s e pos h = ground arith

-- An accepted range of a file that is not empty is not reversed and ends inside the file.
pub get_range-bounds :
    (size : ℕ) (header : SyntacticallyCorrectRange) (s e : ℕ)
    → 0 < size
    → get_range size header ≡ some (s, e)
    → (s ≤ e) × (e < size)
unfolding get_range
get_range-bounds size header s e pos h =
    let b = from_start-bounds size header.end (range_start size header.start) s e pos h in
    (b.1, b.2)

-- Byte `i` of a file is asked for: with no end, at most the first 1024 * 1024 + 1 bytes are meant.
abbrev pub Asks : ℕ → StartPosition → EndPosition → ℕ → Type 0
Asks size (StartPosition.index a) (EndPosition.index b) i = (a ≤ i) × (i ≤ b)
Asks size (StartPosition.index a) last_byte i = (a ≤ i) × (i ≤ a + 1024 * 1024)
Asks size (StartPosition.from_last n) (EndPosition.index b) i = (size ≤ i + n) × (i ≤ b)
Asks size (StartPosition.from_last n) last_byte i =
    (size ≤ i + n) × ((i ≤ 1024 * 1024) ⊎ (i + n ≤ size + 1024 * 1024))

abbrev pub EndsBehind : ℕ → EndPosition → Type 0
EndsBehind size (EndPosition.index b) = size ≤ b
EndsBehind size last_byte = ⊥

-- An accepted range has a byte, ends in the file, and has byte `i` just when that is a byte of the file that
-- is asked for; a range is refused when its end is behind the file or no byte of the file is asked for.
abbrev pub Serves : ℕ → SyntacticallyCorrectRange → ℕ → Option (ℕ × ℕ) → Type 0
Serves size header i (some (s, e)) =
    (s ≤ e)
    × (e < size)
    × ¬ EndsBehind size header.end
    × (((s ≤ i) × (i ≤ e)) ↔ ((i < size) × Asks size header.start header.end i))
Serves size header i none =
    EndsBehind size header.end ⊎ ¬ ((i < size) × Asks size header.start header.end i)

from_start-Serves :
    (size : ℕ) (start : StartPosition) (end : EndPosition) (i : ℕ)
    → 0 < size
    → size + 1024 * 1024 < u64_mod
    → Serves size
        (record { start = start; end = end })
        i
        (from_start size end (range_start size start))
unfolding from_start range_start range_end ordered
from_start-Serves size (StartPosition.index a) (EndPosition.index b) i pos small = ground arith
from_start-Serves size (StartPosition.index a) last_byte i pos small = ground arith
from_start-Serves size (StartPosition.from_last n) (EndPosition.index b) i pos small = ground arith
from_start-Serves size (StartPosition.from_last n) last_byte i pos small = ground arith

-- Of a file that is not empty and far smaller than 2^64: a range that is accepted has a byte, ends in the
-- file, and has byte `i` just when that is a byte of the file that is asked for, of which an open end means
-- no more than 1024 * 1024 + 1; a range is refused only when its end is behind the file or no byte of the
-- file is asked for.
pub get_range-Serves :
    (size : ℕ) (header : SyntacticallyCorrectRange) (i : ℕ)
    → 0 < size
    → size + 1024 * 1024 < u64_mod
    → Serves size header i (get_range size header)
unfolding get_range
get_range-Serves size header i pos small =
    from_start-Serves size header.start header.end i pos small

-- Of an empty file, every suffix range is accepted as the byte 0, which the file does not have.
get_range-empty :
    (n : ℕ)
    → get_range 0 (record { start = StartPosition.from_last n; end = last_byte }) ≡ some (0, 0)
unfolding get_range
get_range-empty n = ground arith

-- A range with no end that begins more than the limit before the end of the file has one byte more
-- than `MAX_UNBOUNDED_RANGE`.
get_range-unbounded :
    (size i : ℕ)
    → i + max_unbounded_range < size
    → size ≤ u64_mod
    → get_range size (record { start = StartPosition.index i; end = last_byte })
      ≡ some (i, i + max_unbounded_range)
unfolding get_range
get_range-unbounded size i h w = ground arith
