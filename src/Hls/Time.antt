-- ===== src/Hls/Time.antt =====
-- Media time. The code's `f64` and `f32` seconds are exact here: a whole number of units of
-- 1/705600000 s, in which a tick of every time base in use (90 kHz, 44.1 kHz, 48 kHz, 24, 25, 30,
-- 60 fps) is whole. A length that cannot be negative is a number of units, a point or a
-- difference is an integer.
use zap_stream_core.Prelude.{ℕ, suc, ◌+◌, ◌*◌, ◌/◌, leb, if◌then◌else◌}
use zap_stream_core.Prelude.Int.{ℤ, pos, negsuc, sub_ℕ}

abbrev pub second : ℕ
second = 705600000

-- `f64::round` to whole seconds: half away from zero.
abbrev pub round_seconds : ℤ → ℤ
round_seconds (pos n) = pos ((n + second / 2) / second)
round_seconds (negsuc n) = sub_ℕ 0 ((suc n + second / 2) / second)

-- `(x * 1000.0) as i64`: whole milliseconds, towards zero.
abbrev pub to_millis : ℤ → ℤ
to_millis (pos n) = pos (n * 1000 / second)
to_millis (negsuc n) = sub_ℕ 0 (suc n * 1000 / second)

abbrev pub max_ℕ : ℕ → ℕ → ℕ
max_ℕ a b = if leb a b then b else a
