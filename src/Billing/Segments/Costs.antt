-- ===== src/Billing/Segments/Costs.antt =====
-- The cost of segments, `get_cost` of crates/zap-stream/src/overseer.rs.
use zap_stream_core.Prelude.{ℕ, ◌+◌, ◌*◌, ◌≤◌, ◌≡◌, not, List, [], ◌∷◌, ◌++◌, map, retain}
use zap_stream_core.Prelude.Int.{pos_part, neg_part}
use zap_stream_core.Hls.Time.{second}
use zap_stream_core.Hls.Segment.{EgressSegment}
use zap_stream_core.Billing.Tables.{IngestEndpoint}
use zap_stream_core.Billing.Segments.{get_cost}

abbrev pub sum : List ℕ → ℕ
sum [] = 0
sum (n ∷ ns) = n + sum ns

-- No segment has a negative duration.
abbrev pub AllTimed : List EgressSegment → Type 0
AllTimed [] = Unit {0}
AllTimed (s ∷ segments) = (neg_part s.duration ≡ 0) × AllTimed segments

abbrev pub concat : List (List EgressSegment) → List EgressSegment
concat [] = []
concat (b ∷ batches) = b ++ concat batches

-- How long the segments with video are together.
abbrev pub video_time : List EgressSegment → ℕ
video_time segments = sum (map (λ s. pos_part s.duration) (retain (λ s. not s.audio_only) segments))

-- A price for so many batches is, for each, less than half a millisat below the rate times the minutes,
-- and at most half a millisat above it.
abbrev pub Within : ℕ → ℕ → ℕ → ℕ → Type 0
Within rate time batches price =
    (2 * (rate * time) + batches ≤ 2 * (60 * second) * price + 60 * second * batches)
    × (2 * (60 * second) * price ≤ 2 * (rate * time) + 60 * second * batches)

abbrev pub durations : IngestEndpoint → List (List EgressSegment) → List ℕ
durations endpoint = map λ b. (get_cost endpoint b).0

abbrev pub costs : IngestEndpoint → List (List EgressSegment) → List ℕ
costs endpoint = map λ b. (get_cost endpoint b).1
