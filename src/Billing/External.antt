-- ===== src/Billing/External.antt =====
-- Metering by the clock, crates/zap-stream-external/src/cloudflare/api.rs: a live stream is charged for
-- the time that has passed since it started and has not been charged yet.
pub mod Elapsed
pub mod Charges
pub mod Charging
pub mod Balanced
pub mod Webhooks
pub mod Poller
use zap_stream_core.Prelude.{
  ℕ, ◌+◌, ◌*◌, ◌/◌, min, Bool, true, false, Option, none, some, List, [], ◌∷◌, ◌==◌, if◌then◌else◌,
}
use zap_stream_core.Prelude.Int.{ℤ, pos, ◌-ℤ◌, sub_ℕ, leb_ℤ}
use zap_stream_core.Hls.Time.{second}
use zap_stream_core.Billing.Tables.{UserStream, IngestEndpoint, ZapStreamDb, stream_by_id}
use zap_stream_core.Billing.Ledger.{tick_stream}
use zap_stream_core.Billing.Segments.{non_negative, endpoint_by_id}

abbrev pub max_billable_catchup : ℕ
max_billable_catchup = 120 * second

-- A time in milliseconds, in the units of a duration.
abbrev pub in_units : ℕ → ℕ
in_units t = t * 705600

-- The time since the start, which is negative for a start that is to come.
abbrev pub elapsed : ℕ → ℕ → ℤ
elapsed now starts = sub_ℕ (in_units now) (in_units starts)

-- `f32::clamp(0.0, max_catchup)` of the time that is not yet billed.
unfoldable pub billable_duration : UserStream → ℕ → ℕ → ℕ
unfolding non_negative
billable_duration s now max_catchup =
    min (non_negative (elapsed now s.starts -ℤ s.duration)) max_catchup

-- Rounded half up.
unfoldable pub cost_for_duration : ℕ → ℕ → ℕ
cost_for_duration cost_per_minute duration =
    (2 * (cost_per_minute * duration) + 60 * second) / (2 * (60 * second))

-- Whether the balance has run out; `none` is an error, which changes nothing.
pub balance_result : Option (ℤ × ZapStreamDb) → ZapStreamDb → Option Bool × ZapStreamDb
balance_result none db = (none, db)
balance_result (some (balance, after)) db = (some (leb_ℤ balance (pos 0)), after)

pub bill_for : UserStream → ℕ → ℕ → ZapStreamDb → Option Bool × ZapStreamDb
unfolding balance_result cost_for_duration
bill_for s cost billable db =
    balance_result
      (tick_stream s.id s.user_id (pos billable) (pos (cost_for_duration cost billable)) db) db

pub bill_with : UserStream → ℕ → Option IngestEndpoint → ZapStreamDb → Option Bool × ZapStreamDb
unfolding billable_duration bill_for
bill_with s now none db = (none, db)
bill_with s now (some endpoint) db =
    let billable = billable_duration s now max_billable_catchup in
    if endpoint.cost == 0
    then (some false, db)
    else if billable == 0
    then (some false, db)
    else bill_for s endpoint.cost billable db

unfoldable pub bill_stream : UserStream → ℕ → ZapStreamDb → Option Bool × ZapStreamDb
unfolding bill_with endpoint_by_id
bill_stream s now db = elim s.endpoint_id [
  | none ↦ (some false, db)
  | some id ↦ bill_with s now (endpoint_by_id id db.endpoints) db
]

pub bill_found : Option UserStream → ℕ → ZapStreamDb → ZapStreamDb
unfolding bill_stream
bill_found none now db = db
bill_found (some s) now db = (bill_stream s now db).1

-- Bills of one stream at the given times, each with the row as it is then.
unfoldable pub run_bills : ℕ → List ℕ → ZapStreamDb → ZapStreamDb
unfolding bill_found
run_bills id [] db = db
run_bills id (now ∷ times) db = run_bills id times (bill_found (stream_by_id id db.streams) now db)
