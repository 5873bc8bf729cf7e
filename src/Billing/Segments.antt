-- ===== src/Billing/Segments.antt =====
-- What crates/zap-stream/src/overseer.rs does with the segments of a running stream: it charges them,
-- asks for a top-up, warns of a low balance, and stops the stream when the balance has run out. One
-- call runs without another between its statements.
pub mod Costs
pub mod Balanced
pub mod Counting
pub mod Warnings
use zap_stream_core.Prelude.{
  ℕ, ◌+◌, ◌*◌, ◌/◌, Bool, true, false, not, ◌&&◌, Option, none, some, List, [], ◌∷◌, ◌++◌, ◌==◌,
  if◌then◌else◌, ltb, any,
}
use zap_stream_core.Prelude.Int.{ℤ, pos, negsuc, ◌+ℤ◌, ltb_ℤ, leb_ℤ}
use zap_stream_core.Hls.Time.{second}
use zap_stream_core.Hls.Segment.{EgressSegment}
use zap_stream_core.Billing.Tables.{
  User, UserStream, IngestEndpoint, ZapStreamDb, user_by_id, stream_by_id,
}
use zap_stream_core.Billing.Ledger.{tick_stream}

unfoldable pub endpoint_by_id : ℕ → List IngestEndpoint → Option IngestEndpoint
endpoint_by_id id [] = none
endpoint_by_id id (e ∷ endpoints) = if e.id == id then some e else endpoint_by_id id endpoints

unfoldable pub total_duration : List EgressSegment → ℤ
total_duration [] = pos 0
total_duration (s ∷ segments) =
    if s.audio_only then total_duration segments else s.duration +ℤ total_duration segments

-- `f32::max(0.0)`.
unfoldable pub non_negative : ℤ → ℕ
non_negative (pos n) = n
non_negative (negsuc n) = 0

-- The cost in millisats, rounded half up, and the duration.
unfoldable pub get_cost : IngestEndpoint → List EgressSegment → ℕ × ℕ
unfolding non_negative total_duration
get_cost endpoint segments =
    let duration = non_negative (total_duration segments) in
    (duration, (2 * (endpoint.cost * duration) + 60 * second) / (2 * (60 * second)))

pub data BillingError : Type 0 where
  stream_not_found endpoint_not_set endpoint_not_found user_not_found balance_has_run_out :
      BillingError

pub data Effect : Type 0 where
  start_nwc_topup : ℕ → Effect
  low_balance : ℕ → ℕ → Effect
  new_segment : List EgressSegment → Effect
  deleted_segment : List EgressSegment → Effect

pub record Overseer : Type 0 where
  pub db : ZapStreamDb
  pub nwc_topup_requests : List ℕ
  pub low_balance_threshold : Option ℕ
  -- Whether the segments are announced on relays.
  pub n94 : Bool

pub record Billed : Type 0 where
  pub overseer : Overseer
  pub effects : List Effect
  pub error : Option BillingError

abbrev pub nwc_topup_amount : ℕ
nwc_topup_amount = 1000000

abbrev pub is_some : Option ℕ → Bool
is_some none = false
is_some (some n) = true

abbrev pub has_request : ℕ → List ℕ → Bool
has_request uid = any λ n. n == uid

-- `HashSet::insert` reports whether the user was absent.
unfoldable pub auto_topup : User → List ℕ → List ℕ × List Effect
auto_topup u requests =
    if ltb_ℤ u.balance (pos nwc_topup_amount) && is_some u.nwc && not (has_request u.id requests)
    then (u.id ∷ requests, start_nwc_topup u.id ∷ [])
    else (requests, [])

-- The balance before the charge was above the threshold and is not after it.
unfoldable pub crossed : ℕ → ℤ → ℕ → Bool
crossed threshold bal cost =
    ltb_ℤ (pos (threshold * 1000)) (bal +ℤ pos cost) && leb_ℤ bal (pos (threshold * 1000))

unfoldable pub warn_low_balance : Option ℕ → ℕ → ℕ → ℤ → ℕ → List Effect
unfolding crossed
warn_low_balance none uid stream_id bal cost = []
warn_low_balance (some threshold) uid stream_id bal cost =
    if crossed threshold bal cost then low_balance uid stream_id ∷ [] else []

pub fail : BillingError → Overseer → Billed
fail e o = record { overseer = o; effects = []; error = some e }

abbrev pub announce : Bool → List EgressSegment → List EgressSegment → List Effect
announce true added deleted = new_segment added ∷ deleted_segment deleted ∷ []
announce false added deleted = []

-- `o` holds the tables after the charge.
pub after_charge :
    List EgressSegment → List EgressSegment → UserStream → Option User → ℤ → ℕ → Overseer → Billed
unfolding auto_topup warn_low_balance fail
after_charge added deleted stream none bal cost o = fail user_not_found o
after_charge added deleted stream (some u) bal cost o =
    let (requests, topup) = auto_topup u o.nwc_topup_requests in
    let effects = topup ++ warn_low_balance o.low_balance_threshold u.id stream.id bal cost in
    let over = leb_ℤ bal (pos 0) in
    record {
      overseer = record o { nwc_topup_requests = requests };
      effects = if over then effects else effects ++ announce o.n94 added deleted;
      error = if over then some balance_has_run_out else none;
    }

pub charge_result :
    List EgressSegment
    → List EgressSegment
    → UserStream
    → ℕ
    → Option (ℤ × ZapStreamDb)
    → Overseer
    → Billed
unfolding after_charge fail
charge_result added deleted stream cost none o = fail user_not_found o
charge_result added deleted stream cost (some (bal, db)) o =
    if ltb 0 cost
    then after_charge added deleted stream (user_by_id stream.user_id db.users) bal cost
        (record o { db = db })
    else record {
      overseer = record o { db = db };
      effects = announce o.n94 added deleted;
      error = none;
    }

pub bill_at :
    List EgressSegment → List EgressSegment → UserStream → Option IngestEndpoint → Overseer → Billed
unfolding charge_result get_cost fail
bill_at added deleted stream none o = fail endpoint_not_found o
bill_at added deleted stream (some endpoint) o =
    let (duration, cost) = get_cost endpoint added in
    charge_result added deleted stream cost
      (tick_stream stream.id stream.user_id (pos duration) (pos cost) o.db) o

pub bill_stream : List EgressSegment → List EgressSegment → Option UserStream → Overseer → Billed
unfolding bill_at fail endpoint_by_id
bill_stream added deleted none o = fail stream_not_found o
bill_stream added deleted (some stream) o = elim stream.endpoint_id [
  | none ↦ fail endpoint_not_set o
  | some id ↦ bill_at added deleted stream (endpoint_by_id id o.db.endpoints) o
]

unfoldable pub on_segments : ℕ → List EgressSegment → List EgressSegment → Overseer → Billed
unfolding bill_stream
on_segments pipeline_id added deleted o =
    bill_stream added deleted (stream_by_id pipeline_id o.db.streams) o
