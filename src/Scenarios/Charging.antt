-- ===== src/Scenarios/Charging.antt =====
-- One user who pays, streams for a minute and runs low.
use zap_stream_core.Prelude.{
  In, inl, inr, ap, ◌⊎◌, ◌==◌, map, true, false, ◌≡◌, refl, none, some, List, [], ◌∷◌, ◌*◌, arith,
}
use zap_stream_core.Prelude.Int.{pos, ◌+ℤ◌, ◌-ℤ◌, ◌≤ℤ◌}
use zap_stream_core.Hls.Time.{second}
use zap_stream_core.Hls.Segment.{EgressSegment}
use zap_stream_core.Billing.Tables.{
  User, UserStream, live, ended, IngestEndpoint, ZapStreamDb, user_by_id, stream_by_id,
}
use zap_stream_core.Billing.Ledger.{
  has_user, charged, complete_payment, tick_stream, expected_balance, balance_offset,
}
use zap_stream_core.Billing.Ledger.Paid.{balance_of}
use zap_stream_core.Billing.Ledger.Statements.{complete_payment_once}
use zap_stream_core.Billing.Segments.{Overseer, on_segments}
use zap_stream_core.Billing.Segments.Warnings.{run_batches, run_warnings, run_warnings-crosses}
use zap_stream_core.Billing.Segments.Counting.{crosses}
use zap_stream_core.Billing.Payments.{topup}
use zap_stream_core.Billing.Payments.History.{
  run-IsBalanced, new_database-IsBalanced, Event, topup_requested, invoice_settled, stream_started,
  segments_added, apply, run, opened, balance_offset-run,
}
use zap_stream_core.Billing.Streams.{
  ConnectionInfo, StreamKeyType, get_user_key, detect_endpoint, connect, allow, is_live,
}
use zap_stream_core.Billing.Streams.Admission.{Admits, connect-Admits}
use zap_stream_core.Billing.Streams.Rows.{
  Node, start_stream, Round, CheckState, check_streams, update_stream, insert_stream, has_stream,
  list_live_streams_by_node,
}
use zap_stream_core.Billing.Streams.Rows.Unfinished.{left, Stops}
use zap_stream_core.Billing.Streams.Rows.Checking.{check_streams-ends}
use zap_stream_core.Billing.Streams.Rows.Lookup.{HasUsers}
use zap_stream_core.Billing.Streams.Rows.Race.{stale_write-offset}

abbrev endpoint : IngestEndpoint
endpoint = record { id = 1; name = 7; cost = 2000 }

abbrev node : Node
node = record { node_name = 3; variants_configured = true; video_source = true; published = true }

-- A segment of half a minute.
abbrev segment : EgressSegment
segment = record {
  variant = 5;
  idx = 1;
  duration = pos (30 * second);
  path = [];
  sha256 = [];
  audio_only = false;
}

abbrev connection : ConnectionInfo
connection = record { id = 40; app_name = 7; key = 9 }

abbrev events : List Event
events =
    topup_requested 0 11 9 5000 (some (record { payment_hash = 77; expires_at = none }))
    ∷ invoice_settled 77
    ∷ invoice_settled 77
    ∷ stream_started 1000 node connection
    ∷ segments_added 40 (segment ∷ segment ∷ []) []
    ∷ []

abbrev before : Overseer
before = opened [] (endpoint ∷ []) 1 (some 4)

-- 5000 paid in once, 2000 spent on the minute.
abbrev user : User
user = record {
  id = 1;
  pubkey = 11;
  balance = pos 3000;
  stream_key = 9;
  is_blocked = false;
  stream_dump_recording = false;
  nwc = none;
}

user_is : user_by_id 1 (run events before).db.users ≡ some user
unfolding run apply topup complete_payment start_stream on_segments ◌+ℤ◌ ◌-ℤ◌ get_user_key
    detect_endpoint insert_stream tick_stream
user_is = refl

balance_offset-run_example : balance_offset (run events before).db user ≡ pos 0
balance_offset-run_example = balance_offset-run events [] (endpoint ∷ []) 1 1 (some 4) user user_is

abbrev invoiced : ZapStreamDb
invoiced =
    (run (topup_requested 0 11 9 5000 (some (record { payment_hash = 77; expires_at = none })) ∷ [])
      before).db

complete_payment_once_example :
    let settled = (complete_payment 77 (pos 0) invoiced).1 in
    complete_payment 77 (pos 3) settled ≡ (false, settled)
complete_payment_once_example = complete_payment_once 77 (pos 0) (pos 3) invoiced

abbrev row : UserStream
row = record {
  id = 40;
  user_id = 1;
  starts = 1000;
  ends = none;
  state = live;
  cost = pos 2000;
  duration = pos (60 * second);
  endpoint_id = some 1;
  node_name = some 3;
  stream_key_id = none;
}

abbrev streaming : ZapStreamDb
streaming = (run events before).db

row_is : stream_by_id 40 streaming.streams ≡ some row
unfolding run apply topup complete_payment start_stream on_segments ◌+ℤ◌ ◌-ℤ◌ get_user_key
    detect_endpoint insert_stream tick_stream
row_is = refl

abbrev ticked : ZapStreamDb
ticked = charged 40 1 (pos (30 * second)) (pos 1000) streaming

tick_is : tick_stream 40 1 (pos (30 * second)) (pos 1000) streaming ≡ some (pos 2000, ticked)
unfolding run apply topup complete_payment start_stream on_segments ◌+ℤ◌ ◌-ℤ◌ get_user_key
    detect_endpoint insert_stream tick_stream
tick_is = refl

-- The minute and a half has cost 3000, and the row shows 2000.
stale_write-offset_example :
    let raced = update_stream row ticked in
    balance_of 1 raced.users ≡ expected_balance 1 raced -ℤ pos 1000
stale_write-offset_example =
    stale_write-offset 40 (pos (30 * second)) (pos 1000) (pos 2000) row streaming ticked
      (run-IsBalanced events before (new_database-IsBalanced [] (endpoint ∷ []) 1)) row_is
      (omega arith) tick_is

abbrev minute : List EgressSegment
minute = segment ∷ segment ∷ []

abbrev running : Overseer
running = run events before

run_warnings-crosses_example :
    (run_warnings 40 (minute ∷ minute ∷ []) running
      ≡ crosses running.low_balance_threshold
          (balance_of 1 running.db.users)
          (balance_of 1 (run_batches 40 (minute ∷ minute ∷ []) running).db.users))
    × (balance_of 1 (run_batches 40 (minute ∷ minute ∷ []) running).db.users
        ≤ℤ balance_of 1 running.db.users)
run_warnings-crosses_example = run_warnings-crosses 40 (minute ∷ minute ∷ []) running row row_is

-- Two batches of half a minute of video, the second with as much audio.
abbrev batches : List (List EgressSegment)
batches = (segment ∷ []) ∷ (record segment { audio_only = true } ∷ segment ∷ []) ∷ []

-- The stream of the user, live on the node; and as it has ended.
abbrev tables : List UserStream → ZapStreamDb
tables streams = record {
  users = user ∷ [];
  streams = streams;
  payments = [];
  stream_keys = [];
  endpoints = endpoint ∷ [];
  next_user = 2;
}

abbrev ended_row : UserStream
ended_row = record row { state = ended; ends = some 90000 }

connected : connect 95000 connection (tables (ended_row ∷ [])) ≡ allow false (some 40)
unfolding connect detect_endpoint
connected = refl

connect-Admits_example :
    (key : StreamKeyType) × (u : User) × (at : IngestEndpoint) × (get_user_key 95000 9
        (tables (ended_row ∷ []))
      ≡ some (key, u))
    × (detect_endpoint 7 (endpoint ∷ []) ≡ some at)
    × Admits 95000 key u at (tables (ended_row ∷ [])) (some 40)
connect-Admits_example =
    connect-Admits 95000 connection (tables (ended_row ∷ [])) false (some 40) connected

-- Three streams live on the node. The first is not known to the stream manager; the event of the second
-- is due and cannot be published, which ends the check before the third.
abbrev round : Round
round = record {
  is_uuid = λ _. true;
  status = λ id. (id == 40, false);
  end_built = λ _. true;
  live_published = λ _. false;
}

abbrev live_rows : List UserStream
live_rows = record row { id = 39 } ∷ row ∷ record row { id = 41 } ∷ []

abbrev checked : CheckState
checked = record { db = tables live_rows; last_event_publish = λ _. none }

checked-HasUsers : HasUsers checked.db
checked-HasUsers s h = elim h [
  | inl e ↦ ap (λ x. has_user x.user_id (user ∷ [])) e
  | inr (inl e) ↦ ap (λ x. has_user x.user_id (user ∷ [])) e
  | inr (inr (inl e)) ↦ ap (λ x. has_user x.user_id (user ∷ [])) e
  | inr (inr (inr gone)) ↦ absurd gone
]

third_stays : In (record row { id = 41 }) (check_streams 95000 3 round checked).1.db.streams
unfolding check_streams
third_stays = inr (inr (inl refl))

first_ends :
    map (λ s. is_live s.state) (check_streams 95000 3 round checked).1.db.streams
    ≡ false ∷ true ∷ true ∷ []
unfolding check_streams
first_ends = refl

check_streams-ends_example :
    let e = (check_streams 95000 3 round checked).0 in
    Stops round e
    × (((false ≡ true) × (false ≡ false))
        ⊎ (true ≡ false)
        ⊎ (has_stream 41 (left e (list_live_streams_by_node 3 live_rows)) ≡ true))
check_streams-ends_example =
    check_streams-ends 95000 3 round checked (record row { id = 41 }) checked-HasUsers third_stays
      refl
