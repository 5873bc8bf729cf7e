-- ===== src/Scenarios/Webhooks.antt =====
-- A user with an input of the primary key and one of a custom key, whose stream is planned.
use zap_stream_core.Prelude.{
  Option, map, ◌++◌, All, ℕ, ◌≡◌, refl, inl, inr, Bool, true, false, Bool-cases, none, some, List,
  [], ◌∷◌, ◌==◌, if◌then◌else◌, arith,
}
use zap_stream_core.Prelude.Int.{pos}
use zap_stream_core.Billing.Tables.{User, UserStream, planned, ZapStreamDb}
use zap_stream_core.Billing.Streams.{
  not_expired, live_primary_count, get_user_prev_streams, within_window,
}
use zap_stream_core.Billing.Streams.Rows.{insert_stream, update_stream, set_ended}
use zap_stream_core.Billing.External.Webhooks.{
  Columns, CfApiWrapper, done, connected, disconnected, Delivery, publish_stream_start,
  handle_webhook, resolve_user_and_key, run_webhooks,
}
use zap_stream_core.Billing.External.Webhooks.Counting.{IsSound}
use zap_stream_core.Billing.External.Poller.{LiveInput, Tick, Event, webhook, tick, run_events}
use zap_stream_core.Billing.External.Poller.OneLive.{run_events-IsSound}
use zap_stream_core.Billing.External.Webhooks.Repeats.{IsRepeat, publish_stream_start_repeats}
use zap_stream_core.Billing.External.Webhooks.Ending.{handle_webhook-disconnected}

abbrev user : User
user = record {
  id = 1;
  pubkey = 11;
  balance = pos 500;
  stream_key = 9;
  is_blocked = false;
  stream_dump_recording = false;
  nwc = none;
}

abbrev show : UserStream
show = record {
  id = 40;
  user_id = 1;
  starts = 1000;
  ends = none;
  state = planned;
  cost = pos 0;
  duration = pos 0;
  endpoint_id = none;
  node_name = none;
  stream_key_id = some 7;
}

abbrev tables : ZapStreamDb
tables = record {
  users = user ∷ [];
  streams = show ∷ [];
  payments = [];
  stream_keys = record { id = 7; user_id = 1; key = 30; expires = none; stream_id = 40 } ∷ [];
  endpoints = record { id = 1; name = 7; cost = 600 } ∷ [];
  next_user = 2;
}

-- Input 10 is the user's, input 20 the custom key's.
abbrev columns : Columns
columns = record {
  user_external_id = λ n. if n == 1 then some 10 else none;
  key_external_id = λ n. if n == 7 then some 20 else none;
  ingest_id = λ _. none;
}

abbrev wrapper : CfApiWrapper
wrapper = record {
  db = tables;
  input_stream_map = [];
  active_streams = [];
  viewer_count_states = [];
  viewer_count_tracker = [];
}

abbrev delivery : ℕ → ℕ → Bool → ℕ → Delivery
delivery now new_id published uid = record {
  now = now;
  new_id = new_id;
  published = published;
  webhook = connected (some uid);
}

abbrev ending : ℕ → Delivery
ending now = record { now = now; new_id = 0; published = true; webhook = disconnected (some 10) }

-- A start that is not published, one that is, the custom key's, a repetition, the end and a resumption.
abbrev history : List Delivery
history =
    delivery 5000 50 false 10
    ∷ delivery 6000 51 true 10
    ∷ delivery 7000 52 true 20
    ∷ delivery 8000 53 true 10
    ∷ ending 9000
    ∷ delivery 10000 54 true 10
    ∷ []

tables-IsSound : IsSound tables
unfolding live_primary_count
tables-IsSound = (
  (refl, tt),
  λ uid. elim (Bool-cases (1 == uid)) [
    | inl mine ↦ rw mine (omega arith)
    | inr other ↦ rw other (omega arith)
  ],
  ((show, refl, refl), tt),
)

-- Neither input is connected when the poller runs.
abbrev input : ℕ → Option LiveInput
input uid = some (record { uid = uid; is_connected = false; has_playback = true })

abbrev at_twelve_seconds : Tick
at_twelve_seconds = record {
  now = 12000;
  user_input = λ _. input 10;
  key_input = input;
  viewers = λ _. some 2;
  published = λ _. true;
}

abbrev events : List Event
events = map webhook history ++ tick at_twelve_seconds ∷ webhook (ending 13000) ∷ []

run_events-IsSound_example : IsSound (run_events columns 7 events wrapper).db
run_events-IsSound_example = run_events-IsSound columns 7 events wrapper tables-IsSound

-- The stream that the history leaves live is one of the primary key.
two_live : live_primary_count 1 (run_webhooks columns 7 history wrapper).db.streams ≡ 1
unfolding run_webhooks live_primary_count get_user_prev_streams within_window insert_stream
    update_stream set_ended not_expired
two_live = refl

abbrev started : CfApiWrapper
started = (publish_stream_start columns 7 6000 51 true 10 wrapper).1

started_is : publish_stream_start columns 7 6000 51 true 10 wrapper ≡ (done, started)
unfolding publish_stream_start get_user_prev_streams within_window insert_stream
started_is = refl

abbrev repeats : List Delivery
repeats = delivery 7000 60 true 10 ∷ delivery 126000 61 false 10 ∷ []

repeats_are : All (IsRepeat 6000 10) repeats
repeats_are = ((refl, refl), ((refl, refl), tt))

publish_stream_start_repeats_example : (run_webhooks columns 7 repeats started).db ≡ started.db
publish_stream_start_repeats_example =
    publish_stream_start_repeats columns 7 6000 51 true 10 wrapper started repeats tables-IsSound
      started_is repeats_are

user_is : resolve_user_and_key columns 9000 10 tables ≡ some (user, none)
unfolding resolve_user_and_key
user_is = refl

handle_webhook-disconnected_example :
    ((handle_webhook columns 7 9000 0 true (disconnected (some 10)) wrapper).0 ≡ done)
    × (live_primary_count 1
          (handle_webhook columns 7 9000 0 true (disconnected (some 10)) wrapper).1.db.streams
        ≡ 0)
handle_webhook-disconnected_example =
    handle_webhook-disconnected columns 7 9000 0 10 user wrapper tables-IsSound user_is
