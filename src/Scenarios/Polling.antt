-- ===== src/Scenarios/Polling.antt =====
-- A tick of the poller at 41 s, with two viewers of the stream.
use zap_stream_core.Prelude.{◌≡◌, refl, ap, ◌∙◌, ◌*◌, false, true, none, some, []}
use zap_stream_core.Prelude.Int.{pos, ◌-ℤ◌, leb_ℤ}
use zap_stream_core.Hls.Time.{second}
use zap_stream_core.Billing.Ledger.Paid.{balance_of}
use zap_stream_core.Billing.External.{billable_duration, cost_for_duration, max_billable_catchup}
use zap_stream_core.Billing.External.Webhooks.{Columns, CfApiWrapper}
use zap_stream_core.Billing.External.Poller.{
  LiveInput, Tick, get_viewer_count, should_publish_viewer_count, poll_input, poll_stream,
}
use zap_stream_core.Billing.External.Poller.Stale.{Forgets, due, poll_stream-Forgets}
use zap_stream_core.Scenarios.Metering.{
  endpoint, endpoint_is, row, some_time, tables, thirty_seconds,
}

abbrev columns : Columns
columns = record {
  user_external_id = λ _. none;
  key_external_id = λ _. none;
  ingest_id = λ _. none;
}

abbrev input : LiveInput
input = record { uid = 10; is_connected = true; has_playback = true }

abbrev tick : Tick
tick = record {
  now = 41000;
  user_input = λ _. some input;
  key_input = λ _. none;
  viewers = λ _. some 2;
  published = λ _. true;
}

abbrev wrapper : CfApiWrapper
wrapper = record {
  db = tables;
  input_stream_map = [];
  active_streams = [];
  viewer_count_states = [];
  viewer_count_tracker = [];
}

input_is : poll_input columns tick 1 none tables ≡ some input
unfolding poll_input
input_is = refl

is_due : due tick 40 wrapper ≡ true
unfolding should_publish_viewer_count get_viewer_count
is_due = refl

half_left :
    leb_ℤ (balance_of 1 tables.users -ℤ pos (cost_for_duration 600 (30 * second))) (pos 0) ≡ false
unfolding cost_for_duration ◌-ℤ◌
half_left = refl

poll_stream-Forgets_example :
    Forgets row
      (cost_for_duration 600 (billable_duration row 41000 max_billable_catchup))
      tables
      (poll_stream columns tick row wrapper).db
poll_stream-Forgets_example =
    poll_stream-Forgets columns tick row _ input 1 endpoint wrapper refl refl input_is refl refl
      refl endpoint_is refl some_time
      (ap (λ d. leb_ℤ (balance_of 1 tables.users -ℤ pos (cost_for_duration 600 d)) (pos 0))
          thirty_seconds
        ∙ half_left)
      is_due refl
