-- ===== src/Scenarios/Metering.antt =====
-- A stream that is billed by the clock: it began at 1 s and has been billed for ten seconds.
use zap_stream_core.Prelude.{◌⊎◌, ◌*◌, ◌≡◌, refl, ap, ◌==◌, false, none, some, [], ◌∷◌, arith}
use zap_stream_core.Prelude.Int.{pos, ◌-ℤ◌, ◌≤ℤ◌}
use zap_stream_core.Hls.Time.{second}
use zap_stream_core.Billing.Tables.{UserStream, live, IngestEndpoint, ZapStreamDb, stream_by_id}
use zap_stream_core.Billing.External.{elapsed, billable_duration, bill_stream, run_bills}
use zap_stream_core.Billing.External.Elapsed.{run_bills-elapsed}
use zap_stream_core.Billing.External.Charging.{BillsNothing, BillsAll, bill_stream-Bills}
use zap_stream_core.Billing.Segments.{endpoint_by_id}

abbrev pub endpoint : IngestEndpoint
endpoint = record { id = 1; name = 7; cost = 600 }

abbrev pub row : UserStream
row = record {
  id = 40;
  user_id = 1;
  starts = 1000;
  ends = none;
  state = live;
  cost = pos 100;
  duration = pos (10 * second);
  endpoint_id = some 1;
  node_name = none;
  stream_key_id = none;
}

abbrev pub tables : ZapStreamDb
tables = record {
  users =
      record {
        id = 1;
        pubkey = 11;
        balance = pos 500;
        stream_key = 9;
        is_blocked = false;
        stream_dump_recording = false;
        nwc = none;
      }
      ∷ [];
  streams = row ∷ [];
  payments = [];
  stream_keys = [];
  endpoints = endpoint ∷ [];
  next_user = 2;
}

run_bills-elapsed_example :
    (r : UserStream) × (stream_by_id 40 (run_bills 40 (41000 ∷ 71000 ∷ 71000 ∷ []) tables).streams
      ≡ some r)
    × (r.duration ≤ℤ elapsed 71000 1000)
run_bills-elapsed_example =
    run_bills-elapsed 40 71000 (41000 ∷ 71000 ∷ 71000 ∷ []) row tables refl (omega arith)
      (omega arith, (omega arith, (omega arith, tt)))

pub thirty_seconds : billable_duration row 41000 (120 * second) ≡ 30 * second
unfolding billable_duration ◌-ℤ◌
thirty_seconds = refl

pub some_time : (billable_duration row 41000 (120 * second) == 0) ≡ false
some_time = ap (λ n. n == 0) thirty_seconds

pub endpoint_is : endpoint_by_id 1 (endpoint ∷ []) ≡ some endpoint
unfolding endpoint_by_id
endpoint_is = refl

bill_stream-Bills_example :
    BillsNothing row 41000 endpoint tables (bill_stream row 41000 tables)
    ⊎ BillsAll row 41000 endpoint tables (bill_stream row 41000 tables)
bill_stream-Bills_example = bill_stream-Bills row 41000 1 endpoint tables refl refl refl endpoint_is
