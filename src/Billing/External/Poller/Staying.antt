-- ===== src/Billing/External/Poller/Staying.antt =====
-- What the writes of one tick of the poller keep of the rows that it began with:
-- crates/zap-stream-external/src/cloudflare/api.rs and crates/zap-stream-db/src/db.rs.
use zap_stream_core.Prelude.{
  In, ℕ, ◌≡◌, refl, subst, Bool, true, false, ◌||◌, Option, none, some, ◌==◌, if◌then◌else◌,
}
use zap_stream_core.Prelude.Int.{ℤ, pos, ltb_ℤ}
use zap_stream_core.Billing.Tables.{
  UserStream, IngestEndpoint, ZapStreamDb, user_by_id, stream_by_id, update_stream_row,
}
use zap_stream_core.Billing.Ledger.{charge_stream, charged, tick_stream}
use zap_stream_core.Billing.Ledger.Charges.{committed}
use zap_stream_core.Billing.Segments.{endpoint_by_id}
use zap_stream_core.Billing.Streams.{is_live}
use zap_stream_core.Billing.Streams.Rows.{written, update_stream, set_ended}
use zap_stream_core.Billing.External.{
  max_billable_catchup, billable_duration, cost_for_duration, balance_result, bill_for, bill_with,
  bill_stream,
}
use zap_stream_core.Billing.External.Webhooks.Counting.{IsSound}
use zap_stream_core.Billing.External.Webhooks.Writing.{by_own_id}
use zap_stream_core.Billing.External.Poller.Below.{
  Below, Below-some, Below-back, Below-UniqueId, Below-update, Below-keep, live_itself,
}

-- What a tick has made of the tables it began with.
abbrev pub Stays : ZapStreamDb → ZapStreamDb → Type 0
Stays before db = Below db.streams before.streams × (db.stream_keys ≡ before.stream_keys)

charged-Stays :
    (id uid : ℕ) (duration cost : ℤ) (before db : ZapStreamDb)
    → Stays before db
    → Stays before (charged id uid duration cost db)
unfolding charged charge_stream
charged-Stays id uid duration cost before db (below, keys) =
    (go (ltb_ℤ (pos 0) cost || ltb_ℤ (pos 0) duration), keys)
  where
    go :
        (b : Bool)
        → Below
            (if b
              then update_stream_row id (charge_stream duration cost) db.streams
              else db.streams)
            before.streams
    go true =
        Below-keep id (charge_stream duration cost) db.streams before.streams (λ r s h. h) below
    go false = below

bill_for-Stays :
    (s : UserStream) (cost d : ℕ) (before db : ZapStreamDb)
    → Stays before db
    → Stays before (bill_for s cost d db).1
unfolding bill_for balance_result tick_stream
bill_for-Stays s cost d before db stays =
    go (tick_stream s.id s.user_id (pos d) (pos (cost_for_duration cost d)) db) refl
  where
    go :
        (o : Option (ℤ × ZapStreamDb))
        → tick_stream s.id s.user_id (pos d) (pos (cost_for_duration cost d)) db ≡ o
        → Stays before (balance_result o db).1
    go none e = stays
    go (some (balance, after)) e =
        let tables = charged s.id s.user_id (pos d) (pos (cost_for_duration cost d)) db in
        let (u, user, value, same) =
          committed (user_by_id s.user_id tables.users) balance tables after e in
        subst (Stays before) same
          (charged-Stays s.id s.user_id (pos d) (pos (cost_for_duration cost d)) before db stays)

pub bill_stream-Stays :
    (now : ℕ) (s : UserStream) (before db : ZapStreamDb)
    → Stays before db
    → Stays before (bill_stream s now db).1
unfolding bill_stream bill_with
bill_stream-Stays now s before db stays = go s.endpoint_id
  where
    d : ℕ
    d = billable_duration s now max_billable_catchup

    priced :
        (endpoint : IngestEndpoint) (free nothing : Bool)
        → Stays before
            (if free
              then (some false, db)
              else if nothing
              then (some false, db)
              else bill_for s endpoint.cost d db).1
    priced endpoint true nothing = stays
    priced endpoint false true = stays
    priced endpoint false false = bill_for-Stays s endpoint.cost d before db stays

    with : (o : Option IngestEndpoint) → Stays before (bill_with s now o db).1
    with none = stays
    with (some endpoint) = priced endpoint (endpoint.cost == 0) (d == 0)

    go :
        (o : Option ℕ)
        → Stays before
            (elim o as (λ x. Option Bool × ZapStreamDb) [
              | none ↦ (some false, db)
              | some id ↦ bill_with s now (endpoint_by_id id db.endpoints) db
            ]).1
    go none = stays
    go (some id) = with (endpoint_by_id id db.endpoints)

-- A stream that was listed is written as it was.
pub write_listed :
    (s : UserStream) (before db : ZapStreamDb)
    → IsSound before
    → stream_by_id s.id before.streams ≡ some s
    → Stays before db
    → Stays before (update_stream s db)
unfolding update_stream written
write_listed s before db (unique, one, rows) listed (below, keys) =
    let (r, found, (i, u, own, l)) = Below-some s.id s db.streams before.streams below listed in
    (
      Below-update s.id (written s) r s db.streams before.streams below
          (Below-UniqueId db.streams before.streams below unique) found listed
          (i, u, refl, live_itself (is_live s.state)),
      keys,
    )

-- A live stream that is found ends.
pub write_ended :
    (now : ℕ) (s : UserStream) (before db : ZapStreamDb)
    → IsSound before
    → In s db.streams
    → Stays before db
    → Stays before (update_stream (set_ended now s) db)
unfolding update_stream written set_ended
write_ended now s before db (unique, one, rows) there (below, keys) =
    let distinct = Below-UniqueId db.streams before.streams below unique in
    let found = by_own_id s db.streams distinct there in
    let (r, listed, (i, u, own, l)) = Below-back s.id s db.streams before.streams below found in
    (
      Below-update s.id (written (set_ended now s)) s r db.streams before.streams below distinct
          found listed (i, u, own, refl),
      keys,
    )
