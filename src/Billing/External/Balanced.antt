-- ===== src/Billing/External/Balanced.antt =====
-- Billing by the clock, crates/zap-stream-external/src/cloudflare/api.rs, keeps the ledger balanced.
use zap_stream_core.Prelude.{
  ℕ, ◌≡◌, refl, ap, ◌∙◌, Bool, true, false, Option, none, some, ◌==◌, if◌then◌else◌,
}
use zap_stream_core.Prelude.Int.{ℤ, pos}
use zap_stream_core.Billing.Tables.{UserStream, IngestEndpoint, ZapStreamDb, stream_by_id}
use zap_stream_core.Billing.Ledger.{tick_stream}
use zap_stream_core.Billing.Ledger.Accounts.{IsBalanced}
use zap_stream_core.Billing.Ledger.Charges.{tick_stream-IsBalanced}
use zap_stream_core.Billing.Segments.{endpoint_by_id}
use zap_stream_core.Billing.Segments.Balanced.{found_by_own_id, not_negative}
use zap_stream_core.Billing.External.{
  max_billable_catchup, billable_duration, cost_for_duration, balance_result, bill_for, bill_with,
  bill_stream, bill_found,
}

bill_for-IsBalanced :
    (s : UserStream) (rate d : ℕ) (db : ZapStreamDb)
    → IsBalanced db
    → stream_by_id s.id db.streams ≡ some s
    → IsBalanced (bill_for s rate d db).1
unfolding bill_for balance_result
bill_for-IsBalanced s rate d db h found =
    go (tick_stream s.id s.user_id (pos d) (pos (cost_for_duration rate d)) db) refl
  where
    go :
        (o : Option (ℤ × ZapStreamDb))
        → tick_stream s.id s.user_id (pos d) (pos (cost_for_duration rate d)) db ≡ o
        → IsBalanced (balance_result o db).1
    go none e = h
    go (some (balance, after)) e =
        (tick_stream-IsBalanced s.id s.user_id (pos d) (pos (cost_for_duration rate d)) balance s db
          after h found refl (not_negative (cost_for_duration rate d)) e).0

bill_stream-IsBalanced :
    (s : UserStream) (now : ℕ) (db : ZapStreamDb)
    → IsBalanced db
    → stream_by_id s.id db.streams ≡ some s
    → IsBalanced (bill_stream s now db).1
unfolding bill_stream bill_with
bill_stream-IsBalanced s now db h found = go s.endpoint_id
  where
    d : ℕ
    d = billable_duration s now max_billable_catchup

    paying :
        (free none_left : Bool) (rate : ℕ)
        → IsBalanced
            (if◌then◌else◌ {A = Option Bool × ZapStreamDb} free
              (some false, db)
              (if none_left then (some false, db) else bill_for s rate d db)).1
    paying true none_left rate = h
    paying false true rate = h
    paying false false rate = bill_for-IsBalanced s rate d db h found

    with : (o : Option IngestEndpoint) → IsBalanced (bill_with s now o db).1
    with none = h
    with (some endpoint) = paying (endpoint.cost == 0) (d == 0) endpoint.cost

    go :
        (o : Option ℕ)
        → IsBalanced
            (elim o as (λ x. Option Bool × ZapStreamDb) [
              | none ↦ (some false, db)
              | some id ↦ bill_with s now (endpoint_by_id id db.endpoints) db
            ]).1
    go none = h
    go (some id) = with (endpoint_by_id id db.endpoints)

pub bill_found-IsBalanced :
    (id now : ℕ) (db : ZapStreamDb)
    → IsBalanced db
    → IsBalanced (bill_found (stream_by_id id db.streams) now db)
unfolding bill_found
bill_found-IsBalanced id now db h = go (stream_by_id id db.streams) refl
  where
    go : (o : Option UserStream) → stream_by_id id db.streams ≡ o → IsBalanced (bill_found o now db)
    go none e = h
    go (some s) e =
        bill_stream-IsBalanced s now db h
          (ap (λ n. stream_by_id n db.streams) (found_by_own_id id s db.streams e) ∙ e)
