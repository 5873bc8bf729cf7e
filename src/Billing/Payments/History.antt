-- ===== src/Billing/Payments/History.antt =====
-- Any history of registrations, invoices, settlements, credits and charges, from the empty tables.
use zap_stream_core.Prelude.{
  some_inj, ℕ, ◌≡◌, refl, sym, ap, ◌∙◌, Bool, true, false, Option, some, List, [], ◌∷◌, ◌==◌,
  if◌then◌else◌, arith,
}
use zap_stream_core.Prelude.Int.{ℤ, pos, ◌-ℤ◌, int_laws}
use zap_stream_core.Hls.Segment.{EgressSegment}
use zap_stream_core.Billing.Tables.{
  User, IngestEndpoint, UserStreamKey, ZapStreamDb, user_by_id, stream_by_id,
}
use zap_stream_core.Billing.Ledger.{
  complete_payment, add_admin_credit, balance_offset, expected_balance, total_payments, total_fees,
  total_stream_costs,
}
use zap_stream_core.Billing.Ledger.Paid.{balance_of}
use zap_stream_core.Billing.Ledger.Accounts.{IsBalanced}
use zap_stream_core.Billing.Ledger.Statements.{complete_payment-IsBalanced}
use zap_stream_core.Billing.Ledger.Charges.{user_balance}
use zap_stream_core.Billing.Segments.{Overseer, on_segments}
use zap_stream_core.Billing.Segments.Balanced.{on_segments-IsBalanced}
use zap_stream_core.Billing.External.{bill_found}
use zap_stream_core.Billing.External.Balanced.{bill_found-IsBalanced}
use zap_stream_core.Billing.Streams.{ConnectionInfo}
use zap_stream_core.Billing.Streams.Rows.{
  Node, Round, start_stream, on_end, on_update, check_streams,
}
use zap_stream_core.Billing.Streams.Rows.Balanced.{
  start_stream-IsBalanced, on_end-IsBalanced, on_update-IsBalanced, check_streams-IsBalanced,
}
use zap_stream_core.Billing.Payments.{
  Invoice, topup, reconcile_expired_nwc_payments, get_expired_unpaid_payments,
}
use zap_stream_core.Billing.Payments.Balanced.{
  topup-IsBalanced, settle_all-IsBalanced, or_same, add_admin_credit-IsBalanced,
}

-- What happens to the tables, one call after the other.
pub data Event : Type 0 where
  topup_requested : ℕ → ℕ → ℕ → ℕ → Option Invoice → Event
  invoice_settled : ℕ → Event
  reconciled : (ℕ → Bool) → ℕ → Event
  credit_given : ℕ → ℕ → ℕ → ℤ → Event
  stream_started : ℕ → Node → ConnectionInfo → Event
  segments_added : ℕ → List EgressSegment → List EgressSegment → Event
  stream_updated : Bool → ℕ → Event
  stream_ended : Bool → ℕ → ℕ → Event
  streams_checked : ℕ → ℕ → Round → (ℕ → Option ℕ) → Event
  stream_billed : ℕ → ℕ → Event
  topup_finished : ℕ → Event

-- `HashSet::remove`.
abbrev pub without : ℕ → List ℕ → List ℕ
without uid [] = []
without uid (n ∷ requests) = if n == uid then without uid requests else n ∷ without uid requests

unfoldable pub apply : Event → Overseer → Overseer
apply (topup_requested now pubkey key amount response) o = record o {
  db = (topup now pubkey key amount response o.db).1;
}
apply (invoice_settled hash) o = record o { db = (complete_payment hash (pos 0) o.db).1 }
apply (reconciled lookup now) o = record o { db = reconcile_expired_nwc_payments lookup now o.db }
apply (credit_given now hash uid amount) o = record o {
  db = or_same (add_admin_credit now hash uid amount o.db) o.db;
}
apply (stream_started now node info) o = record o { db = (start_stream now node info o.db).1 }
apply (segments_added id added deleted) o = (on_segments id added deleted o).overseer
apply (stream_updated published id) o = record o { db = (on_update published id o.db).1 }
apply (stream_ended built now id) o = record o { db = (on_end built now id o.db).1 }
apply (streams_checked now node round published) o = record o {
  db = (check_streams now node round (record { db = o.db; last_event_publish = published })).1.db;
}
apply (stream_billed now id) o = record o {
  db = bill_found (stream_by_id id o.db.streams) now o.db;
}
apply (topup_finished uid) o = record o { nwc_topup_requests = without uid o.nwc_topup_requests }

unfoldable pub run : List Event → Overseer → Overseer
unfolding apply
run [] o = o
run (e ∷ events) o = run events (apply e o)

apply-IsBalanced : (e : Event) (o : Overseer) → IsBalanced o.db → IsBalanced (apply e o).db
unfolding apply reconcile_expired_nwc_payments
apply-IsBalanced (topup_requested now pubkey key amount response) o h =
    topup-IsBalanced now pubkey key amount response o.db h
apply-IsBalanced (invoice_settled hash) o h = complete_payment-IsBalanced hash o.db h
apply-IsBalanced (reconciled lookup now) o h =
    settle_all-IsBalanced lookup (get_expired_unpaid_payments now o.db.payments) o.db h
apply-IsBalanced (credit_given now hash uid amount) o h =
    add_admin_credit-IsBalanced now hash uid amount o.db h
apply-IsBalanced (stream_started now node info) o h = start_stream-IsBalanced now node info o.db h
apply-IsBalanced (segments_added id added deleted) o h = on_segments-IsBalanced id added deleted o h
apply-IsBalanced (stream_updated published id) o h = on_update-IsBalanced published id o.db h
apply-IsBalanced (stream_ended built now id) o h = on_end-IsBalanced built now id o.db h
apply-IsBalanced (streams_checked now node round published) o h =
    check_streams-IsBalanced now node round (record { db = o.db; last_event_publish = published }) h
apply-IsBalanced (stream_billed now id) o h = bill_found-IsBalanced id now o.db h
apply-IsBalanced (topup_finished uid) o h = h

pub run-IsBalanced :
    (events : List Event) (o : Overseer) → IsBalanced o.db → IsBalanced (run events o).db
unfolding run
run-IsBalanced [] o h = h
run-IsBalanced (e ∷ events) o h = run-IsBalanced events (apply e o) (apply-IsBalanced e o h)

-- A database with endpoints and keys, and no users yet.
abbrev pub new_database : List UserStreamKey → List IngestEndpoint → ℕ → ZapStreamDb
new_database keys endpoints next = record {
  users = [];
  streams = [];
  payments = [];
  stream_keys = keys;
  endpoints = endpoints;
  next_user = next;
}

abbrev pub opened : List UserStreamKey → List IngestEndpoint → ℕ → Option ℕ → Overseer
opened keys endpoints next threshold = record {
  db = new_database keys endpoints next;
  nwc_topup_requests = [];
  low_balance_threshold = threshold;
  n94 = true;
}

zero_offset : pos 0 ≡ pos 0 -ℤ pos 0 -ℤ pos 0
zero_offset = grind int_laws

pub new_database-IsBalanced :
    (keys : List UserStreamKey) (endpoints : List IngestEndpoint) (next : ℕ)
    → IsBalanced (new_database keys endpoints next)
unfolding expected_balance total_payments total_fees total_stream_costs
new_database-IsBalanced keys endpoints next = (λ uid. zero_offset, tt, tt, λ uid h. refl)

no_offset : (b e : ℤ) → b ≡ e → b -ℤ e ≡ pos 0
no_offset b e h = grind (int_laws, h)

own_id : (uid : ℕ) (u : User) (users : List User) → user_by_id uid users ≡ some u → u.id ≡ uid
own_id uid u [] h = cc
own_id uid u (v ∷ users) h = go (v.id == uid) (own_id uid u users) refl h
  where
    go :
        (b : Bool)
        → (user_by_id uid users ≡ some u → u.id ≡ uid)
        → (v.id == uid) ≡ b
        → (if b then some v else user_by_id uid users) ≡ some u
        → u.id ≡ uid
    go true ih b h = ap (λ x. x.id) (sym (some_inj h)) ∙ ground (arith, b)
    go false ih b h = ih h

-- Whatever happens, call after call, from tables with no users: the report of the balances that do not
-- agree with the payments and the streams finds no user with an offset.
pub balance_offset-run :
    (events : List Event) (keys : List UserStreamKey) (endpoints : List IngestEndpoint)
    (next uid : ℕ) (threshold : Option ℕ) (u : User)
    → let after = (run events (opened keys endpoints next threshold)).db in
      user_by_id uid after.users ≡ some u → balance_offset after u ≡ pos 0
unfolding balance_offset
balance_offset-run events keys endpoints next uid threshold u h =
    let o = run events (opened keys endpoints next threshold) in
    no_offset u.balance (expected_balance u.id o.db) (
      user_balance uid u o.db.users h
      ∙ ap (λ n. balance_of n o.db.users) (sym (own_id uid u o.db.users h))
      ∙ (run-IsBalanced events (opened keys endpoints next threshold)
            (new_database-IsBalanced keys endpoints next)).0
          u.id)
