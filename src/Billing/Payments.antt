-- ===== src/Billing/Payments.antt =====
-- The invoices: `topup` of crates/zap-stream/src/overseer.rs, and the payment handler and the
-- reconciliation of crates/zap-stream/src/payments.rs. What the lightning node answers is a parameter.
pub mod Balanced
pub mod History
use zap_stream_core.Prelude.{
  ℕ, ◌+◌, ◌*◌, ◌≤◌, Bool, true, false, not, ◌&&◌, Option, none, some, List, [], ◌∷◌, if◌then◌else◌,
  leb,
}
use zap_stream_core.Prelude.Int.{ℤ, pos}
use zap_stream_core.Billing.Tables.{
  Payment, PaymentType, top_up, zap, credit, withdrawal, admission_fee, ZapStreamDb,
  payment_by_hash,
}
use zap_stream_core.Billing.Ledger.{upsert_user, create_payment, complete_payment}

-- What the node answers to a request for an invoice.
pub record Invoice : Type 0 where
  pub payment_hash : ℕ
  pub expires_at : Option ℕ

abbrev pub hour : ℕ
hour = 3600000

abbrev pub expiry : ℕ → Option ℕ → ℕ
expiry now none = now + hour
expiry now (some t) = t

pub invoiced : Option ZapStreamDb → ℕ → ZapStreamDb → Option Payment × ZapStreamDb
invoiced none hash db = (none, db)
invoiced (some created) hash db = (payment_by_hash hash created.payments, created)

pub request_invoice : ℕ → ℕ → ℕ → Option Invoice → ZapStreamDb → Option Payment × ZapStreamDb
unfolding invoiced create_payment
request_invoice now uid amount none db = (none, db)
request_invoice now uid amount (some i) db =
    invoiced
      (create_payment now i.payment_hash uid (pos amount) top_up (pos 0) (expiry now i.expires_at)
        db)
      i.payment_hash db

-- The user is inserted first, and stays when the node or the table of payments refuses.
unfoldable pub topup : ℕ → ℕ → ℕ → ℕ → Option Invoice → ZapStreamDb → Option Payment × ZapStreamDb
unfolding upsert_user request_invoice
topup now pubkey key amount response db =
    let (uid, known) = upsert_user pubkey key db in request_invoice now uid amount response known

abbrev is_invoice : PaymentType → Bool
is_invoice top_up = true
is_invoice zap = true
is_invoice credit = false
is_invoice withdrawal = false
is_invoice admission_fee = false

unfoldable pub get_expired_unpaid_payments : ℕ → List Payment → List Payment
get_expired_unpaid_payments now [] = []
get_expired_unpaid_payments now (p ∷ payments) =
    let rest = get_expired_unpaid_payments now payments in
    if not p.is_paid && is_invoice p.payment_type && leb p.expires now then p ∷ rest else rest

-- `lookup` says whether the wallet has settled an invoice; an error counts as not settled.
unfoldable pub settle_all : (ℕ → Bool) → List Payment → ZapStreamDb → ZapStreamDb
unfolding complete_payment
settle_all lookup [] db = db
settle_all lookup (p ∷ payments) db =
    settle_all lookup payments
      (if lookup p.payment_hash then (complete_payment p.payment_hash (pos 0) db).1 else db)

unfoldable pub reconcile_expired_nwc_payments : (ℕ → Bool) → ℕ → ZapStreamDb → ZapStreamDb
unfolding settle_all get_expired_unpaid_payments
reconcile_expired_nwc_payments lookup now db =
    settle_all lookup (get_expired_unpaid_payments now db.payments) db
