-- ===== src/Billing/Payments/Balanced.antt =====
-- Invoices, credits and reconciliations of crates/zap-stream/src/payments.rs keep the ledger balanced.
use zap_stream_core.Prelude.{
  ℕ, ◌+◌, ◌≡◌, refl, Bool, true, false, Option, none, some, List, [], ◌∷◌, if◌then◌else◌,
}
use zap_stream_core.Prelude.Int.{ℤ, pos}
use zap_stream_core.Billing.Tables.{Payment, credit, top_up, ZapStreamDb}
use zap_stream_core.Billing.Ledger.{upsert_user, create_payment, complete_payment, add_admin_credit}
use zap_stream_core.Billing.Ledger.Accounts.{IsBalanced}
use zap_stream_core.Billing.Ledger.Statements.{
  upsert_user-IsBalanced, create_payment-IsBalanced, complete_payment-IsBalanced,
}
use zap_stream_core.Billing.Payments.{Invoice, topup, invoiced, request_invoice, expiry, settle_all}

created_or_same-IsBalanced :
    (now hash uid amount expires : ℕ) (db : ZapStreamDb)
    → IsBalanced db
    → IsBalanced
        (invoiced (create_payment now hash uid (pos amount) top_up (pos 0) expires db) hash db).1
unfolding invoiced
created_or_same-IsBalanced now hash uid amount expires db h =
    go (create_payment now hash uid (pos amount) top_up (pos 0) expires db) refl
  where
    go :
        (o : Option ZapStreamDb)
        → create_payment now hash uid (pos amount) top_up (pos 0) expires db ≡ o
        → IsBalanced (invoiced o hash db).1
    go none e = h
    go (some created) e =
        create_payment-IsBalanced now hash uid (pos amount) top_up (pos 0) expires db created h e

request_invoice-IsBalanced :
    (now uid amount : ℕ) (response : Option Invoice) (db : ZapStreamDb)
    → IsBalanced db
    → IsBalanced (request_invoice now uid amount response db).1
unfolding request_invoice
request_invoice-IsBalanced now uid amount none db h = h
request_invoice-IsBalanced now uid amount (some i) db h =
    created_or_same-IsBalanced now i.payment_hash uid amount (expiry now i.expires_at) db h

pub topup-IsBalanced :
    (now pubkey key amount : ℕ) (response : Option Invoice) (db : ZapStreamDb)
    → IsBalanced db
    → IsBalanced (topup now pubkey key amount response db).1
unfolding topup
topup-IsBalanced now pubkey key amount response db h =
    request_invoice-IsBalanced now (upsert_user pubkey key db).0 amount response
      (upsert_user pubkey key db).1 (upsert_user-IsBalanced pubkey key db h)

pub settle_all-IsBalanced :
    (lookup : ℕ → Bool) (payments : List Payment) (db : ZapStreamDb)
    → IsBalanced db
    → IsBalanced (settle_all lookup payments db)
unfolding settle_all
settle_all-IsBalanced lookup [] db h = h
settle_all-IsBalanced lookup (p ∷ payments) db h =
    settle_all-IsBalanced lookup payments
      (if lookup p.payment_hash then (complete_payment p.payment_hash (pos 0) db).1 else db)
      (go (lookup p.payment_hash))
  where
    go : (b : Bool) → IsBalanced (if b then (complete_payment p.payment_hash (pos 0) db).1 else db)
    go true = complete_payment-IsBalanced p.payment_hash db h
    go false = h

abbrev pub or_same : Option ZapStreamDb → ZapStreamDb → ZapStreamDb
or_same none db = db
or_same (some after) db = after

pub add_admin_credit-IsBalanced :
    (now hash uid : ℕ) (amount : ℤ) (db : ZapStreamDb)
    → IsBalanced db
    → IsBalanced (or_same (add_admin_credit now hash uid amount db) db)
unfolding add_admin_credit
add_admin_credit-IsBalanced now hash uid amount db h =
    go (create_payment now hash uid amount credit (pos 0) (now + 1000) db) refl
  where
    go :
        (o : Option ZapStreamDb)
        → create_payment now hash uid amount credit (pos 0) (now + 1000) db ≡ o
        → IsBalanced (
            or_same
              (elim o [
                | none ↦ none
                | some created ↦ some (complete_payment hash (pos 0) created).1
              ])
              db)
    go none e = h
    go (some created) e =
        complete_payment-IsBalanced hash created
          (create_payment-IsBalanced now hash uid amount credit (pos 0) (now + 1000) db created h e)
