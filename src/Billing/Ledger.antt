-- ===== src/Billing/Ledger.antt =====
-- The statements of crates/zap-stream-db/src/db.rs that move money, and the callers that use them:
-- `try_complete_payment` of crates/zap-stream/src/payments.rs and `topup` of
-- crates/zap-stream/src/overseer.rs. A statement that fails is `none` and changes nothing.
pub mod Paid
pub mod Balance
pub mod Accounts
pub mod Statements
pub mod Charges
use zap_stream_core.Prelude.{
  ℕ, ◌+◌, Bool, true, false, not, ◌&&◌, ◌||◌, Option, none, some, List, [], ◌∷◌, ◌++◌, ◌==◌,
  if◌then◌else◌, ltb, leb, find, any,
}
use zap_stream_core.Prelude.Int.{ℤ, pos, ◌+ℤ◌, ◌-ℤ◌, ltb_ℤ, leb_ℤ}
use zap_stream_core.Billing.Tables.{
  User, UserStream, Payment, PaymentType, top_up, zap, credit, withdrawal, admission_fee,
  ZapStreamDb, user_by_id, payment_by_hash, update_user, update_stream_row, update_payment,
}

abbrev pub add_balance : ℤ → User → User
add_balance diff u = record u { balance = u.balance +ℤ diff }

pub new_user : ℕ → ℕ → ℕ → User
new_user id pubkey key = record {
  id = id;
  pubkey = pubkey;
  balance = pos 0;
  stream_key = key;
  is_blocked = false;
  stream_dump_recording = false;
  nwc = none;
}

pub upserted : ℕ → ℕ → Option User → ZapStreamDb → ℕ × ZapStreamDb
unfolding new_user
upserted pubkey key (some u) db = (u.id, db)
upserted pubkey key none db = (
  db.next_user,
  record db { users = new_user db.next_user pubkey key ∷ db.users; next_user = db.next_user + 1 },
)

-- The user of a public key, inserted when there is none. `key` is what `uuid()` gives.
unfoldable pub upsert_user : ℕ → ℕ → ZapStreamDb → ℕ × ZapStreamDb
unfolding upserted
upsert_user pubkey key db = upserted pubkey key (find (λ u. u.pubkey == pubkey) db.users) db

abbrev pub has_user : ℕ → List User → Bool
has_user uid = any λ u. u.id == uid

abbrev pub has_payment : ℕ → List Payment → Bool
has_payment hash = any λ p. p.payment_hash == hash

-- The hash is the primary key, and the user is a foreign key.
unfoldable pub create_payment :
    ℕ → ℕ → ℕ → ℤ → PaymentType → ℤ → ℕ → ZapStreamDb → Option ZapStreamDb
create_payment now hash uid amount payment_type fee expires db =
    if has_payment hash db.payments || not (has_user uid db.users)
    then none
    else some (record db {
      payments =
          record {
            payment_hash = hash;
            user_id = uid;
            is_paid = false;
            amount = amount;
            created = now;
            expires = expires;
            payment_type = payment_type;
            fee = fee;
          }
          ∷ db.payments;
    })

pub set_paid : ℤ → Payment → Payment
set_paid fee p = record p { fee = fee; is_paid = true }

-- The row that the join selects: an unpaid payment with the hash, whose user exists.
pub selected : List User → Option Payment → Option Payment
selected users none = none
selected users (some p) = if not p.is_paid && has_user p.user_id users then some p else none

pub unpaid_row : ℕ → ZapStreamDb → Option Payment
unfolding selected
unpaid_row hash db = selected db.users (payment_by_hash hash db.payments)

-- One row at most is updated in each table; the payment's row always changes, so the count of rows
-- is not zero.
pub settle_row : ℕ → ℤ → (Payment → ℤ) → Option Payment → ZapStreamDb → Bool × ZapStreamDb
unfolding set_paid
settle_row hash fee diff none db = (false, db)
settle_row hash fee diff (some p) db = (
  true,
  record db {
    payments = update_payment hash (set_paid fee) db.payments;
    users = update_user p.user_id (add_balance (diff p)) db.users;
  },
)

unfoldable pub complete_payment : ℕ → ℤ → ZapStreamDb → Bool × ZapStreamDb
unfolding settle_row unpaid_row
complete_payment hash fee db = settle_row hash fee (λ p. p.amount) (unpaid_row hash db) db

unfoldable pub charge_stream : ℤ → ℤ → UserStream → UserStream
charge_stream duration cost s = record s {
  duration = s.duration +ℤ duration;
  cost = s.cost +ℤ cost;
}

unfoldable pub charged : ℕ → ℕ → ℤ → ℤ → ZapStreamDb → ZapStreamDb
unfolding charge_stream
charged stream_id uid duration cost db = record db {
  streams =
      if ltb_ℤ (pos 0) cost || ltb_ℤ (pos 0) duration
      then update_stream_row stream_id (charge_stream duration cost) db.streams
      else db.streams;
  users =
      if ltb_ℤ (pos 0) cost
      then update_user uid (add_balance (pos 0 -ℤ cost)) db.users
      else db.users;
}

-- The transaction gives the new balance; with no such user it fails and is rolled back.
unfoldable pub commit_with_balance : Option User → ZapStreamDb → Option (ℤ × ZapStreamDb)
commit_with_balance none db = none
commit_with_balance (some u) db = some (u.balance, db)

unfoldable pub tick_stream : ℕ → ℕ → ℤ → ℤ → ZapStreamDb → Option (ℤ × ZapStreamDb)
unfolding charged commit_with_balance
tick_stream stream_id uid duration cost db =
    let after = charged stream_id uid duration cost db in
    commit_with_balance (user_by_id uid after.users) after

-- `hash` is the random hash of the record.
unfoldable pub add_admin_credit : ℕ → ℕ → ℕ → ℤ → ZapStreamDb → Option ZapStreamDb
unfolding create_payment complete_payment
add_admin_credit now hash uid amount db =
    elim (create_payment now hash uid amount credit (pos 0) (now + 1000) db) [
      | none ↦ none
      | some created ↦ some (complete_payment hash (pos 0) created).1
    ]

-- The ledger's own account of the balances, `get_balance_offsets`.
pub is_withdrawal : PaymentType → Bool
is_withdrawal withdrawal = true
is_withdrawal top_up = false
is_withdrawal zap = false
is_withdrawal credit = false
is_withdrawal admission_fee = false

abbrev pub when : Bool → ℤ → ℤ
when b n = if b then n else pos 0

unfoldable pub total_payments : ℕ → List Payment → ℤ
total_payments uid [] = pos 0
total_payments uid (p ∷ payments) =
    when (p.user_id == uid && p.is_paid) p.amount +ℤ total_payments uid payments

unfoldable pub total_fees : ℕ → List Payment → ℤ
unfolding is_withdrawal
total_fees uid [] = pos 0
total_fees uid (p ∷ payments) =
    when (p.user_id == uid && p.is_paid && is_withdrawal p.payment_type) p.fee
    +ℤ total_fees uid payments

unfoldable pub total_stream_costs : ℕ → List UserStream → ℤ
total_stream_costs uid [] = pos 0
total_stream_costs uid (s ∷ streams) =
    when (s.user_id == uid) s.cost +ℤ total_stream_costs uid streams

unfoldable pub expected_balance : ℕ → ZapStreamDb → ℤ
unfolding total_payments total_fees total_stream_costs
expected_balance uid db =
    total_payments uid db.payments
    -ℤ total_fees uid db.payments
    -ℤ total_stream_costs uid db.streams

unfoldable pub balance_offset : ZapStreamDb → User → ℤ
unfolding expected_balance
balance_offset db u = u.balance -ℤ expected_balance u.id db
