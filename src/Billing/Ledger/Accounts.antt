-- ===== src/Billing/Ledger/Accounts.antt =====
-- The invariant of the ledger in crates/zap-stream-db/src/db.rs: every balance is what the payments and
-- the streams account for, so that `get_balance_offsets` reports no offset.
use zap_stream_core.Prelude.{
  some_inj, ℕ, ◌≤◌, ◌≡◌, refl, sym, ap, ◌∙◌, ◌⊎◌, inl, inr, Bool, true, false, not, ◌&&◌,
  Bool-cases, Option, none, some, List, [], ◌∷◌, ◌==◌, if◌then◌else◌, arith,
}
use zap_stream_core.Prelude.Int.{ℤ, pos, ◌+ℤ◌, ◌-ℤ◌, int_laws}
use zap_stream_core.Billing.Tables.{
  User, Payment, ZapStreamDb, payment_by_hash, update_user, update_payment,
}
use zap_stream_core.Billing.Ledger.{
  selected, add_balance, has_user, has_payment, set_paid, unpaid_row, settle_row, when,
  is_withdrawal, total_payments, total_fees, total_stream_costs, expected_balance,
}
use zap_stream_core.Billing.Ledger.Balance.{UniqueId}
use zap_stream_core.Billing.Ledger.Paid.{
  balance_of, balance_of-add, UniqueHash, total_payments-paid, total_fees-paid,
}

-- Every balance is the expected one, where no user counts as a balance of zero; hashes and stream
-- ids are unique, and the next user's id is free.
abbrev pub IsBalanced : ZapStreamDb → Type 0
IsBalanced db =
    ((uid : ℕ) → balance_of uid db.users ≡ expected_balance uid db)
    × UniqueHash db.payments
    × UniqueId db.streams
    × ((uid : ℕ) → db.next_user ≤ uid → has_user uid db.users ≡ false)

-- What the row selected by the join is.
abbrev pub IsUnpaid : ℕ → Payment → ZapStreamDb → Type 0
IsUnpaid hash p db =
    (payment_by_hash hash db.payments ≡ some p)
    × (p.is_paid ≡ false)
    × (has_user p.user_id db.users ≡ true)

found_row :
    (q p : Payment) (users : List User)
    → q.is_paid ≡ false
    → has_user q.user_id users ≡ true
    → (if not q.is_paid && has_user q.user_id users then some q else none) ≡ some p
    → q ≡ p
found_row q p users a b e = some_inj (
    sym (
      ap (λ x. if not x && has_user q.user_id users then some q else none) a
      ∙ ap (λ x. if x then some q else none) b)
    ∙ e)

selected-some :
    (hash : ℕ) (p : Payment) (users : List User) (o : Option Payment)
    → selected users o ≡ some p
    → (o ≡ some p) × (p.is_paid ≡ false) × (has_user p.user_id users ≡ true)
unfolding selected
selected-some hash p users none e = cc
selected-some hash p users (some q) e = elim (Bool-cases q.is_paid) [
  | inl paid ↦ absurd (ground (arith, paid, e))
  | inr unpaid ↦ elim (Bool-cases (has_user q.user_id users)) [
    | inl there ↦
        let same = found_row q p users unpaid there e in
        (
          ap (λ r. some r) same,
          sym (ap (λ r. r.is_paid) same) ∙ unpaid,
          sym (ap (λ r. has_user r.user_id users) same) ∙ there,
        )
    | inr gone ↦ absurd (ground (arith, unpaid, gone, e))
  ]
]

pub unpaid_row-some :
    (hash : ℕ) (p : Payment) (db : ZapStreamDb) → unpaid_row hash db ≡ some p → IsUnpaid hash p db
unfolding unpaid_row
unpaid_row-some hash p db e = selected-some hash p db.users (payment_by_hash hash db.payments) e

has_payment-update :
    (hash other : ℕ) (fee : ℤ) (payments : List Payment)
    → has_payment other (update_payment hash (set_paid fee) payments) ≡ has_payment other payments
unfolding set_paid
has_payment-update hash other fee [] = refl
has_payment-update hash other fee (p ∷ payments) = elim (Bool-cases (p.payment_hash == hash)) [
  | inl e ↦ rw e (
      ap (λ b. if p.payment_hash == other then true else b)
        (has_payment-update hash other fee payments))
  | inr e ↦ rw e (
      ap (λ b. if p.payment_hash == other then true else b)
        (has_payment-update hash other fee payments))
]

UniqueHash-update :
    (hash : ℕ) (fee : ℤ) (payments : List Payment)
    → UniqueHash payments
    → UniqueHash (update_payment hash (set_paid fee) payments)
unfolding set_paid
UniqueHash-update hash fee [] h = tt
UniqueHash-update hash fee (p ∷ payments) h = elim (Bool-cases (p.payment_hash == hash)) [
  | inl e ↦ rw e (
    has_payment-update hash p.payment_hash fee payments ∙ h.0,
    UniqueHash-update hash fee payments h.1,
  )
  | inr e ↦ rw e (
    has_payment-update hash p.payment_hash fee payments ∙ h.0,
    UniqueHash-update hash fee payments h.1,
  )
]

pub has_user-update :
    (uid other : ℕ) (diff : ℤ) (users : List User)
    → has_user other (update_user uid (add_balance diff) users) ≡ has_user other users
has_user-update uid other diff [] = refl
has_user-update uid other diff (u ∷ users) = elim (Bool-cases (u.id == uid)) [
  | inl e ↦
      rw e (ap (λ b. if u.id == other then true else b) (has_user-update uid other diff users))
  | inr e ↦
      rw e (ap (λ b. if u.id == other then true else b) (has_user-update uid other diff users))
]

moved_nothing : (b t f c : ℤ) → b ≡ t -ℤ f -ℤ c → b +ℤ pos 0 ≡ (pos 0 +ℤ t) -ℤ (pos 0 +ℤ f) -ℤ c
moved_nothing b t f c e = grind int_laws

moved_amount : (b t f c a : ℤ) → b ≡ t -ℤ f -ℤ c → b +ℤ a ≡ (a +ℤ t) -ℤ (pos 0 +ℤ f) -ℤ c
moved_amount b t f c a e = grind int_laws

-- A payment that is settled with no fee, or is no withdrawal, moves its amount to the balance.
settled_balance :
    (mine kind : Bool) (b t f c a fee : ℤ)
    → b ≡ t -ℤ f -ℤ c
    → (fee ≡ pos 0) ⊎ (kind ≡ false)
    → b +ℤ when mine a ≡ (when mine a +ℤ t) -ℤ (when (mine && kind) fee +ℤ f) -ℤ c
settled_balance false kind b t f c a fee e h = moved_nothing b t f c e
settled_balance true false b t f c a fee e h = moved_amount b t f c a e
settled_balance true true b t f c a fee e (inl z) =
    moved_amount b t f c a e ∙ ap (λ x. (a +ℤ t) -ℤ (x +ℤ f) -ℤ c) (sym z)
settled_balance true true b t f c a fee e (inr z) = cc

pub settle_row-IsBalanced :
    (hash : ℕ) (fee : ℤ) (p : Payment) (db : ZapStreamDb)
    → IsBalanced db
    → IsUnpaid hash p db
    → (fee ≡ pos 0) ⊎ (is_withdrawal p.payment_type ≡ false)
    → IsBalanced (settle_row hash fee (λ p. p.amount) (some p) db).1
unfolding settle_row expected_balance
settle_row-IsBalanced hash fee p db (balanced, unique, ids, fresh) (found, unpaid, there) free = (
  λ uid.
      balance_of-add p.user_id uid p.amount db.users there
      ∙ settled_balance (p.user_id == uid) (is_withdrawal p.payment_type) (balance_of uid db.users)
          (total_payments uid db.payments) (total_fees uid db.payments)
          (total_stream_costs uid db.streams) p.amount fee (balanced uid) free
      ∙ ap
          (λ t.
            t
            -ℤ (when ((p.user_id == uid) && is_withdrawal p.payment_type) fee
                +ℤ total_fees uid db.payments)
            -ℤ total_stream_costs uid db.streams)
          (sym (total_payments-paid uid hash fee p db.payments unique found unpaid))
      ∙ ap
          (λ t.
            total_payments uid (update_payment hash (set_paid fee) db.payments)
            -ℤ t
            -ℤ total_stream_costs uid db.streams)
          (sym (total_fees-paid uid hash fee p db.payments unique found unpaid)),
  UniqueHash-update hash fee db.payments unique,
  ids,
  λ uid h. has_user-update p.user_id uid p.amount db.users ∙ fresh uid h,
)
