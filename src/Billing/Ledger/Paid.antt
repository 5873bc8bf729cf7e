-- ===== src/Billing/Ledger/Paid.antt =====
-- Balances under an update, and the sums of the paid payments and of the fees after a settlement, in
-- crates/zap-stream-db/src/db.rs.
use zap_stream_core.Prelude.{
  some_inj, ℕ, ◌≡◌, refl, sym, ap, subst, ◌∙◌, ◌⊎◌, inl, inr, Bool, true, false, ◌&&◌, Bool-cases,
  some, List, [], ◌∷◌, ◌==◌, if◌then◌else◌, arith,
}
use zap_stream_core.Prelude.Int.{ℤ, pos, ◌+ℤ◌, int_laws}
use zap_stream_core.Billing.Tables.{User, Payment, payment_by_hash, update_user, update_payment}
use zap_stream_core.Billing.Ledger.{
  add_balance, has_user, has_payment, set_paid, when, is_withdrawal, total_payments, total_fees,
}

abbrev pub balance_of : ℕ → List User → ℤ
balance_of uid [] = pos 0
balance_of uid (u ∷ users) = if u.id == uid then u.balance else balance_of uid users

balance_of-other :
    (uid other : ℕ) (f : ℤ) (users : List User)
    → (uid == other) ≡ false
    → balance_of other (update_user uid (add_balance f) users) ≡ balance_of other users
balance_of-other uid other f [] h = refl
balance_of-other uid other f (u ∷ users) h = elim (Bool-cases (u.id == uid)) [
  | inl e ↦ rw e (ground (arith, e, h, balance_of-other uid other f users h))
  | inr e ↦ rw e (ground (arith, balance_of-other uid other f users h))
]

balance_of_self :
    (uid : ℕ) (diff : ℤ) (users : List User)
    → has_user uid users ≡ true
    → balance_of uid (update_user uid (add_balance diff) users) ≡ balance_of uid users +ℤ diff
balance_of_self uid diff [] h = cc
balance_of_self uid diff (u ∷ users) h = elim (Bool-cases (u.id == uid)) [
  | inl e ↦ rw e (rw e refl)
  | inr e ↦ rw e (rw e (balance_of_self uid diff users (ground (arith, e, h))))
]

pub self_eq : (n : ℕ) → true ≡ (n == n)
self_eq n = ground arith

add_zero : (a : ℤ) → a +ℤ pos 0 ≡ a
add_zero a = omega int_laws

pub balance_of-add :
    (uid other : ℕ) (diff : ℤ) (users : List User)
    → has_user uid users ≡ true
    → balance_of other (update_user uid (add_balance diff) users)
      ≡ balance_of other users +ℤ when (uid == other) diff
balance_of-add uid other diff users h = elim (Bool-cases (uid == other)) [
  | inl e ↦
      subst
        (λ o.
          balance_of o (update_user uid (add_balance diff) users)
          ≡ balance_of o users +ℤ when (uid == o) diff)
        (ground (arith, e))
        (balance_of_self uid diff users h
          ∙ ap (λ b. balance_of uid users +ℤ when b diff) (self_eq uid))
  | inr e ↦
      balance_of-other uid other diff users e
      ∙ sym (add_zero (balance_of other users))
      ∙ ap (λ b. balance_of other users +ℤ when b diff) (sym e)
]

-- No hash has two payments.
abbrev pub UniqueHash : List Payment → Type 0
UniqueHash [] = Unit {0}
UniqueHash (p ∷ payments) = (has_payment p.payment_hash payments ≡ false) × UniqueHash payments

update_payment-absent :
    (hash : ℕ) (f : Payment → Payment) (payments : List Payment)
    → has_payment hash payments ≡ false
    → update_payment hash f payments ≡ payments
update_payment-absent hash f [] h = refl
update_payment-absent hash f (p ∷ payments) h = elim (Bool-cases (p.payment_hash == hash)) [
  | inl e ↦ absurd (ground (arith, e, h))
  | inr e ↦ rw e (ap (◌∷◌ p) (update_payment-absent hash f payments (ground (arith, e, h))))
]

same_hash :
    (a b : ℕ) (payments : List Payment)
    → (a == b) ≡ true
    → has_payment a payments ≡ false
    → has_payment b payments ≡ false
same_hash a b payments e h = subst (λ n. has_payment n payments ≡ false) (ground (arith, e)) h

-- The row found is the first or one of the rest.
found_in :
    (hash : ℕ) (p q : Payment) (payments : List Payment)
    → payment_by_hash hash (q ∷ payments) ≡ some p
    → (((q.payment_hash == hash) ≡ true) × (q ≡ p))
      ⊎ (((q.payment_hash == hash) ≡ false) × (payment_by_hash hash payments ≡ some p))
found_in hash p q payments e = go (q.payment_hash == hash) refl e
  where
    go :
        (b : Bool)
        → (q.payment_hash == hash) ≡ b
        → (if b then some q else payment_by_hash hash payments) ≡ some p
        → (((q.payment_hash == hash) ≡ true) × (q ≡ p))
          ⊎ (((q.payment_hash == hash) ≡ false) × (payment_by_hash hash payments ≡ some p))
    go true h e = inl (h, some_inj e)
    go false h e = inr (h, e)

newly_paid :
    (mine paid : Bool) (a t : ℤ)
    → paid ≡ false
    → when (mine && true) a +ℤ t ≡ when mine a +ℤ (when (mine && paid) a +ℤ t)
newly_paid true false a t e = omega int_laws
newly_paid true true a t e = cc
newly_paid false paid a t e = omega int_laws

pub swapped : (a b t : ℤ) → a +ℤ (b +ℤ t) ≡ b +ℤ (a +ℤ t)
swapped a b t = omega int_laws

pub total_payments-paid :
    (uid hash : ℕ) (fee : ℤ) (p : Payment) (payments : List Payment)
    → UniqueHash payments
    → payment_by_hash hash payments ≡ some p
    → p.is_paid ≡ false
    → total_payments uid (update_payment hash (set_paid fee) payments)
      ≡ when (p.user_id == uid) p.amount +ℤ total_payments uid payments
unfolding total_payments set_paid
total_payments-paid uid hash fee p [] u e unpaid = cc
total_payments-paid uid hash fee p (q ∷ payments) u e unpaid = elim (found_in hash p q payments e) [
  | inl (b, same) ↦ rw b (
      ap (λ ps. when ((q.user_id == uid) && true) q.amount +ℤ total_payments uid ps)
        (update_payment-absent hash (set_paid fee) payments
          (same_hash q.payment_hash hash payments b u.0))
      ∙ newly_paid (q.user_id == uid) q.is_paid q.amount (total_payments uid payments)
          (ap (λ r. r.is_paid) same ∙ unpaid)
      ∙ ap
          (λ r.
            when (r.user_id == uid) r.amount
            +ℤ (when (q.user_id == uid && q.is_paid) q.amount +ℤ total_payments uid payments))
          same)
  | inr (b, later) ↦ rw b (
      ap (λ t. when (q.user_id == uid && q.is_paid) q.amount +ℤ t)
        (total_payments-paid uid hash fee p payments u.1 later unpaid)
      ∙ swapped _ (when (p.user_id == uid) p.amount) (total_payments uid payments))
]

newly_charged :
    (mine paid kind : Bool) (fee old t : ℤ)
    → paid ≡ false
    → when (mine && true && kind) fee +ℤ t
      ≡ when (mine && kind) fee +ℤ (when (mine && paid && kind) old +ℤ t)
newly_charged mine true kind fee old t e = cc
newly_charged true false true fee old t e = omega int_laws
newly_charged true false false fee old t e = omega int_laws
newly_charged false false kind fee old t e = omega int_laws

pub total_fees-paid :
    (uid hash : ℕ) (fee : ℤ) (p : Payment) (payments : List Payment)
    → UniqueHash payments
    → payment_by_hash hash payments ≡ some p
    → p.is_paid ≡ false
    → total_fees uid (update_payment hash (set_paid fee) payments)
      ≡ when (p.user_id == uid && is_withdrawal p.payment_type) fee +ℤ total_fees uid payments
unfolding total_fees set_paid
total_fees-paid uid hash fee p [] u e unpaid = cc
total_fees-paid uid hash fee p (q ∷ payments) u e unpaid = elim (found_in hash p q payments e) [
  | inl (b, same) ↦ rw b (
      ap
        (λ ps.
          when ((q.user_id == uid) && true && is_withdrawal q.payment_type) fee
          +ℤ total_fees uid ps)
        (update_payment-absent hash (set_paid fee) payments
          (same_hash q.payment_hash hash payments b u.0))
      ∙ newly_charged (q.user_id == uid) q.is_paid (is_withdrawal q.payment_type) fee q.fee
          (total_fees uid payments) (ap (λ r. r.is_paid) same ∙ unpaid)
      ∙ ap
          (λ r.
            when (r.user_id == uid && is_withdrawal r.payment_type) fee
            +ℤ (when (q.user_id == uid && q.is_paid && is_withdrawal q.payment_type) q.fee
                +ℤ total_fees uid payments))
          same)
  | inr (b, later) ↦ rw b (
      ap (λ t. when (q.user_id == uid && q.is_paid && is_withdrawal q.payment_type) q.fee +ℤ t)
        (total_fees-paid uid hash fee p payments u.1 later unpaid)
      ∙ swapped _ (when (p.user_id == uid && is_withdrawal p.payment_type) fee)
          (total_fees uid payments))
]
