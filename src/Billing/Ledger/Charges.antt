-- ===== src/Billing/Ledger/Charges.antt =====
-- The charge of a stream, `tick_stream` of crates/zap-stream-db/src/db.rs: what the stream costs leaves
-- the balance of its user, and the ledger stays balanced.
use zap_stream_core.Prelude.{
  some_inj, ℕ, ◌≡◌, refl, sym, ap, subst, ◌∙◌, inl, inr, Bool, true, false, ◌||◌, Bool-cases,
  Option, none, some, List, [], ◌∷◌, ◌==◌, if◌then◌else◌, arith,
}
use zap_stream_core.Prelude.Int.{ℤ, pos, ◌+ℤ◌, ◌-ℤ◌, ◌≤ℤ◌, ltb_ℤ, int_laws}
use zap_stream_core.Billing.Tables.{
  User, UserStream, ZapStreamDb, user_by_id, stream_by_id, update_user, update_stream_row,
}
use zap_stream_core.Billing.Ledger.{
  add_balance, has_user, when, charge_stream, total_payments, total_fees, total_stream_costs,
  expected_balance, tick_stream, charged, commit_with_balance,
}
use zap_stream_core.Billing.Ledger.Balance.{total_stream_costs-charged}
use zap_stream_core.Billing.Ledger.Paid.{balance_of, balance_of-add}
use zap_stream_core.Billing.Ledger.Accounts.{IsBalanced, has_user-update}
use zap_stream_core.Billing.Ledger.Statements.{UniqueId-update}

moved_cost :
    (mine : Bool) (b t f c cost : ℤ)
    → b ≡ t -ℤ f -ℤ c
    → b +ℤ when mine (pos 0 -ℤ cost) ≡ t -ℤ f -ℤ (when mine cost +ℤ c)
moved_cost true b t f c cost e = grind int_laws
moved_cost false b t f c cost e = grind int_laws

no_cost : (mine : Bool) (c cost : ℤ) → cost ≡ pos 0 → c ≡ when mine cost +ℤ c
no_cost true c cost e = grind (int_laws, e)
no_cost false c cost e = grind int_laws

pub free_is_zero : (cost : ℤ) → pos 0 ≤ℤ cost → ltb_ℤ (pos 0) cost ≡ false → cost ≡ pos 0
free_is_zero cost h e = ground (arith, e)

charge_any :
    (id : ℕ) (duration cost : ℤ) (s : UserStream) (db : ZapStreamDb) (users : List User)
    → IsBalanced db
    → stream_by_id id db.streams ≡ some s
    → ((uid : ℕ)
        → balance_of uid users
          ≡ total_payments uid db.payments
            -ℤ total_fees uid db.payments
            -ℤ (when (s.user_id == uid) cost +ℤ total_stream_costs uid db.streams))
    → ((uid : ℕ) → has_user uid users ≡ has_user uid db.users)
    → IsBalanced (record db {
      streams = update_stream_row id (charge_stream duration cost) db.streams;
      users = users;
    })
unfolding expected_balance charge_stream
charge_any id duration cost s db users (balanced, unique, ids, fresh) found sums same = (
  λ uid.
      sums uid
      ∙ ap (λ t. total_payments uid db.payments -ℤ total_fees uid db.payments -ℤ t)
          (sym (total_stream_costs-charged uid id duration cost s db.streams ids found)),
  unique,
  UniqueId-update id (charge_stream duration cost) db.streams (λ s. refl) ids,
  λ uid h. same uid ∙ fresh uid h,
)

charged-IsBalanced :
    (id uid : ℕ) (duration cost : ℤ) (s : UserStream) (db : ZapStreamDb)
    → IsBalanced db
    → stream_by_id id db.streams ≡ some s
    → s.user_id ≡ uid
    → pos 0 ≤ℤ cost
    → has_user uid db.users ≡ true
    → IsBalanced (charged id uid duration cost db)
unfolding charged expected_balance
charged-IsBalanced id uid duration cost s db h found own positive there =
    go (ltb_ℤ (pos 0) cost) (ltb_ℤ (pos 0) duration) refl
  where
    go :
        (paid lasts : Bool)
        → ltb_ℤ (pos 0) cost ≡ paid
        → IsBalanced (record db {
          streams =
              if paid || lasts
              then update_stream_row id (charge_stream duration cost) db.streams
              else db.streams;
          users = if paid then update_user uid (add_balance (pos 0 -ℤ cost)) db.users else db.users;
        })
    go true lasts e =
        charge_any id duration cost s db (update_user uid (add_balance (pos 0 -ℤ cost)) db.users) h
          found
          (λ other.
            balance_of-add uid other (pos 0 -ℤ cost) db.users there
            ∙ ap (λ n. balance_of other db.users +ℤ when (n == other) (pos 0 -ℤ cost)) (sym own)
            ∙ moved_cost (s.user_id == other) (balance_of other db.users)
                (total_payments other db.payments) (total_fees other db.payments)
                (total_stream_costs other db.streams) cost (h.0 other))
          (λ other. has_user-update uid other (pos 0 -ℤ cost) db.users)
    go false true e =
        charge_any id duration cost s db db.users h found
          (λ other.
            h.0 other
            ∙ ap (λ t. total_payments other db.payments -ℤ total_fees other db.payments -ℤ t)
                (no_cost (s.user_id == other) (total_stream_costs other db.streams) cost
                  (free_is_zero cost positive e)))
          (λ other. refl)
    go false false e = h

pub found_user :
    (uid : ℕ) (u : User) (users : List User)
    → user_by_id uid users ≡ some u
    → has_user uid users ≡ true
found_user uid u [] h = cc
found_user uid u (v ∷ users) h = elim (Bool-cases (v.id == uid)) [
  | inl e ↦ rw e refl
  | inr e ↦ rw e (found_user uid u users (ground (arith, e, h)))
]

pub user_balance :
    (uid : ℕ) (u : User) (users : List User)
    → user_by_id uid users ≡ some u
    → u.balance ≡ balance_of uid users
user_balance uid u [] h = cc
user_balance uid u (v ∷ users) h = go (v.id == uid) (user_balance uid u users) h
  where
    go :
        (b : Bool)
        → (user_by_id uid users ≡ some u → u.balance ≡ balance_of uid users)
        → (if b then some v else user_by_id uid users) ≡ some u
        → u.balance ≡ (if b then v.balance else balance_of uid users)
    go true ih h = ap (λ x. x.balance) (sym (some_inj h))
    go false ih h = ih h

-- The users of the tables after a charge are the ones before it.
pub has_user-charged :
    (id uid other : ℕ) (duration cost : ℤ) (db : ZapStreamDb)
    → has_user other (charged id uid duration cost db).users ≡ has_user other db.users
unfolding charged
has_user-charged id uid other duration cost db = go (ltb_ℤ (pos 0) cost)
  where
    go :
        (paid : Bool)
        → has_user other
            (if paid then update_user uid (add_balance (pos 0 -ℤ cost)) db.users else db.users)
          ≡ has_user other db.users
    go true = has_user-update uid other (pos 0 -ℤ cost) db.users
    go false = refl

pair_inj :
    {a b : ℤ} {x y : ZapStreamDb}
    → ◌≡◌ {A = Option (ℤ × ZapStreamDb)} (some (a, x)) (some (b, y))
    → (a ≡ b) × (x ≡ y)
pair_inj {a} {b} {x} {y} e = (
  ap (λ (p : ℤ × ZapStreamDb). p.0) (some_inj {a = (a, x)} {b = (b, y)} e),
  ap (λ (p : ℤ × ZapStreamDb). p.1) (some_inj {a = (a, x)} {b = (b, y)} e),
)

pub committed :
    (o : Option User) (balance : ℤ) (db after : ZapStreamDb)
    → commit_with_balance o db ≡ some (balance, after)
    → (u : User) × (o ≡ some u) × (u.balance ≡ balance) × (db ≡ after)
unfolding commit_with_balance
committed none balance db after e = cc
committed (some u) balance db after e = (u, refl, (pair_inj e).0, (pair_inj e).1)

-- A charge of a stream that belongs to the user, of a cost that is not negative, keeps the ledger
-- balanced, and the balance it reports is the user's after the charge.
pub tick_stream-IsBalanced :
    (id uid : ℕ) (duration cost balance : ℤ) (s : UserStream) (db after : ZapStreamDb)
    → IsBalanced db
    → stream_by_id id db.streams ≡ some s
    → s.user_id ≡ uid
    → pos 0 ≤ℤ cost
    → tick_stream id uid duration cost db ≡ some (balance, after)
    → IsBalanced after × (balance ≡ balance_of uid after.users)
unfolding tick_stream
tick_stream-IsBalanced id uid duration cost balance s db after h found own positive e =
    let (u, user, value, same) =
      committed (user_by_id uid (charged id uid duration cost db).users) balance
        (charged id uid duration cost db) after e in
    let there =
      sym (has_user-charged id uid uid duration cost db)
      ∙ found_user uid u (charged id uid duration cost db).users user in
    (
      subst IsBalanced same
          (charged-IsBalanced id uid duration cost s db h found own positive there),
      sym value
          ∙ user_balance uid u (charged id uid duration cost db).users user
          ∙ ap (λ d. balance_of uid d.users) same,
    )
