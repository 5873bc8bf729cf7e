-- ===== src/Billing/Ledger/Statements.antt =====
-- Each statement of crates/zap-stream-db/src/db.rs that moves money keeps the ledger balanced.
use zap_stream_core.Prelude.{
  some_inj, ℕ, ◌+◌, ◌≤◌, ◌≡◌, refl, sym, ap, subst, ◌∙◌, inl, inr, Bool, true, false, not, ◌&&◌,
  ◌||◌, Bool-cases, Option-cases, Option, none, some, List, [], ◌∷◌, ◌==◌, if◌then◌else◌, find,
  arith,
}
use zap_stream_core.Prelude.Int.{ℤ, pos, ◌+ℤ◌, ◌-ℤ◌, int_laws}
use zap_stream_core.Billing.Tables.{
  User, UserStream, Payment, PaymentType, ZapStreamDb, stream_by_id, payment_by_hash, update_user,
  update_stream_row, update_payment,
}
use zap_stream_core.Billing.Ledger.{
  selected, add_balance, new_user, has_user, has_payment, set_paid, unpaid_row, settle_row, when,
  is_withdrawal, total_payments, total_fees, total_stream_costs, expected_balance, create_payment,
  complete_payment, upsert_user, upserted,
}
use zap_stream_core.Billing.Ledger.Balance.{UniqueId}
use zap_stream_core.Billing.Ledger.Paid.{balance_of}
use zap_stream_core.Billing.Ledger.Accounts.{IsBalanced, unpaid_row-some, settle_row-IsBalanced}

-- Settling a payment, or finding none to settle, keeps every balance the sum of the paid payments
-- less the fees and the costs of the streams.
pub complete_payment-IsBalanced :
    (hash : ℕ) (db : ZapStreamDb) → IsBalanced db → IsBalanced (complete_payment hash (pos 0) db).1
unfolding complete_payment settle_row
complete_payment-IsBalanced hash db h = elim (Option-cases (unpaid_row hash db)) [
  | inl e ↦ subst (λ o. IsBalanced (settle_row hash (pos 0) (λ p. p.amount) o db).1) (sym e) h
  | inr (p, e) ↦
      subst (λ o. IsBalanced (settle_row hash (pos 0) (λ p. p.amount) o db).1) (sym e)
        (settle_row-IsBalanced hash (pos 0) p db h (unpaid_row-some hash p db e) (inl refl))
]

paid_is_not_selected :
    (hash : ℕ) (fee : ℤ) (users : List User) (payments : List Payment)
    → selected users (payment_by_hash hash (update_payment hash (set_paid fee) payments)) ≡ none
unfolding selected set_paid
paid_is_not_selected hash fee users [] = refl
paid_is_not_selected hash fee users (p ∷ payments) = elim (Bool-cases (p.payment_hash == hash)) [
  | inl e ↦ rw e (rw e refl)
  | inr e ↦ rw e (rw e (paid_is_not_selected hash fee users payments))
]

settled_once :
    (hash : ℕ) (fee again : ℤ) (db : ZapStreamDb) (row : Option Payment)
    → unpaid_row hash db ≡ row
    → let settled = (settle_row hash fee (λ p. p.amount) row db).1 in
      complete_payment hash again settled ≡ (false, settled)
unfolding complete_payment unpaid_row settle_row
settled_once hash fee again db none e = ap (λ o. settle_row hash again (λ p. p.amount) o db) e
settled_once hash fee again db (some p) e =
    let users = update_user p.user_id (add_balance p.amount) db.users in
    ap
      (λ o.
        settle_row hash again (λ p. p.amount) o (settle_row hash fee (λ p. p.amount) (some p) db).1)
      (paid_is_not_selected hash fee users db.payments)

-- A payment is settled once: a second notice of the same invoice, whatever fee it reports, finds no row,
-- says so and leaves the tables as they are.
pub complete_payment_once :
    (hash : ℕ) (fee again : ℤ) (db : ZapStreamDb)
    → let settled = (complete_payment hash fee db).1 in
      complete_payment hash again settled ≡ (false, settled)
unfolding complete_payment unpaid_row settle_row
complete_payment_once hash fee again db = settled_once hash fee again db (unpaid_row hash db) refl

no_payment : (mine : Bool) (a t : ℤ) → t ≡ when (mine && false) a +ℤ t
no_payment true a t = grind int_laws
no_payment false a t = grind int_laws

no_fee : (mine kind : Bool) (a t : ℤ) → t ≡ when (mine && false && kind) a +ℤ t
no_fee true kind a t = grind int_laws
no_fee false kind a t = grind int_laws

-- A new invoice or withdrawal counts for nothing until it is settled.
pub create_payment-IsBalanced :
    (now hash uid : ℕ) (amount : ℤ) (kind : PaymentType) (fee : ℤ) (expires : ℕ)
    (db created : ZapStreamDb)
    → IsBalanced db
    → create_payment now hash uid amount kind fee expires db ≡ some created
    → IsBalanced created
unfolding create_payment expected_balance total_payments total_fees
create_payment-IsBalanced now hash uid amount kind fee expires db created
      (balanced, unique, ids, fresh) e =
    go (has_payment hash db.payments) refl (has_user uid db.users) e
  where
    row : Payment
    row = record {
      payment_hash = hash;
      user_id = uid;
      is_paid = false;
      amount = amount;
      created = now;
      expires = expires;
      payment_type = kind;
      fee = fee;
    }

    after : ZapStreamDb
    after = record db { payments = row ∷ db.payments }

    go :
        (known : Bool)
        → has_payment hash db.payments ≡ known
        → (user : Bool) → (if known || not user then none else some after) ≡ some created
        → IsBalanced created
    go true k user e = cc
    go false k false e = cc
    go false k true e = subst IsBalanced (some_inj e) (
      λ other.
          balanced other
          ∙ ap (λ t. t -ℤ total_fees other db.payments -ℤ total_stream_costs other db.streams)
              (no_payment (uid == other) amount (total_payments other db.payments))
          ∙ ap
              (λ t.
                (when ((uid == other) && false) amount +ℤ total_payments other db.payments)
                -ℤ t
                -ℤ total_stream_costs other db.streams)
              (no_fee (uid == other) (is_withdrawal kind) fee (total_fees other db.payments)),
      (k, unique),
      ids,
      fresh,
    )

balance_of-absent :
    (uid : ℕ) (users : List User) → has_user uid users ≡ false → balance_of uid users ≡ pos 0
balance_of-absent uid [] h = refl
balance_of-absent uid (u ∷ users) h = elim (Bool-cases (u.id == uid)) [
  | inl e ↦ absurd (ground (arith, e, h))
  | inr e ↦ rw e (balance_of-absent uid users (ground (arith, e, h)))
]

balance_of-new :
    (id uid pubkey key : ℕ) (users : List User)
    → has_user id users ≡ false
    → balance_of uid (new_user id pubkey key ∷ users) ≡ balance_of uid users
unfolding new_user
balance_of-new id uid pubkey key users h = elim (Bool-cases (id == uid)) [
  | inl e ↦ rw e (
      sym
        (balance_of-absent uid users (subst (λ n. has_user n users ≡ false) (ground (arith, e)) h)))
  | inr e ↦ rw e refl
]

new_id :
    (next uid : ℕ) (users : List User)
    → next + 1 ≤ uid
    → has_user uid users ≡ false
    → (if next == uid then true else has_user uid users) ≡ false
new_id next uid users h absent = ground (arith, h, absent)

-- A user who is found or is inserted with an empty balance keeps the ledger balanced.
pub upsert_user-IsBalanced :
    (pubkey key : ℕ) (db : ZapStreamDb) → IsBalanced db → IsBalanced (upsert_user pubkey key db).1
unfolding upsert_user upserted expected_balance new_user
upsert_user-IsBalanced pubkey key db (balanced, unique, ids, fresh) =
    go (find (λ u. u.pubkey == pubkey) db.users)
  where
    go : (o : Option User) → IsBalanced (upserted pubkey key o db).1
    go (some u) = (balanced, unique, ids, fresh)
    go none = (
      λ uid.
          balance_of-new db.next_user uid pubkey key db.users (fresh db.next_user (omega arith))
          ∙ balanced uid,
      unique,
      ids,
      λ uid h. new_id db.next_user uid db.users h (fresh uid (omega (arith, h))),
    )

stream_id_update :
    (id other : ℕ) (f : UserStream → UserStream) (streams : List UserStream)
    → ((s : UserStream) → (f s).id ≡ s.id)
    → stream_by_id other streams ≡ none
    → stream_by_id other (update_stream_row id f streams) ≡ none
stream_id_update id other f [] keeps h = refl
stream_id_update id other f (s ∷ streams) keeps h = elim (Bool-cases (s.id == other)) [
  | inl there ↦ absurd (ground (arith, there, h))
  | inr gone ↦
      let rest = stream_id_update id other f streams keeps (ground (arith, gone, h)) in
      elim (Bool-cases (s.id == id)) [
        | inl e ↦ rw e (rw (keeps s) (rw gone rest))
        | inr e ↦ rw e (rw gone rest)
      ]
]

pub UniqueId-update :
    (id : ℕ) (f : UserStream → UserStream) (streams : List UserStream)
    → ((s : UserStream) → (f s).id ≡ s.id)
    → UniqueId streams
    → UniqueId (update_stream_row id f streams)
UniqueId-update id f [] keeps h = tt
UniqueId-update id f (s ∷ streams) keeps h =
    let rest = UniqueId-update id f streams keeps h.1 in
    let absent = stream_id_update id s.id f streams keeps h.0 in
    elim (Bool-cases (s.id == id)) [
      | inl e ↦ rw e (rw (keeps s) (absent, rest))
      | inr e ↦ rw e (absent, rest)
    ]
