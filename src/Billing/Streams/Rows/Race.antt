-- ===== src/Billing/Streams/Rows/Race.antt =====
-- A charge that falls between the reading and the writing of a stream's row. `on_update`, `on_end`
-- and `start_stream` of crates/zap-stream/src/overseer.rs read the row, build or publish the stream's
-- event, and then write every column of the row, the cost among them.
use zap_stream_core.Prelude.{
  some_inj, ℕ, ◌≡◌, refl, sym, ap, ◌∙◌, Bool, true, false, ◌||◌, some, List, [], ◌∷◌, ◌==◌,
  if◌then◌else◌,
}
use zap_stream_core.Prelude.Int.{ℤ, pos, ◌+ℤ◌, ◌-ℤ◌, ◌≤ℤ◌, ltb_ℤ, int_laws}
use zap_stream_core.Billing.Tables.{
  UserStream, ZapStreamDb, stream_by_id, update_stream_row, user_by_id,
}
use zap_stream_core.Billing.Ledger.{
  charge_stream, charged, tick_stream, when, total_payments, total_fees, total_stream_costs,
  expected_balance,
}
use zap_stream_core.Billing.Ledger.Paid.{balance_of, self_eq}
use zap_stream_core.Billing.Ledger.Accounts.{IsBalanced}
use zap_stream_core.Billing.Ledger.Charges.{tick_stream-IsBalanced, committed, free_is_zero}
use zap_stream_core.Billing.Segments.Balanced.{found_by_own_id}
use zap_stream_core.Billing.Streams.Rows.{written, update_stream}
use zap_stream_core.Billing.Streams.Rows.Writing.{total_stream_costs-written}

pub updated_row :
    (id : ℕ) (f : UserStream → UserStream) (s : UserStream) (streams : List UserStream)
    → ((r : UserStream) → (f r).id ≡ r.id)
    → stream_by_id id streams ≡ some s
    → stream_by_id id (update_stream_row id f streams) ≡ some (f s)
updated_row id f s [] keeps e = cc
updated_row id f s (r ∷ streams) keeps e = go (r.id == id) (updated_row id f s streams keeps) refl e
  where
    go :
        (b : Bool)
        → (stream_by_id id streams ≡ some s
            → stream_by_id id (update_stream_row id f streams) ≡ some (f s))
        → (r.id == id) ≡ b
        → (if b then some r else stream_by_id id streams) ≡ some s
        → stream_by_id id (update_stream_row id f (r ∷ streams)) ≡ some (f s)
    go true ih b e = rw b (
        ap (λ n. if n == id then some (f r) else stream_by_id id (update_stream_row id f streams))
          (keeps r)
        ∙ ap (λ b. if b then some (f r) else stream_by_id id (update_stream_row id f streams)) b
        ∙ ap (λ x. some (f x)) (some_inj e))
    go false ih b e = rw b (rw b (ih e))

plus_nothing : (a b : ℤ) → b ≡ pos 0 → a ≡ a +ℤ b
plus_nothing a b e = grind (int_laws, e)

-- The row after a charge.
pub charged_row :
    (id uid : ℕ) (duration cost : ℤ) (s : UserStream) (db : ZapStreamDb)
    → pos 0 ≤ℤ cost
    → stream_by_id id db.streams ≡ some s
    → (r : UserStream) × (stream_by_id id (charged id uid duration cost db).streams ≡ some r)
      × (r.user_id ≡ s.user_id)
      × (r.cost ≡ s.cost +ℤ cost)
unfolding charged charge_stream
charged_row id uid duration cost s db positive found =
    go (ltb_ℤ (pos 0) cost) (ltb_ℤ (pos 0) duration) refl
  where
    go :
        (paid lasts : Bool)
        → ltb_ℤ (pos 0) cost ≡ paid
        → (r : UserStream) × (stream_by_id id (
              if paid || lasts
              then update_stream_row id (charge_stream duration cost) db.streams
              else db.streams)
            ≡ some r)
          × (r.user_id ≡ s.user_id)
          × (r.cost ≡ s.cost +ℤ cost)
    go true lasts e = (
      charge_stream duration cost s,
      updated_row id (charge_stream duration cost) s db.streams (λ r. refl) found,
      refl,
      refl,
    )
    go false true e = (
      charge_stream duration cost s,
      updated_row id (charge_stream duration cost) s db.streams (λ r. refl) found,
      refl,
      refl,
    )
    go false false e = (s, found, refl, plus_nothing s.cost cost (free_is_zero cost positive e))

lost :
    (b p f t t' old cost new : ℤ)
    → b ≡ p -ℤ f -ℤ t
    → t' +ℤ new ≡ old +ℤ t
    → new ≡ old +ℤ cost
    → b ≡ p -ℤ f -ℤ t' -ℤ cost
lost b p f t t' old cost new e w c = grind (int_laws, e, w, c)

when_own : (uid : ℕ) (n : ℤ) → when (uid == uid) n ≡ n
when_own uid n = ap (λ b. when b n) (sym (self_eq uid))

-- When a stream is charged after its row has been read and before the row is written back, the user has
-- paid the charge and the row does not show it: the balance is off by the charge.
pub stale_write-offset :
    (id : ℕ) (duration cost balance : ℤ) (s : UserStream) (db after : ZapStreamDb)
    → IsBalanced db
    → stream_by_id id db.streams ≡ some s
    → pos 0 ≤ℤ cost
    → tick_stream id s.user_id duration cost db ≡ some (balance, after)
    → let raced = update_stream s after in
      balance_of s.user_id raced.users ≡ expected_balance s.user_id raced -ℤ cost
unfolding tick_stream update_stream expected_balance
stale_write-offset id duration cost balance s db after h found positive e =
    let uid = s.user_id in
    let (sums, unique, ids, fresh) =
      (tick_stream-IsBalanced id uid duration cost balance s db after h found refl positive e).0 in
    let (u, user, value, same) =
      committed (user_by_id uid (charged id uid duration cost db).users) balance
        (charged id uid duration cost db) after e in
    let (r, there, owner, paid) = charged_row id uid duration cost s db positive found in
    let there_after =
      ap (λ n. stream_by_id n after.streams) (found_by_own_id id s db.streams found)
      ∙ ap (λ d. stream_by_id id d.streams) (sym same)
      ∙ there in
    let costs = total_stream_costs-written uid s.id s r after.streams ids there_after in
    lost (balance_of uid after.users) (total_payments uid after.payments)
      (total_fees uid after.payments) (total_stream_costs uid after.streams)
      (total_stream_costs uid (update_stream_row s.id (written s) after.streams)) s.cost cost r.cost
      (sums uid)
      (sym (
          ap (λ c. total_stream_costs uid (update_stream_row s.id (written s) after.streams) +ℤ c)
            (ap (λ n. when (n == uid) r.cost) owner ∙ when_own uid r.cost))
        ∙ costs
        ∙ ap (λ c. c +ℤ total_stream_costs uid after.streams)
            (ap (λ n. when (n == uid) s.cost) owner ∙ when_own uid s.cost))
      paid
