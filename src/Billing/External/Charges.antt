-- ===== src/Billing/External/Charges.antt =====
-- What one bill of crates/zap-stream-external/src/cloudflare/api.rs charges for the time that it bills.
use zap_stream_core.Prelude.{
  ℕ, ◌≡◌, refl, sym, ap, subst, ◌∙◌, Bool, true, false, ◌||◌, Option, none, some, List, [], ◌∷◌,
  ◌==◌, if◌then◌else◌, arith,
}
use zap_stream_core.Prelude.Int.{ℤ, pos, ◌+ℤ◌, ◌-ℤ◌, ltb_ℤ, leb_ℤ, int_laws}
use zap_stream_core.Billing.Tables.{
  User, UserStream, IngestEndpoint, ZapStreamDb, stream_by_id, user_by_id, update_stream_row,
}
use zap_stream_core.Billing.Ledger.{
  charge_stream, charged, tick_stream, commit_with_balance, has_user,
}
use zap_stream_core.Billing.Ledger.Paid.{balance_of}
use zap_stream_core.Billing.Ledger.Charges.{user_balance, has_user-charged}
use zap_stream_core.Billing.Segments.{endpoint_by_id}
use zap_stream_core.Billing.Segments.Counting.{charged-balance}
use zap_stream_core.Billing.Streams.Rows.Race.{updated_row}
use zap_stream_core.Billing.External.{
  max_billable_catchup, billable_duration, cost_for_duration, balance_result, bill_for, bill_with,
  bill_stream,
}

user_there :
    (uid : ℕ) (users : List User)
    → has_user uid users ≡ true
    → (u : User) × (user_by_id uid users ≡ some u)
user_there uid [] h = cc
user_there uid (u ∷ users) h = go (u.id == uid) (user_there uid users) h
  where
    go :
        (b : Bool)
        → (has_user uid users ≡ true → (u : User) × (user_by_id uid users ≡ some u))
        → (if b then true else has_user uid users) ≡ true
        → (v : User) × ((if b then some u else user_by_id uid users) ≡ some v)
    go true ih h = (u, refl)
    go false ih h = ih h

-- What a bill of some duration does: the tables are charged, and the balance is tested.
abbrev pub Bills : UserStream → ℕ → ℕ → ZapStreamDb → Option Bool × ZapStreamDb → Type 0
Bills s duration cost db (over, after) =
    (over ≡ some (leb_ℤ (balance_of s.user_id after.users) (pos 0)))
    × (balance_of s.user_id after.users ≡ balance_of s.user_id db.users -ℤ pos cost)
    × ((r : UserStream) × (stream_by_id s.id after.streams ≡ some r)
        × (r.duration ≡ s.duration +ℤ pos duration)
        × (r.cost ≡ s.cost +ℤ pos cost))

paid : (a : ℤ) (c : ℕ) → a +ℤ (pos 0 -ℤ pos c) ≡ a -ℤ pos c
paid a c = grind int_laws

lasting : (n : ℕ) → (n == 0) ≡ false → ltb_ℤ (pos 0) (pos n) ≡ true
lasting n e = ground (arith, e)

charged_row_of :
    (s : UserStream) (duration cost : ℕ) (db : ZapStreamDb)
    → stream_by_id s.id db.streams ≡ some s
    → (duration == 0) ≡ false
    → (r : UserStream) × (stream_by_id s.id
          (charged s.id s.user_id (pos duration) (pos cost) db).streams
        ≡ some r)
      × (r.duration ≡ s.duration +ℤ pos duration)
      × (r.cost ≡ s.cost +ℤ pos cost)
unfolding charged charge_stream
charged_row_of s duration cost db found some_time =
    go (ltb_ℤ (pos 0) (pos cost)) (ltb_ℤ (pos 0) (pos duration)) (lasting duration some_time)
  where
    row :
        stream_by_id s.id
          (update_stream_row s.id (charge_stream (pos duration) (pos cost)) db.streams)
        ≡ some (charge_stream (pos duration) (pos cost) s)
    row = updated_row s.id (charge_stream (pos duration) (pos cost)) s db.streams (λ r. refl) found

    go :
        (pays lasts : Bool)
        → lasts ≡ true
        → (r : UserStream) × (stream_by_id s.id (
              if pays || lasts
              then update_stream_row s.id (charge_stream (pos duration) (pos cost)) db.streams
              else db.streams)
            ≡ some r)
          × (r.duration ≡ s.duration +ℤ pos duration)
          × (r.cost ≡ s.cost +ℤ pos cost)
    go true lasts e = (charge_stream (pos duration) (pos cost) s, row, refl, refl)
    go false true e = (charge_stream (pos duration) (pos cost) s, row, refl, refl)
    go false false e = cc

bill_for-Bills :
    (s : UserStream) (rate duration : ℕ) (db : ZapStreamDb)
    → stream_by_id s.id db.streams ≡ some s
    → has_user s.user_id db.users ≡ true
    → (duration == 0) ≡ false
    → Bills s duration (cost_for_duration rate duration) db (bill_for s rate duration db)
unfolding bill_for balance_result tick_stream commit_with_balance
bill_for-Bills s rate duration db found there some_time =
    let cost = cost_for_duration rate duration in
    let tables = charged s.id s.user_id (pos duration) (pos cost) db in
    let (u, user) =
      user_there s.user_id tables.users
        (has_user-charged s.id s.user_id s.user_id (pos duration) (pos cost) db ∙ there) in
    let balance = user_balance s.user_id u tables.users user in
    subst (λ o. Bills s duration cost db (balance_result (commit_with_balance o tables) db))
      (sym user)
      (
        ap (λ b. some (leb_ℤ b (pos 0))) balance,
        charged-balance s.id s.user_id (pos duration) cost db there
            ∙ paid (balance_of s.user_id db.users) cost,
        charged_row_of s duration cost db found some_time,
      )

-- Of a stream on an endpoint that is not free, with some time not yet billed.
pub charges-Bills :
    (s : UserStream) (now id : ℕ) (endpoint : IngestEndpoint) (db : ZapStreamDb)
    → stream_by_id s.id db.streams ≡ some s
    → has_user s.user_id db.users ≡ true
    → s.endpoint_id ≡ some id
    → endpoint_by_id id db.endpoints ≡ some endpoint
    → (endpoint.cost == 0) ≡ false
    → (billable_duration s now max_billable_catchup == 0) ≡ false
    → let duration = billable_duration s now max_billable_catchup in
      Bills s duration (cost_for_duration endpoint.cost duration) db (bill_stream s now db)
unfolding bill_stream bill_with
charges-Bills s now id endpoint db found there at e paying some_time =
    let d = billable_duration s now max_billable_catchup in
    let charged_all = bill_for-Bills s endpoint.cost d db found there some_time in
    subst
      (λ o. Charged (elim o as (λ x. Option Bool × ZapStreamDb) [
        | none ↦ (some false, db)
        | some n ↦ bill_with s now (endpoint_by_id n db.endpoints) db
      ]))
      (sym at)
      (subst (λ o. Charged (bill_with s now o db)) (sym e)
        (subst
          (λ b. Charged (
            if b
            then (some false, db)
            else if d == 0
            then (some false, db)
            else bill_for s endpoint.cost d db))
          (sym paying)
          (subst (λ b. Charged (if b then (some false, db) else bill_for s endpoint.cost d db))
            (sym some_time) charged_all)))
  where
    Charged : Option Bool × ZapStreamDb → Type 0
    Charged =
        Bills s (billable_duration s now max_billable_catchup)
          (cost_for_duration endpoint.cost (billable_duration s now max_billable_catchup)) db
