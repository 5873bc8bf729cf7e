-- ===== src/Billing/External/Charging.antt =====
-- One bill of crates/zap-stream-external/src/cloudflare/api.rs: the time that it bills, and the cost.
use zap_stream_core.Prelude.{
  ℕ, ◌+◌, ◌*◌, ◌≤◌, ◌<◌, ◌⊎◌, inl, inr, Bool-cases, ◌≡◌, refl, ap, ◌∙◌, Bool, true, false, ◌||◌,
  Option, none, some, ◌==◌, if◌then◌else◌, arith,
}
use zap_stream_core.Prelude.Int.{pos_part, neg_part, ◌-ℤ◌}
use zap_stream_core.Hls.Time.{second}
use zap_stream_core.Billing.Tables.{UserStream, IngestEndpoint, ZapStreamDb, stream_by_id}
use zap_stream_core.Billing.Ledger.{has_user}
use zap_stream_core.Billing.Segments.{endpoint_by_id, non_negative}
use zap_stream_core.Billing.External.{
  max_billable_catchup, billable_duration, cost_for_duration, bill_for, bill_with, bill_stream,
}
use zap_stream_core.Billing.External.Charges.{Bills, charges-Bills}

-- Some time since the start of the stream has not been billed.
abbrev pub HasUnbilled : UserStream → ℕ → Type 0
HasUnbilled s now =
    s.starts * second + 1000 * pos_part s.duration < now * second + 1000 * neg_part s.duration

abbrev pub HasNoneUnbilled : UserStream → ℕ → Type 0
HasNoneUnbilled s now =
    now * second + 1000 * neg_part s.duration ≤ s.starts * second + 1000 * pos_part s.duration

-- Time is all that has not been billed, or two minutes of it.
abbrev pub BillsTime : UserStream → ℕ → ℕ → Type 0
BillsTime s now time =
    (time ≤ 120 * second)
    × ((s.starts * second + 1000 * (pos_part s.duration + time)
          ≡ now * second + 1000 * neg_part s.duration)
        ⊎ ((time ≡ 120 * second)
            × (s.starts * second + 1000 * (pos_part s.duration + time)
                ≤ now * second + 1000 * neg_part s.duration)))

-- The cost is the nearest to the rate for each minute, of two that are as near the larger.
abbrev pub NearestCost : ℕ → ℕ → ℕ → Type 0
NearestCost rate time cost =
    (2 * (rate * time) < 2 * (60 * second) * cost + 60 * second)
    × (2 * (60 * second) * cost ≤ 2 * (rate * time) + 60 * second)

billable_duration-BillsTime :
    (s : UserStream) (now : ℕ)
    → (billable_duration s now max_billable_catchup == 0) ≡ false
    → HasUnbilled s now × BillsTime s now (billable_duration s now max_billable_catchup)
unfolding billable_duration non_negative ◌-ℤ◌
billable_duration-BillsTime s now h = ground (arith, h)

billable_duration-none :
    (s : UserStream) (now : ℕ)
    → (billable_duration s now max_billable_catchup == 0) ≡ true
    → HasNoneUnbilled s now
unfolding billable_duration non_negative ◌-ℤ◌
billable_duration-none s now h = ground (arith, h)

cost_for_duration-NearestCost :
    (rate time : ℕ) → NearestCost rate time (cost_for_duration rate time)
unfolding cost_for_duration
cost_for_duration-NearestCost rate time = (omega arith, omega arith)

-- A free endpoint, or no time that has not been billed: nothing is changed.
abbrev pub BillsNothing :
    UserStream → ℕ → IngestEndpoint → ZapStreamDb → Option Bool × ZapStreamDb → Type 0
BillsNothing s now endpoint db result =
    ((endpoint.cost ≡ 0) ⊎ HasNoneUnbilled s now) × (result ≡ (some false, db))

abbrev pub BillsAll :
    UserStream → ℕ → IngestEndpoint → ZapStreamDb → Option Bool × ZapStreamDb → Type 0
BillsAll s now endpoint db result =
    (0 < endpoint.cost)
    × HasUnbilled s now
    × (time : ℕ) × (cost : ℕ) × BillsTime s now time
    × NearestCost endpoint.cost time cost
    × Bills s time cost db result

zero_of : (n : ℕ) → (n == 0) ≡ true → n ≡ 0
zero_of n h = ground (arith, h)

or_true_left : (a b : Bool) → a ≡ true → (a || b) ≡ true
or_true_left a b h = ground (arith, h)

or_true_right : (a b : Bool) → b ≡ true → (a || b) ≡ true
or_true_right a b h = ground (arith, h)

idle :
    (s : UserStream) (now id : ℕ) (endpoint : IngestEndpoint) (db : ZapStreamDb)
    → s.endpoint_id ≡ some id
    → endpoint_by_id id db.endpoints ≡ some endpoint
    → ((endpoint.cost == 0) || (billable_duration s now max_billable_catchup == 0)) ≡ true
    → bill_stream s now db ≡ (some false, db)
unfolding bill_stream bill_with
idle s now id endpoint db at e h =
    ap
      (λ o. elim o as (λ x. Option Bool × ZapStreamDb) [
        | none ↦ (some false, db)
        | some n ↦ bill_with s now (endpoint_by_id n db.endpoints) db
      ])
      at
    ∙ ap (λ o. bill_with s now o db) e
    ∙ go (endpoint.cost == 0) (billable_duration s now max_billable_catchup == 0) h
  where
    go :
        (free nothing : Bool)
        → (free || nothing) ≡ true
        → (if◌then◌else◌ {A = Option Bool × ZapStreamDb} free
            (some false, db)
            (if nothing
              then (some false, db)
              else bill_for s endpoint.cost (billable_duration s now max_billable_catchup) db))
          ≡ (some false, db)
    go true nothing h = refl
    go false true h = refl
    go false false h = cc

-- A bill of a stream that has a row, a user with a row and an endpoint. When the endpoint is free or no time
-- since the start of the stream is left to bill, it changes nothing. Else it charges the user for that time,
-- or for two minutes when it is longer, the nearest number of millisats to the endpoint's rate for each
-- minute, adds both to the stream's row, and says whether the balance has run out.
pub bill_stream-Bills :
    (s : UserStream) (now id : ℕ) (endpoint : IngestEndpoint) (db : ZapStreamDb)
    → stream_by_id s.id db.streams ≡ some s
    → has_user s.user_id db.users ≡ true
    → s.endpoint_id ≡ some id
    → endpoint_by_id id db.endpoints ≡ some endpoint
    → BillsNothing s now endpoint db (bill_stream s now db)
      ⊎ BillsAll s now endpoint db (bill_stream s now db)
bill_stream-Bills s now id endpoint db found there at e = elim (Bool-cases (endpoint.cost == 0)) [
  | inl free ↦
      inl (inl (zero_of endpoint.cost free), idle s now id endpoint db at e (or_true_left _ _ free))
  | inr paying ↦ elim (Bool-cases (billable_duration s now max_billable_catchup == 0)) [
    | inl nothing ↦ inl (
      inr (billable_duration-none s now nothing),
      idle s now id endpoint db at e (or_true_right _ _ nothing),
    )
    | inr some_time ↦
        let (unbilled, time) = billable_duration-BillsTime s now some_time in
        let d = billable_duration s now max_billable_catchup in
        inr (
          ground (arith, paying),
          unbilled,
          d,
          cost_for_duration endpoint.cost d,
          time,
          cost_for_duration-NearestCost endpoint.cost d,
          charges-Bills s now id endpoint db found there at e paying some_time,
        )
  ]
]
