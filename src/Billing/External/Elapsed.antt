-- ===== src/Billing/External/Elapsed.antt =====
-- What the metering of crates/zap-stream-external/src/cloudflare/api.rs charges in the end.
use zap_stream_core.Prelude.{
  ℕ, ◌≤◌, ◌≡◌, ◌⊎◌, refl, sym, ap, subst, ◌∙◌, inl, inr, min, Bool, true, false, ◌||◌, Bool-cases,
  Option, none, some, List, [], ◌∷◌, ◌==◌, if◌then◌else◌, arith,
}
use zap_stream_core.Prelude.Int.{ℤ, pos, negsuc, ◌+ℤ◌, ◌-ℤ◌, ◌≤ℤ◌, ltb_ℤ, int_laws}
use zap_stream_core.Billing.Tables.{
  UserStream, IngestEndpoint, ZapStreamDb, stream_by_id, user_by_id, update_stream_row,
}
use zap_stream_core.Billing.Ledger.{charge_stream, charged, tick_stream}
use zap_stream_core.Billing.Ledger.Charges.{committed}
use zap_stream_core.Billing.Segments.{non_negative, endpoint_by_id}
use zap_stream_core.Billing.Segments.Balanced.{found_by_own_id}
use zap_stream_core.Billing.Streams.Rows.Race.{updated_row}
use zap_stream_core.Billing.External.{
  max_billable_catchup, elapsed, billable_duration, cost_for_duration, balance_result, bill_for,
  bill_with, bill_stream, bill_found, run_bills,
}

-- A later row of the stream: it has the same start, and its duration is the same or longer by what
-- was billable at the time.
abbrev pub Later : ℕ → UserStream → UserStream → Type 0
Later now s r =
    (r.starts ≡ s.starts)
    × ((r.duration ≡ s.duration)
        ⊎ (r.duration ≡ s.duration +ℤ pos (billable_duration s now max_billable_catchup)))

abbrev pub After : ℕ → UserStream → ZapStreamDb → Type 0
After now s db = (r : UserStream) × (stream_by_id s.id db.streams ≡ some r) × Later now s r

pub billed_row :
    (now cost : ℕ) (s : UserStream) (db : ZapStreamDb)
    → stream_by_id s.id db.streams ≡ some s
    → (billable_duration s now max_billable_catchup == 0) ≡ false
    → After now s
        (charged s.id s.user_id (pos (billable_duration s now max_billable_catchup)) (pos cost) db)
unfolding charged charge_stream
billed_row now cost s db found some_time =
    go (ltb_ℤ (pos 0) (pos cost)) (ltb_ℤ (pos 0) (pos d)) (lasting d some_time)
  where
    d : ℕ
    d = billable_duration s now max_billable_catchup

    lasting : (n : ℕ) → (n == 0) ≡ false → ltb_ℤ (pos 0) (pos n) ≡ true
    lasting n e = ground (arith, e)

    go :
        (paid lasts : Bool)
        → lasts ≡ true
        → (r : UserStream) × (stream_by_id s.id (
              if paid || lasts
              then update_stream_row s.id (charge_stream (pos d) (pos cost)) db.streams
              else db.streams)
            ≡ some r)
          × Later now s r
    go true lasts e = (
      charge_stream (pos d) (pos cost) s,
      updated_row s.id (charge_stream (pos d) (pos cost)) s db.streams (λ r. refl) found,
      (refl, inr refl),
    )
    go false true e = (
      charge_stream (pos d) (pos cost) s,
      updated_row s.id (charge_stream (pos d) (pos cost)) s db.streams (λ r. refl) found,
      (refl, inr refl),
    )
    go false false e = cc

bill_for-After :
    (now cost : ℕ) (s : UserStream) (db : ZapStreamDb)
    → stream_by_id s.id db.streams ≡ some s
    → (billable_duration s now max_billable_catchup == 0) ≡ false
    → After now s (bill_for s cost (billable_duration s now max_billable_catchup) db).1
unfolding bill_for balance_result tick_stream
bill_for-After now cost s db found some_time =
    go (tick_stream s.id s.user_id (pos d) (pos (cost_for_duration cost d)) db) refl
  where
    d : ℕ
    d = billable_duration s now max_billable_catchup

    go :
        (o : Option (ℤ × ZapStreamDb))
        → tick_stream s.id s.user_id (pos d) (pos (cost_for_duration cost d)) db ≡ o
        → After now s (balance_result o db).1
    go none e = (s, found, (refl, inl refl))
    go (some (balance, after)) e =
        let tables = charged s.id s.user_id (pos d) (pos (cost_for_duration cost d)) db in
        let (u, user, value, same) =
          committed (user_by_id s.user_id tables.users) balance tables after e in
        subst (After now s) same (billed_row now (cost_for_duration cost d) s db found some_time)

bill_stream-After :
    (now : ℕ) (s : UserStream) (db : ZapStreamDb)
    → stream_by_id s.id db.streams ≡ some s
    → After now s (bill_stream s now db).1
unfolding bill_stream bill_with
bill_stream-After now s db found = go s.endpoint_id
  where
    with : (o : Option IngestEndpoint) → After now s (bill_with s now o db).1
    with none = (s, found, (refl, inl refl))
    with (some endpoint) = elim (Bool-cases (endpoint.cost == 0)) [
      | inl e ↦ rw e (s, found, (refl, inl refl))
      | inr e ↦ elim (Bool-cases (billable_duration s now max_billable_catchup == 0)) [
        | inl z ↦ rw (e, z) (s, found, (refl, inl refl))
        | inr z ↦ rw (e, z) (bill_for-After now endpoint.cost s db found z)
      ]
    ]

    go :
        (o : Option ℕ)
        → After now s
            (elim o as (λ x. Option Bool × ZapStreamDb) [
              | none ↦ (some false, db)
              | some id ↦ bill_with s now (endpoint_by_id id db.endpoints) db
            ]).1
    go none = (s, found, (refl, inl refl))
    go (some id) = with (endpoint_by_id id db.endpoints)

elapsed_mono : (now last starts : ℕ) → now ≤ last → elapsed now starts ≤ℤ elapsed last starts
elapsed_mono now last starts h = ground (arith, h)

reached : (a e d : ℤ) (n m : ℕ) → a ≤ℤ e → a -ℤ d ≡ pos n → m ≤ n → d +ℤ pos m ≤ℤ e
reached a e d n m h x less = grind (int_laws, h, x, less)

nothing_added : (d e : ℤ) (m : ℕ) → m ≤ 0 → d ≤ℤ e → d +ℤ pos m ≤ℤ e
nothing_added d e m z h = grind (int_laws, z, h)

up_to :
    (a e d : ℤ) → a ≤ℤ e → d ≤ℤ e → d +ℤ pos (min (non_negative (a -ℤ d)) max_billable_catchup) ≤ℤ e
unfolding non_negative
up_to a e d h k = go (a -ℤ d) refl
  where
    go : (x : ℤ) → a -ℤ d ≡ x → d +ℤ pos (min (non_negative x) max_billable_catchup) ≤ℤ e
    go (pos n) x = reached a e d n (min n max_billable_catchup) h x (omega arith)
    go (negsuc n) x = nothing_added d e (min 0 max_billable_catchup) (omega arith) k

-- No more than the time since the start is ever charged, by a bill at an earlier time.
within :
    (now last starts : ℕ) (d : ℤ)
    → now ≤ last
    → d ≤ℤ elapsed last starts
    → d +ℤ pos (min (non_negative (elapsed now starts -ℤ d)) max_billable_catchup)
      ≤ℤ elapsed last starts
within now last starts d h e =
    up_to (elapsed now starts) (elapsed last starts) d (elapsed_mono now last starts h) e

-- The times of a list are all at most the last.
abbrev pub AllUpTo : ℕ → List ℕ → Type 0
AllUpTo last [] = Unit {0}
AllUpTo last (now ∷ times) = (now ≤ last) × AllUpTo last times

run_bills-within :
    (id last starts : ℕ) (times : List ℕ) (s : UserStream) (db : ZapStreamDb)
    → stream_by_id id db.streams ≡ some s
    → s.starts ≡ starts
    → s.duration ≤ℤ elapsed last starts
    → AllUpTo last times
    → (r : UserStream) × (stream_by_id id (run_bills id times db).streams ≡ some r)
      × (r.duration ≤ℤ elapsed last starts)
unfolding run_bills bill_found billable_duration
run_bills-within id last starts [] s db found start e up = (s, found, e)
run_bills-within id last starts (now ∷ times) s db found start e up =
    let same = found_by_own_id id s db.streams found in
    let (r, row, (start_r, longer)) =
      bill_stream-After now s db (ap (λ n. stream_by_id n db.streams) same ∙ found) in
    let at_row = ap (λ n. stream_by_id n (bill_stream s now db).1.streams) (sym same) ∙ row in
    let fits = elim longer as (λ _. r.duration ≤ℤ elapsed last starts) [
      | inl as_before ↦ subst (λ d. d ≤ℤ elapsed last starts) (sym as_before) e
      | inr more ↦
          subst (λ d. d ≤ℤ elapsed last starts) (sym more)
            (subst
              (λ t.
                s.duration
                  +ℤ pos (min (non_negative (elapsed now t -ℤ s.duration)) max_billable_catchup)
                ≤ℤ elapsed last starts)
              (sym start) (within now last starts s.duration up.0 e))
    ] in
    subst
      (λ d.
        (x : UserStream) × (stream_by_id id (run_bills id times d).streams ≡ some x)
        × (x.duration ≤ℤ elapsed last starts))
      (sym (ap (λ o. bill_found o now db) found))
      (run_bills-within id last starts times r (bill_stream s now db).1 at_row (start_r ∙ start)
        fits up.1)

-- However often and at whatever times a stream is billed, up to a last time, it is never charged for
-- more than the time from its start to the last time, when it was not before.
pub run_bills-elapsed :
    (id last : ℕ) (times : List ℕ) (s : UserStream) (db : ZapStreamDb)
    → stream_by_id id db.streams ≡ some s
    → s.duration ≤ℤ elapsed last s.starts
    → AllUpTo last times
    → (r : UserStream) × (stream_by_id id (run_bills id times db).streams ≡ some r)
      × (r.duration ≤ℤ elapsed last s.starts)
run_bills-elapsed id last times s db found e up =
    run_bills-within id last s.starts times s db found refl e up
