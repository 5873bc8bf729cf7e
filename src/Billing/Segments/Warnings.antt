-- ===== src/Billing/Segments/Warnings.antt =====
-- The warnings of a low balance, in `on_segments` of crates/zap-stream/src/overseer.rs.
use zap_stream_core.Prelude.{
  ℕ, ◌+◌, ◌≡◌, refl, sym, ap, subst, ◌∙◌, false, inl, inr, Bool-cases, Option, none, some, List, [],
  ◌∷◌, ltb, arith,
}
use zap_stream_core.Prelude.Int.{ℤ, pos, ◌+ℤ◌, ◌-ℤ◌, ◌≤ℤ◌}
use zap_stream_core.Hls.Segment.{EgressSegment}
use zap_stream_core.Billing.Tables.{
  IngestEndpoint, User, UserStream, ZapStreamDb, stream_by_id, user_by_id,
}
use zap_stream_core.Billing.Ledger.{tick_stream, charged}
use zap_stream_core.Billing.Ledger.Paid.{balance_of}
use zap_stream_core.Billing.Ledger.Charges.{committed, user_balance, found_user, has_user-charged}
use zap_stream_core.Billing.Segments.Balanced.{found_by_own_id}
use zap_stream_core.Billing.Streams.Rows.Race.{charged_row}
use zap_stream_core.Billing.Segments.{
  Overseer, get_cost, after_charge, charge_result, bill_at, bill_stream, endpoint_by_id,
  on_segments, fail, endpoint_not_set,
}
use zap_stream_core.Billing.Segments.Counting.{
  announce-warnings, warnings, after_charge-warnings, crosses, Quiet, Steps, unmoved, warned-Quiet,
  not_added, charged-balance,
}

after_charge-Steps :
    (added deleted : List EgressSegment) (s r : UserStream) (u : Option User) (v : User) (cost : ℕ)
    (before bal : ℤ) (o : Overseer)
    → stream_by_id s.id o.db.streams ≡ some r
    → r.user_id ≡ s.user_id
    → u ≡ some v
    → balance_of s.user_id o.db.users ≡ bal
    → bal ≡ before +ℤ (pos 0 -ℤ pos cost)
    → let b = after_charge added deleted s u bal cost o in
      (b.overseer.low_balance_threshold ≡ o.low_balance_threshold)
      × ((x : UserStream) × (stream_by_id s.id b.overseer.db.streams ≡ some x)
          × (x.user_id ≡ s.user_id))
      × Quiet o.low_balance_threshold before
          (balance_of s.user_id b.overseer.db.users)
          (warnings b.effects)
unfolding after_charge
after_charge-Steps added deleted s r none v cost before bal o found own e now h = cc
after_charge-Steps added deleted s r (some u) v cost before bal o found own e now h = (
  refl,
  (r, found, own),
  subst
      (λ b.
        Quiet o.low_balance_threshold before b
          (warnings (after_charge added deleted s (some u) bal cost o).effects))
      (sym now)
      (warned-Quiet o.low_balance_threshold before bal cost _ h
        (after_charge-warnings added deleted s u bal cost o)),
)

free : (cost : ℕ) → ltb 0 cost ≡ false → pos cost ≡ pos 0
free cost e = ground (arith, e)

charge_result-Steps :
    (added deleted : List EgressSegment) (s : UserStream) (duration : ℤ) (cost : ℕ)
    (charge : Option (ℤ × ZapStreamDb)) (o : Overseer)
    → stream_by_id s.id o.db.streams ≡ some s
    → tick_stream s.id s.user_id duration (pos cost) o.db ≡ charge
    → Steps s.user_id s.id o (charge_result added deleted s cost charge o)
unfolding charge_result tick_stream warnings
charge_result-Steps added deleted s duration cost none o found e =
    (refl, (s, found, refl), unmoved o.low_balance_threshold (balance_of s.user_id o.db.users))
charge_result-Steps added deleted s duration cost (some (bal, db)) o found e =
    let before = balance_of s.user_id o.db.users in
    let tables = charged s.id s.user_id duration (pos cost) o.db in
    let (u, user, value, same) = committed (user_by_id s.user_id tables.users) bal tables db e in
    let there =
      sym (has_user-charged s.id s.user_id s.user_id duration (pos cost) o.db)
      ∙ found_user s.user_id u tables.users user in
    let (r, row, owner, paid) =
      charged_row s.id s.user_id duration (pos cost) s o.db (omega arith) found in
    let now =
      ap (λ d. balance_of s.user_id d.users) (sym same)
      ∙ sym (user_balance s.user_id u tables.users user)
      ∙ value in
    let less =
      sym now
      ∙ ap (λ d. balance_of s.user_id d.users) (sym same)
      ∙ charged-balance s.id s.user_id duration cost o.db there in
    let row_after = ap (λ d. stream_by_id s.id d.streams) (sym same) ∙ row in
    let user_after = ap (λ d. user_by_id s.user_id d.users) (sym same) ∙ user in
    elim (Bool-cases (ltb 0 cost)) [
      | inl b ↦ rw b (
          after_charge-Steps added deleted s r (user_by_id s.user_id db.users) u cost before bal
            (record o { db = db }) row_after owner user_after now less)
      | inr b ↦ rw b (
        refl,
        (r, row_after, owner),
        subst (λ n. Quiet o.low_balance_threshold before (balance_of s.user_id db.users) n)
            (sym (announce-warnings o.n94 added deleted))
            (subst (λ b. Quiet o.low_balance_threshold before b 0)
              (not_added before cost (free cost b) ∙ sym (now ∙ less))
              (unmoved o.low_balance_threshold before)),
      )
    ]

bill_at-Steps :
    (added deleted : List EgressSegment) (s : UserStream) (endpoint : Option IngestEndpoint)
    (o : Overseer)
    → stream_by_id s.id o.db.streams ≡ some s
    → Steps s.user_id s.id o (bill_at added deleted s endpoint o)
unfolding bill_at warnings
bill_at-Steps added deleted s none o found =
    (refl, (s, found, refl), unmoved o.low_balance_threshold (balance_of s.user_id o.db.users))
bill_at-Steps added deleted s (some endpoint) o found =
    charge_result-Steps added deleted s (pos (get_cost endpoint added).0)
      (get_cost endpoint added).1 _ o found refl

bill_stream-Steps :
    (added deleted : List EgressSegment) (s : UserStream) (o : Overseer)
    → stream_by_id s.id o.db.streams ≡ some s
    → Steps s.user_id s.id o (bill_stream added deleted (some s) o)
unfolding bill_stream warnings
bill_stream-Steps added deleted s o found = go s.endpoint_id
  where
    go :
        (endpoint : Option ℕ)
        → Steps s.user_id s.id o (elim endpoint [
          | none ↦ fail endpoint_not_set o
          | some id ↦ bill_at added deleted s (endpoint_by_id id o.db.endpoints) o
        ])
    go none =
        (refl, (s, found, refl), unmoved o.low_balance_threshold (balance_of s.user_id o.db.users))
    go (some id) = bill_at-Steps added deleted s (endpoint_by_id id o.db.endpoints) o found

on_segments-Steps :
    (id : ℕ) (added deleted : List EgressSegment) (s : UserStream) (o : Overseer)
    → stream_by_id id o.db.streams ≡ some s
    → Steps s.user_id id o (on_segments id added deleted o)
unfolding on_segments
on_segments-Steps id added deleted s o found =
    let same = found_by_own_id id s o.db.streams found in
    let at = ap (λ n. stream_by_id n o.db.streams) same ∙ found in
    subst (λ n. Steps s.user_id n o (on_segments id added deleted o)) same
      (subst (λ x. Steps s.user_id s.id o (bill_stream added deleted x o)) (sym found)
        (bill_stream-Steps added deleted s o at))

-- A run of batches of segments: what it leaves, and how many warnings it sends.
unfoldable pub run_batches : ℕ → List (List EgressSegment) → Overseer → Overseer
unfolding on_segments
run_batches id [] o = o
run_batches id (added ∷ batches) o = run_batches id batches (on_segments id added [] o).overseer

unfoldable pub run_warnings : ℕ → List (List EgressSegment) → Overseer → ℕ
unfolding warnings on_segments
run_warnings id [] o = 0
run_warnings id (added ∷ batches) o =
    let billed = on_segments id added [] o in
    warnings billed.effects + run_warnings id batches billed.overseer

crosses_once :
    (t w n : ℕ) (before middle after : ℤ)
    → middle ≤ℤ before
    → after ≤ℤ middle
    → w ≡ crosses (some t) before middle
    → n ≡ crosses (some t) middle after
    → w + n ≡ crosses (some t) before after
crosses_once t w n before middle after a b h e = ground (arith, a, b, h, e)

later : (a b c : ℤ) → b ≤ℤ a → c ≤ℤ b → c ≤ℤ a
later a b c h e = omega (arith, h, e)

then_Quiet :
    (threshold : Option ℕ) (before middle after : ℤ) (w n : ℕ)
    → Quiet threshold before middle w
    → Quiet threshold middle after n
    → Quiet threshold before after (w + n)
then_Quiet none before middle after w n (e, a) (h, b) =
    (omega (arith, e, h), later before middle after a b)
then_Quiet (some t) before middle after w n (e, a) (h, b) =
    (crosses_once t w n before middle after a b e h, later before middle after a b)

run-Quiet :
    (id uid : ℕ) (batches : List (List EgressSegment)) (o : Overseer) (s : UserStream)
    → stream_by_id id o.db.streams ≡ some s
    → s.user_id ≡ uid
    → Quiet o.low_balance_threshold
        (balance_of uid o.db.users)
        (balance_of uid (run_batches id batches o).db.users)
        (run_warnings id batches o)
unfolding run_warnings run_batches
run-Quiet id uid [] o s found own = unmoved o.low_balance_threshold (balance_of uid o.db.users)
run-Quiet id uid (added ∷ batches) o s found own =
    let billed = on_segments id added [] o in
    let (threshold, (r, row, owner), quiet) =
      subst (λ n. Steps n id o billed) own (on_segments-Steps id added [] s o found) in
    then_Quiet o.low_balance_threshold (balance_of uid o.db.users)
      (balance_of uid billed.overseer.db.users)
      (balance_of uid (run_batches id batches billed.overseer).db.users) (warnings billed.effects)
      (run_warnings id batches billed.overseer) quiet
      (subst
        (λ th.
          Quiet th (balance_of uid billed.overseer.db.users)
            (balance_of uid (run_batches id batches billed.overseer).db.users)
            (run_warnings id batches billed.overseer))
        threshold (run-Quiet id uid batches billed.overseer r row owner))

-- While the segments of a stream are charged and nothing is paid in, its owner's balance never grows, and
-- there is exactly one warning of a low balance when the balance was above the threshold at the start
-- and is not at the end, and none otherwise, also without a threshold.
pub run_warnings-crosses :
    (id : ℕ) (batches : List (List EgressSegment)) (o : Overseer) (s : UserStream)
    → stream_by_id id o.db.streams ≡ some s
    → let before = balance_of s.user_id o.db.users in
      let after = balance_of s.user_id (run_batches id batches o).db.users in
      (run_warnings id batches o ≡ crosses o.low_balance_threshold before after) × (after ≤ℤ before)
run_warnings-crosses id batches o s found = run-Quiet id s.user_id batches o s found refl
