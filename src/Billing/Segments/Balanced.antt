-- ===== src/Billing/Segments/Balanced.antt =====
-- The segments of a stream, charged by crates/zap-stream/src/overseer.rs, and the ledger.
use zap_stream_core.Prelude.{
  some_inj, ℕ, ◌≡◌, refl, sym, ap, subst, ◌∙◌, Bool, true, false, inl, inr, Bool-cases, Option,
  none, some, List, [], ◌∷◌, ◌==◌, if◌then◌else◌, ltb, arith,
}
use zap_stream_core.Prelude.Int.{ℤ, pos, ◌≤ℤ◌}
use zap_stream_core.Hls.Segment.{EgressSegment}
use zap_stream_core.Billing.Tables.{
  IngestEndpoint, User, UserStream, ZapStreamDb, stream_by_id, user_by_id,
}
use zap_stream_core.Billing.Ledger.{tick_stream}
use zap_stream_core.Billing.Ledger.Accounts.{IsBalanced}
use zap_stream_core.Billing.Ledger.Charges.{tick_stream-IsBalanced}
use zap_stream_core.Billing.Segments.{
  Overseer, get_cost, after_charge, charge_result, bill_at, bill_stream, endpoint_by_id,
  on_segments,
}

after_charge-db :
    (added deleted : List EgressSegment) (stream : UserStream) (u : Option User) (bal : ℤ)
    (cost : ℕ) (o : Overseer)
    → (after_charge added deleted stream u bal cost o).overseer.db ≡ o.db
unfolding after_charge
after_charge-db added deleted stream none bal cost o = refl
after_charge-db added deleted stream (some u) bal cost o = refl

charge_result-IsBalanced :
    (added deleted : List EgressSegment) (stream : UserStream) (cost : ℕ)
    (charge : Option (ℤ × ZapStreamDb)) (o : Overseer)
    → IsBalanced o.db
    → ((bal : ℤ) (db : ZapStreamDb) → charge ≡ some (bal, db) → IsBalanced db)
    → IsBalanced (charge_result added deleted stream cost charge o).overseer.db
unfolding charge_result
charge_result-IsBalanced added deleted stream cost none o h charged = h
charge_result-IsBalanced added deleted stream cost (some (bal, db)) o h charged =
    elim (Bool-cases (ltb 0 cost)) [
      | inl e ↦ rw e (
          subst IsBalanced
            (sym (
              after_charge-db added deleted stream (user_by_id stream.user_id db.users) bal cost
                (record o { db = db })))
            (charged bal db refl))
      | inr e ↦ rw e (charged bal db refl)
    ]

pub found_by_own_id :
    (id : ℕ) (s : UserStream) (streams : List UserStream)
    → stream_by_id id streams ≡ some s
    → s.id ≡ id
found_by_own_id id s [] h = cc
found_by_own_id id s (r ∷ streams) h = go (r.id == id) (found_by_own_id id s streams) refl h
  where
    go :
        (b : Bool)
        → (stream_by_id id streams ≡ some s → s.id ≡ id)
        → (r.id == id) ≡ b
        → (if b then some r else stream_by_id id streams) ≡ some s
        → s.id ≡ id
    go true ih b h = ap (λ x. x.id) (sym (some_inj h)) ∙ ground (arith, b)
    go false ih b h = ih h

pub not_negative : (n : ℕ) → pos 0 ≤ℤ pos n
not_negative n = omega arith

bill_at-IsBalanced :
    (added deleted : List EgressSegment) (stream : UserStream) (endpoint : Option IngestEndpoint)
    (o : Overseer)
    → IsBalanced o.db
    → stream_by_id stream.id o.db.streams ≡ some stream
    → IsBalanced (bill_at added deleted stream endpoint o).overseer.db
unfolding bill_at
bill_at-IsBalanced added deleted stream none o h found = h
bill_at-IsBalanced added deleted stream (some endpoint) o h found =
    let duration = (get_cost endpoint added).0 in
    let cost = (get_cost endpoint added).1 in
    charge_result-IsBalanced added deleted stream cost
      (tick_stream stream.id stream.user_id (pos duration) (pos cost) o.db) o h
      (λ bal db e.
        (tick_stream-IsBalanced stream.id stream.user_id (pos duration) (pos cost) bal stream o.db
          db h found refl (not_negative cost) e).0)

bill_stream-IsBalanced :
    (added deleted : List EgressSegment) (stream : Option UserStream) (o : Overseer)
    → IsBalanced o.db
    → ((s : UserStream) → stream ≡ some s → stream_by_id s.id o.db.streams ≡ some s)
    → IsBalanced (bill_stream added deleted stream o).overseer.db
unfolding bill_stream
bill_stream-IsBalanced added deleted none o h found = h
bill_stream-IsBalanced added deleted (some s) o h found = go s.endpoint_id
  where
    go :
        (endpoint : Option ℕ)
        → IsBalanced
            (bill_stream added deleted (some (record s { endpoint_id = endpoint })) o).overseer.db
    go none = h
    go (some id) =
        bill_at-IsBalanced added deleted s (endpoint_by_id id o.db.endpoints) o h (found s refl)

-- Whatever a stream's segments cost, and however the call ends, its errors included, the ledger stays
-- balanced.
pub on_segments-IsBalanced :
    (pipeline_id : ℕ) (added deleted : List EgressSegment) (o : Overseer)
    → IsBalanced o.db
    → IsBalanced (on_segments pipeline_id added deleted o).overseer.db
unfolding on_segments
on_segments-IsBalanced pipeline_id added deleted o h =
    bill_stream-IsBalanced added deleted (stream_by_id pipeline_id o.db.streams) o h (λ s e.
      ap (λ id. stream_by_id id o.db.streams) (found_by_own_id pipeline_id s o.db.streams e) ∙ e)
