-- ===== src/Billing/Streams/Rows/Writing.antt =====
-- What writing a row of a stream does to the ledger, crates/zap-stream-db/src/db.rs.
use zap_stream_core.Prelude.{
  some_inj, ℕ, ◌≡◌, refl, sym, ap, ◌∙◌, Bool, true, false, some, List, [], ◌∷◌, ◌==◌, if◌then◌else◌,
}
use zap_stream_core.Prelude.Int.{ℤ, ◌+ℤ◌, ◌-ℤ◌, int_laws}
use zap_stream_core.Billing.Tables.{UserStream, ZapStreamDb, stream_by_id, update_stream_row}
use zap_stream_core.Billing.Ledger.{
  when, total_payments, total_fees, total_stream_costs, expected_balance,
}
use zap_stream_core.Billing.Ledger.Balance.{UniqueId, update_stream_row-absent, same_id}
use zap_stream_core.Billing.Ledger.Accounts.{IsBalanced}
use zap_stream_core.Billing.Ledger.Statements.{UniqueId-update}
use zap_stream_core.Billing.Streams.Rows.{written, update_stream}

replaced :
    (mine : Bool) (old new t : ℤ)
    → (when mine new +ℤ t) +ℤ when mine old ≡ when mine new +ℤ (when mine old +ℤ t)
replaced true old new t = grind int_laws
replaced false old new t = grind int_laws

later_replaced :
    (first new old t u : ℤ) → u +ℤ old ≡ new +ℤ t → (first +ℤ u) +ℤ old ≡ new +ℤ (first +ℤ t)
later_replaced first new old t u e = grind (int_laws, e)

-- What a write makes of the sum of the costs: the row's cost goes, the written one comes.
pub total_stream_costs-written :
    (uid id : ℕ) (new s : UserStream) (streams : List UserStream)
    → UniqueId streams
    → stream_by_id id streams ≡ some s
    → total_stream_costs uid (update_stream_row id (written new) streams)
        +ℤ when (s.user_id == uid) s.cost
      ≡ when (s.user_id == uid) new.cost +ℤ total_stream_costs uid streams
unfolding total_stream_costs written
total_stream_costs-written uid id new s [] u e = cc
total_stream_costs-written uid id new s (r ∷ streams) u e =
    go (r.id == id) (total_stream_costs-written uid id new s streams u.1) refl e
  where
    go :
        (b : Bool)
        → (stream_by_id id streams ≡ some s
            → total_stream_costs uid (update_stream_row id (written new) streams)
                +ℤ when (s.user_id == uid) s.cost
              ≡ when (s.user_id == uid) new.cost +ℤ total_stream_costs uid streams)
        → (r.id == id) ≡ b
        → (if b then some r else stream_by_id id streams) ≡ some s
        → total_stream_costs uid (update_stream_row id (written new) (r ∷ streams))
            +ℤ when (s.user_id == uid) s.cost
          ≡ when (s.user_id == uid) new.cost +ℤ total_stream_costs uid (r ∷ streams)
    go true ih b e = rw b (
        ap
          (λ ss.
            (when (r.user_id == uid) new.cost +ℤ total_stream_costs uid ss)
            +ℤ when (s.user_id == uid) s.cost)
          (update_stream_row-absent id (written new) streams (same_id r.id id streams b u.0))
        ∙ ap
            (λ x.
              (when (r.user_id == uid) new.cost +ℤ total_stream_costs uid streams)
              +ℤ when (x.user_id == uid) x.cost)
            (sym (some_inj e))
        ∙ replaced (r.user_id == uid) r.cost new.cost (total_stream_costs uid streams)
        ∙ ap
            (λ x.
              when (x.user_id == uid) new.cost
              +ℤ (when (r.user_id == uid) r.cost +ℤ total_stream_costs uid streams))
            (some_inj e))
    go false ih b e = rw b (
        later_replaced (when (r.user_id == uid) r.cost) (when (s.user_id == uid) new.cost)
          (when (s.user_id == uid) s.cost) (total_stream_costs uid streams)
          (total_stream_costs uid (update_stream_row id (written new) streams)) (ih e))

same_cost : (t u old new : ℤ) → new ≡ old → t +ℤ old ≡ new +ℤ u → u ≡ t
same_cost t u old new e h = grind (int_laws, e, h)

-- A row that is written with the cost that it has.
pub update_stream-IsBalanced :
    (new s : UserStream) (db : ZapStreamDb)
    → IsBalanced db
    → stream_by_id new.id db.streams ≡ some s
    → new.cost ≡ s.cost
    → IsBalanced (update_stream new db)
unfolding update_stream expected_balance written
update_stream-IsBalanced new s db (balanced, unique, ids, fresh) found e = (
  λ uid.
      balanced uid
      ∙ ap (λ t. total_payments uid db.payments -ℤ total_fees uid db.payments -ℤ t)
          (same_cost (total_stream_costs uid (update_stream_row new.id (written new) db.streams))
            (total_stream_costs uid db.streams) (when (s.user_id == uid) s.cost)
            (when (s.user_id == uid) new.cost) (ap (λ c. when (s.user_id == uid) c) e)
            (total_stream_costs-written uid new.id new s db.streams ids found)),
  unique,
  UniqueId-update new.id (written new) db.streams (λ r. refl) ids,
  fresh,
)
