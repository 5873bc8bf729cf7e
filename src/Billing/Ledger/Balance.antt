-- ===== src/Billing/Ledger/Balance.antt =====
-- Every balance is what the payments and the streams account for: the statements of
-- crates/zap-stream-db/src/db.rs keep the offset that `get_balance_offsets` reports at zero.
use zap_stream_core.Prelude.{
  some_inj, ℕ, ◌≡◌, refl, ap, subst, ◌∙◌, inl, inr, Bool, true, false, Bool-cases, none, some, List,
  [], ◌∷◌, ◌==◌, if◌then◌else◌, arith,
}
use zap_stream_core.Prelude.Int.{ℤ, ◌+ℤ◌, int_laws}
use zap_stream_core.Billing.Tables.{UserStream, stream_by_id, update_stream_row}
use zap_stream_core.Billing.Ledger.{when, charge_stream, total_stream_costs}
use zap_stream_core.Billing.Ledger.Paid.{swapped}

-- No stream has two rows.
abbrev pub UniqueId : List UserStream → Type 0
UniqueId [] = Unit {0}
UniqueId (s ∷ streams) = (stream_by_id s.id streams ≡ none) × UniqueId streams

pub update_stream_row-absent :
    (id : ℕ) (f : UserStream → UserStream) (streams : List UserStream)
    → stream_by_id id streams ≡ none
    → update_stream_row id f streams ≡ streams
update_stream_row-absent id f [] h = refl
update_stream_row-absent id f (s ∷ streams) h = elim (Bool-cases (s.id == id)) [
  | inl e ↦ absurd (ground (arith, e, h))
  | inr e ↦ rw e (ap (◌∷◌ s) (update_stream_row-absent id f streams (ground (arith, e, h))))
]

pub same_id :
    (a b : ℕ) (streams : List UserStream)
    → (a == b) ≡ true
    → stream_by_id a streams ≡ none
    → stream_by_id b streams ≡ none
same_id a b streams e h = subst (λ n. stream_by_id n streams ≡ none) (ground (arith, e)) h

charged_cost :
    (mine : Bool) (cost old t : ℤ)
    → when mine (old +ℤ cost) +ℤ t ≡ when mine cost +ℤ (when mine old +ℤ t)
charged_cost true cost old t = omega int_laws
charged_cost false cost old t = omega int_laws

pub total_stream_costs-charged :
    (uid id : ℕ) (duration cost : ℤ) (s : UserStream) (streams : List UserStream)
    → UniqueId streams
    → stream_by_id id streams ≡ some s
    → total_stream_costs uid (update_stream_row id (charge_stream duration cost) streams)
      ≡ when (s.user_id == uid) cost +ℤ total_stream_costs uid streams
unfolding total_stream_costs charge_stream
total_stream_costs-charged uid id duration cost s [] u e = cc
total_stream_costs-charged uid id duration cost s (r ∷ streams) u e =
    go (r.id == id) (total_stream_costs-charged uid id duration cost s streams u.1) refl e
  where
    go :
        (b : Bool)
        → (stream_by_id id streams ≡ some s
            → total_stream_costs uid (update_stream_row id (charge_stream duration cost) streams)
              ≡ when (s.user_id == uid) cost +ℤ total_stream_costs uid streams)
        → (r.id == id) ≡ b
        → (if b then some r else stream_by_id id streams) ≡ some s
        → total_stream_costs uid (update_stream_row id (charge_stream duration cost) (r ∷ streams))
          ≡ when (s.user_id == uid) cost +ℤ total_stream_costs uid (r ∷ streams)
    go true ih b e = rw b (
        ap (λ ss. when (r.user_id == uid) (r.cost +ℤ cost) +ℤ total_stream_costs uid ss)
          (update_stream_row-absent id (charge_stream duration cost) streams
            (same_id r.id id streams b u.0))
        ∙ charged_cost (r.user_id == uid) cost r.cost (total_stream_costs uid streams)
        ∙ ap
            (λ x.
              when (x.user_id == uid) cost
              +ℤ (when (r.user_id == uid) r.cost +ℤ total_stream_costs uid streams))
            (some_inj e))
    go false ih b e = rw b (
        ap (λ t. when (r.user_id == uid) r.cost +ℤ t) (ih e)
        ∙ swapped _ (when (s.user_id == uid) cost) (total_stream_costs uid streams))
