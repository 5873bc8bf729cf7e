-- ===== src/Billing/Streams/Rows/Lookup.antt =====
-- Which rows of the streams a statement of crates/zap-stream-db/src/db.rs changes.
use zap_stream_core.Prelude.{
  In, some_inj, ℕ, ◌≡◌, refl, sym, ap, ◌∙◌, ◌⊎◌, inl, inr, Bool, true, false, ◌&&◌, Bool-cases,
  none, some, List, [], ◌∷◌, ◌==◌, if◌then◌else◌, arith,
}
use zap_stream_core.Billing.Tables.{UserStream, ZapStreamDb, stream_by_id, update_stream_row}
use zap_stream_core.Billing.Ledger.{has_user}
use zap_stream_core.Billing.Streams.{is_live}
use zap_stream_core.Billing.Streams.Rows.{on_node}

-- Every row's user is there: a foreign key.
abbrev pub HasUsers : ZapStreamDb → Type 0
HasUsers db = (s : UserStream) → In s db.streams → has_user s.user_id db.users ≡ true

abbrev pub LiveOn : ℕ → UserStream → Type 0
LiveOn node s = (is_live s.state && on_node node s.node_name) ≡ true

pub In-update :
    (id : ℕ) (f : UserStream → UserStream) (s : UserStream) (streams : List UserStream)
    → In s (update_stream_row id f streams)
    → ((r : UserStream) × In r streams × (s ≡ f r)) ⊎ (((s.id == id) ≡ false) × In s streams)
In-update id f s [] h = absurd h
In-update id f s (r ∷ streams) h = go (r.id == id) (In-update id f s streams) refl h
  where
    go :
        (b : Bool)
        → (In s (update_stream_row id f streams)
            → ((x : UserStream) × In x streams × (s ≡ f x))
              ⊎ (((s.id == id) ≡ false) × In s streams))
        → (r.id == id) ≡ b
        → (s ≡ (if b then f r else r)) ⊎ In s (update_stream_row id f streams)
        → ((x : UserStream) × In x (r ∷ streams) × (s ≡ f x))
          ⊎ (((s.id == id) ≡ false) × In s (r ∷ streams))
    go true ih b (inl e) = inl (r, inl refl, e)
    go false ih b (inl e) = inr (ap (λ x. x.id == id) e ∙ b, inl e)
    go x ih b (inr h) = elim (ih h) [
      | inl (x, there, e) ↦ inl (x, inr there, e)
      | inr (other, there) ↦ inr (other, inr there)
    ]

pub In-found :
    (id : ℕ) (s : UserStream) (streams : List UserStream)
    → stream_by_id id streams ≡ some s
    → In s streams
In-found id s [] e = cc
In-found id s (r ∷ streams) e = go (r.id == id) (In-found id s streams) e
  where
    go :
        (b : Bool)
        → (stream_by_id id streams ≡ some s → In s streams)
        → (if b then some r else stream_by_id id streams) ≡ some s
        → In s (r ∷ streams)
    go true ih e = inl (sym (some_inj e))
    go false ih e = inr (ih e)

pub not_found :
    (id : ℕ) (s : UserStream) (streams : List UserStream)
    → stream_by_id id streams ≡ none
    → In s streams
    → (s.id == id) ≡ false
not_found id s [] e h = absurd h
not_found id s (r ∷ streams) e h = elim (Bool-cases (r.id == id)) [
  | inl b ↦ absurd (ground (arith, b, e))
  | inr b ↦ elim h [
    | inl same ↦ ap (λ x. x.id == id) same ∙ b
    | inr there ↦ not_found id s streams (ground (arith, b, e)) there
  ]
]
