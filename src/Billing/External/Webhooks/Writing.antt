-- ===== src/Billing/External/Webhooks/Writing.antt =====
-- Rows of crates/zap-stream-db/src/db.rs that are inserted and written for the webhooks of
-- crates/zap-stream-external/src/cloudflare/api.rs, and the live streams of a user's primary key.
use zap_stream_core.Prelude.{
  All-map, In, some_inj, ℕ, ◌+◌, ◌≤◌, ◌≡◌, refl, sym, ap, subst, ◌∙◌, ◌⊎◌, inl, inr, Bool, true,
  false, not, ◌&&◌, ◌||◌, Bool-cases, none, some, List, [], ◌∷◌, ◌==◌, if◌then◌else◌, arith,
}
use zap_stream_core.Billing.Tables.{UserStream, ZapStreamDb, stream_by_id}
use zap_stream_core.Billing.Ledger.{has_user}
use zap_stream_core.Billing.Ledger.Balance.{UniqueId, same_id}
use zap_stream_core.Billing.Ledger.Paid.{self_eq}
use zap_stream_core.Billing.Segments.Balanced.{found_by_own_id}
use zap_stream_core.Billing.Streams.{is_live, is_none, live_primary_count}
use zap_stream_core.Billing.Streams.Rows.{
  has_stream, insert_stream, written, update_stream, set_ended,
}
use zap_stream_core.Billing.Streams.Rows.Balanced.{absent_row}
use zap_stream_core.Billing.Streams.Rows.Race.{updated_row}
use zap_stream_core.Billing.External.Webhooks.Counting.{
  counted, HasRow, IsSound, update_stream-IsSound,
}

-- A row that is new and of the primary key, for a user without a live stream of it.
pub insert_stream-IsSound :
    (s : UserStream) (db after : ZapStreamDb)
    → IsSound db
    → s.stream_key_id ≡ none
    → live_primary_count s.user_id db.streams ≡ 0
    → insert_stream s db ≡ some after
    → IsSound after × (stream_by_id s.id after.streams ≡ some s)
unfolding insert_stream live_primary_count
insert_stream-IsSound s db after (unique, one, keys) own none_live e =
    go (has_stream s.id db.streams) refl (has_user s.user_id db.users) e
  where
    with_row : ZapStreamDb
    with_row = record db { streams = s ∷ db.streams }

    one_more : (uid : ℕ) → counted uid s + live_primary_count uid db.streams ≤ 1
    one_more uid = elim (Bool-cases (s.user_id == uid)) [
      | inl mine ↦
          let zero : live_primary_count uid db.streams ≡ 0 =
            subst (λ n. live_primary_count n db.streams ≡ 0) (ground (arith, mine)) none_live in
          ground (arith, zero)
      | inr other ↦ let few = one uid in rw other (omega (arith, few))
    ]

    other_row :
        (id : ℕ) (r : UserStream)
        → stream_by_id s.id db.streams ≡ none
        → stream_by_id id db.streams ≡ some r
        → stream_by_id id (s ∷ db.streams) ≡ some r
    other_row id r absent found = elim (Bool-cases (s.id == id)) [
      | inl b ↦
          let same : s.id ≡ id = ground (arith, b) in
          absurd (cc (absent, found, ap (λ n. stream_by_id n db.streams) same))
      | inr b ↦ rw b found
    ]

    go :
        (known : Bool)
        → has_stream s.id db.streams ≡ known
        → (user : Bool) → (if known || not user then none else some with_row) ≡ some after
        → IsSound after × (stream_by_id s.id after.streams ≡ some s)
    go true k user e = cc
    go false k false e = cc
    go false k true e =
        subst (λ d. IsSound d × (stream_by_id s.id d.streams ≡ some s)) (some_inj e)
          (
            (
              (absent_row s.id db.streams k, unique),
              one_more,
              All-map (HasRow db.streams) (HasRow (s ∷ db.streams))
                  (λ k' (r, there, custom).
                    (r, other_row k'.stream_id r (absent_row s.id db.streams k) there, custom))
                  db.stream_keys keys,
            ),
            ap (λ b. if b then some s else stream_by_id s.id db.streams) (sym (self_eq s.id)),
          )

not_counted :
    (uid : ℕ) (s : UserStream)
    → (is_live s.state && is_none s.stream_key_id) ≡ false
    → counted uid s ≡ 0
not_counted uid s e = elim (Bool-cases (s.user_id == uid)) [
  | inl mine ↦ rw mine (ground (arith, e))
  | inr other ↦ rw other refl
]

-- What is written counts for no user who has a live stream already.
abbrev pub Fits : UserStream → UserStream → ZapStreamDb → Type 0
Fits new s db =
    ((is_live new.state && is_none new.stream_key_id) ≡ false)
    ⊎ (new ≡ s)
    ⊎ (live_primary_count s.user_id db.streams ≡ 0)

Fits-room :
    (new s : UserStream) (db : ZapStreamDb) (uid : ℕ)
    → IsSound db
    → Fits new s db
    → live_primary_count uid db.streams + counted uid (written new s) ≤ 1 + counted uid s
unfolding written
Fits-room new s db uid (unique, one, keys) (inl apart) =
    let few = one uid in
    let nothing = not_counted uid (written new s) apart in omega (arith, few, nothing)
Fits-room new s db uid (unique, one, keys) (inr (inl same)) =
    let few = one uid in
    let as_much : counted uid (written new s) ≡ counted uid s =
      ap (λ x. counted uid (written x s)) same in
    omega (arith, few, as_much)
Fits-room new s db uid (unique, one, keys) (inr (inr none_live)) =
    elim (Bool-cases (s.user_id == uid)) [
      | inl mine ↦
          let zero : live_primary_count uid db.streams ≡ 0 =
            subst (λ n. live_primary_count n db.streams ≡ 0) (ground (arith, mine)) none_live in
          ground (arith, zero)
      | inr other ↦ let few = one uid in rw other (omega (arith, few))
    ]

all_columns : (new s : UserStream) → s.id ≡ new.id → new.user_id ≡ s.user_id → written new s ≡ new
unfolding written
all_columns new s i u =
    ap (λ n. record (written new s) { id = n }) i ∙ ap (λ n. record new { user_id = n }) (sym u)

pub write_row :
    (new s : UserStream) (db : ZapStreamDb)
    → IsSound db
    → stream_by_id new.id db.streams ≡ some s
    → new.user_id ≡ s.user_id
    → is_none new.stream_key_id ≡ is_none s.stream_key_id
    → Fits new s db
    → IsSound (update_stream new db)
      × (stream_by_id new.id (update_stream new db).streams ≡ some new)
unfolding update_stream written
write_row new s db sound found user key fits = (
  update_stream-IsSound new s db sound found key (λ uid. Fits-room new s db uid sound fits),
  updated_row new.id (written new) s db.streams (λ r. refl) found
      ∙ ap some (all_columns new s (found_by_own_id new.id s db.streams found) user),
)

pub by_own_id :
    (s : UserStream) (streams : List UserStream)
    → UniqueId streams
    → In s streams
    → stream_by_id s.id streams ≡ some s
by_own_id s [] unique h = absurd h
by_own_id s (r ∷ streams) (absent, unique) (inl same) =
    ap (λ b. if b then some r else stream_by_id s.id streams)
      (ap (λ x. r.id == x.id) same ∙ sym (self_eq r.id))
    ∙ ap some (sym same)
by_own_id s (r ∷ streams) (absent, unique) (inr there) = elim (Bool-cases (r.id == s.id)) [
  | inl b ↦ absurd (cc (by_own_id s streams unique there, same_id r.id s.id streams b absent))
  | inr b ↦ rw b (by_own_id s streams unique there)
]

pub set_ended-IsSound :
    (now : ℕ) (s : UserStream) (db : ZapStreamDb)
    → IsSound db
    → stream_by_id s.id db.streams ≡ some s
    → IsSound (update_stream (set_ended now s) db)
unfolding set_ended
set_ended-IsSound now s db sound found =
    (write_row (set_ended now s) s db sound found refl refl (inl refl)).0
