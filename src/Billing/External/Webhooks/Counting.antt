-- ===== src/Billing/External/Webhooks/Counting.antt =====
-- The live streams of a user's primary key when a row is written or inserted, in the tables of
-- crates/zap-stream-db/src/db.rs.
use zap_stream_core.Prelude.{
  All, All-map, some_inj, ℕ, ◌+◌, ◌≤◌, ◌≡◌, refl, sym, ap, ◌∙◌, inl, inr, Bool, true, false, ◌&&◌,
  Bool-cases, some, List, [], ◌∷◌, ◌==◌, if◌then◌else◌, arith,
}
use zap_stream_core.Billing.Tables.{
  UserStream, UserStreamKey, ZapStreamDb, stream_by_id, update_stream_row,
}
use zap_stream_core.Billing.Ledger.Balance.{UniqueId, update_stream_row-absent, same_id}
use zap_stream_core.Billing.Ledger.Statements.{UniqueId-update}
use zap_stream_core.Billing.Segments.Balanced.{found_by_own_id}
use zap_stream_core.Billing.Streams.{is_live, is_none, live_primary_count}
use zap_stream_core.Billing.Streams.Rows.{written, update_stream}

-- What one row adds to the count.
abbrev pub counted : ℕ → UserStream → ℕ
counted uid s = if s.user_id == uid && is_live s.state && is_none s.stream_key_id then 1 else 0

swapped_count : (new old t : ℕ) → (new + t) + old ≡ new + (old + t)
swapped_count new old t = omega arith

later_count : (first new old t u : ℕ) → u + old ≡ new + t → (first + u) + old ≡ new + (first + t)
later_count first new old t u e = omega (arith, e)

pub live_primary_count-written :
    (uid id : ℕ) (new s : UserStream) (streams : List UserStream)
    → UniqueId streams
    → stream_by_id id streams ≡ some s
    → live_primary_count uid (update_stream_row id (written new) streams) + counted uid s
      ≡ counted uid (written new s) + live_primary_count uid streams
unfolding live_primary_count
live_primary_count-written uid id new s [] u e = cc
live_primary_count-written uid id new s (r ∷ streams) u e =
    go (r.id == id) (live_primary_count-written uid id new s streams u.1) refl e
  where
    go :
        (b : Bool)
        → (stream_by_id id streams ≡ some s
            → live_primary_count uid (update_stream_row id (written new) streams) + counted uid s
              ≡ counted uid (written new s) + live_primary_count uid streams)
        → (r.id == id) ≡ b
        → (if b then some r else stream_by_id id streams) ≡ some s
        → live_primary_count uid (update_stream_row id (written new) (r ∷ streams)) + counted uid s
          ≡ counted uid (written new s) + live_primary_count uid (r ∷ streams)
    go true ih b e = rw b (
        ap (λ ss. (counted uid (written new r) + live_primary_count uid ss) + counted uid s)
          (update_stream_row-absent id (written new) streams (same_id r.id id streams b u.0))
        ∙ ap (λ x. (counted uid (written new r) + live_primary_count uid streams) + counted uid x)
            (sym (some_inj e))
        ∙ swapped_count (counted uid (written new r)) (counted uid r)
            (live_primary_count uid streams)
        ∙ ap (λ x. counted uid (written new x) + (counted uid r + live_primary_count uid streams))
            (some_inj e))
    go false ih b e = rw b (
        later_count (counted uid r) (counted uid (written new s)) (counted uid s)
          (live_primary_count uid streams)
          (live_primary_count uid (update_stream_row id (written new) streams)) (ih e))

-- The row of another id is the one that it was, and the one of this id is written.
found_written :
    (id other : ℕ) (new r : UserStream) (streams : List UserStream)
    → stream_by_id other streams ≡ some r
    → stream_by_id other (update_stream_row id (written new) streams)
      ≡ some (if r.id == id then written new r else r)
unfolding written
found_written id other new r [] e = cc
found_written id other new r (x ∷ streams) e =
    go (x.id == other) (x.id == id) (found_written id other new r streams) refl refl e
  where
    first :
        (c : Bool)
        → (x.id == id) ≡ c
        → some x ≡ some r
        → some (if c then written new x else x) ≡ some (if r.id == id then written new r else r)
    first c known e =
        sym (ap (λ q. some (if q then written new x else x)) known)
        ∙ ap (λ y. some (if y.id == id then written new y else y)) (some_inj e)

    go :
        (b c : Bool)
        → (stream_by_id other streams ≡ some r
            → stream_by_id other (update_stream_row id (written new) streams)
              ≡ some (if r.id == id then written new r else r))
        → (x.id == other) ≡ b
        → (x.id == id) ≡ c
        → (if b then some x else stream_by_id other streams) ≡ some r
        → stream_by_id other (update_stream_row id (written new) (x ∷ streams))
          ≡ some (if r.id == id then written new r else r)
    go true true ih b c e = rw c (rw b (first true c e))
    go true false ih b c e = rw c (rw b (first false c e))
    go false true ih b c e = rw c (rw b (ih e))
    go false false ih b c e = rw c (rw b (ih e))

abbrev pub HasRow : List UserStream → UserStreamKey → Type 0
HasRow streams k =
    (s : UserStream) × (stream_by_id k.stream_id streams ≡ some s)
    × (is_none s.stream_key_id ≡ false)

-- A user has one live stream of the primary key at most, an id has one row, and the stream of a
-- custom key has a row, which names a key.
abbrev pub IsSound : ZapStreamDb → Type 0
IsSound db =
    UniqueId db.streams
    × ((uid : ℕ) → live_primary_count uid db.streams ≤ 1)
    × All (HasRow db.streams) db.stream_keys

one_at_most : (t old new u : ℕ) → u + old ≡ new + t → t + new ≤ 1 + old → u ≤ 1
one_at_most t old new u e h = omega (arith, e, h)

same_row :
    (id other : ℕ) (s r : UserStream) (streams : List UserStream)
    → stream_by_id id streams ≡ some s
    → stream_by_id other streams ≡ some r
    → (r.id == id) ≡ true
    → s ≡ r
same_row id other s r streams e h b = some_inj (
    sym e
    ∙ ap (λ n. stream_by_id n streams) (ground (arith, b, found_by_own_id other r streams h))
    ∙ h)

custom_row :
    (id other : ℕ) (new s r : UserStream) (streams : List UserStream)
    → stream_by_id id streams ≡ some s
    → is_none new.stream_key_id ≡ is_none s.stream_key_id
    → stream_by_id other streams ≡ some r
    → is_none r.stream_key_id ≡ false
    → is_none (if r.id == id then written new r else r).stream_key_id ≡ false
unfolding written
custom_row id other new s r streams e same h custom = elim (Bool-cases (r.id == id)) [
  | inl b ↦
      rw b (same ∙ ap (λ x. is_none x.stream_key_id) (same_row id other s r streams e h b) ∙ custom)
  | inr b ↦ rw b custom
]

-- A write that counts for a user only what it may, and keeps whether the row is of a custom key.
pub update_stream-IsSound :
    (new s : UserStream) (db : ZapStreamDb)
    → IsSound db
    → stream_by_id new.id db.streams ≡ some s
    → is_none new.stream_key_id ≡ is_none s.stream_key_id
    → ((uid : ℕ)
        → live_primary_count uid db.streams + counted uid (written new s) ≤ 1 + counted uid s)
    → IsSound (update_stream new db)
unfolding update_stream written
update_stream-IsSound new s db (unique, one, keys) found same room = (
  UniqueId-update new.id (written new) db.streams (λ r. refl) unique,
  λ uid.
      one_at_most (live_primary_count uid db.streams) (counted uid s) (counted uid (written new s))
        (live_primary_count uid (update_stream_row new.id (written new) db.streams))
        (live_primary_count-written uid new.id new s db.streams unique found) (room uid),
  All-map (HasRow db.streams) (HasRow (update_stream_row new.id (written new) db.streams))
      (λ k (r, there, custom). (
        if r.id == new.id then written new r else r,
        found_written new.id k.stream_id new r db.streams there,
        custom_row new.id k.stream_id new s r db.streams found same there custom,
      ))
      db.stream_keys keys,
)
