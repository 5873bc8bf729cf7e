-- ===== src/Billing/External/Poller/Below.antt =====
-- Rows of streams that have come from other rows by charges and ends, in the tables of
-- crates/zap-stream-db/src/db.rs.
use zap_stream_core.Prelude.{
  All, All-map, some_inj, ℕ, ◌+◌, ◌≤◌, ◌≡◌, refl, sym, subst, ◌∙◌, Bool, true, false, not, ◌&&◌,
  Option, none, some, List, [], ◌∷◌, ◌==◌, if◌then◌else◌, arith,
}
use zap_stream_core.Billing.Tables.{UserStream, ZapStreamDb, stream_by_id, update_stream_row}
use zap_stream_core.Billing.Ledger.Balance.{UniqueId, update_stream_row-absent, same_id}
use zap_stream_core.Billing.Streams.{is_live, is_none, live_primary_count}
use zap_stream_core.Billing.External.Webhooks.Counting.{counted, HasRow, IsSound}

-- The same stream, which is live only where the other is.
abbrev pub AtMost : UserStream → UserStream → Type 0
AtMost r s =
    (r.id ≡ s.id)
    × (r.user_id ≡ s.user_id)
    × (is_none r.stream_key_id ≡ is_none s.stream_key_id)
    × ((is_live r.state && not (is_live s.state)) ≡ false)

abbrev pub Below : List UserStream → List UserStream → Type 0
Below [] [] = Unit {0}
Below [] (s ∷ ss) = ⊥
Below (r ∷ rs) [] = ⊥
Below (r ∷ rs) (s ∷ ss) = AtMost r s × Below rs ss

pub live_itself : (b : Bool) → (b && not b) ≡ false
live_itself true = refl
live_itself false = refl

pub Below-refl : (ss : List UserStream) → Below ss ss
Below-refl [] = tt
Below-refl (s ∷ ss) = ((refl, refl, refl, live_itself (is_live s.state)), Below-refl ss)

fewer :
    (mine here there own : Bool)
    → (here && not there) ≡ false
    → (if mine && here && own then 1 else 0) ≤ (if mine && there && own then 1 else 0)
fewer mine here there own e = ground (arith, e)

counted_less : (uid : ℕ) (r s : UserStream) → AtMost r s → counted uid r ≤ counted uid s
counted_less uid r s (i, u, k, l) =
    subst
      (λ n.
        (if n == uid && is_live r.state && is_none r.stream_key_id then 1 else 0) ≤ counted uid s)
      (sym u)
      (subst (λ b. (if s.user_id == uid && is_live r.state && b then 1 else 0) ≤ counted uid s)
        (sym k)
        (fewer (s.user_id == uid) (is_live r.state) (is_live s.state) (is_none s.stream_key_id) l))

sum_less : (a b c d : ℕ) → a ≤ b → c ≤ d → a + c ≤ b + d
sum_less a b c d h k = omega (arith, h, k)

Below-count :
    (uid : ℕ) (rs ss : List UserStream)
    → Below rs ss
    → live_primary_count uid rs ≤ live_primary_count uid ss
unfolding live_primary_count
Below-count uid [] [] h = omega arith
Below-count uid [] (s ∷ ss) h = absurd h
Below-count uid (r ∷ rs) [] h = absurd h
Below-count uid (r ∷ rs) (s ∷ ss) (h, hs) =
    sum_less (counted uid r) (counted uid s) (live_primary_count uid rs) (live_primary_count uid ss)
      (counted_less uid r s h) (Below-count uid rs ss hs)

-- The row of an id, where the other has one.
abbrev FoundBelow : Option UserStream → Option UserStream → Type 0
FoundBelow none none = Unit {0}
FoundBelow none (some s) = ⊥
FoundBelow (some r) none = ⊥
FoundBelow (some r) (some s) = AtMost r s

Below-find :
    (id : ℕ) (rs ss : List UserStream)
    → Below rs ss
    → FoundBelow (stream_by_id id rs) (stream_by_id id ss)
Below-find id [] [] h = tt
Below-find id [] (s ∷ ss) h = absurd h
Below-find id (r ∷ rs) [] h = absurd h
Below-find id (r ∷ rs) (s ∷ ss) (h, hs) =
    subst
      (λ n. FoundBelow (stream_by_id id (r ∷ rs)) (if n == id then some s else stream_by_id id ss))
      h.0 (go (r.id == id) (Below-find id rs ss hs))
  where
    go :
        (b : Bool)
        → FoundBelow (stream_by_id id rs) (stream_by_id id ss)
        → FoundBelow
            (if b then some r else stream_by_id id rs)
            (if b then some s else stream_by_id id ss)
    go true rest = h
    go false rest = rest

Below-none :
    (id : ℕ) (rs ss : List UserStream)
    → Below rs ss
    → stream_by_id id ss ≡ none
    → stream_by_id id rs ≡ none
Below-none id rs ss h e = go (stream_by_id id rs) refl
  where
    go : (o : Option UserStream) → stream_by_id id rs ≡ o → o ≡ none
    go none a = refl
    go (some r) a = absurd (
        subst (λ q. FoundBelow (some r) q) e
          (subst (λ o. FoundBelow o (stream_by_id id ss)) a (Below-find id rs ss h)))

pub Below-some :
    (id : ℕ) (s : UserStream) (rs ss : List UserStream)
    → Below rs ss
    → stream_by_id id ss ≡ some s
    → (r : UserStream) × (stream_by_id id rs ≡ some r) × AtMost r s
Below-some id s rs ss h e = go (stream_by_id id rs) refl
  where
    at : FoundBelow (stream_by_id id rs) (some s)
    at = subst (λ q. FoundBelow (stream_by_id id rs) q) e (Below-find id rs ss h)

    go :
        (o : Option UserStream)
        → stream_by_id id rs ≡ o
        → (r : UserStream) × (o ≡ some r) × AtMost r s
    go none a = absurd (subst (λ o. FoundBelow o (some s)) a at)
    go (some r) a = (r, refl, subst (λ o. FoundBelow o (some s)) a at)

pub Below-back :
    (id : ℕ) (r : UserStream) (rs ss : List UserStream)
    → Below rs ss
    → stream_by_id id rs ≡ some r
    → (s : UserStream) × (stream_by_id id ss ≡ some s) × AtMost r s
Below-back id r rs ss h e = go (stream_by_id id ss) refl
  where
    at : FoundBelow (some r) (stream_by_id id ss)
    at = subst (λ q. FoundBelow q (stream_by_id id ss)) e (Below-find id rs ss h)

    go :
        (o : Option UserStream)
        → stream_by_id id ss ≡ o
        → (s : UserStream) × (o ≡ some s) × AtMost r s
    go none a = absurd (subst (λ o. FoundBelow (some r) o) a at)
    go (some s) a = (s, refl, subst (λ o. FoundBelow (some r) o) a at)

pub Below-UniqueId : (rs ss : List UserStream) → Below rs ss → UniqueId ss → UniqueId rs
Below-UniqueId [] [] h u = tt
Below-UniqueId [] (s ∷ ss) h u = absurd h
Below-UniqueId (r ∷ rs) [] h u = absurd h
Below-UniqueId (r ∷ rs) (s ∷ ss) (h, hs) (absent, u) = (
  Below-none r.id rs ss hs (subst (λ n. stream_by_id n ss ≡ none) (sym h.0) absent),
  Below-UniqueId rs ss hs u,
)

few_enough : (a b : ℕ) → a ≤ b → b ≤ 1 → a ≤ 1
few_enough a b h k = omega (arith, h, k)

-- What has come from tables that are sound is sound.
pub Below-IsSound :
    (before after : ZapStreamDb)
    → IsSound before
    → Below after.streams before.streams
    → after.stream_keys ≡ before.stream_keys
    → IsSound after
Below-IsSound before after (unique, one, keys) below same = (
  Below-UniqueId after.streams before.streams below unique,
  λ uid.
      few_enough (live_primary_count uid after.streams) (live_primary_count uid before.streams)
        (Below-count uid after.streams before.streams below) (one uid),
  subst (λ ks. All (HasRow after.streams) ks) (sym same)
      (All-map (HasRow before.streams) (HasRow after.streams)
        (λ k (s, found, custom).
          let (r, there, (i, u, own, l)) =
            Below-some k.stream_id s after.streams before.streams below found in
          (r, there, own ∙ custom))
        before.stream_keys keys),
)

-- The row of an id is written, and what is written is the same stream, live only where the other is.
pub Below-update :
    (id : ℕ) (f : UserStream → UserStream) (r s : UserStream) (rs ss : List UserStream)
    → Below rs ss
    → UniqueId rs
    → stream_by_id id rs ≡ some r
    → stream_by_id id ss ≡ some s
    → AtMost (f r) s
    → Below (update_stream_row id f rs) ss
Below-update id f r s [] ss h u e d a = cc
Below-update id f r s (x ∷ rs) [] h u e d a = absurd h
Below-update id f r s (x ∷ rs) (y ∷ ss) (h, hs) (absent, u) e d a =
    go (x.id == id) (Below-update id f r s rs ss hs u) refl e
      (subst (λ n. (if n == id then some y else stream_by_id id ss) ≡ some s) (sym h.0) d)
  where
    go :
        (b : Bool)
        → (stream_by_id id rs ≡ some r
            → stream_by_id id ss ≡ some s
            → AtMost (f r) s
            → Below (update_stream_row id f rs) ss)
        → (x.id == id) ≡ b
        → (if b then some x else stream_by_id id rs) ≡ some r
        → (if b then some y else stream_by_id id ss) ≡ some s
        → AtMost (if b then f x else x) y × Below (update_stream_row id f rs) ss
    go true ih b e d = (
      subst (λ z. AtMost (f x) z) (sym (some_inj d))
          (subst (λ z. AtMost (f z) s) (sym (some_inj e)) a),
      subst (λ zs. Below zs ss)
          (sym (update_stream_row-absent id f rs (same_id x.id id rs b absent))) hs,
    )
    go false ih b e d = (h, ih e d a)

-- A change of every row that keeps each the same stream.
pub Below-keep :
    (id : ℕ) (f : UserStream → UserStream) (rs ss : List UserStream)
    → ((r s : UserStream) → AtMost r s → AtMost (f r) s)
    → Below rs ss
    → Below (update_stream_row id f rs) ss
Below-keep id f [] [] keeps h = tt
Below-keep id f [] (s ∷ ss) keeps h = absurd h
Below-keep id f (r ∷ rs) [] keeps h = absurd h
Below-keep id f (r ∷ rs) (s ∷ ss) keeps (h, hs) = (
  elim (r.id == id) as (λ b. AtMost (if b then f r else r) s) [ true ↦ keeps r s h | false ↦ h ],
  Below-keep id f rs ss keeps hs,
)
