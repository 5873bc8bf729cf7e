-- ===== src/Billing/External/Webhooks/Ending.antt =====
-- What a webhook of a disconnected input leaves, crates/zap-stream-external/src/cloudflare/api.rs.
use zap_stream_core.Prelude.{
  find-some, ℕ, ◌+◌, ◌≤◌, ◌≡◌, refl, sym, ap, subst, ◌∙◌, inl, inr, Bool, true, false, ◌&&◌,
  Bool-cases, Option, none, some, List, [], ◌∷◌, ◌==◌, if◌then◌else◌, arith,
}
use zap_stream_core.Billing.Tables.{User, UserStream, update_stream_row}
use zap_stream_core.Billing.Streams.{is_live, is_none, live_primary_count}
use zap_stream_core.Billing.Streams.Rows.{written, set_ended, update_stream}
use zap_stream_core.Billing.External.Webhooks.{
  Columns, CfApiWrapper, same_key, done, end_found, live_with_key, end_for_user, publish_stream_end,
  forgive_ended, disconnected, handle_webhook, resolve_user_and_key,
}
use zap_stream_core.Billing.External.Webhooks.Counting.{
  counted, IsSound, live_primary_count-written,
}
use zap_stream_core.Billing.External.Webhooks.Writing.{by_own_id}

same_key-none : (o : Option ℕ) → same_key o none ≡ is_none o
same_key-none none = refl
same_key-none (some m) = refl

count_absent :
    (uid : ℕ) (streams : List UserStream)
    → live_with_key uid none streams ≡ none
    → live_primary_count uid streams ≡ 0
unfolding live_with_key live_primary_count
count_absent uid [] e = refl
count_absent uid (s ∷ streams) e =
    go (s.user_id == uid && is_live s.state && same_key s.stream_key_id none) refl
      (count_absent uid streams) e
  where
    go :
        (b : Bool)
        → (s.user_id == uid && is_live s.state && same_key s.stream_key_id none) ≡ b
        → (live_with_key uid none streams ≡ none → live_primary_count uid streams ≡ 0)
        → (if b then some s else live_with_key uid none streams) ≡ none
        → counted uid s + live_primary_count uid streams ≡ 0
    go true b ih e = absurd (cc e)
    go false b ih e =
        let rest = ih e in
        let nothing : counted uid s ≡ 0 =
          ap (λ k. if s.user_id == uid && is_live s.state && k then 1 else 0)
            (sym (same_key-none s.stream_key_id))
          ∙ ap (λ q. if q then 1 else 0) b in
        omega (arith, rest, nothing)

-- The row that is found counts, and when it has ended it does not.
ended_counts :
    (uid now : ℕ) (s : UserStream)
    → (s.user_id == uid && is_live s.state && same_key s.stream_key_id none) ≡ true
    → (counted uid s ≡ 1) × (counted uid (written (set_ended now s) s) ≡ 0)
unfolding written set_ended
ended_counts uid now s e = (
  ap (λ k. if s.user_id == uid && is_live s.state && k then 1 else 0)
        (sym (same_key-none s.stream_key_id))
      ∙ ap (λ q. if q then 1 else 0) e,
  elim (Bool-cases (s.user_id == uid)) [ inl mine ↦ rw mine refl | inr other ↦ rw other refl ],
)

last_one : (t was is u : ℕ) → was ≡ 1 → is ≡ 0 → u + was ≡ is + t → t ≤ 1 → u ≡ 0
last_one t was is u a b e few = omega (arith, a, b, e, few)

end_found-none_live :
    (now uid id : ℕ) (w : CfApiWrapper) (o : Option UserStream)
    → IsSound w.db
    → live_with_key id none w.db.streams ≡ o
    → ((forgive_ended (end_found now true uid o w)).0 ≡ done)
      × (live_primary_count id (forgive_ended (end_found now true uid o w)).1.db.streams ≡ 0)
unfolding end_found update_stream set_ended live_with_key
end_found-none_live now uid id w none sound e = (refl, count_absent id w.db.streams e)
end_found-none_live now uid id w (some s) (unique, one, keys) e =
    let (this, there) =
      find-some (λ r. r.user_id == id && is_live r.state && same_key r.stream_key_id none)
        w.db.streams s e in
    let (before, after) = ended_counts id now s this in
    (
      refl,
      last_one (live_primary_count id w.db.streams) (counted id s)
          (counted id (written (set_ended now s) s))
          (live_primary_count id (update_stream_row s.id (written (set_ended now s)) w.db.streams))
          before after
          (live_primary_count-written id s.id (set_ended now s) s w.db.streams unique
            (by_own_id s w.db.streams unique there))
          (one id),
    )

-- When the event of a disconnected input is published, the input is that of a user's primary key,
-- and no user has two live streams of the primary key, ids are unique and the stream of a custom key
-- has a row that names a key, then the webhook succeeds, whether a stream was live or not, and
-- the user has no live stream of the primary key after it.
pub handle_webhook-disconnected :
    (c : Columns) (app_name now new_id uid : ℕ) (u : User) (w : CfApiWrapper)
    → IsSound w.db
    → resolve_user_and_key c now uid w.db ≡ some (u, none)
    → ((handle_webhook c app_name now new_id true (disconnected (some uid)) w).0 ≡ done)
      × (live_primary_count u.id
            (handle_webhook c app_name now new_id true (disconnected (some uid)) w).1.db.streams
          ≡ 0)
unfolding handle_webhook publish_stream_end end_for_user
handle_webhook-disconnected c app_name now new_id uid u w sound mine =
    subst
      (λ o.
        ((forgive_ended (end_for_user now true uid o w)).0 ≡ done)
        × (live_primary_count u.id (forgive_ended (end_for_user now true uid o w)).1.db.streams
            ≡ 0))
      (sym mine)
      (end_found-none_live now uid u.id w (live_with_key u.id none w.db.streams) sound refl)
