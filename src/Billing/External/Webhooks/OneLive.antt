-- ===== src/Billing/External/Webhooks/OneLive.antt =====
-- No history of webhooks gives a user two live streams of the primary key:
-- crates/zap-stream-external/src/cloudflare/api.rs.
use zap_stream_core.Prelude.{
  In, find-some, ℕ, ◌≡◌, refl, sym, subst, inl, inr, Bool, true, false, ◌&&◌, Option, none, some,
  List, [], ◌∷◌, ◌==◌, if◌then◌else◌, find,
}
use zap_stream_core.Billing.Tables.{User, UserStream, stream_by_id}
use zap_stream_core.Billing.Streams.{is_live}
use zap_stream_core.Billing.External.Webhooks.{
  Columns, CfApiWrapper, Resolved, remove_input_mapping, resolve_or_create_stream, Reply,
  finish_start, start_resolved, start_for_user, publish_stream_start, end_found, live_with_key,
  end_for_user, publish_stream_end, Webhook, connected, disconnected, unknown_event, forgive_ended,
  handle_webhook, Delivery, run_webhooks, get_mapped_stream, mapped_stream, resolve_user_and_key,
  same_key, pruned, mapped_id, should_skip_duplicate_webhook, done, skipped, no_live_streams,
  failed,
}
use zap_stream_core.Billing.External.Webhooks.Counting.{IsSound}
use zap_stream_core.Billing.External.Webhooks.Writing.{by_own_id, write_row, set_ended-IsSound}
use zap_stream_core.Billing.External.Webhooks.Resuming.{
  IsWritten, resolve_or_create_stream-IsWritten,
}

pub live_with_key-In :
    (uid : ℕ) (key_id : Option ℕ) (streams : List UserStream) (s : UserStream)
    → live_with_key uid key_id streams ≡ some s
    → In s streams
unfolding live_with_key
live_with_key-In uid key_id streams s e =
    (find-some (λ r. r.user_id == uid && is_live r.state && same_key r.stream_key_id key_id) streams
      s e).1

finish_start-IsSound :
    (now : ℕ) (published : Bool) (uid : ℕ) (s : UserStream) (w : CfApiWrapper)
    → IsSound w.db
    → stream_by_id s.id w.db.streams ≡ some s
    → IsSound (finish_start now published uid s w).1.db
unfolding finish_start
finish_start-IsSound now true uid s w sound found =
    (write_row s s w.db sound found refl refl (inr (inl refl))).0
finish_start-IsSound now false uid s w sound found = set_ended-IsSound now s w.db sound found

start_resolved-IsSound :
    (now : ℕ) (published : Bool) (uid : ℕ) (o : Resolved) (w : CfApiWrapper)
    → IsSound w.db
    → IsWritten o
    → IsSound (start_resolved now published uid o w).1.db
unfolding start_resolved
start_resolved-IsSound now published uid none w sound h = sound
start_resolved-IsSound now published uid (some (s, after)) w sound (fine, found) =
    finish_start-IsSound now published uid s after fine found

start_for_user-IsSound :
    (c : Columns) (app_name now new_id : ℕ) (published : Bool) (uid : ℕ)
    (o : Option (User × Option ℕ)) (w : CfApiWrapper)
    → IsSound w.db
    → IsSound (start_for_user c app_name now new_id published uid o w).1.db
unfolding start_for_user
start_for_user-IsSound c app_name now new_id published uid none w sound = sound
start_for_user-IsSound c app_name now new_id published uid (some (u, key_id)) w sound =
    start_resolved-IsSound now published uid
      (resolve_or_create_stream c app_name now new_id uid u key_id w) w sound
      (resolve_or_create_stream-IsWritten c app_name now new_id uid u key_id w sound)

-- Looking for the mapped stream writes no row.
pub get_mapped_stream-db :
    (now uid : ℕ) (w : CfApiWrapper) → (get_mapped_stream now uid w).1.db ≡ w.db
unfolding get_mapped_stream remove_input_mapping
get_mapped_stream-db now uid w =
    go (mapped_id (find (λ entry. entry.0 == uid) (pruned now w).input_stream_map))
  where
    go : (o : Option ℕ) → (mapped_stream uid o (pruned now w)).1.db ≡ w.db
    go none = refl
    go (some id) =
        elim (stream_by_id id w.db.streams)
          as (λ o.
            (elim o as (λ q. Option UserStream × CfApiWrapper) [
              | none ↦ (none, remove_input_mapping uid (pruned now w))
              | some s ↦ (some s, pruned now w)
            ]).1.db
            ≡ w.db) [ none ↦ refl | some s ↦ refl ]

publish_stream_start-IsSound :
    (c : Columns) (app_name now new_id : ℕ) (published : Bool) (uid : ℕ) (w : CfApiWrapper)
    → IsSound w.db
    → IsSound (publish_stream_start c app_name now new_id published uid w).1.db
unfolding publish_stream_start
publish_stream_start-IsSound c app_name now new_id published uid w sound =
    go (should_skip_duplicate_webhook (get_mapped_stream now uid w).0)
  where
    before : IsSound (get_mapped_stream now uid w).1.db
    before = subst IsSound (sym (get_mapped_stream-db now uid w)) sound

    go :
        (b : Bool)
        → IsSound
            (if b
              then (skipped, (get_mapped_stream now uid w).1)
              else start_for_user c app_name now new_id published uid
                  (resolve_user_and_key c now uid (get_mapped_stream now uid w).1.db)
                  (get_mapped_stream now uid w).1).1.db
    go true = before
    go false =
        start_for_user-IsSound c app_name now new_id published uid
          (resolve_user_and_key c now uid (get_mapped_stream now uid w).1.db)
          (get_mapped_stream now uid w).1 before

end_found-IsSound :
    (now : ℕ) (published : Bool) (uid : ℕ) (o : Option UserStream) (w : CfApiWrapper)
    → IsSound w.db
    → ((s : UserStream) → o ≡ some s → In s w.db.streams)
    → IsSound (end_found now published uid o w).1.db
unfolding end_found
end_found-IsSound now published uid none w sound there = sound
end_found-IsSound now false uid (some s) w sound there = sound
end_found-IsSound now true uid (some s) w sound there =
    set_ended-IsSound now s w.db sound (by_own_id s w.db.streams sound.0 (there s refl))

publish_stream_end-IsSound :
    (c : Columns) (now : ℕ) (published : Bool) (uid : ℕ) (w : CfApiWrapper)
    → IsSound w.db
    → IsSound (publish_stream_end c now published uid w).1.db
unfolding publish_stream_end end_for_user
publish_stream_end-IsSound c now published uid w sound = go (resolve_user_and_key c now uid w.db)
  where
    go : (o : Option (User × Option ℕ)) → IsSound (end_for_user now published uid o w).1.db
    go none = sound
    go (some (u, key_id)) =
        end_found-IsSound now published uid (live_with_key u.id key_id w.db.streams) w sound
          (live_with_key-In u.id key_id w.db.streams)

forgive_ended-state : (r : Reply × CfApiWrapper) → (forgive_ended r).1 ≡ r.1
forgive_ended-state (no_live_streams, w) = refl
forgive_ended-state (done, w) = refl
forgive_ended-state (skipped, w) = refl
forgive_ended-state (failed, w) = refl

-- One webhook, whatever comes of it.
pub handle_webhook-IsSound :
    (c : Columns) (app_name now new_id : ℕ) (published : Bool) (hook : Webhook) (w : CfApiWrapper)
    → IsSound w.db
    → IsSound (handle_webhook c app_name now new_id published hook w).1.db
unfolding handle_webhook
handle_webhook-IsSound c app_name now new_id published (connected none) w sound = sound
handle_webhook-IsSound c app_name now new_id published (connected (some uid)) w sound =
    publish_stream_start-IsSound c app_name now new_id published uid w sound
handle_webhook-IsSound c app_name now new_id published (disconnected none) w sound = sound
handle_webhook-IsSound c app_name now new_id published (disconnected (some uid)) w sound =
    subst (λ x. IsSound x.db) (sym (forgive_ended-state (publish_stream_end c now published uid w)))
      (publish_stream_end-IsSound c now published uid w sound)
handle_webhook-IsSound c app_name now new_id published unknown_event w sound = sound

-- Whatever webhooks come, in whatever order, repeated or not, and whether their events are published
-- or not: in a database where no user has two live streams of the primary key, ids are unique
-- and the stream of a custom key has a row that names a key, all three hold after them.
run_webhooks-IsSound :
    (c : Columns) (app_name : ℕ) (ds : List Delivery) (w : CfApiWrapper)
    → IsSound w.db
    → IsSound (run_webhooks c app_name ds w).db
unfolding run_webhooks
run_webhooks-IsSound c app_name [] w sound = sound
run_webhooks-IsSound c app_name (d ∷ ds) w sound =
    run_webhooks-IsSound c app_name ds
      (handle_webhook c app_name d.now d.new_id d.published d.webhook w).1
      (handle_webhook-IsSound c app_name d.now d.new_id d.published d.webhook w sound)
