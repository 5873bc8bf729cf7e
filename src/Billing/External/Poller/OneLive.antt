-- ===== src/Billing/External/Poller/OneLive.antt =====
-- Neither webhooks nor the poller give a user two live streams of the primary key:
-- crates/zap-stream-external/src/cloudflare/api.rs.
use zap_stream_core.Prelude.{
  In, In-retain, All, ℕ, ◌≡◌, refl, Bool, true, false, Option, none, some, List, [], ◌∷◌,
  if◌then◌else◌,
}
use zap_stream_core.Billing.Tables.{User, UserStream, ZapStreamDb, user_by_id, stream_by_id}
use zap_stream_core.Billing.Streams.{is_live}
use zap_stream_core.Billing.Streams.Rows.{update_stream}
use zap_stream_core.Billing.External.{bill_stream}
use zap_stream_core.Billing.External.Webhooks.{
  Columns, CfApiWrapper, publish_stream_end, end_for_user, end_found, live_with_key,
  resolve_user_and_key, handle_webhook, removed,
}
use zap_stream_core.Billing.External.Webhooks.Counting.{IsSound}
use zap_stream_core.Billing.External.Webhooks.Writing.{by_own_id}
use zap_stream_core.Billing.External.Webhooks.OneLive.{live_with_key-In, handle_webhook-IsSound}
use zap_stream_core.Billing.External.Poller.{
  LiveInput, Tick, list_live_streams, get_viewer_count, should_publish_viewer_count, publish_count,
  count_viewers, after_bill, billed, poll_connected, poll_user, poll_input, poll_stream, poll_each,
  check_streams, Event, webhook, tick, run_events,
}
use zap_stream_core.Billing.External.Poller.Below.{Below-refl, Below-IsSound}
use zap_stream_core.Billing.External.Poller.Staying.{
  Stays, bill_stream-Stays, write_ended, write_listed,
}

publish_stream_end-Stays :
    (c : Columns) (now : ℕ) (published : Bool) (uid : ℕ) (before : ZapStreamDb) (w : CfApiWrapper)
    → IsSound before
    → Stays before w.db
    → Stays before (publish_stream_end c now published uid w).1.db
unfolding publish_stream_end end_for_user end_found
publish_stream_end-Stays c now published uid before w sound stays =
    go (resolve_user_and_key c now uid w.db)
  where
    ended :
        (b : Bool) (o : Option UserStream)
        → ((s : UserStream) → o ≡ some s → In s w.db.streams)
        → Stays before (end_found now b uid o w).1.db
    ended b none there = stays
    ended false (some s) there = stays
    ended true (some s) there = write_ended now s before w.db sound (there s refl) stays

    go : (o : Option (User × Option ℕ)) → Stays before (end_for_user now published uid o w).1.db
    go none = stays
    go (some (u, key_id)) =
        ended published (live_with_key u.id key_id w.db.streams)
          (live_with_key-In u.id key_id w.db.streams)

count_viewers-Stays :
    (t : Tick) (s : UserStream) (before : ZapStreamDb) (w : CfApiWrapper)
    → IsSound before
    → stream_by_id s.id before.streams ≡ some s
    → Stays before w.db
    → Stays before (count_viewers t s w).db
unfolding count_viewers
count_viewers-Stays t s before w sound listed stays =
    go
      (should_publish_viewer_count t.now s.id
        (get_viewer_count t.now s.id (t.viewers s.id) w.viewer_count_tracker).0
        w.viewer_count_states).0
      (record w {
        active_streams = s.id ∷ removed s.id w.active_streams;
        viewer_count_states =
            (should_publish_viewer_count t.now s.id
              (get_viewer_count t.now s.id (t.viewers s.id) w.viewer_count_tracker).0
              w.viewer_count_states).1;
        viewer_count_tracker =
            (get_viewer_count t.now s.id (t.viewers s.id) w.viewer_count_tracker).1;
      })
      stays
  where
    go :
        (due : Bool) (v : CfApiWrapper)
        → Stays before v.db
        → Stays before (publish_count t s due v).db
    go false v h = h
    go true v h = sent (t.published s.id)
      where
        sent :
            (b : Bool) → Stays before (if b then record v { db = update_stream s v.db } else v).db
        sent true = write_listed s before v.db sound listed h
        sent false = h

poll_stream-Stays :
    (c : Columns) (t : Tick) (s : UserStream) (before : ZapStreamDb) (w : CfApiWrapper)
    → IsSound before
    → stream_by_id s.id before.streams ≡ some s
    → Stays before w.db
    → Stays before (poll_stream c t s w).db
unfolding poll_stream poll_connected after_bill
poll_stream-Stays c t s before w sound listed stays = user (user_by_id s.user_id w.db.users)
  where
    watched :
        (plays : Bool) (v : CfApiWrapper)
        → Stays before v.db
        → Stays before (if plays then count_viewers t s v else v).db
    watched true v h = count_viewers-Stays t s before v sound listed h
    watched false v h = h

    after :
        (i : LiveInput) (over : Option Bool) (v : CfApiWrapper)
        → Stays before v.db
        → Stays before (after_bill c t s i over v).db
    after i none v h = watched i.has_playback v h
    after i (some false) v h = watched i.has_playback v h
    after i (some true) v h =
        publish_stream_end-Stays c t.now (t.published s.id) i.uid before v sound h

    connected :
        (i : LiveInput) (b : Bool)
        → Stays before
            (if b
              then billed c t s i (bill_stream s t.now w.db) w
              else (publish_stream_end c t.now (t.published s.id) i.uid w).1).db
    connected i true =
        after i (bill_stream s t.now w.db).0 (record w { db = (bill_stream s t.now w.db).1 })
          (bill_stream-Stays t.now s before w.db stays)
    connected i false =
        publish_stream_end-Stays c t.now (t.published s.id) i.uid before w sound stays

    input : (o : Option LiveInput) → Stays before (poll_connected c t s o w).db
    input none = stays
    input (some i) = connected i i.is_connected

    user : (o : Option User) → Stays before (poll_user c t s o w).db
    user none = stays
    user (some u) = input (poll_input c t u.id s.stream_key_id w.db)

poll_each-Stays :
    (c : Columns) (t : Tick) (ss : List UserStream) (before : ZapStreamDb) (w : CfApiWrapper)
    → IsSound before
    → All (λ s. (is_live s.state ≡ true) × In s before.streams) ss
    → Stays before w.db
    → Stays before (poll_each c t ss w).db
unfolding poll_each
poll_each-Stays c t [] before w sound listed stays = stays
poll_each-Stays c t (s ∷ ss) before w sound (here, listed) stays =
    poll_each-Stays c t ss before (poll_stream c t s w) sound listed
      (poll_stream-Stays c t s before w sound (by_own_id s before.streams sound.0 here.1) stays)

check_streams-IsSound :
    (c : Columns) (t : Tick) (w : CfApiWrapper) → IsSound w.db → IsSound (check_streams c t w).db
unfolding check_streams
check_streams-IsSound c t w sound =
    let (below, keys) =
      poll_each-Stays c t (list_live_streams w.db.streams) w.db w sound
        (In-retain (λ s. is_live s.state) w.db.streams) (Below-refl w.db.streams, refl) in
    Below-IsSound w.db (check_streams c t w).db sound below keys

-- Whatever webhooks come and whenever the poller runs, whether inputs are connected, events are
-- published and balances last or not: in a database where no user has two live streams of the primary
-- key, ids are unique and the stream of a custom key has a row that names a key, all three hold after
-- them.
pub run_events-IsSound :
    (c : Columns) (app_name : ℕ) (es : List Event) (w : CfApiWrapper)
    → IsSound w.db
    → IsSound (run_events c app_name es w).db
unfolding run_events
run_events-IsSound c app_name [] w sound = sound
run_events-IsSound c app_name (webhook d ∷ es) w sound =
    run_events-IsSound c app_name es
      (handle_webhook c app_name d.now d.new_id d.published d.webhook w).1
      (handle_webhook-IsSound c app_name d.now d.new_id d.published d.webhook w sound)
run_events-IsSound c app_name (tick t ∷ es) w sound =
    run_events-IsSound c app_name es (check_streams c t w) (check_streams-IsSound c t w sound)
