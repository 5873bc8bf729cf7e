-- ===== src/Billing/External/Webhooks.antt =====
-- The start and the end of a stream by the webhooks of Cloudflare,
-- crates/zap-stream-external/src/cloudflare/api.rs. Each handler is one run of the code without another
-- between its statements. The live input that a webhook belongs to, the relay that a Nostr event
-- is published to, the clock and the fresh ids are parameters.
pub mod Counting
pub mod Writing
pub mod Resuming
pub mod OneLive
pub mod Started
pub mod Repeats
pub mod Ending
use zap_stream_core.Prelude.{
  ℕ, ◌-◌, Bool, true, false, not, ◌&&◌, Option, none, some, List, [], ◌∷◌, ◌==◌, if◌then◌else◌, ltb,
  leb, find, retain,
}
use zap_stream_core.Prelude.Int.{pos}
use zap_stream_core.Billing.Tables.{
  User, UserStream, UserStreamState, live, ended, UserStreamKey, IngestEndpoint, ZapStreamDb,
  user_by_id, stream_by_id,
}
use zap_stream_core.Billing.Streams.{
  StreamKeyType, primary, fixed_event_key, not_expired, find_user_stream_key, is_live,
  UserPreviousStreams, within_window, get_user_prev_streams,
}
use zap_stream_core.Billing.Streams.Rows.{insert_stream, update_stream, set_ended}

-- The columns that only these handlers read and nothing modelled writes: `external_id` of a user and of
-- a key, and `ingest_id` of a user.
pub record Columns : Type 0 where
  pub user_external_id : ℕ → Option ℕ
  pub key_external_id : ℕ → Option ℕ
  pub ingest_id : ℕ → Option ℕ

-- The database, the stream of an input with the time of its entry, the streams that the stream manager
-- knows, and of a stream the last published and the last fetched count of viewers, each with its time.
pub record CfApiWrapper : Type 0 where
  pub db : ZapStreamDb
  pub input_stream_map : List (ℕ × ℕ × ℕ)
  pub active_streams : List ℕ
  pub viewer_count_states : List (ℕ × ℕ × ℕ)
  pub viewer_count_tracker : List (ℕ × ℕ × ℕ)

abbrev pub is_id : ℕ → Option ℕ → Bool
is_id n none = false
is_id n (some m) = m == n

abbrev pub min_by_cost : IngestEndpoint → List IngestEndpoint → IngestEndpoint
min_by_cost best [] = best
min_by_cost best (e ∷ endpoints) = min_by_cost (if ltb e.cost best.cost then e else best) endpoints

abbrev pub named_or : Option IngestEndpoint → IngestEndpoint → IngestEndpoint
named_or none default = default
named_or (some e) default = e

-- The endpoint of the user, else the one of the name, else the cheapest, the first of several.
unfoldable pub select_ingest_endpoint : List IngestEndpoint → Option ℕ → ℕ → Option IngestEndpoint
select_ingest_endpoint [] ingest_id app_name = none
select_ingest_endpoint (e ∷ endpoints) (some id) app_name = find (λ x. x.id == id) (e ∷ endpoints)
select_ingest_endpoint (e ∷ endpoints) none app_name =
    some (named_or (find (λ x. x.name == app_name) (e ∷ endpoints)) (min_by_cost e endpoints))

abbrev pub with_key : Option User → Option ℕ → Option (User × Option ℕ)
with_key none key_id = none
with_key (some u) key_id = some (u, key_id)

abbrev pub key_found : Option User → Option UserStreamKey → Option (User × Option ℕ)
key_found o none = none
key_found o (some k) = with_key o (some k.id)

-- The third path: by the key itself.
abbrev pub resolve_key_type : Option StreamKeyType → ZapStreamDb → Option (User × Option ℕ)
resolve_key_type none db = none
resolve_key_type (some (primary id)) db = with_key (user_by_id id db.users) none
resolve_key_type (some (fixed_event_key id stream_id)) db =
    key_found (user_by_id id db.users)
      (find (λ k. k.user_id == id && k.stream_id == stream_id) db.stream_keys)

abbrev pub resolve_custom :
    Option UserStreamKey → Option StreamKeyType → ZapStreamDb → Option (User × Option ℕ)
resolve_custom (some k) by_key db = with_key (user_by_id k.user_id db.users) (some k.id)
resolve_custom none by_key db = resolve_key_type by_key db

abbrev pub resolve_user :
    Option User
    → Option UserStreamKey
    → Option StreamKeyType
    → ZapStreamDb
    → Option (User × Option ℕ)
resolve_user (some u) custom by_key db = some (u, none)
resolve_user none custom by_key db = resolve_custom custom by_key db

-- The user, with the custom key's row for an input that is not the user's own; `none` is an error.
unfoldable pub resolve_user_and_key : Columns → ℕ → ℕ → ZapStreamDb → Option (User × Option ℕ)
resolve_user_and_key c now uid db =
    resolve_user (find (λ u. is_id uid (c.user_external_id u.id)) db.users)
      (find (λ k. is_id uid (c.key_external_id k.id) && not_expired now k.expires) db.stream_keys)
      (find_user_stream_key now uid db) db

abbrev pub without : ℕ → List (ℕ × ℕ × ℕ) → List (ℕ × ℕ × ℕ)
without uid = retain λ entry. not (entry.0 == uid)

-- `HashMap::insert`.
unfoldable pub register_input_mapping : ℕ → ℕ → ℕ → CfApiWrapper → CfApiWrapper
register_input_mapping now uid stream_id w = record w {
  input_stream_map = (uid, stream_id, now) ∷ without uid w.input_stream_map;
}

unfoldable pub remove_input_mapping : ℕ → CfApiWrapper → CfApiWrapper
remove_input_mapping uid w = record w { input_stream_map = without uid w.input_stream_map }

abbrev pub input_map_ttl : ℕ
input_map_ttl = 120000

abbrev pub set_resumed : ℕ → UserStream → UserStream
set_resumed endpoint s = record s { state = live; endpoint_id = some endpoint; ends = none }

abbrev pub new_live : ℕ → ℕ → ℕ → ℕ → UserStream
new_live id uid now endpoint = record {
  id = id;
  user_id = uid;
  starts = now;
  ends = none;
  state = live;
  cost = pos 0;
  duration = pos 0;
  endpoint_id = some endpoint;
  node_name = none;
  stream_key_id = none;
}

-- The stream with what has been written of it; `none` is an error, before which nothing is written.
abbrev pub Resolved : Type 0
Resolved = Option (UserStream × CfApiWrapper)

unfoldable pub resume : ℕ → ℕ → ℕ → Option UserStream → CfApiWrapper → Resolved
unfolding register_input_mapping
resume now uid endpoint none w = none
resume now uid endpoint (some found) w =
    let s = set_resumed endpoint found in
    some (s, register_input_mapping now uid s.id (record w { db = update_stream s w.db }))

abbrev pub by_id : Option ℕ → List UserStream → Option UserStream
by_id none streams = none
by_id (some id) streams = stream_by_id id streams

abbrev pub key_stream : Option UserStreamKey → List UserStream → Option UserStream
key_stream none streams = none
key_stream (some k) streams = stream_by_id k.stream_id streams

unfoldable pub insert_live : ℕ → ℕ → UserStream → Option ZapStreamDb → CfApiWrapper → Resolved
unfolding register_input_mapping
insert_live now uid s none w = none
insert_live now uid s (some db) w =
    some (s, register_input_mapping now uid s.id (record w { db = db }))

unfoldable pub resolve_primary :
    ℕ → ℕ → ℕ → User → ℕ → UserPreviousStreams → CfApiWrapper → Resolved
unfolding resume insert_live
resolve_primary now new_id uid u endpoint prev w =
    if not (prev.live_primary_count == 0)
    then none
    else if within_window now prev.last_ended
    then resume now uid endpoint (by_id prev.last_stream_id w.db.streams) w
    else insert_live now uid (new_live new_id u.id now endpoint)
        (insert_stream (new_live new_id u.id now endpoint) w.db) w

unfoldable pub resolve_with :
    ℕ → ℕ → ℕ → User → Option ℕ → Option IngestEndpoint → CfApiWrapper → Resolved
unfolding resume resolve_primary
resolve_with now new_id uid u key_id none w = none
resolve_with now new_id uid u (some key_id) (some endpoint) w =
    resume now uid endpoint.id
      (key_stream (find (λ k. k.user_id == u.id && k.id == key_id) w.db.stream_keys) w.db.streams) w
resolve_with now new_id uid u none (some endpoint) w =
    resolve_primary now new_id uid u endpoint.id (get_user_prev_streams u.id w.db.streams) w

-- `app_name` is that of the connection, "cloudflare".
unfoldable pub resolve_or_create_stream :
    Columns → ℕ → ℕ → ℕ → ℕ → User → Option ℕ → CfApiWrapper → Resolved
unfolding resolve_with select_ingest_endpoint
resolve_or_create_stream c app_name now new_id uid u key_id w =
    resolve_with now new_id uid u key_id
      (select_ingest_endpoint w.db.endpoints (c.ingest_id u.id) app_name) w

abbrev pub mapped_id : Option (ℕ × ℕ × ℕ) → Option ℕ
mapped_id none = none
mapped_id (some entry) = some entry.1

-- A mapping to a stream that is gone is removed.
abbrev pub mapped_stream : ℕ → Option ℕ → CfApiWrapper → Option UserStream × CfApiWrapper
mapped_stream uid none w = (none, w)
mapped_stream uid (some id) w = elim (stream_by_id id w.db.streams) [
  | none ↦ (none, remove_input_mapping uid w)
  | some s ↦ (some s, w)
]

abbrev pub pruned : ℕ → CfApiWrapper → CfApiWrapper
pruned now w = record w {
  input_stream_map = retain (λ entry. leb (now - entry.2) input_map_ttl) w.input_stream_map;
}

unfoldable pub get_mapped_stream : ℕ → ℕ → CfApiWrapper → Option UserStream × CfApiWrapper
unfolding remove_input_mapping
get_mapped_stream now uid w =
    let p = pruned now w in
    mapped_stream uid (mapped_id (find (λ entry. entry.0 == uid) p.input_stream_map)) p

abbrev pub should_skip_duplicate_webhook : Option UserStream → Bool
should_skip_duplicate_webhook none = false
should_skip_duplicate_webhook (some s) = is_live s.state

pub data Reply : Type 0 where
  done skipped no_live_streams failed : Reply

-- An event that is not published rolls the row back.
unfoldable pub finish_start : ℕ → Bool → ℕ → UserStream → CfApiWrapper → Reply × CfApiWrapper
unfolding remove_input_mapping
finish_start now true uid s w = (done, record w { db = update_stream s w.db })
finish_start now false uid s w =
    (failed, remove_input_mapping uid (record w { db = update_stream (set_ended now s) w.db }))

unfoldable pub start_resolved : ℕ → Bool → ℕ → Resolved → CfApiWrapper → Reply × CfApiWrapper
unfolding finish_start
start_resolved now published uid none w = (failed, w)
start_resolved now published uid (some (s, after)) w = finish_start now published uid s after

unfoldable pub start_for_user :
    Columns → ℕ → ℕ → ℕ → Bool → ℕ → Option (User × Option ℕ) → CfApiWrapper → Reply × CfApiWrapper
unfolding start_resolved resolve_or_create_stream
start_for_user c app_name now new_id published uid none w = (failed, w)
start_for_user c app_name now new_id published uid (some (u, key_id)) w =
    start_resolved now published uid (resolve_or_create_stream c app_name now new_id uid u key_id w)
      w

unfoldable pub publish_stream_start :
    Columns → ℕ → ℕ → ℕ → Bool → ℕ → CfApiWrapper → Reply × CfApiWrapper
unfolding get_mapped_stream start_for_user resolve_user_and_key
publish_stream_start c app_name now new_id published uid w =
    let (mapped, p) = get_mapped_stream now uid w in
    if should_skip_duplicate_webhook mapped
    then (skipped, p)
    else start_for_user c app_name now new_id published uid (resolve_user_and_key c now uid p.db) p

abbrev pub same_key : Option ℕ → Option ℕ → Bool
same_key none none = true
same_key none (some n) = false
same_key (some m) o = is_id m o

abbrev pub removed : ℕ → List ℕ → List ℕ
removed id = retain λ i. not (i == id)

-- The event is published first: when that fails, nothing has changed.
unfoldable pub end_found : ℕ → Bool → ℕ → Option UserStream → CfApiWrapper → Reply × CfApiWrapper
unfolding remove_input_mapping
end_found now published uid none w = (no_live_streams, w)
end_found now false uid (some s) w = (failed, w)
end_found now true uid (some s) w = (
  done,
  remove_input_mapping uid (record w {
    db = update_stream (set_ended now s) w.db;
    active_streams = removed s.id w.active_streams;
    viewer_count_states = without s.id w.viewer_count_states;
    viewer_count_tracker = without s.id w.viewer_count_tracker;
  }),
)

unfoldable pub live_with_key : ℕ → Option ℕ → List UserStream → Option UserStream
live_with_key uid key_id =
    find λ s. s.user_id == uid && is_live s.state && same_key s.stream_key_id key_id

unfoldable pub end_for_user :
    ℕ → Bool → ℕ → Option (User × Option ℕ) → CfApiWrapper → Reply × CfApiWrapper
unfolding end_found live_with_key
end_for_user now published uid none w = (failed, w)
end_for_user now published uid (some (u, key_id)) w =
    end_found now published uid (live_with_key u.id key_id w.db.streams) w

unfoldable pub publish_stream_end : Columns → ℕ → Bool → ℕ → CfApiWrapper → Reply × CfApiWrapper
unfolding end_for_user resolve_user_and_key
publish_stream_end c now published uid w =
    end_for_user now published uid (resolve_user_and_key c now uid w.db) w

-- A webhook with the input that it belongs to; `none` where that cannot be loaded.
pub data Webhook : Type 0 where
  connected disconnected : Option ℕ → Webhook
  unknown_event : Webhook

abbrev pub forgive_ended : Reply × CfApiWrapper → Reply × CfApiWrapper
forgive_ended (no_live_streams, w) = (done, w)
forgive_ended (done, w) = (done, w)
forgive_ended (skipped, w) = (skipped, w)
forgive_ended (failed, w) = (failed, w)

-- The two webhooks of a live input. A disconnected stream that is ended already is no error.
unfoldable pub handle_webhook :
    Columns → ℕ → ℕ → ℕ → Bool → Webhook → CfApiWrapper → Reply × CfApiWrapper
unfolding publish_stream_start publish_stream_end
handle_webhook c app_name now new_id published (connected none) w = (failed, w)
handle_webhook c app_name now new_id published (connected (some uid)) w =
    publish_stream_start c app_name now new_id published uid w
handle_webhook c app_name now new_id published (disconnected none) w = (failed, w)
handle_webhook c app_name now new_id published (disconnected (some uid)) w =
    forgive_ended (publish_stream_end c now published uid w)
handle_webhook c app_name now new_id published unknown_event w = (done, w)

-- What comes with one webhook: the time, a fresh id and whether the event is published.
pub record Delivery : Type 0 where
  pub now : ℕ
  pub new_id : ℕ
  pub published : Bool
  pub webhook : Webhook

unfoldable pub run_webhooks : Columns → ℕ → List Delivery → CfApiWrapper → CfApiWrapper
unfolding handle_webhook
run_webhooks c app_name [] w = w
run_webhooks c app_name (d ∷ ds) w =
    run_webhooks c app_name ds (handle_webhook c app_name d.now d.new_id d.published d.webhook w).1
