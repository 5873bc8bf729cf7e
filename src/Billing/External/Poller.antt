-- ===== src/Billing/External/Poller.antt =====
-- The poller of live streams, `check_streams` of crates/zap-stream-external/src/cloudflare/api.rs. What
-- Cloudflare answers, whether an event is published and the clock are parameters of one tick.
pub mod Stale
pub mod Below
pub mod Staying
pub mod OneLive
use zap_stream_core.Prelude.{
  ℕ, ◌-◌, Bool, true, false, ◌&&◌, Option, none, some, List, [], ◌∷◌, ◌==◌, if◌then◌else◌, ltb,
  find, retain,
}
use zap_stream_core.Billing.Tables.{User, UserStream, UserStreamKey, ZapStreamDb, user_by_id}
use zap_stream_core.Billing.Streams.{is_live}
use zap_stream_core.Billing.Streams.Rows.{update_stream}
use zap_stream_core.Billing.External.{bill_stream}
use zap_stream_core.Billing.External.Webhooks.{
  Delivery, handle_webhook, Columns, CfApiWrapper, without, removed, publish_stream_end,
}

-- `has_playback`: the input has the address from which that of the stream is made.
pub record LiveInput : Type 0 where
  pub uid : ℕ
  pub is_connected : Bool
  pub has_playback : Bool

-- The inputs of users and of the external ids of keys, the viewers of a stream, and whether its event is
-- published.
pub record Tick : Type 0 where
  pub now : ℕ
  pub user_input : ℕ → Option LiveInput
  pub key_input : ℕ → Option LiveInput
  pub viewers : ℕ → Option ℕ
  pub published : ℕ → Bool

abbrev pub list_live_streams : List UserStream → List UserStream
list_live_streams = retain λ s. is_live s.state

abbrev pub cache_duration : ℕ
cache_duration = 30000

abbrev pub fetched_count : ℕ → ℕ → Option ℕ → List (ℕ × ℕ × ℕ) → ℕ × List (ℕ × ℕ × ℕ)
fetched_count now id none cache = (0, cache)
fetched_count now id (some count) cache = (count, (id, count, now) ∷ without id cache)

abbrev pub cached_count :
    ℕ → ℕ → Option ℕ → Option (ℕ × ℕ × ℕ) → List (ℕ × ℕ × ℕ) → ℕ × List (ℕ × ℕ × ℕ)
cached_count now id fetched none cache = fetched_count now id fetched cache
cached_count now id fetched (some entry) cache =
    if ltb (now - entry.2) cache_duration
    then (entry.1, cache)
    else fetched_count now id fetched cache

-- A count that cannot be fetched is 0 and is not cached.
unfoldable pub get_viewer_count : ℕ → ℕ → Option ℕ → List (ℕ × ℕ × ℕ) → ℕ × List (ℕ × ℕ × ℕ)
get_viewer_count now id fetched cache =
    cached_count now id fetched (find (λ entry. entry.0 == id) cache) cache

abbrev pub min_update : ℕ
min_update = 300000

abbrev pub publish_after :
    ℕ → ℕ → ℕ → Option (ℕ × ℕ × ℕ) → List (ℕ × ℕ × ℕ) → Bool × List (ℕ × ℕ × ℕ)
publish_after now id count none states = (true, (id, count, now) ∷ states)
publish_after now id count (some entry) states =
    if count == entry.1
    then (false, states)
    else if ltb (now - entry.2) min_update
    then (false, states)
    else (true, (id, count, now) ∷ without id states)

unfoldable pub should_publish_viewer_count : ℕ → ℕ → ℕ → List (ℕ × ℕ × ℕ) → Bool × List (ℕ × ℕ × ℕ)
should_publish_viewer_count now id count states =
    publish_after now id count (find (λ entry. entry.0 == id) states) states

abbrev pub input_of : Tick → Option ℕ → Option LiveInput
input_of t none = none
input_of t (some external_id) = t.key_input external_id

abbrev pub key_row_input : Columns → Tick → Option UserStreamKey → Option LiveInput
key_row_input c t none = none
key_row_input c t (some k) = input_of t (c.key_external_id k.id)

-- The input of a stream's key, whether the key has expired or not.
unfoldable pub poll_input : Columns → Tick → ℕ → Option ℕ → ZapStreamDb → Option LiveInput
poll_input c t uid none db = t.user_input uid
poll_input c t uid (some key_id) db = key_row_input c t (find (λ k. k.id == key_id) db.stream_keys)

-- The row is written as it was listed.
abbrev pub publish_count : Tick → UserStream → Bool → CfApiWrapper → CfApiWrapper
publish_count t s false w = w
publish_count t s true w = if t.published s.id then record w { db = update_stream s w.db } else w

unfoldable pub count_viewers : Tick → UserStream → CfApiWrapper → CfApiWrapper
unfolding get_viewer_count should_publish_viewer_count
count_viewers t s w =
    let (count, cache) = get_viewer_count t.now s.id (t.viewers s.id) w.viewer_count_tracker in
    let (due, states) = should_publish_viewer_count t.now s.id count w.viewer_count_states in
    publish_count t s due (record w {
      active_streams = s.id ∷ removed s.id w.active_streams;
      viewer_count_states = states;
      viewer_count_tracker = cache;
    })

-- A bill that fails stops nothing.
unfoldable pub after_bill :
    Columns → Tick → UserStream → LiveInput → Option Bool → CfApiWrapper → CfApiWrapper
unfolding publish_stream_end count_viewers
after_bill c t s i (some true) w = (publish_stream_end c t.now (t.published s.id) i.uid w).1
after_bill c t s i (some false) w = if i.has_playback then count_viewers t s w else w
after_bill c t s i none w = if i.has_playback then count_viewers t s w else w

abbrev pub billed :
    Columns
    → Tick
    → UserStream
    → LiveInput
    → Option Bool × ZapStreamDb
    → CfApiWrapper
    → CfApiWrapper
billed c t s i (over, db) w = after_bill c t s i over (record w { db = db })

unfoldable pub poll_connected :
    Columns → Tick → UserStream → Option LiveInput → CfApiWrapper → CfApiWrapper
unfolding after_bill bill_stream
poll_connected c t s none w = w
poll_connected c t s (some i) w =
    if i.is_connected
    then billed c t s i (bill_stream s t.now w.db) w
    else (publish_stream_end c t.now (t.published s.id) i.uid w).1

abbrev pub poll_user : Columns → Tick → UserStream → Option User → CfApiWrapper → CfApiWrapper
poll_user c t s none w = w
poll_user c t s (some u) w = poll_connected c t s (poll_input c t u.id s.stream_key_id w.db) w

unfoldable pub poll_stream : Columns → Tick → UserStream → CfApiWrapper → CfApiWrapper
unfolding poll_connected poll_input
poll_stream c t s w = poll_user c t s (user_by_id s.user_id w.db.users) w

pub poll_each : Columns → Tick → List UserStream → CfApiWrapper → CfApiWrapper
unfolding poll_stream
poll_each c t [] w = w
poll_each c t (s ∷ streams) w = poll_each c t streams (poll_stream c t s w)

-- One tick: the streams are listed once.
unfoldable pub check_streams : Columns → Tick → CfApiWrapper → CfApiWrapper
unfolding poll_each
check_streams c t w = poll_each c t (list_live_streams w.db.streams) w

-- What comes to the program: a webhook or a tick of the poller.
pub data Event : Type 0 where
  webhook : Delivery → Event
  tick : Tick → Event

unfoldable pub run_events : Columns → ℕ → List Event → CfApiWrapper → CfApiWrapper
unfolding check_streams handle_webhook
run_events c app_name [] w = w
run_events c app_name (webhook d ∷ es) w =
    run_events c app_name es (handle_webhook c app_name d.now d.new_id d.published d.webhook w).1
run_events c app_name (tick t ∷ es) w = run_events c app_name es (check_streams c t w)
