-- ===== src/Billing/Streams/Rows.antt =====
-- What crates/zap-stream/src/overseer.rs writes to the streams' rows when a stream starts, changes
-- and ends. What a relay, the egress configuration and the stream manager answer are parameters.
pub mod Writing
pub mod Balanced
pub mod Race
pub mod Lookup
pub mod Steps
pub mod Unfinished
pub mod Checking
mod Keeping
use zap_stream_core.Prelude.{
  ℕ, ◌-◌, ◌+◌, ◌/◌, Bool, true, false, not, ◌&&◌, ◌||◌, Option, none, some, List, [], ◌∷◌, ◌==◌,
  if◌then◌else◌, ltb, any, map,
}
use zap_stream_core.Prelude.Int.{ℤ, pos}
use zap_stream_core.Billing.Tables.{
  User, UserStream, UserStreamState, live, ended, IngestEndpoint, ZapStreamDb, user_by_id,
  stream_by_id, update_stream_row,
}
use zap_stream_core.Billing.Ledger.{has_user}
use zap_stream_core.Billing.Streams.{
  StreamKeyType, primary, fixed_event_key, get_user_key, detect_endpoint, is_live, is_ended,
  ConnectionInfo, seconds_apart, reconnect_window_seconds,
}

abbrev pub has_stream : ℕ → List UserStream → Bool
has_stream id = any λ s. s.id == id

-- The id is the primary key, and the user is a foreign key.
unfoldable pub insert_stream : UserStream → ZapStreamDb → Option ZapStreamDb
insert_stream s db =
    if has_stream s.id db.streams || not (has_user s.user_id db.users)
    then none
    else some (record db { streams = s ∷ db.streams })

-- The columns that the statement sets: all but the id and the user.
unfoldable pub written : UserStream → UserStream → UserStream
written new old = record old {
  starts = new.starts;
  ends = new.ends;
  state = new.state;
  cost = new.cost;
  duration = new.duration;
  endpoint_id = new.endpoint_id;
  node_name = new.node_name;
  stream_key_id = new.stream_key_id;
}

unfoldable pub update_stream : UserStream → ZapStreamDb → ZapStreamDb
unfolding written
update_stream s db = record db { streams = update_stream_row s.id (written s) db.streams }

pub record Node : Type 0 where
  pub node_name : ℕ
  -- Whether the egress configuration yields variants, and one of them a video source.
  pub variants_configured : Bool
  pub video_source : Bool
  -- Whether the stream's event is published.
  pub published : Bool

pub data StartError : Type 0 where
  user_not_found no_endpoint no_variants insert_refused stream_not_found no_video publish_failed :
      StartError

pub set_live : ℕ → ℕ → UserStream → UserStream
set_live node endpoint s = record s {
  state = live;
  node_name = some node;
  endpoint_id = some endpoint;
  ends = none;
}

pub new_stream : ℕ → ℕ → ℕ → ℕ → ℕ → UserStream
new_stream id uid now node endpoint = record {
  id = id;
  user_id = uid;
  starts = now;
  ends = none;
  state = live;
  cost = pos 0;
  duration = pos 0;
  endpoint_id = some endpoint;
  node_name = some node;
  stream_key_id = none;
}

pub data Row : Type 0 where
  row : UserStream → ZapStreamDb → Row
  refused : StartError → Row

pub inserted : UserStream → Option ZapStreamDb → Row
inserted s none = refused insert_refused
inserted s (some db) = row s db

pub resumed_row : ℕ → ℕ → Option UserStream → ZapStreamDb → Row
unfolding set_live
resumed_row node endpoint none db = refused stream_not_found
resumed_row node endpoint (some s) db = row (set_live node endpoint s) db

-- The row of the new or resumed stream, which only an insertion has written.
pub start_row : ℕ → ℕ → ℕ → StreamKeyType → ℕ → Option UserStream → ZapStreamDb → Row
unfolding inserted resumed_row set_live new_stream
start_row now node endpoint (primary uid) id (some prev) db = row (set_live node endpoint prev) db
start_row now node endpoint (primary uid) id none db =
    let s = new_stream id uid now node endpoint in inserted s (insert_stream s db)
start_row now node endpoint (fixed_event_key uid stream_id) id prev db =
    resumed_row node endpoint (stream_by_id stream_id db.streams) db

-- The row is written last; an error before leaves what was inserted.
pub finish_start : Node → Row → ZapStreamDb → Option StartError × ZapStreamDb
unfolding update_stream
finish_start node (refused e) db = (some e, db)
finish_start node (row s after) db =
    if not node.video_source
    then (some no_video, after)
    else if not node.published
    then (some publish_failed, after)
    else (none, update_stream s after)

pub start_at :
    ℕ
    → Node
    → ℕ
    → Option IngestEndpoint
    → StreamKeyType
    → ZapStreamDb
    → Option StartError × ZapStreamDb
unfolding finish_start start_row
start_at now node id none key db = (some no_endpoint, db)
start_at now node id (some endpoint) key db =
    if node.variants_configured
    then finish_start node
        (start_row now node.node_name endpoint.id key id (stream_by_id id db.streams) db) db
    else (some no_variants, db)

pub start_for :
    ℕ
    → Node
    → ConnectionInfo
    → Option (StreamKeyType × User)
    → ZapStreamDb
    → Option StartError × ZapStreamDb
unfolding start_at
start_for now node info none db = (some user_not_found, db)
start_for now node info (some (key, u)) db =
    start_at now node info.id (detect_endpoint info.app_name db.endpoints) key db

unfoldable pub start_stream :
    ℕ → Node → ConnectionInfo → ZapStreamDb → Option StartError × ZapStreamDb
unfolding start_for
start_stream now node info db = start_for now node info (get_user_key now info.key db) db

unfoldable pub set_ended : ℕ → UserStream → UserStream
set_ended now s = record s { state = ended; ends = some now }

-- A stream without a row, or a user without one, is an error that writes nothing.
pub write_found : (UserStream → UserStream) → Option UserStream → ZapStreamDb → Bool × ZapStreamDb
unfolding update_stream
write_found f none db = (false, db)
write_found f (some s) db =
    if has_user s.user_id db.users then (true, update_stream (f s) db) else (false, db)

-- The event of an ended stream is built before the write; publishing it cannot fail the call.
unfoldable pub on_end : Bool → ℕ → ℕ → ZapStreamDb → Bool × ZapStreamDb
unfolding write_found set_ended
on_end event_built now id db =
    if event_built then write_found (set_ended now) (stream_by_id id db.streams) db else (false, db)

-- The event is published first, and `published` says whether that succeeds; then the row is written as it
-- was read.
unfoldable pub on_update : Bool → ℕ → ZapStreamDb → Bool × ZapStreamDb
unfolding write_found
on_update published id db =
    if published then write_found (λ s. s) (stream_by_id id db.streams) db else (false, db)

abbrev on_node : ℕ → Option ℕ → Bool
on_node node none = false
on_node node (some n) = n == node

unfoldable pub list_live_streams_by_node : ℕ → List UserStream → List UserStream
list_live_streams_by_node node [] = []
list_live_streams_by_node node (s ∷ streams) =
    let rest = list_live_streams_by_node node streams in
    if is_live s.state && on_node node s.node_name then s ∷ rest else rest

-- What the stream manager says of a stream: `(is_active, should_timeout)`.
abbrev pub Status : Type 0
Status = ℕ → Bool × Bool

unfoldable pub is_dead : Status → ℕ → Bool
is_dead status id = not (status id).0 || (status id).1

-- What a check meets of each stream: whether its id parses as a UUID, its status, whether the event of
-- its end is built, and whether the event of the live stream is built and published.
pub record Round : Type 0 where
  pub is_uuid : ℕ → Bool
  pub status : Status
  pub end_built : ℕ → Bool
  pub live_published : ℕ → Bool

-- The tables, and the second in which each stream's event was last published.
pub record CheckState : Type 0 where
  pub db : ZapStreamDb
  pub last_event_publish : ℕ → Option ℕ

pub data CheckError : Type 0 where
  invalid_uuid publish_failed : ℕ → CheckError

abbrev unwrap_or_zero : Option ℕ → ℕ
unwrap_or_zero none = 0
unwrap_or_zero (some n) = n

-- `now` is in milliseconds.
pub is_publish_due : ℕ → Option ℕ → Bool
is_publish_due now last_pub = ltb 60 (now / 1000 - unwrap_or_zero last_pub)

abbrev assign : ℕ → Option ℕ → (ℕ → Option ℕ) → ℕ → Option ℕ
assign id value map n = if n == id then value else map n

-- `publish_stream_event` of a live stream whose event is due and whose user is found.
pub republish : ℕ → Round → UserStream → CheckState → Option CheckError × CheckState
unfolding is_publish_due
republish now round s c =
    if is_publish_due now (c.last_event_publish s.id) && has_user s.user_id c.db.users
    then if round.live_published s.id
      then (
        none,
        record c { last_event_publish = assign s.id (some (now / 1000)) c.last_event_publish },
      )
      else (some (publish_failed s.id), c)
    else (none, c)

-- A failure of `on_end` is only logged.
pub end_dead : ℕ → Round → UserStream → CheckState → CheckState
unfolding on_end
end_dead now round s c =
    let (done, db) = on_end (round.end_built s.id) now s.id c.db in
    record c {
      db = db;
      last_event_publish =
          if done then assign s.id none c.last_event_publish else c.last_event_publish;
    }

pub check_one : ℕ → Round → UserStream → CheckState → Option CheckError × CheckState
unfolding end_dead republish is_dead
check_one now round s c =
    if not (round.is_uuid s.id)
    then (some (invalid_uuid s.id), c)
    else if is_dead round.status s.id
    then (none, end_dead now round s c)
    else republish now round s c

-- An error ends the loop (`?`).
pub go_on :
    (CheckState → Option CheckError × CheckState)
    → Option CheckError × CheckState
    → Option CheckError × CheckState
go_on rest (none, c) = rest c
go_on rest (some e, c) = (some e, c)

pub check_each : ℕ → Round → List UserStream → CheckState → Option CheckError × CheckState
unfolding check_one go_on
check_each now round [] c = (none, c)
check_each now round (s ∷ streams) c =
    go_on (check_each now round streams) (check_one now round s c)

unfoldable pub check_streams : ℕ → ℕ → Round → CheckState → Option CheckError × CheckState
unfolding check_each list_live_streams_by_node
check_streams now node round c =
    check_each now round (list_live_streams_by_node node c.db.streams) c
