-- ===== src/Billing/Streams.antt =====
-- The life of a stream's row: `connect`, `start_stream`, `on_end`, `on_update` and `check_streams` of
-- crates/zap-stream/src/overseer.rs and the statements of crates/zap-stream-db/src/db.rs that they use.
-- An endpoint's name stands for its letters without their case. Each function is one run of the
-- code without another between its statements; `Race` takes such a run apart.
pub mod Rows
pub mod Admission
use zap_stream_core.Prelude.{
  ℕ, ◌+◌, ◌-◌, ◌/◌, Bool, true, false, not, ◌&&◌, ◌||◌, Option, none, some, List, [], ◌∷◌, ◌==◌,
  if◌then◌else◌, ltb, leb, find,
}
use zap_stream_core.Prelude.Int.{ℤ, pos, leb_ℤ}
use zap_stream_core.Billing.Tables.{
  User, UserStream, UserStreamState, unknown, planned, live, ended, UserStreamKey, IngestEndpoint,
  ZapStreamDb, user_by_id, stream_by_id, update_stream_row,
}

pub data StreamKeyType : Type 0 where
  primary : ℕ → StreamKeyType
  fixed_event_key : ℕ → ℕ → StreamKeyType

abbrev pub user_id : StreamKeyType → ℕ
user_id (primary id) = id
user_id (fixed_event_key id stream_id) = id

unfoldable pub not_expired : ℕ → Option ℕ → Bool
not_expired now none = true
not_expired now (some t) = ltb now t

stream_key_of : Option UserStreamKey → Option StreamKeyType
stream_key_of none = none
stream_key_of (some k) = some (fixed_event_key k.user_id k.stream_id)

unfoldable pub find_user_stream_key : ℕ → ℕ → ZapStreamDb → Option StreamKeyType
unfolding not_expired stream_key_of
find_user_stream_key now key db = elim (find (λ u. u.stream_key == key) db.users) [
  | some u ↦ some (primary u.id)
  | none ↦ stream_key_of (find (λ k. k.key == key && not_expired now k.expires) db.stream_keys)
]

pub user_of_key : Option StreamKeyType → ZapStreamDb → Option (StreamKeyType × User)
user_of_key none db = none
user_of_key (some k) db = elim (user_by_id (user_id k) db.users) [
  | none ↦ none
  | some u ↦ some (k, u)
]

unfoldable pub get_user_key : ℕ → ℕ → ZapStreamDb → Option (StreamKeyType × User)
unfolding find_user_stream_key user_of_key
get_user_key now key db = user_of_key (find_user_stream_key now key db) db

-- `max_by_key` keeps the last of the largest.
unfoldable pub max_by_cost : IngestEndpoint → List IngestEndpoint → IngestEndpoint
max_by_cost best [] = best
max_by_cost best (e ∷ endpoints) = max_by_cost (if leb best.cost e.cost then e else best) endpoints

endpoint_or : Option IngestEndpoint → IngestEndpoint → IngestEndpoint
endpoint_or none default = default
endpoint_or (some e) default = e

unfoldable pub detect_endpoint : ℕ → List IngestEndpoint → Option IngestEndpoint
unfolding max_by_cost endpoint_or
detect_endpoint app_name [] = none
detect_endpoint app_name (e ∷ endpoints) =
    some (endpoint_or (find (λ x. x.name == app_name) (e ∷ endpoints)) (max_by_cost e endpoints))

abbrev pub is_live : UserStreamState → Bool
is_live live = true
is_live unknown = false
is_live planned = false
is_live ended = false

abbrev pub is_ended : UserStreamState → Bool
is_ended ended = true
is_ended unknown = false
is_ended planned = false
is_ended live = false

abbrev pub is_none : Option ℕ → Bool
is_none none = true
is_none (some n) = false

pub record UserPreviousStreams : Type 0 where
  pub live_primary_count : ℕ
  pub last_ended : Option ℕ
  pub last_stream_id : Option ℕ

unfoldable pub live_primary_count : ℕ → List UserStream → ℕ
live_primary_count uid [] = 0
live_primary_count uid (s ∷ streams) =
    (if s.user_id == uid && is_live s.state && is_none s.stream_key_id then 1 else 0)
    + live_primary_count uid streams

-- Descending order puts null last.
pub ended_later : Option ℕ → Option ℕ → Bool
ended_later none b = false
ended_later (some a) none = true
ended_later (some a) (some b) = ltb b a

pub later_stream : UserStream → Option UserStream → Option UserStream
unfolding ended_later
later_stream s none = some s
later_stream s (some t) = if ended_later t.ends s.ends then some t else some s

unfoldable pub last_primary : ℕ → List UserStream → Option UserStream
unfolding later_stream
last_primary uid [] = none
last_primary uid (s ∷ streams) =
    let rest = last_primary uid streams in
    if s.user_id == uid && is_ended s.state && is_none s.stream_key_id
    then later_stream s rest
    else rest

pub ends_of : Option UserStream → Option ℕ
ends_of none = none
ends_of (some s) = s.ends

unfoldable pub id_of : Option UserStream → Option ℕ
id_of none = none
id_of (some s) = some s.id

unfoldable pub get_user_prev_streams : ℕ → List UserStream → UserPreviousStreams
unfolding live_primary_count last_primary ends_of id_of
get_user_prev_streams uid streams = record {
  live_primary_count = live_primary_count uid streams;
  last_ended = ends_of (last_primary uid streams);
  last_stream_id = id_of (last_primary uid streams);
}

pub data DenyReason : Type 0 where
  not_enough_balance user_blocked primary_key_in_use : DenyReason

pub data ConnectError : Type 0 where
  invalid_stream_key no_endpoints no_previous_stream : ConnectError

pub data ConnectResult : Type 0 where
  deny : DenyReason → ConnectResult
  allow : Bool → Option ℕ → ConnectResult
  failed : ConnectError → ConnectResult

abbrev pub reconnect_window_seconds : ℕ
reconnect_window_seconds = 120

-- Whole seconds apart, of times in milliseconds.
abbrev pub seconds_apart : ℕ → ℕ → ℕ
seconds_apart a b = (a / 1000 - b / 1000) + (b / 1000 - a / 1000)

unfoldable pub within_window : ℕ → Option ℕ → Bool
within_window now none = false
within_window now (some t) = ltb (seconds_apart t now) reconnect_window_seconds

pub resume_id : Bool → Option ℕ → ConnectResult
resume_id dump none = failed no_previous_stream
resume_id dump (some id) = allow dump (some id)

pub allowed : ℕ → StreamKeyType → Bool → UserPreviousStreams → ConnectResult
unfolding within_window resume_id
allowed now (primary id) dump prev =
    if prev.live_primary_count == 0 && within_window now prev.last_ended
    then resume_id dump prev.last_stream_id
    else allow dump none
allowed now (fixed_event_key id stream_id) dump prev = allow dump (some stream_id)

abbrev pub is_primary : StreamKeyType → Bool
is_primary (primary id) = true
is_primary (fixed_event_key id stream_id) = false

pub admit : ℕ → StreamKeyType → User → IngestEndpoint → ZapStreamDb → ConnectResult
unfolding allowed get_user_prev_streams
admit now key u endpoint db =
    let prev = get_user_prev_streams u.id db.streams in
    if leb_ℤ u.balance (pos 0) && not (endpoint.cost == 0)
    then deny not_enough_balance
    else if u.is_blocked
    then deny user_blocked
    else if is_primary key && not (prev.live_primary_count == 0)
    then deny primary_key_in_use
    else allowed now key u.stream_dump_recording prev

pub admit_at : ℕ → Option IngestEndpoint → StreamKeyType → User → ZapStreamDb → ConnectResult
unfolding admit
admit_at now none key u db = failed no_endpoints
admit_at now (some endpoint) key u db = admit now key u endpoint db

pub admit_user : ℕ → ℕ → Option (StreamKeyType × User) → ZapStreamDb → ConnectResult
unfolding admit_at detect_endpoint
admit_user now app_name none db = failed invalid_stream_key
admit_user now app_name (some (key, u)) db =
    admit_at now (detect_endpoint app_name db.endpoints) key u db

pub record ConnectionInfo : Type 0 where
  pub id : ℕ
  pub app_name : ℕ
  pub key : ℕ

unfoldable pub connect : ℕ → ConnectionInfo → ZapStreamDb → ConnectResult
unfolding admit_user get_user_key
connect now info db = admit_user now info.app_name (get_user_key now info.key db) db
