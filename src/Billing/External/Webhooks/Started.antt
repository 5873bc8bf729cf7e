-- ===== src/Billing/External/Webhooks/Started.antt =====
-- What a stream that a webhook has started leaves behind,
-- crates/zap-stream-external/src/cloudflare/api.rs.
use zap_stream_core.Prelude.{
  ℕ, ◌≡◌, refl, sym, ap, subst, Bool, true, false, not, ◌&&◌, Option, none, some, ◌==◌,
  if◌then◌else◌, find,
}
use zap_stream_core.Billing.Tables.{User, UserStream, IngestEndpoint, ZapStreamDb, stream_by_id}
use zap_stream_core.Billing.Ledger.Paid.{self_eq}
use zap_stream_core.Billing.Streams.{
  is_live, within_window, UserPreviousStreams, get_user_prev_streams,
}
use zap_stream_core.Billing.Streams.Rows.{insert_stream, written, update_stream}
use zap_stream_core.Billing.Streams.Rows.Race.{updated_row}
use zap_stream_core.Billing.External.Webhooks.{
  Columns, CfApiWrapper, register_input_mapping, new_live, Resolved, resume, by_id, key_stream,
  insert_live, resolve_primary, resolve_with, resolve_or_create_stream, done, skipped, finish_start,
  start_resolved, start_for_user, publish_stream_start, get_mapped_stream, resolve_user_and_key,
  select_ingest_endpoint, should_skip_duplicate_webhook,
}
use zap_stream_core.Billing.External.Webhooks.Counting.{IsSound}
use zap_stream_core.Billing.External.Webhooks.OneLive.{get_mapped_stream-db}
use zap_stream_core.Billing.External.Webhooks.Resuming.{
  IsWritten, resolve_or_create_stream-IsWritten,
}

-- The stream is live, and the input's entry is the stream's, of this time.
abbrev IsMapped : ℕ → ℕ → Resolved → Type 0
IsMapped now uid none = Unit {0}
IsMapped now uid (some (s, w)) =
    (is_live s.state ≡ true)
    × (find (λ entry. entry.0 == uid) w.input_stream_map ≡ some (uid, s.id, now))

registered :
    (now uid id : ℕ) (w : CfApiWrapper)
    → find (λ entry. entry.0 == uid) (register_input_mapping now uid id w).input_stream_map
      ≡ some (uid, id, now)
unfolding register_input_mapping
registered now uid id w = rw (sym (self_eq uid)) refl

resume-IsMapped :
    (now uid endpoint : ℕ) (o : Option UserStream) (w : CfApiWrapper)
    → IsMapped now uid (resume now uid endpoint o w)
unfolding resume
resume-IsMapped now uid endpoint none w = tt
resume-IsMapped now uid endpoint (some s) w = (refl, registered now uid s.id w)

resolve_primary-IsMapped :
    (now new_id uid : ℕ) (u : User) (endpoint : ℕ) (prev : UserPreviousStreams) (w : CfApiWrapper)
    → IsMapped now uid (resolve_primary now new_id uid u endpoint prev w)
unfolding resolve_primary
resolve_primary-IsMapped now new_id uid u endpoint prev w =
    go (prev.live_primary_count == 0) (within_window now prev.last_ended)
  where
    s : UserStream
    s = new_live new_id u.id now endpoint

    go :
        (free recent : Bool)
        → IsMapped now uid (
            if not free
            then none
            else if recent
            then resume now uid endpoint (by_id prev.last_stream_id w.db.streams) w
            else insert_live now uid s (insert_stream s w.db) w)
    go false recent = tt
    go true true = resume-IsMapped now uid endpoint (by_id prev.last_stream_id w.db.streams) w
    go true false = inserted (insert_stream s w.db)
      where
        inserted : (o : Option ZapStreamDb) → IsMapped now uid (insert_live now uid s o w)
        inserted none = tt
        inserted (some db) = (refl, registered now uid s.id (record w { db = db }))

resolve_with-IsMapped :
    (now new_id uid : ℕ) (u : User) (key_id : Option ℕ) (endpoint : Option IngestEndpoint)
    (w : CfApiWrapper)
    → IsMapped now uid (resolve_with now new_id uid u key_id endpoint w)
unfolding resolve_with
resolve_with-IsMapped now new_id uid u key_id none w = tt
resolve_with-IsMapped now new_id uid u (some key_id) (some endpoint) w =
    resume-IsMapped now uid endpoint.id
      (key_stream (find (λ k. k.user_id == u.id && k.id == key_id) w.db.stream_keys) w.db.streams) w
resolve_with-IsMapped now new_id uid u none (some endpoint) w =
    resolve_primary-IsMapped now new_id uid u endpoint.id (get_user_prev_streams u.id w.db.streams)
      w

-- The input's entry is of this time, and its stream is live.
abbrev pub StartedAt : ℕ → ℕ → CfApiWrapper → Type 0
StartedAt now uid w =
    (s : UserStream) × (stream_by_id s.id w.db.streams ≡ some s)
    × (is_live s.state ≡ true)
    × (find (λ entry. entry.0 == uid) w.input_stream_map ≡ some (uid, s.id, now))

finish_start-StartedAt :
    (now : ℕ) (published : Bool) (uid : ℕ) (s : UserStream) (w after : CfApiWrapper)
    → IsWritten (some (s, w))
    → IsMapped now uid (some (s, w))
    → finish_start now published uid s w ≡ (done, after)
    → StartedAt now uid after
unfolding finish_start update_stream written
finish_start-StartedAt now false uid s w after found fresh e = absurd (cc (ap (λ r. r.0) e))
finish_start-StartedAt now true uid s w after (sound, found) (is_on, entry) e =
    subst (StartedAt now uid) (ap (λ r. r.1) e)
      (s, updated_row s.id (written s) s w.db.streams (λ r. refl) found, is_on, entry)

start_resolved-StartedAt :
    (now : ℕ) (published : Bool) (uid : ℕ) (o : Resolved) (w after : CfApiWrapper)
    → IsWritten o
    → IsMapped now uid o
    → start_resolved now published uid o w ≡ (done, after)
    → StartedAt now uid after
unfolding start_resolved
start_resolved-StartedAt now published uid none w after found fresh e =
    absurd (cc (ap (λ r. r.0) e))
start_resolved-StartedAt now published uid (some (s, v)) w after found fresh e =
    finish_start-StartedAt now published uid s v after found fresh e

start_for_user-StartedAt :
    (c : Columns) (app_name now new_id : ℕ) (published : Bool) (uid : ℕ)
    (o : Option (User × Option ℕ)) (w after : CfApiWrapper)
    → IsSound w.db
    → start_for_user c app_name now new_id published uid o w ≡ (done, after)
    → StartedAt now uid after
unfolding start_for_user resolve_or_create_stream
start_for_user-StartedAt c app_name now new_id published uid none w after sound e =
    absurd (cc (ap (λ r. r.0) e))
start_for_user-StartedAt c app_name now new_id published uid (some (u, key_id)) w after sound e =
    start_resolved-StartedAt now published uid
      (resolve_or_create_stream c app_name now new_id uid u key_id w) w after
      (resolve_or_create_stream-IsWritten c app_name now new_id uid u key_id w sound)
      (resolve_with-IsMapped now new_id uid u key_id
        (select_ingest_endpoint w.db.endpoints (c.ingest_id u.id) app_name) w)
      e

pub publish_stream_start-StartedAt :
    (c : Columns) (app_name now new_id : ℕ) (published : Bool) (uid : ℕ) (w after : CfApiWrapper)
    → IsSound w.db
    → publish_stream_start c app_name now new_id published uid w ≡ (done, after)
    → StartedAt now uid after
unfolding publish_stream_start
publish_stream_start-StartedAt c app_name now new_id published uid w after sound e =
    go (should_skip_duplicate_webhook (get_mapped_stream now uid w).0) e
  where
    before : CfApiWrapper
    before = (get_mapped_stream now uid w).1

    go :
        (b : Bool)
        → (if b
            then (skipped, before)
            else start_for_user c app_name now new_id published uid
                (resolve_user_and_key c now uid before.db)
                before)
          ≡ (done, after)
        → StartedAt now uid after
    go true e = absurd (cc (ap (λ r. r.0) e))
    go false e =
        start_for_user-StartedAt c app_name now new_id published uid
          (resolve_user_and_key c now uid before.db) before after
          (subst IsSound (sym (get_mapped_stream-db now uid w)) sound) e
