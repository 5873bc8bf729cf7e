-- ===== src/Billing/External/Webhooks/Resuming.antt =====
-- The stream that a connected input resumes or creates: `resolve_or_create_stream` of
-- crates/zap-stream-external/src/cloudflare/api.rs.
use zap_stream_core.Prelude.{
  In-All, find-some, ℕ, ◌≡◌, refl, sym, ap, subst, ◌∙◌, ◌⊎◌, inl, inr, Bool, true, false, not, ◌&&◌,
  Option, none, some, ◌==◌, if◌then◌else◌, arith, find,
}
use zap_stream_core.Billing.Tables.{
  User, UserStream, UserStreamKey, IngestEndpoint, ZapStreamDb, stream_by_id,
}
use zap_stream_core.Billing.Streams.{
  is_none, live_primary_count, last_primary, within_window, get_user_prev_streams, id_of, ends_of,
}
use zap_stream_core.Billing.Streams.Rows.{insert_stream}
use zap_stream_core.Billing.Streams.Admission.{last_primary-IsEndedPrimary}
use zap_stream_core.Billing.External.Webhooks.{
  Columns, CfApiWrapper, set_resumed, new_live, Resolved, resume, by_id, key_stream, insert_live,
  resolve_primary, resolve_with, resolve_or_create_stream, select_ingest_endpoint,
}
use zap_stream_core.Billing.External.Webhooks.Counting.{HasRow, IsSound}
use zap_stream_core.Billing.Streams.Rows.Lookup.{In-found}
use zap_stream_core.Billing.External.Webhooks.Writing.{insert_stream-IsSound, by_own_id, write_row}

-- The stream is in the database as it was handed on.
abbrev pub IsWritten : Resolved → Type 0
IsWritten none = Unit {0}
IsWritten (some (s, w)) = IsSound w.db × (stream_by_id s.id w.db.streams ≡ some s)

-- A row that may be resumed.
abbrev Resumable : Option UserStream → ZapStreamDb → Type 0
Resumable none db = Unit {0}
Resumable (some s) db =
    (stream_by_id s.id db.streams ≡ some s)
    × ((is_none s.stream_key_id ≡ false) ⊎ (live_primary_count s.user_id db.streams ≡ 0))

resume-IsWritten :
    (now uid endpoint : ℕ) (o : Option UserStream) (w : CfApiWrapper)
    → IsSound w.db
    → Resumable o w.db
    → IsWritten (resume now uid endpoint o w)
unfolding resume
resume-IsWritten now uid endpoint none w sound h = tt
resume-IsWritten now uid endpoint (some s) w sound (found, either) =
    write_row (set_resumed endpoint s) s w.db sound found refl refl
      (elim either [ inl custom ↦ inl custom | inr none_live ↦ inr (inr none_live) ])

insert_live-IsWritten :
    (now uid : ℕ) (s : UserStream) (w : CfApiWrapper)
    → IsSound w.db
    → s.stream_key_id ≡ none
    → live_primary_count s.user_id w.db.streams ≡ 0
    → IsWritten (insert_live now uid s (insert_stream s w.db) w)
unfolding insert_live
insert_live-IsWritten now uid s w sound own none_live = go (insert_stream s w.db) refl
  where
    go : (o : Option ZapStreamDb) → insert_stream s w.db ≡ o → IsWritten (insert_live now uid s o w)
    go none e = tt
    go (some after) e = insert_stream-IsSound s w.db after sound own none_live e

last_primary-Resumable :
    (uid : ℕ) (db : ZapStreamDb)
    → IsSound db
    → live_primary_count uid db.streams ≡ 0
    → Resumable (by_id (id_of (last_primary uid db.streams)) db.streams) db
unfolding id_of
last_primary-Resumable uid db (unique, one, keys) none_live = go (last_primary uid db.streams) refl
  where
    go :
        (o : Option UserStream)
        → last_primary uid db.streams ≡ o
        → Resumable (by_id (id_of o) db.streams) db
    go none e = tt
    go (some s) e =
        let ((mine, ended, own), there) = last_primary-IsEndedPrimary uid s db.streams e in
        let found = by_own_id s db.streams unique there in
        subst (λ o. Resumable o db) (sym found)
          (found, inr (ap (λ n. live_primary_count n db.streams) mine ∙ none_live))

resolve_primary-IsWritten :
    (now new_id uid : ℕ) (u : User) (endpoint : ℕ) (w : CfApiWrapper)
    → IsSound w.db
    → IsWritten
        (resolve_primary now new_id uid u endpoint (get_user_prev_streams u.id w.db.streams) w)
unfolding resolve_primary get_user_prev_streams
resolve_primary-IsWritten now new_id uid u endpoint w sound =
    go (live_primary_count u.id w.db.streams == 0)
      (within_window now (ends_of (last_primary u.id w.db.streams))) refl
  where
    go :
        (free recent : Bool)
        → (live_primary_count u.id w.db.streams == 0) ≡ free
        → IsWritten (
            if not free
            then none
            else if recent
            then resume now uid endpoint
                (by_id (id_of (last_primary u.id w.db.streams)) w.db.streams)
                w
            else insert_live now uid
                (new_live new_id u.id now endpoint)
                (insert_stream (new_live new_id u.id now endpoint) w.db)
                w)
    go false recent e = tt
    go true true e =
        resume-IsWritten now uid endpoint
          (by_id (id_of (last_primary u.id w.db.streams)) w.db.streams) w sound
          (last_primary-Resumable u.id w.db sound (ground (arith, e)))
    go true false e =
        insert_live-IsWritten now uid (new_live new_id u.id now endpoint) w sound refl
          (ground (arith, e))

key_stream-Resumable :
    (p : UserStreamKey → Bool) (db : ZapStreamDb)
    → IsSound db
    → Resumable (key_stream (find p db.stream_keys) db.streams) db
key_stream-Resumable p db (unique, one, keys) = go (find p db.stream_keys) refl
  where
    go :
        (o : Option UserStreamKey)
        → find p db.stream_keys ≡ o
        → Resumable (key_stream o db.streams) db
    go none e = tt
    go (some k) e =
        let (s, there, custom) =
          In-All (HasRow db.streams) db.stream_keys keys k (find-some p db.stream_keys k e).1 in
        let own : stream_by_id s.id db.streams ≡ some s =
          by_own_id s db.streams unique (In-found k.stream_id s db.streams there) in
        subst (λ o. Resumable o db) (sym there) (own, inl custom)

resolve_with-IsWritten :
    (now new_id uid : ℕ) (u : User) (key_id : Option ℕ) (endpoint : Option IngestEndpoint)
    (w : CfApiWrapper)
    → IsSound w.db
    → IsWritten (resolve_with now new_id uid u key_id endpoint w)
unfolding resolve_with
resolve_with-IsWritten now new_id uid u key_id none w sound = tt
resolve_with-IsWritten now new_id uid u (some key_id) (some endpoint) w sound =
    let row =
      key_stream (find (λ k. k.user_id == u.id && k.id == key_id) w.db.stream_keys) w.db.streams in
    resume-IsWritten now uid endpoint.id row w sound
      (key_stream-Resumable (λ k. k.user_id == u.id && k.id == key_id) w.db sound)
resolve_with-IsWritten now new_id uid u none (some endpoint) w sound =
    resolve_primary-IsWritten now new_id uid u endpoint.id w sound

pub resolve_or_create_stream-IsWritten :
    (c : Columns) (app_name now new_id uid : ℕ) (u : User) (key_id : Option ℕ) (w : CfApiWrapper)
    → IsSound w.db
    → IsWritten (resolve_or_create_stream c app_name now new_id uid u key_id w)
unfolding resolve_or_create_stream
resolve_or_create_stream-IsWritten c app_name now new_id uid u key_id w sound =
    resolve_with-IsWritten now new_id uid u key_id
      (select_ingest_endpoint w.db.endpoints (c.ingest_id u.id) app_name) w sound
