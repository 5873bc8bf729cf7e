-- ===== src/Billing/External/Webhooks/Repeats.antt =====
-- Webhooks that are delivered again, crates/zap-stream-external/src/cloudflare/api.rs.
use zap_stream_core.Prelude.{
  All, some_inj, ℕ, ◌-◌, ◌≡◌, refl, ap, ◌∙◌, Bool, true, false, Option, none, some, List, [], ◌∷◌,
  ◌==◌, if◌then◌else◌, leb, find, retain,
}
use zap_stream_core.Billing.Tables.{UserStream, stream_by_id}
use zap_stream_core.Billing.Streams.{is_live}
use zap_stream_core.Billing.External.Webhooks.{
  Columns, CfApiWrapper, input_map_ttl, done, skipped, start_for_user, publish_stream_start,
  connected, handle_webhook, remove_input_mapping, Delivery, run_webhooks, get_mapped_stream,
  mapped_stream, mapped_id, pruned, resolve_user_and_key, should_skip_duplicate_webhook,
}
use zap_stream_core.Billing.External.Webhooks.Counting.{IsSound}
use zap_stream_core.Billing.External.Webhooks.Started.{StartedAt, publish_stream_start-StartedAt}

find-retain :
    (p q : ℕ × ℕ × ℕ → Bool) (x : ℕ × ℕ × ℕ) (xs : List (ℕ × ℕ × ℕ))
    → find p xs ≡ some x
    → q x ≡ true
    → find p (retain q xs) ≡ some x
find-retain p q x [] e h = cc
find-retain p q x (y ∷ ys) e h = go (p y) (q y) refl refl (find-retain p q x ys) e
  where
    go :
        (a b : Bool)
        → p y ≡ a
        → q y ≡ b
        → (find p ys ≡ some x → q x ≡ true → find p (retain q ys) ≡ some x)
        → (if a then some y else find p ys) ≡ some x
        → find p (if b then y ∷ retain q ys else retain q ys) ≡ some x
    go true true a b ih e = rw a e
    go true false a b ih e = absurd (cc (b, h, ap q (some_inj e)))
    go false true a b ih e = rw a (ih e h)
    go false false a b ih e = ih e h

-- Within the time to live the entry and its stream are found.
found_mapped :
    (now later uid : ℕ) (s : UserStream) (w : CfApiWrapper)
    → stream_by_id s.id w.db.streams ≡ some s
    → find (λ entry. entry.0 == uid) w.input_stream_map ≡ some (uid, s.id, now)
    → leb (later - now) input_map_ttl ≡ true
    → get_mapped_stream later uid w ≡ (some s, pruned later w)
unfolding get_mapped_stream remove_input_mapping
found_mapped now later uid s w found entry early =
    ap (λ o. mapped_stream uid (mapped_id o) (pruned later w))
      (find-retain (λ e. e.0 == uid) (λ e. leb (later - e.2) input_map_ttl) (uid, s.id, now)
        w.input_stream_map entry early)
    ∙ ap
        (λ o. elim o as (λ q. Option UserStream × CfApiWrapper) [
          | none ↦ (none, remove_input_mapping uid (pruned later w))
          | some r ↦ (some r, pruned later w)
        ])
        found

skip :
    (c : Columns) (app_name now later new_id : ℕ) (published : Bool) (uid : ℕ) (s : UserStream)
    (w : CfApiWrapper)
    → is_live s.state ≡ true
    → get_mapped_stream later uid w ≡ (some s, pruned later w)
    → publish_stream_start c app_name later new_id published uid w ≡ (skipped, pruned later w)
unfolding publish_stream_start
skip c app_name now later new_id published uid s w is_on mapped =
    ap
      (λ m.
        if should_skip_duplicate_webhook m.0
        then (skipped, m.1)
        else start_for_user c app_name later new_id published uid
            (resolve_user_and_key c later uid m.1.db) m.1)
      mapped
    ∙ ap
        (λ b.
          if b
          then (skipped, pruned later w)
          else start_for_user c app_name later new_id published uid
              (resolve_user_and_key c later uid w.db) (pruned later w))
        is_on

-- The webhook of the input once more, at most 120 s after the first.
abbrev pub IsRepeat : ℕ → ℕ → Delivery → Type 0
IsRepeat now uid d = (d.webhook ≡ connected (some uid)) × (leb (d.now - now) input_map_ttl ≡ true)

repeat_one :
    (c : Columns) (app_name now uid : ℕ) (d : Delivery) (w : CfApiWrapper)
    → StartedAt now uid w
    → IsRepeat now uid d
    → handle_webhook c app_name d.now d.new_id d.published d.webhook w ≡ (skipped, pruned d.now w)
unfolding handle_webhook
repeat_one c app_name now uid d w (s, found, is_on, entry) (same, early) =
    ap (λ h. handle_webhook c app_name d.now d.new_id d.published h w) same
    ∙ skip c app_name now d.now d.new_id d.published uid s w is_on
        (found_mapped now d.now uid s w found entry early)

started_still :
    (now uid later : ℕ) (w : CfApiWrapper)
    → StartedAt now uid w
    → leb (later - now) input_map_ttl ≡ true
    → StartedAt now uid (pruned later w)
started_still now uid later w (s, found, is_on, entry) early = (
  s,
  found,
  is_on,
  find-retain (λ e. e.0 == uid) (λ e. leb (later - e.2) input_map_ttl) (uid, s.id, now)
      w.input_stream_map entry early,
)

run_repeats :
    (c : Columns) (app_name now uid : ℕ) (ds : List Delivery) (w : CfApiWrapper)
    → StartedAt now uid w
    → All (IsRepeat now uid) ds
    → (run_webhooks c app_name ds w).db ≡ w.db
unfolding run_webhooks
run_repeats c app_name now uid [] w started repeats = refl
run_repeats c app_name now uid (d ∷ ds) w started (first, rest) =
    ap (λ r. (run_webhooks c app_name ds r.1).db) (repeat_one c app_name now uid d w started first)
    ∙ run_repeats c app_name now uid ds (pruned d.now w)
        (started_still now uid d.now w started first.1) rest

-- When a webhook has started the stream of an input, in a database where no user has two live
-- streams of the primary key, ids are unique and the stream of a custom key has a row that names a
-- key, then further `connected` webhooks of that input, as many as come within 120 s of it, change
-- nothing in the database.
pub publish_stream_start_repeats :
    (c : Columns) (app_name now new_id : ℕ) (published : Bool) (uid : ℕ) (w after : CfApiWrapper)
    (ds : List Delivery)
    → IsSound w.db
    → publish_stream_start c app_name now new_id published uid w ≡ (done, after)
    → All (IsRepeat now uid) ds
    → (run_webhooks c app_name ds after).db ≡ after.db
publish_stream_start_repeats c app_name now new_id published uid w after ds sound e =
    run_repeats c app_name now uid ds after
      (publish_stream_start-StartedAt c app_name now new_id published uid w after sound e)
