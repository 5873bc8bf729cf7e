-- ===== src/Billing/External/Poller/Stale.antt =====
-- The row that the poller writes back, crates/zap-stream-external/src/cloudflare/api.rs.
use zap_stream_core.Prelude.{
  ℕ, ◌≡◌, refl, sym, ap, subst, ◌∙◌, Bool, true, false, Option, some, ◌==◌,
}
use zap_stream_core.Prelude.Int.{pos, ◌-ℤ◌, leb_ℤ}
use zap_stream_core.Billing.Tables.{
  User, UserStream, IngestEndpoint, ZapStreamDb, stream_by_id, user_by_id,
}
use zap_stream_core.Billing.Ledger.Charges.{found_user}
use zap_stream_core.Billing.Ledger.Paid.{balance_of}
use zap_stream_core.Billing.Segments.{endpoint_by_id}
use zap_stream_core.Billing.Streams.Rows.{written, update_stream}
use zap_stream_core.Billing.Streams.Rows.Race.{updated_row}
use zap_stream_core.Billing.External.{
  max_billable_catchup, billable_duration, cost_for_duration, bill_stream,
}
use zap_stream_core.Billing.External.Charges.{Bills, charges-Bills}
use zap_stream_core.Billing.External.Webhooks.{Columns, CfApiWrapper}
use zap_stream_core.Billing.External.Poller.{
  LiveInput, Tick, get_viewer_count, should_publish_viewer_count, poll_input, count_viewers,
  after_bill, billed, poll_connected, poll_user, poll_stream,
}

-- The user has paid, and the row shows what it showed.
abbrev pub Forgets : UserStream → ℕ → ZapStreamDb → ZapStreamDb → Type 0
Forgets s cost db after =
    (balance_of s.user_id after.users ≡ balance_of s.user_id db.users -ℤ pos cost)
    × ((r : UserStream) × (stream_by_id s.id after.streams ≡ some r)
        × (r.starts ≡ s.starts)
        × (r.duration ≡ s.duration)
        × (r.cost ≡ s.cost))

-- Whether a count of viewers is due to be published.
abbrev pub due : Tick → ℕ → CfApiWrapper → Bool
due t id w =
    (should_publish_viewer_count t.now id
      (get_viewer_count t.now id (t.viewers id) w.viewer_count_tracker).0 w.viewer_count_states).0

count_viewers-Forgets :
    (t : Tick) (s r : UserStream) (cost : ℕ) (db : ZapStreamDb) (w : CfApiWrapper)
    → stream_by_id s.id w.db.streams ≡ some r
    → balance_of s.user_id w.db.users ≡ balance_of s.user_id db.users -ℤ pos cost
    → due t s.id w ≡ true
    → t.published s.id ≡ true
    → Forgets s cost db (count_viewers t s w).db
unfolding count_viewers update_stream written
count_viewers-Forgets t s r cost db w found paid is_due sent =
    rw (is_due, sent)
      (
        paid,
        (
          written s r,
          updated_row s.id (written s) r w.db.streams (λ x. refl) found,
          refl,
          refl,
          refl,
        ),
      )

billed-Forgets :
    (c : Columns) (t : Tick) (s : UserStream) (i : LiveInput) (duration cost : ℕ)
    (result : Option Bool × ZapStreamDb) (w : CfApiWrapper)
    → Bills s duration cost w.db result
    → i.has_playback ≡ true
    → leb_ℤ (balance_of s.user_id w.db.users -ℤ pos cost) (pos 0) ≡ false
    → due t s.id w ≡ true
    → t.published s.id ≡ true
    → Forgets s cost w.db (billed c t s i result w).db
unfolding after_bill
billed-Forgets c t s i duration cost (over, db) w (is_over, paid, (r, found, lasts, costs)) plays
      left is_due sent =
    subst (λ o. Forgets s cost w.db (after_bill c t s i o (record w { db = db })).db)
      (sym (is_over ∙ ap (λ b. some (leb_ℤ b (pos 0))) paid ∙ ap some left))
      (rw plays
        (count_viewers-Forgets t s r cost w.db (record w { db = db }) found paid is_due sent))

-- When a live stream of a connected input is polled, its endpoint is not free, some time is not yet
-- billed, the balance is left above zero by the bill, and a count of viewers is due and published, then
-- the user has paid for the time, and the row has the duration and the cost from before the bill: the
-- next tick finds the same time not billed.
pub poll_stream-Forgets :
    (c : Columns) (t : Tick) (s : UserStream) (u : User) (i : LiveInput) (id : ℕ)
    (endpoint : IngestEndpoint) (w : CfApiWrapper)
    → stream_by_id s.id w.db.streams ≡ some s
    → user_by_id s.user_id w.db.users ≡ some u
    → poll_input c t u.id s.stream_key_id w.db ≡ some i
    → i.is_connected ≡ true
    → i.has_playback ≡ true
    → s.endpoint_id ≡ some id
    → endpoint_by_id id w.db.endpoints ≡ some endpoint
    → (endpoint.cost == 0) ≡ false
    → (billable_duration s t.now max_billable_catchup == 0) ≡ false
    → leb_ℤ
        (balance_of s.user_id w.db.users
          -ℤ pos (cost_for_duration endpoint.cost (billable_duration s t.now max_billable_catchup)))
        (pos 0)
      ≡ false
    → due t s.id w ≡ true
    → t.published s.id ≡ true
    → Forgets s
        (cost_for_duration endpoint.cost (billable_duration s t.now max_billable_catchup))
        w.db
        (poll_stream c t s w).db
unfolding poll_stream poll_connected
poll_stream-Forgets c t s u i id endpoint w found user input connected plays at e paying some_time
      left is_due sent =
    let d = billable_duration s t.now max_billable_catchup in
    let cost = cost_for_duration endpoint.cost d in
    let bills =
      charges-Bills s t.now id endpoint w.db found (found_user s.user_id u w.db.users user) at e
        paying some_time in
    subst (λ o. Forgets s cost w.db (poll_user c t s o w).db) (sym user)
      (subst (λ o. Forgets s cost w.db (poll_connected c t s o w).db) (sym input)
        (rw connected (
          billed-Forgets c t s i d cost (bill_stream s t.now w.db) w bills plays left is_due sent)))
