-- ===== src/Billing/Streams/Rows/Keeping.antt =====
-- Live streams are left alone: `check_streams` of crates/zap-stream/src/overseer.rs.
use zap_stream_core.Prelude.{
  ℕ, ◌≡◌, refl, sym, ap, ◌∙◌, inl, inr, Bool, true, false, not, ◌||◌, Bool-cases, Option, none,
  some, List, [], ◌∷◌, ◌==◌, if◌then◌else◌, arith,
}
use zap_stream_core.Billing.Tables.{UserStream, ZapStreamDb, stream_by_id, update_stream_row}
use zap_stream_core.Billing.Ledger.{has_user}
use zap_stream_core.Billing.Segments.Balanced.{found_by_own_id}
use zap_stream_core.Billing.Streams.Rows.{
  written, update_stream, set_ended, write_found, on_end, list_live_streams_by_node, is_dead, Round,
  CheckState, CheckError, end_dead, check_one, go_on, check_each, check_streams,
}
use zap_stream_core.Billing.Streams.Rows.Steps.{check_one-cases}
use zap_stream_core.Billing.Streams.Rows.Checking.{same_status}

update_stream_row-other :
    (id other : ℕ) (f : UserStream → UserStream) (streams : List UserStream)
    → ((r : UserStream) → (f r).id ≡ r.id)
    → (id == other) ≡ false
    → stream_by_id other (update_stream_row id f streams) ≡ stream_by_id other streams
update_stream_row-other id other f [] keeps h = refl
update_stream_row-other id other f (r ∷ streams) keeps h =
    go (r.id == id) (update_stream_row-other id other f streams keeps h) refl
  where
    not_this : (r.id == id) ≡ true → (r.id == other) ≡ false
    not_this e = ground (arith, e, h)

    go :
        (b : Bool)
        → stream_by_id other (update_stream_row id f streams) ≡ stream_by_id other streams
        → (r.id == id) ≡ b
        → stream_by_id other ((if b then f r else r) ∷ update_stream_row id f streams)
          ≡ stream_by_id other (r ∷ streams)
    go true ih e =
        ap
          (λ n.
            if n == other then some (f r) else stream_by_id other (update_stream_row id f streams))
          (keeps r)
        ∙ ap (λ b. if b then some (f r) else stream_by_id other (update_stream_row id f streams))
            (not_this e)
        ∙ ih
        ∙ sym (ap (λ b. if b then some r else stream_by_id other streams) (not_this e))
    go false ih e = ap (λ o. if r.id == other then some r else o) ih

on_end-other :
    (built : Bool) (now id other : ℕ) (db : ZapStreamDb)
    → (id == other) ≡ false
    → stream_by_id other (on_end built now id db).1.streams ≡ stream_by_id other db.streams
unfolding on_end write_found update_stream written set_ended
on_end-other false now id other db h = refl
on_end-other true now id other db h = go (stream_by_id id db.streams) refl
  where
    go :
        (o : Option UserStream)
        → stream_by_id id db.streams ≡ o
        → stream_by_id other (write_found (set_ended now) o db).1.streams
          ≡ stream_by_id other db.streams
    go none e = refl
    go (some r) e = elim (Bool-cases (has_user r.user_id db.users)) [
      | inl there ↦ rw there (
          update_stream_row-other r.id other (written (set_ended now r)) db.streams (λ x. refl)
            (ap (λ n. n == other) (found_by_own_id id r db.streams e) ∙ h))
      | inr gone ↦ rw gone refl
    ]

check_each-keeps :
    (now other : ℕ) (round : Round) (streams : List UserStream) (c : CheckState)
    → is_dead round.status other ≡ false
    → stream_by_id other (check_each now round streams c).1.db.streams
      ≡ stream_by_id other c.db.streams
unfolding check_each go_on end_dead
check_each-keeps now other round [] c alive = refl
check_each-keeps now other round (r ∷ streams) c alive =
    go (λ d. check_each-keeps now other round streams d alive) (check_one now round r c)
      (check_one-cases (λ x. stream_by_id other x.1.db.streams ≡ stream_by_id other c.db.streams)
        now round r c (λ _. refl)
        (λ dead.
          on_end-other (round.end_built r.id) now r.id other c.db
            (same_status round.status r.id other dead alive))
        (λ _ _. refl) (λ _ _. refl))
  where
    go :
        ((d : CheckState)
          → stream_by_id other (check_each now round streams d).1.db.streams
            ≡ stream_by_id other d.db.streams)
        → (x : Option CheckError × CheckState)
        → stream_by_id other x.1.db.streams ≡ stream_by_id other c.db.streams
        → stream_by_id other (go_on (check_each now round streams) x).1.db.streams
          ≡ stream_by_id other c.db.streams
    go ih (none, d) same = ih d ∙ same
    go ih (some e, d) same = same

-- A check, also one that fails, leaves the row of every stream that is active and has not timed out as
-- it was.
check_streams-keeps :
    (now node : ℕ) (round : Round) (c : CheckState) (id : ℕ)
    → (round.status id).0 ≡ true
    → (round.status id).1 ≡ false
    → stream_by_id id (check_streams now node round c).1.db.streams ≡ stream_by_id id c.db.streams
unfolding check_streams is_dead
check_streams-keeps now node round c id active fresh =
    check_each-keeps now id round (list_live_streams_by_node node c.db.streams) c
      (ap (λ b. not b || (round.status id).1) active ∙ fresh)
