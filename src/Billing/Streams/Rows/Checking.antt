-- ===== src/Billing/Streams/Rows/Checking.antt =====
-- Dead streams are ended: `check_streams` of crates/zap-stream/src/overseer.rs.
use zap_stream_core.Prelude.{
  In, both, ℕ, ◌≡◌, refl, sym, ap, subst, ◌∙◌, inl, inr, Bool, true, false, not, ◌&&◌, ◌||◌, ◌⊎◌,
  Bool-cases, Option, none, some, List, [], ◌∷◌, ◌==◌, if◌then◌else◌, arith,
}
use zap_stream_core.Billing.Tables.{UserStream, ended, ZapStreamDb, stream_by_id, update_stream_row}
use zap_stream_core.Billing.Ledger.{has_user}
use zap_stream_core.Billing.Ledger.Paid.{self_eq}
use zap_stream_core.Billing.Segments.Balanced.{found_by_own_id}
use zap_stream_core.Billing.Streams.{is_live}
use zap_stream_core.Billing.Streams.Rows.{
  has_stream, written, update_stream, set_ended, write_found, on_end, on_node,
  list_live_streams_by_node, Status, is_dead, Round, CheckState, CheckError, end_dead, check_one,
  go_on, check_each, check_streams,
}
use zap_stream_core.Billing.Streams.Rows.Steps.{check_one-cases}
use zap_stream_core.Billing.Streams.Rows.Unfinished.{
  from, left, longer_left, all_from, Stops, check_each-Stops,
}
use zap_stream_core.Billing.Streams.Rows.Lookup.{HasUsers, LiveOn, In-update, In-found, not_found}

-- The rows after an end, when the row and its user are there.
ended_or_other :
    (now id node : ℕ) (r s : UserStream) (streams : List UserStream)
    → r.id ≡ id
    → In s (update_stream_row r.id (written (set_ended now r)) streams)
    → LiveOn node s
    → In s streams × ((s.id == id) ≡ false)
unfolding written set_ended
ended_or_other now id node r s streams e h on =
    elim (In-update r.id (written (set_ended now r)) s streams h) [
      | inl (x, there, same) ↦ absurd (
          no_ended (
            sym (ap (λ y. is_live y.state) same)
            ∙ (both (is_live s.state) (on_node node s.node_name) on).0))
      | inr (other, there) ↦ (there, ap (λ n. s.id == n) (sym e) ∙ other)
    ]
  where
    no_ended : is_live ended ≡ true → ⊥
    no_ended e = cc

on_end-rows :
    (now id node : ℕ) (s : UserStream) (db : ZapStreamDb)
    → HasUsers db
    → In s (on_end true now id db).1.streams
    → LiveOn node s
    → In s db.streams × ((s.id == id) ≡ false)
unfolding on_end write_found update_stream
on_end-rows now id node s db users h on = go (stream_by_id id db.streams) refl h
  where
    go :
        (o : Option UserStream)
        → stream_by_id id db.streams ≡ o
        → In s (write_found (set_ended now) o db).1.streams
        → In s db.streams × ((s.id == id) ≡ false)
    go none e h = (h, not_found id s db.streams e h)
    go (some r) e h =
        ended_or_other now id node r s db.streams (found_by_own_id id r db.streams e)
          (subst
            (λ b.
              In s
                (if◌then◌else◌ {A = Bool × ZapStreamDb} b (true, update_stream (set_ended now r) db)
                  (false, db)).1.streams)
            (users r (In-found id r db.streams e)) h)
          on

HasUsers-end :
    (built : Bool) (now id : ℕ) (db : ZapStreamDb)
    → HasUsers db
    → HasUsers (on_end built now id db).1
unfolding on_end write_found update_stream written set_ended
HasUsers-end false now id db users = users
HasUsers-end true now id db users = go (stream_by_id id db.streams)
  where
    updated :
        (r s : UserStream)
        → In s (update_stream_row r.id (written (set_ended now r)) db.streams)
        → has_user s.user_id db.users ≡ true
    updated r s h = elim (In-update r.id (written (set_ended now r)) s db.streams h) [
      | inl (x, there, same) ↦ ap (λ y. has_user y.user_id db.users) same ∙ users x there
      | inr (other, there) ↦ users s there
    ]

    go : (o : Option UserStream) → HasUsers (write_found (set_ended now) o db).1
    go none = users
    go (some r) = elim (Bool-cases (has_user r.user_id db.users)) [
      | inl e ↦ rw e (updated r)
      | inr e ↦ rw e users
    ]

-- Every dead stream that is live on the node, and the event of whose end is built, is one of the list.
abbrev Listed : ℕ → Round → List UserStream → ZapStreamDb → Type 0
Listed node round streams db =
    (s : UserStream)
    → In s db.streams
    → LiveOn node s
    → is_dead round.status s.id ≡ true
    → round.end_built s.id ≡ true
    → has_stream s.id streams ≡ true

differ : (f : ℕ → Bool) (a b : ℕ) → f a ≡ true → f b ≡ false → (a == b) ≡ false
differ f a b yes_a no_b = elim (Bool-cases (a == b)) [
  | inl e ↦ absurd (clash (sym (ap f (same e)) ∙ yes_a))
  | inr e ↦ e
]
  where
    same : (a == b) ≡ true → a ≡ b
    same e = ground (arith, e)

    clash : f b ≡ true → ⊥
    clash e = ground (arith, e, no_b)

pub same_status :
    (status : Status) (a b : ℕ)
    → is_dead status a ≡ true
    → is_dead status b ≡ false
    → (a == b) ≡ false
same_status status a b = differ (is_dead status) a b

drop_first :
    (a b : ℕ) (rest : Bool)
    → (a == b) ≡ false
    → (if b == a then true else rest) ≡ true
    → rest ≡ true
drop_first a b rest e h = ground (arith, e, h)

-- What one stream leaves to the rest of the loop, or the error that ends it.
abbrev Dealt : ℕ → Round → UserStream → List UserStream → Option CheckError × CheckState → Type 0
Dealt node round r streams (none, c) = HasUsers c.db × Listed node round streams c.db
Dealt node round r streams (some e, c) = Listed node round (left (some e) (r ∷ streams)) c.db

check_one-Dealt :
    (now node : ℕ) (round : Round) (r : UserStream) (streams : List UserStream) (c : CheckState)
    → HasUsers c.db
    → Listed node round (r ∷ streams) c.db
    → Dealt node round r streams (check_one now round r c)
unfolding end_dead
check_one-Dealt now node round r streams c users listed =
    check_one-cases (Dealt node round r streams) now round r c (λ _. stopped)
      (λ dead. (
        HasUsers-end (round.end_built r.id) now r.id c.db users,
        ended_here dead (round.end_built r.id) refl,
      ))
      (λ alive _. (users, kept alive)) (λ _ _. stopped)
  where
    stopped : Listed node round (from r.id (r ∷ streams)) c.db
    stopped = subst (λ ss. Listed node round ss c.db) (sym (all_from r streams)) listed

    ended_here :
        is_dead round.status r.id ≡ true
        → (built : Bool) → round.end_built r.id ≡ built
        → Listed node round streams (on_end built now r.id c.db).1
    ended_here dead true e s h on gone event =
        let (there, other) = on_end-rows now r.id node s c.db users h on in
        drop_first s.id r.id (has_stream s.id streams) other (listed s there on gone event)
    ended_here dead false e s h on gone event =
        drop_first s.id r.id (has_stream s.id streams)
          (differ (λ n. round.end_built n) s.id r.id event e) (listed s h on gone event)

    kept : is_dead round.status r.id ≡ false → Listed node round streams c.db
    kept alive s h on gone event =
        drop_first s.id r.id (has_stream s.id streams)
          (same_status round.status s.id r.id gone alive) (listed s h on gone event)

check_each-ends :
    (now node : ℕ) (round : Round) (streams : List UserStream) (c : CheckState)
    → HasUsers c.db
    → Listed node round streams c.db
    → let (e, after) = check_each now round streams c in Listed node round (left e streams) after.db
unfolding check_each go_on
check_each-ends now node round [] c users listed = listed
check_each-ends now node round (r ∷ streams) c users listed =
    go (check_each-ends now node round streams) (check_one now round r c)
      (check_one-Dealt now node round r streams c users listed)
  where
    go :
        ((d : CheckState)
          → HasUsers d.db
          → Listed node round streams d.db
          → let (e, after) = check_each now round streams d in
            Listed node round (left e streams) after.db)
        → (x : Option CheckError × CheckState) → Dealt node round r streams x
        → let (e, after) = go_on (check_each now round streams) x in
          Listed node round (left e (r ∷ streams)) after.db
    go ih (none, d) (u, l) = λ s h on gone event.
        longer_left s.id (check_each now round streams d).0 r streams (ih d u l s h on gone event)
    go ih (some e, d) l = l

listed_first :
    (node : ℕ) (s : UserStream) (streams : List UserStream)
    → In s streams
    → LiveOn node s
    → has_stream s.id (list_live_streams_by_node node streams) ≡ true
unfolding list_live_streams_by_node
listed_first node s [] h on = absurd h
listed_first node s (r ∷ streams) h on =
    go (is_live r.state && on_node node r.node_name) (listed_first node s streams) refl h
  where
    different : false ≡ true → ⊥
    different e = cc

    either_true : (a b : Bool) → b ≡ true → (if a then true else b) ≡ true
    either_true true b e = refl
    either_true false b e = e

    go :
        (b : Bool)
        → (In s streams
            → LiveOn node s
            → has_stream s.id (list_live_streams_by_node node streams) ≡ true)
        → (is_live r.state && on_node node r.node_name) ≡ b
        → In s (r ∷ streams)
        → has_stream s.id (
            if b
            then r ∷ list_live_streams_by_node node streams
            else list_live_streams_by_node node streams)
          ≡ true
    go true ih e (inl same) =
        ap (λ b. if b then true else has_stream s.id (list_live_streams_by_node node streams))
          (ap (λ x. r.id == x.id) same ∙ sym (self_eq r.id))
    go true ih e (inr there) =
        either_true (r.id == s.id) (has_stream s.id (list_live_streams_by_node node streams))
          (ih there on)
    go false ih e (inl same) =
        absurd (
          different (sym e ∙ ap (λ x. is_live x.state && on_node node x.node_name) (sym same) ∙ on))
    go false ih e (inr there) = ih there on

not_dead : (active late : Bool) → (not active || late) ≡ false → (active ≡ true) × (late ≡ false)
not_dead true late e = (refl, e)
not_dead false late e = cc

-- After a check of a node, when every row has its user before it: a stream that is still live on the
-- node is active and has not timed out, or the event of its end could not be built, or the check
-- has stopped and the stream is among those that are listed from the one it stopped at. It stops only at
-- an id that is no UUID, and at an active stream whose event could not be published.
pub check_streams-ends :
    (now node : ℕ) (round : Round) (c : CheckState) (s : UserStream)
    → HasUsers c.db
    → In s (check_streams now node round c).1.db.streams
    → (is_live s.state && on_node node s.node_name) ≡ true
    → let e = (check_streams now node round c).0 in
      Stops round e
      × ((((round.status s.id).0 ≡ true) × ((round.status s.id).1 ≡ false))
          ⊎ (round.end_built s.id ≡ false)
          ⊎ (has_stream s.id (left e (list_live_streams_by_node node c.db.streams)) ≡ true))
unfolding check_streams is_dead
check_streams-ends now node round c s users h on =
    let streams = list_live_streams_by_node node c.db.streams in
    let ends =
      check_each-ends now node round streams c users
        (λ r there live gone event. listed_first node r c.db.streams there live) in
    (
      check_each-Stops now round streams c,
      elim (Bool-cases (is_dead round.status s.id)) [
        | inl dead ↦ inr (elim (Bool-cases (round.end_built s.id)) [
          | inl event ↦ inr (ends s h on dead event)
          | inr event ↦ inl event
        ])
        | inr alive ↦ inl (not_dead (round.status s.id).0 (round.status s.id).1 alive)
      ],
    )
