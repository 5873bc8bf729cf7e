-- ===== src/Billing/Streams/Rows/Balanced.antt =====
-- Starting, changing and ending streams keeps the ledger balanced, when nothing runs between the
-- reading and the writing of a row.
use zap_stream_core.Prelude.{
  some_inj, ℕ, ◌≡◌, refl, sym, ap, subst, ◌∙◌, inl, inr, Bool, true, false, not, ◌||◌, Bool-cases,
  Option, none, some, List, [], ◌∷◌, ◌==◌, if◌then◌else◌, arith,
}
use zap_stream_core.Prelude.Int.{ℤ, pos, ◌+ℤ◌, ◌-ℤ◌, int_laws}
use zap_stream_core.Billing.Tables.{User, UserStream, IngestEndpoint, ZapStreamDb, stream_by_id}
use zap_stream_core.Billing.Ledger.{
  has_user, when, total_payments, total_fees, total_stream_costs, expected_balance,
}
use zap_stream_core.Billing.Ledger.Paid.{self_eq}
use zap_stream_core.Billing.Ledger.Accounts.{IsBalanced}
use zap_stream_core.Billing.Segments.Balanced.{found_by_own_id}
use zap_stream_core.Billing.Streams.{
  StreamKeyType, primary, fixed_event_key, get_user_key, detect_endpoint, ConnectionInfo,
}
use zap_stream_core.Billing.Streams.Rows.{
  has_stream, insert_stream, Node, set_live, new_stream, Row, row, refused, inserted, resumed_row,
  start_row, finish_start, start_at, start_for, start_stream, set_ended, write_found, on_end,
  on_update, Round, CheckState, CheckError, end_dead, check_one, go_on, check_each, check_streams,
  list_live_streams_by_node,
}
use zap_stream_core.Billing.Streams.Rows.Steps.{check_one-cases}
use zap_stream_core.Billing.Streams.Rows.Writing.{update_stream-IsBalanced}

pub absent_row :
    (id : ℕ) (streams : List UserStream)
    → has_stream id streams ≡ false
    → stream_by_id id streams ≡ none
absent_row id [] h = refl
absent_row id (s ∷ streams) h = elim (Bool-cases (s.id == id)) [
  | inl e ↦ absurd (ground (arith, e, h))
  | inr e ↦ rw e (absent_row id streams (ground (arith, e, h)))
]

no_charge : (mine : Bool) (t : ℤ) → t ≡ when mine (pos 0) +ℤ t
no_charge true t = grind int_laws
no_charge false t = grind int_laws

-- A new row that has cost nothing.
insert_stream-IsBalanced :
    (s : UserStream) (db after : ZapStreamDb)
    → IsBalanced db
    → s.cost ≡ pos 0
    → insert_stream s db ≡ some after
    → IsBalanced after × (stream_by_id s.id after.streams ≡ some s)
unfolding insert_stream expected_balance total_stream_costs
insert_stream-IsBalanced s db after (balanced, unique, ids, fresh) free e =
    go (has_stream s.id db.streams) refl (has_user s.user_id db.users) e
  where
    with_row : ZapStreamDb
    with_row = record db { streams = s ∷ db.streams }

    itself : stream_by_id s.id (s ∷ db.streams) ≡ some s
    itself = ap (λ b. if b then some s else stream_by_id s.id db.streams) (sym (self_eq s.id))

    go :
        (known : Bool)
        → has_stream s.id db.streams ≡ known
        → (user : Bool) → (if known || not user then none else some with_row) ≡ some after
        → IsBalanced after × (stream_by_id s.id after.streams ≡ some s)
    go true k user e = cc
    go false k false e = cc
    go false k true e =
        subst (λ d. IsBalanced d × (stream_by_id s.id d.streams ≡ some s)) (some_inj e)
          (
            (
              λ uid.
                  balanced uid
                  ∙ ap (λ t. total_payments uid db.payments -ℤ total_fees uid db.payments -ℤ t)
                      (no_charge (s.user_id == uid) (total_stream_costs uid db.streams)
                        ∙ ap (λ c. when (s.user_id == uid) c +ℤ total_stream_costs uid db.streams)
                            (sym free)),
              unique,
              (absent_row s.id db.streams k, ids),
              fresh,
            ),
            itself,
          )

write_found-IsBalanced :
    (f : UserStream → UserStream) (id : ℕ) (db : ZapStreamDb)
    → ((s : UserStream) → (f s).id ≡ s.id)
    → ((s : UserStream) → (f s).cost ≡ s.cost)
    → IsBalanced db
    → IsBalanced (write_found f (stream_by_id id db.streams) db).1
unfolding write_found
write_found-IsBalanced f id db keeps costs h = go (stream_by_id id db.streams) refl
  where
    go :
        (o : Option UserStream) → stream_by_id id db.streams ≡ o → IsBalanced (write_found f o db).1
    go none e = h
    go (some s) e = elim (Bool-cases (has_user s.user_id db.users)) [
      | inl there ↦ rw there (
          update_stream-IsBalanced (f s) s db h
            (ap (λ n. stream_by_id n db.streams) (keeps s ∙ found_by_own_id id s db.streams e) ∙ e)
            (costs s))
      | inr gone ↦ rw gone h
    ]

pub on_end-IsBalanced :
    (built : Bool) (now id : ℕ) (db : ZapStreamDb)
    → IsBalanced db
    → IsBalanced (on_end built now id db).1
unfolding on_end set_ended
on_end-IsBalanced true now id db h =
    write_found-IsBalanced (set_ended now) id db (λ s. refl) (λ s. refl) h
on_end-IsBalanced false now id db h = h

pub on_update-IsBalanced :
    (published : Bool) (id : ℕ) (db : ZapStreamDb)
    → IsBalanced db
    → IsBalanced (on_update published id db).1
unfolding on_update
on_update-IsBalanced true id db h = write_found-IsBalanced (λ s. s) id db (λ s. refl) (λ s. refl) h
on_update-IsBalanced false id db h = h

-- A row that is about to be written stands in the tables, with the cost that it has there.
abbrev IsReady : Row → Type 0
IsReady (refused e) = Unit {0}
IsReady (row s db) =
    IsBalanced db × (r : UserStream) × (stream_by_id s.id db.streams ≡ some r) × (s.cost ≡ r.cost)

start_row-IsReady :
    (now node endpoint : ℕ) (key : StreamKeyType) (id : ℕ) (db : ZapStreamDb)
    → IsBalanced db
    → IsReady (start_row now node endpoint key id (stream_by_id id db.streams) db)
unfolding start_row set_live new_stream inserted resumed_row
start_row-IsReady now node endpoint (primary uid) id db h = go (stream_by_id id db.streams) refl
  where
    s : UserStream
    s = new_stream id uid now node endpoint

    fresh : (o : Option ZapStreamDb) → insert_stream s db ≡ o → IsReady (inserted s o)
    fresh none e = tt
    fresh (some after) e =
        let (balanced, found) = insert_stream-IsBalanced s db after h refl e in
        (balanced, s, found, refl)

    go :
        (o : Option UserStream)
        → stream_by_id id db.streams ≡ o
        → IsReady (start_row now node endpoint (primary uid) id o db)
    go none e = fresh (insert_stream s db) refl
    go (some r) e =
        (h, r, ap (λ n. stream_by_id n db.streams) (found_by_own_id id r db.streams e) ∙ e, refl)
start_row-IsReady now node endpoint (fixed_event_key uid stream_id) id db h =
    go (stream_by_id stream_id db.streams) refl
  where
    go :
        (o : Option UserStream)
        → stream_by_id stream_id db.streams ≡ o
        → IsReady (resumed_row node endpoint o db)
    go none e = tt
    go (some r) e = (
      h,
      r,
      ap (λ n. stream_by_id n db.streams) (found_by_own_id stream_id r db.streams e) ∙ e,
      refl,
    )

finish_start-IsBalanced :
    (node : Node) (r : Row) (db : ZapStreamDb)
    → IsBalanced db
    → IsReady r
    → IsBalanced (finish_start node r db).1
unfolding finish_start
finish_start-IsBalanced node (refused e) db h ready = h
finish_start-IsBalanced node (row s after) db h (balanced, r, found, cost) =
    go node.video_source node.published
  where
    go :
        (video published : Bool)
        → IsBalanced
            (finish_start
              (record node { video_source = video; published = published })
              (row s after)
              db).1
    go true true = update_stream-IsBalanced s r after balanced found cost
    go true false = balanced
    go false published = balanced

-- However a stream starts, or fails to.
pub start_stream-IsBalanced :
    (now : ℕ) (node : Node) (info : ConnectionInfo) (db : ZapStreamDb)
    → IsBalanced db
    → IsBalanced (start_stream now node info db).1
unfolding start_stream start_for start_at
start_stream-IsBalanced now node info db h = go (get_user_key now info.key db)
  where
    at :
        (key : StreamKeyType) (o : Option IngestEndpoint)
        → IsBalanced (start_at now node info.id o key db).1
    at key none = h
    at key (some endpoint) = elim (Bool-cases node.variants_configured) [
      | inl e ↦ rw e (
          finish_start-IsBalanced node
            (start_row now node.node_name endpoint.id key info.id (stream_by_id info.id db.streams)
              db)
            db h (start_row-IsReady now node.node_name endpoint.id key info.id db h))
      | inr e ↦ rw e h
    ]

    go : (o : Option (StreamKeyType × User)) → IsBalanced (start_for now node info o db).1
    go none = h
    go (some (key, u)) = at key (detect_endpoint info.app_name db.endpoints)

check_one-IsBalanced :
    (now : ℕ) (round : Round) (s : UserStream) (c : CheckState)
    → IsBalanced c.db
    → IsBalanced (check_one now round s c).1.db
unfolding end_dead
check_one-IsBalanced now round s c h =
    check_one-cases (λ r. IsBalanced r.1.db) now round s c (λ _. h)
      (λ _. on_end-IsBalanced (round.end_built s.id) now s.id c.db h) (λ _ _. h) (λ _ _. h)

check_each-IsBalanced :
    (now : ℕ) (round : Round) (streams : List UserStream) (c : CheckState)
    → IsBalanced c.db
    → IsBalanced (check_each now round streams c).1.db
unfolding check_each go_on
check_each-IsBalanced now round [] c h = h
check_each-IsBalanced now round (s ∷ streams) c h =
    go (check_each-IsBalanced now round streams) (check_one now round s c)
      (check_one-IsBalanced now round s c h)
  where
    go :
        ((d : CheckState) → IsBalanced d.db → IsBalanced (check_each now round streams d).1.db)
        → (r : Option CheckError × CheckState) → IsBalanced r.1.db
        → IsBalanced (go_on (check_each now round streams) r).1.db
    go ih (none, d) k = ih d k
    go ih (some e, d) k = k

pub check_streams-IsBalanced :
    (now node : ℕ) (round : Round) (c : CheckState)
    → IsBalanced c.db
    → IsBalanced (check_streams now node round c).1.db
unfolding check_streams
check_streams-IsBalanced now node round c h =
    check_each-IsBalanced now round (list_live_streams_by_node node c.db.streams) c h
