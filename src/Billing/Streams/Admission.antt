-- ===== src/Billing/Streams/Admission.antt =====
-- Who may connect, and which stream is resumed: `connect` of crates/zap-stream/src/overseer.rs.
use zap_stream_core.Prelude.{
  In, some_inj, both, ℕ, ◌≡◌, refl, sym, subst, ◌⊎◌, inl, inr, Bool, true, false, not, ◌&&◌, Option,
  none, some, List, [], ◌∷◌, ◌==◌, if◌then◌else◌, arith,
}
use zap_stream_core.Prelude.Int.{pos, leb_ℤ}
use zap_stream_core.Billing.Tables.{User, UserStream, IngestEndpoint, ZapStreamDb}
use zap_stream_core.Billing.Streams.{
  StreamKeyType, primary, fixed_event_key, get_user_key, detect_endpoint, is_ended, is_none,
  is_primary, live_primary_count, last_primary, later_stream, ended_later, ends_of, id_of,
  resume_id, get_user_prev_streams, deny, allow, not_enough_balance, user_blocked,
  primary_key_in_use, within_window, allowed, admit, admit_at, admit_user, ConnectionInfo, connect,
}

-- A stream of the user's primary key that has ended.
abbrev pub IsEndedPrimary : ℕ → UserStream → Type 0
IsEndedPrimary uid s =
    (s.user_id ≡ uid) × (is_ended s.state ≡ true) × (is_none s.stream_key_id ≡ true)

later_of :
    (s t : UserStream) (o : Option UserStream) → later_stream s o ≡ some t → (t ≡ s) ⊎ (o ≡ some t)
unfolding later_stream
later_of s t none e = inl (sym (some_inj e))
later_of s t (some r) e = go (ended_later r.ends s.ends) e
  where
    go : (b : Bool) → (if b then some r else some s) ≡ some t → (t ≡ s) ⊎ (some r ≡ some t)
    go true e = inr e
    go false e = inl (sym (some_inj e))

counted :
    (uid : ℕ) (s : UserStream)
    → (s.user_id == uid && is_ended s.state && is_none s.stream_key_id) ≡ true
    → IsEndedPrimary uid s
counted uid s e =
    let (rest, c) = both (s.user_id == uid && is_ended s.state) (is_none s.stream_key_id) e in
    let (a, b) = both (s.user_id == uid) (is_ended s.state) rest in (ground (arith, a), b, c)

pub last_primary-IsEndedPrimary :
    (uid : ℕ) (t : UserStream) (streams : List UserStream)
    → last_primary uid streams ≡ some t
    → IsEndedPrimary uid t × In t streams
unfolding last_primary
last_primary-IsEndedPrimary uid t [] e = cc
last_primary-IsEndedPrimary uid t (s ∷ streams) e =
    go (s.user_id == uid && is_ended s.state && is_none s.stream_key_id)
      (last_primary-IsEndedPrimary uid t streams) refl e
  where
    go :
        (b : Bool)
        → (last_primary uid streams ≡ some t → IsEndedPrimary uid t × In t streams)
        → (s.user_id == uid && is_ended s.state && is_none s.stream_key_id) ≡ b
        → (if b then later_stream s (last_primary uid streams) else last_primary uid streams)
          ≡ some t
        → IsEndedPrimary uid t × In t (s ∷ streams)
    go false ih h e = let (a, b) = ih e in (a, inr b)
    go true ih h e = elim (later_of s t (last_primary uid streams) e) [
      | inl same ↦ (subst (IsEndedPrimary uid) (sym same) (counted uid s h), inl same)
      | inr rest ↦ let (a, b) = ih rest in (a, inr b)
    ]

-- What a connection that is let in has shown. `override` is the stream that is resumed.
abbrev pub Resumes : ℕ → StreamKeyType → User → List UserStream → Option ℕ → Type 0
Resumes now (fixed_event_key uid stream_id) u streams override = override ≡ some stream_id
Resumes now (primary uid) u streams override =
    (live_primary_count u.id streams ≡ 0)
    × ((override ≡ none)
        ⊎ ((s : UserStream) × IsEndedPrimary u.id s
            × In s streams
            × (within_window now s.ends ≡ true)
            × (override ≡ some s.id)))

allow_inj : {a b : Bool} {x y : Option ℕ} → allow a x ≡ allow b y → y ≡ x
allow_inj e = cc

resumed :
    (now : ℕ) (dump : Bool) (u : User) (streams : List UserStream) (o : Option UserStream)
    (dumped : Bool) (override : Option ℕ)
    → last_primary u.id streams ≡ o
    → within_window now (ends_of o) ≡ true
    → resume_id dump (id_of o) ≡ allow dumped override
    → (s : UserStream) × IsEndedPrimary u.id s
      × In s streams
      × (within_window now s.ends ≡ true)
      × (override ≡ some s.id)
unfolding ends_of id_of resume_id
resumed now dump u streams none dumped override e recent h = cc
resumed now dump u streams (some s) dumped override e recent h =
    let (ended, there) = last_primary-IsEndedPrimary u.id s streams e in
    (s, ended, there, recent, allow_inj h)

allowed-Resumes :
    (now : ℕ) (key : StreamKeyType) (dump : Bool) (u : User) (streams : List UserStream)
    (dumped : Bool) (override : Option ℕ)
    → (is_primary key && not (live_primary_count u.id streams == 0)) ≡ false
    → allowed now key dump (get_user_prev_streams u.id streams) ≡ allow dumped override
    → Resumes now key u streams override
unfolding allowed get_user_prev_streams
allowed-Resumes now (fixed_event_key uid stream_id) dump u streams dumped override idle h =
    allow_inj h
allowed-Resumes now (primary uid) dump u streams dumped override idle h = (
  ground (arith, idle),
  go (live_primary_count u.id streams == 0)
      (within_window now (ends_of (last_primary u.id streams))) refl h,
)
  where
    go :
        (free recent : Bool)
        → within_window now (ends_of (last_primary u.id streams)) ≡ recent
        → (if free && recent
            then resume_id dump (id_of (last_primary u.id streams))
            else allow dump none)
          ≡ allow dumped override
        → ((override ≡ none)
            ⊎ ((s : UserStream) × IsEndedPrimary u.id s
                × In s streams
                × (within_window now s.ends ≡ true)
                × (override ≡ some s.id)))
    go true true w h =
        inr (resumed now dump u streams (last_primary u.id streams) dumped override refl w h)
    go true false w h = inl (allow_inj h)
    go false recent w h = inl (allow_inj h)

-- A user who may pay, or need not, is not blocked and is not live already with the same key.
abbrev pub Admits : ℕ → StreamKeyType → User → IngestEndpoint → ZapStreamDb → Option ℕ → Type 0
Admits now key u endpoint db override =
    ((leb_ℤ u.balance (pos 0) ≡ false) ⊎ (endpoint.cost ≡ 0))
    × (u.is_blocked ≡ false)
    × Resumes now key u db.streams override

may_pay : (poor free : Bool) → (poor && not free) ≡ false → (poor ≡ false) ⊎ (free ≡ true)
may_pay true true e = inr refl
may_pay true false e = cc
may_pay false free e = inl refl

admit-Admits :
    (now : ℕ) (key : StreamKeyType) (u : User) (endpoint : IngestEndpoint) (db : ZapStreamDb)
    (dumped : Bool) (override : Option ℕ)
    → admit now key u endpoint db ≡ allow dumped override
    → Admits now key u endpoint db override
unfolding admit
admit-Admits now key u endpoint db dumped override h =
    go (leb_ℤ u.balance (pos 0) && not (endpoint.cost == 0)) u.is_blocked
      (is_primary key && not (live_primary_count u.id db.streams == 0)) refl refl refl h
  where
    go :
        (poor blocked busy : Bool)
        → (leb_ℤ u.balance (pos 0) && not (endpoint.cost == 0)) ≡ poor
        → u.is_blocked ≡ blocked
        → (is_primary key && not (live_primary_count u.id db.streams == 0)) ≡ busy
        → (if poor
            then deny not_enough_balance
            else if blocked
            then deny user_blocked
            else if busy
            then deny primary_key_in_use
            else allowed now key u.stream_dump_recording (get_user_prev_streams u.id db.streams))
          ≡ allow dumped override
        → Admits now key u endpoint db override
    go true blocked busy a b c h = cc
    go false true busy a b c h = cc
    go false false true a b c h = cc
    go false false false a b c h = (
      elim (may_pay (leb_ℤ u.balance (pos 0)) (endpoint.cost == 0) a) [
        | inl rich ↦ inl rich
        | inr free ↦ inr (ground (arith, free))
      ],
      b,
      allowed-Resumes now key u.stream_dump_recording u db.streams dumped override c h,
    )

-- Whoever may connect has a key of a user who is not blocked and has a balance, or the endpoint is free.
-- With a primary key the user has no live stream of that key, and a stream that is resumed is one of
-- the user's own, of the same key, that ended less than two minutes ago. A key of an event gives
-- the event's stream.
pub connect-Admits :
    (now : ℕ) (info : ConnectionInfo) (db : ZapStreamDb) (dumped : Bool) (override : Option ℕ)
    → connect now info db ≡ allow dumped override
    → (key : StreamKeyType) × (u : User) × (endpoint : IngestEndpoint) × (get_user_key now info.key
          db
        ≡ some (key, u))
      × (detect_endpoint info.app_name db.endpoints ≡ some endpoint)
      × Admits now key u endpoint db override
unfolding connect
connect-Admits now info db dumped override h = go (get_user_key now info.key db) refl h
  where
    at :
        (key : StreamKeyType) (u : User) (o : Option IngestEndpoint)
        → get_user_key now info.key db ≡ some (key, u)
        → detect_endpoint info.app_name db.endpoints ≡ o
        → admit_at now o key u db ≡ allow dumped override
        → (key : StreamKeyType) × (u : User) × (endpoint : IngestEndpoint) × (get_user_key now
              info.key db
            ≡ some (key, u))
          × (detect_endpoint info.app_name db.endpoints ≡ some endpoint)
          × Admits now key u endpoint db override
    at key u none k e h = cc
    at key u (some endpoint) k e h =
        (key, u, endpoint, k, e, admit-Admits now key u endpoint db dumped override h)

    go :
        (o : Option (StreamKeyType × User))
        → get_user_key now info.key db ≡ o
        → admit_user now info.app_name o db ≡ allow dumped override
        → (key : StreamKeyType) × (u : User) × (endpoint : IngestEndpoint) × (get_user_key now
              info.key db
            ≡ some (key, u))
          × (detect_endpoint info.app_name db.endpoints ≡ some endpoint)
          × Admits now key u endpoint db override
    go none e h = cc
    go (some (key, u)) e h = at key u (detect_endpoint info.app_name db.endpoints) e refl h
