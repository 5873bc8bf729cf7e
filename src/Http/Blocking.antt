-- ===== src/Http/Blocking.antt =====
-- Blocking playlist requests: `read_playlist_blocking` of crates/zap-stream/src/http/hls.rs.
use zap_stream_core.Prelude.{
  ℕ, ◌+◌, ◌*◌, ◌≤◌, ◌<◌, ◌≡◌, refl, ◌∙◌, ◌⊎◌, inl, inr, Bool, true, false, Option, none, some, List,
  [], ◌∷◌, leb, if◌then◌else◌, length, arith, sym, ap, subst,
}
use zap_stream_core.Http.Parts.{Playlist, playlist_has_part}

-- What one round sees: the file's content, `none` when the read fails, and the time in milliseconds.
pub record Poll : Type 0 where
  pub content : Option (List ℕ)
  pub now : ℕ

pub data Reply : Type 0 where
  content : List ℕ → Reply
  read_error : Reply

abbrev pub or_default : Option ℕ → ℕ
or_default none = 0
or_default (some n) = n

reply_to : Bool → Bool → List ℕ → Option Reply → Option Reply
reply_to available expired bytes later =
    if available
    then some (Reply.content bytes)
    else if expired
    then some (Reply.content bytes)
    else later

-- `some` when the round returns, else the reply of the rounds after it.
poll : (List ℕ → ℕ → ℕ → Bool) → ℕ → ℕ → ℕ → Option (List ℕ) → ℕ → Option Reply → Option Reply
unfolding reply_to
poll has_part deadline msn part none now later = some read_error
poll has_part deadline msn part (some bytes) now later =
    reply_to (has_part bytes msn part) (leb deadline now) bytes later

poll_loop : (List ℕ → ℕ → ℕ → Bool) → ℕ → ℕ → ℕ → List Poll → Option Reply
unfolding poll
poll_loop has_part deadline msn part [] = none
poll_loop has_part deadline msn part (p ∷ polls) =
    let later = poll_loop has_part deadline msn part polls in
    poll has_part deadline msn part p.content p.now later

-- The request made at `t`, over the rounds to come; `none` when they run out.
unfoldable pub read_playlist_blocking :
    (List ℕ → Option Playlist) → ℕ → Option ℕ → Option ℕ → List Poll → Option Reply
unfolding poll_loop
read_playlist_blocking parse t want_msn want_part polls =
    poll_loop (playlist_has_part parse) (t + 6000) (or_default want_msn) (or_default want_part)
      polls

-- The clock at the rounds: not before `t` at the first, and 30 ms later at least at each next one.
abbrev pub Paced : ℕ → List Poll → Type 0
Paced t [] = Unit {0}
Paced t (p ∷ polls) = (t ≤ p.now) × Paced (p.now + 30) polls

abbrev pub AnyPoll : (Poll → Type 0) → List Poll → Type 0
AnyPoll P [] = ⊥
AnyPoll P (p ∷ polls) = P p ⊎ AnyPoll P polls

-- A round that read `bytes`, with the part in them or the deadline reached.
abbrev pub Answers : (List ℕ → ℕ → ℕ → Bool) → ℕ → ℕ → ℕ → List ℕ → Poll → Type 0
Answers has_part deadline msn part bytes p =
    (p.content ≡ some bytes) × ((has_part bytes msn part ≡ true) ⊎ (deadline ≤ p.now))

reply_to-cases :
    (available expired : Bool) (bytes : List ℕ) (later : Option Reply)
    → (((available ≡ true) ⊎ (expired ≡ true))
        × (reply_to available expired bytes later ≡ some (Reply.content bytes)))
      ⊎ ((expired ≡ false) × (reply_to available expired bytes later ≡ later))
unfolding reply_to
reply_to-cases true expired bytes later = inl (inl refl, refl)
reply_to-cases false true bytes later = inl (inr refl, refl)
reply_to-cases false false bytes later = inr (refl, refl)

poll-cases :
    (has_part : List ℕ → ℕ → ℕ → Bool) (deadline msn part : ℕ) (read : Option (List ℕ)) (now : ℕ)
    (later : Option Reply)
    → ((reply : Reply) × (poll has_part deadline msn part read now later ≡ some reply))
      ⊎ ((now < deadline) × (poll has_part deadline msn part read now later ≡ later))
unfolding poll
poll-cases has_part deadline msn part none now later = inl (read_error, refl)
poll-cases has_part deadline msn part (some bytes) now later =
    elim (reply_to-cases (has_part bytes msn part) (leb deadline now) bytes later) [
      | inl (_, e) ↦ inl (Reply.content bytes, e)
      | inr (early, e) ↦ inr (ground arith, e)
    ]

poll_loop-ends :
    (has_part : List ℕ → ℕ → ℕ → Bool) (deadline msn part t : ℕ) (p : Poll) (polls : List Poll)
    → Paced t (p ∷ polls)
    → deadline ≤ t + 30 * length polls
    → (reply : Reply) × (poll_loop has_part deadline msn part (p ∷ polls) ≡ some reply)
unfolding poll_loop
poll_loop-ends has_part deadline msn part t p [] h far =
    elim (poll-cases has_part deadline msn part p.content p.now none) [
      | inl found ↦ found
      | inr (early, _) ↦ absurd (omega (arith, h.0))
    ]
poll_loop-ends has_part deadline msn part t p (q ∷ polls) h far =
    let later = poll_loop has_part deadline msn part (q ∷ polls) in
    elim (poll-cases has_part deadline msn part p.content p.now later) [
      | inl found ↦ found
      | inr (early, e) ↦
          let (reply, found) =
            poll_loop-ends has_part deadline msn part (p.now + 30) q polls h.1
              (omega (arith, h.0)) in
          (reply, e ∙ found)
    ]

-- When the rounds are 30 ms apart and reach six seconds after the request, a blocking request for a
-- playlist gets a reply, whatever the reads return and whether the part ever appears.
pub read_playlist_blocking-ends :
    (parse : List ℕ → Option Playlist) (t : ℕ) (want_msn want_part : Option ℕ) (p : Poll)
    (polls : List Poll)
    → Paced t (p ∷ polls)
    → 6000 ≤ 30 * length polls
    → (reply : Reply) × (read_playlist_blocking parse t want_msn want_part (p ∷ polls) ≡ some reply)
unfolding read_playlist_blocking
read_playlist_blocking-ends parse t want_msn want_part p polls paced far =
    poll_loop-ends (playlist_has_part parse) (t + 6000) (or_default want_msn) (or_default want_part)
      t p polls paced (omega arith)

content_inj :
    {read bytes : List ℕ} → some (Reply.content read) ≡ some (Reply.content bytes) → read ≡ bytes
content_inj e = cc

poll-content :
    (has_part : List ℕ → ℕ → ℕ → Bool) (deadline msn part : ℕ) (p : Poll) (read : Option (List ℕ))
    (later : Option Reply) (bytes : List ℕ)
    → p.content ≡ read
    → poll has_part deadline msn part read p.now later ≡ some (Reply.content bytes)
    → Answers has_part deadline msn part bytes p ⊎ (later ≡ some (Reply.content bytes))
unfolding poll
poll-content has_part deadline msn part p none later bytes same e = cc
poll-content has_part deadline msn part p (some read) later bytes same e =
    elim (reply_to-cases (has_part read msn part) (leb deadline p.now) read later) [
      | inl (reason, found) ↦
          let this = content_inj (sym found ∙ e) in
          inl (
            same ∙ ap some this,
            elim reason [
              | inl a ↦ inl (subst (λ b. has_part b msn part ≡ true) this a)
              | inr late ↦ inr (ground arith)
            ],
          )
      | inr (early, skip) ↦ inr (sym skip ∙ e)
    ]

poll_loop-content :
    (has_part : List ℕ → ℕ → ℕ → Bool) (deadline msn part : ℕ) (polls : List Poll) (bytes : List ℕ)
    → poll_loop has_part deadline msn part polls ≡ some (Reply.content bytes)
    → AnyPoll (Answers has_part deadline msn part bytes) polls
unfolding poll_loop
poll_loop-content has_part deadline msn part [] bytes e = cc
poll_loop-content has_part deadline msn part (p ∷ polls) bytes e =
    elim (poll-content has_part deadline msn part p p.content
      (poll_loop has_part deadline msn part polls) bytes refl e) [
        | inl found ↦ inl found
        | inr later ↦ inr (poll_loop-content has_part deadline msn part polls bytes later)
      ]

-- A playlist that a blocking request returns was read whole in one of its rounds, and either it has
-- the part asked for, both numbers 0 when not given, or six seconds had passed when it was read.
pub read_playlist_blocking-content :
    (parse : List ℕ → Option Playlist) (t : ℕ) (want_msn want_part : Option ℕ) (polls : List Poll)
    (bytes : List ℕ)
    → read_playlist_blocking parse t want_msn want_part polls ≡ some (Reply.content bytes)
    → AnyPoll
        (Answers
          (playlist_has_part parse)
          (t + 6000)
          (or_default want_msn)
          (or_default want_part)
          bytes)
        polls
unfolding read_playlist_blocking
read_playlist_blocking-content parse t want_msn want_part polls bytes e =
    poll_loop-content (playlist_has_part parse) (t + 6000) (or_default want_msn)
      (or_default want_part) polls bytes e
