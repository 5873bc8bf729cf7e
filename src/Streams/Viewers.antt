-- ===== src/Streams/Viewers.antt =====
-- The in-memory `ViewerTracker` of crates/zap-stream/src/viewer.rs: viewers by token, and their
-- cleanup in two steps. Tokens and stream ids are numbers, times are in milliseconds.
use zap_stream_core.Prelude.{
  ℕ, ◌*◌, ◌+◌, ◌-◌, ◌≡◌, refl, sym, ap, subst, ◌∙◌, inl, inr, Bool, true, false, Bool-cases, Option,
  none, some, List, [], ◌∷◌, ◌==◌, ltb, if◌then◌else◌, any, arith,
}

pub record ViewerInfo : Type 0 where
  pub stream_id : ℕ
  pub last_seen : ℕ

-- The hash map, with one entry for each token.
abbrev pub Viewers : Type 0
Viewers = List (ℕ × ViewerInfo)

abbrev pub timeout_duration : ℕ
timeout_duration = 600 * 1000

abbrev pub viewer_of : ℕ → Viewers → Option ViewerInfo
viewer_of token [] = none
viewer_of token ((t, v) ∷ viewers) = if t == token then some v else viewer_of token viewers

-- The entry is updated, or inserted when there is none.
unfoldable pub track_viewer_in_memory : ℕ → ℕ → ℕ → Viewers → Viewers
track_viewer_in_memory now stream_id token [] =
    (token, record { stream_id = stream_id; last_seen = now }) ∷ []
track_viewer_in_memory now stream_id token ((t, v) ∷ viewers) = elim (t == token) [
  | true ↦ (t, record { stream_id = stream_id; last_seen = now }) ∷ viewers
  | false ↦ (t, v) ∷ track_viewer_in_memory now stream_id token viewers
]

-- `now.duration_since(last_seen)` is 0 when `last_seen` is later.
abbrev pub is_expired : ℕ → ViewerInfo → Bool
is_expired now v = ltb timeout_duration (now - v.last_seen)

-- The first step of the cleanup, under the read lock.
unfoldable pub expired_tokens : ℕ → Viewers → List ℕ
expired_tokens now [] = []
expired_tokens now ((t, v) ∷ viewers) =
    let rest = expired_tokens now viewers in if is_expired now v then t ∷ rest else rest

unfoldable pub remove : ℕ → Viewers → Viewers
remove token [] = []
remove token ((t, v) ∷ viewers) =
    let rest = remove token viewers in if t == token then rest else (t, v) ∷ rest

-- The second, under the write lock: other calls may have come between.
unfoldable pub remove_tokens : List ℕ → Viewers → Viewers
unfolding remove
remove_tokens [] viewers = viewers
remove_tokens (t ∷ tokens) viewers = remove_tokens tokens (remove t viewers)

unfoldable pub cleanup_expired_viewers : ℕ → Viewers → Viewers
unfolding expired_tokens remove_tokens
cleanup_expired_viewers now viewers = remove_tokens (expired_tokens now viewers) viewers

-- `get_viewer_count` without Redis.
unfoldable pub get_viewer_count : ℕ → Viewers → ℕ
get_viewer_count stream_id [] = 0
get_viewer_count stream_id ((t, v) ∷ viewers) =
    (if v.stream_id == stream_id then 1 else 0) + get_viewer_count stream_id viewers

-- A viewer is found as it was tracked last, and the others as they were.
viewer_of-track :
    (now stream_id token other : ℕ) (viewers : Viewers)
    → viewer_of other (track_viewer_in_memory now stream_id token viewers) ≡ (
        if token == other
        then some (record { stream_id = stream_id; last_seen = now })
        else viewer_of other viewers)
unfolding track_viewer_in_memory
viewer_of-track now stream_id token other [] = refl
viewer_of-track now stream_id token other ((t, v) ∷ viewers) = elim (Bool-cases (t == token)) [
  | inl e ↦ rw (e, track_viewer_in_memory) (ground (arith, e))
  | inr e ↦
      rw (e, track_viewer_in_memory)
        (ground (arith, e, viewer_of-track now stream_id token other viewers))
]

viewer_of-remove :
    (token other : ℕ) (viewers : Viewers)
    → viewer_of other (remove token viewers)
      ≡ (if token == other then none else viewer_of other viewers)
unfolding remove
viewer_of-remove token other [] = ground arith
viewer_of-remove token other ((t, v) ∷ viewers) = elim (Bool-cases (t == token)) [
  | inl e ↦ rw (e, remove) (ground (arith, e, viewer_of-remove token other viewers))
  | inr e ↦ rw (e, remove) (ground (arith, e, viewer_of-remove token other viewers))
]

either_way :
    (a b : Bool) (o : Option ViewerInfo)
    → (if b then none else if a then none else o) ≡ (if (if a then true else b) then none else o)
either_way true true o = refl
either_way true false o = refl
either_way false b o = refl

viewer_of-remove_tokens :
    (tokens : List ℕ) (token : ℕ) (viewers : Viewers)
    → viewer_of token (remove_tokens tokens viewers)
      ≡ (if any (λ t. t == token) tokens then none else viewer_of token viewers)
unfolding remove_tokens
viewer_of-remove_tokens [] token viewers = refl
viewer_of-remove_tokens (t ∷ tokens) token viewers =
    viewer_of-remove_tokens tokens token (remove t viewers)
    ∙ ap (λ o. if any (λ t. t == token) tokens then none else o) (viewer_of-remove t token viewers)
    ∙ either_way (t == token) (any (λ t. t == token) tokens) (viewer_of token viewers)

-- No token has two entries.
abbrev pub Unique : Viewers → Type 0
Unique [] = Unit {0}
Unique ((t, v) ∷ viewers) = (viewer_of t viewers ≡ none) × Unique viewers

abbrev pub is_old : ℕ → Option ViewerInfo → Bool
is_old now none = false
is_old now (some v) = is_expired now v

same_token :
    (t token : ℕ) (viewers : Viewers)
    → (t == token) ≡ true
    → viewer_of t viewers ≡ none
    → viewer_of token viewers ≡ none
same_token t token viewers e h = subst (λ n. viewer_of n viewers ≡ none) (ground (arith, e)) h

expired_tokens-is_old :
    (now token : ℕ) (viewers : Viewers)
    → Unique viewers
    → any (λ t. t == token) (expired_tokens now viewers) ≡ is_old now (viewer_of token viewers)
unfolding expired_tokens
expired_tokens-is_old now token [] u = refl
expired_tokens-is_old now token ((t, v) ∷ viewers) u =
    let rest = expired_tokens-is_old now token viewers u.1 in
    elim (Bool-cases (is_expired now v)) [
      | inl old ↦ elim (Bool-cases (t == token)) [
        | inl e ↦ rw (old, e) (sym old)
        | inr e ↦ rw (old, e) rest
      ]
      | inr fresh ↦ elim (Bool-cases (t == token)) [
        | inl e ↦
            rw (fresh, e) (rest ∙ ap (is_old now) (same_token t token viewers e u.0) ∙ sym fresh)
        | inr e ↦ rw (fresh, e) rest
      ]
    ]

-- The cleanup removes exactly the viewers that were last seen more than ten minutes ago, from a map
-- with one entry for each token.
cleanup_expired_viewers-is_old :
    (now token : ℕ) (viewers : Viewers)
    → Unique viewers
    → viewer_of token (cleanup_expired_viewers now viewers)
      ≡ (if is_old now (viewer_of token viewers) then none else viewer_of token viewers)
unfolding cleanup_expired_viewers
cleanup_expired_viewers-is_old now token viewers u =
    viewer_of-remove_tokens (expired_tokens now viewers) token viewers
    ∙ ap (λ b. if b then none else viewer_of token viewers)
        (expired_tokens-is_old now token viewers u)

-- A viewer that the first step of the cleanup found expired is removed by the second, also when it
-- has been tracked again in between.
pub remove_tokens-tracked :
    (now token later stream_id : ℕ) (viewers : Viewers)
    → Unique viewers
    → is_old now (viewer_of token viewers) ≡ true
    → viewer_of token (
        remove_tokens
          (expired_tokens now viewers)
          (track_viewer_in_memory later stream_id token viewers))
      ≡ none
remove_tokens-tracked now token later stream_id viewers u old =
    viewer_of-remove_tokens (expired_tokens now viewers) token
      (track_viewer_in_memory later stream_id token viewers)
    ∙ ap
        (λ b.
          if b
          then none
          else viewer_of token (track_viewer_in_memory later stream_id token viewers))
        (expired_tokens-is_old now token viewers u ∙ old)
