-- ===== src/Http/Range/Waiting.antt =====
-- The wait for the bytes of a hinted part in `get_segment`
-- (crates/zap-stream/src/http/hls.rs) ends.
use zap_stream_core.Prelude.{
  ℕ, ◌+◌, ◌*◌, ◌≤◌, ◌<◌, ◌≡◌, refl, ◌∙◌, ◌⊎◌, inl, inr, Option, none, some, List, [], ◌∷◌, length,
  arith,
}
use zap_stream_core.Http.Paths.{StatusCode, Result, ok, err}
use zap_stream_core.Http.Range.{
  Round, Wait, ready, failed, sleep, round_result, wait_round, wait_for_bytes,
}

-- The clock at the rounds: not before `t` at the first, and 50 ms later at least at each next one.
abbrev pub Paced : ℕ → List Round → Type 0
Paced t [] = Unit {0}
Paced t (r ∷ rounds) = (t ≤ r.now) × Paced (r.now + 50) rounds

abbrev pub Some : (Round → Type 0) → List Round → Type 0
Some P [] = ⊥
Some P (r ∷ rounds) = P r ⊎ Some P rounds

abbrev pub HasMore : ℕ → Round → Type 0
HasMore start r = (size : ℕ) × (r.size ≡ some size) × (start < size)

Wait-cases : (w : Wait) → (w ≡ ready) ⊎ (((e : StatusCode) × (w ≡ failed e)) ⊎ (w ≡ sleep))
Wait-cases ready = inl refl
Wait-cases (failed e) = inr (inl (e, refl))
Wait-cases sleep = inr (inr refl)

round_result-ready :
    (start deadline : ℕ) (r : Round) (size : Option ℕ)
    → round_result start deadline r size ≡ ready
    → (n : ℕ) × (size ≡ some n) × (start < n)
unfolding round_result
round_result-ready start deadline r none e = cc
round_result-ready start deadline r (some n) e = (n, refl, ground arith)

round_result-sleep :
    (start deadline : ℕ) (r : Round) (size : Option ℕ)
    → round_result start deadline r size ≡ sleep
    → r.now < deadline
unfolding round_result
round_result-sleep start deadline r none e = cc
round_result-sleep start deadline r (some n) e = ground arith

wait_for_bytes-cases :
    (start deadline : ℕ) (r : Round) (rounds : List Round)
    → ((result : Result (Unit {0})) × (wait_for_bytes start deadline (r ∷ rounds) ≡ some result))
      ⊎ ((r.now < deadline)
          × (wait_for_bytes start deadline (r ∷ rounds) ≡ wait_for_bytes start deadline rounds))
unfolding wait_for_bytes wait_round
wait_for_bytes-cases start deadline r rounds = elim (Wait-cases (wait_round start deadline r)) [
  | inl e ↦ inl (ok tt, rw (e, wait_for_bytes) refl)
  | inr (inl (c, e)) ↦ inl (err c, rw (e, wait_for_bytes) refl)
  | inr (inr e) ↦ inr (round_result-sleep start deadline r r.size e, rw (e, wait_for_bytes) refl)
]

-- When the rounds are 50 ms apart and reach the deadline, the wait has a result: a hinted request is
-- answered after at most one round more than the deadline has rounds.
wait_for_bytes-ends :
    (start deadline t : ℕ) (r : Round) (rounds : List Round)
    → Paced t (r ∷ rounds)
    → deadline ≤ t + 50 * length rounds
    → (result : Result (Unit {0})) × (wait_for_bytes start deadline (r ∷ rounds) ≡ some result)
wait_for_bytes-ends start deadline t r [] p h = elim (wait_for_bytes-cases start deadline r []) [
  | inl found ↦ found
  | inr (early, _) ↦ absurd (omega (arith, p.0))
]
wait_for_bytes-ends start deadline t r (q ∷ rounds) p h =
    elim (wait_for_bytes-cases start deadline r (q ∷ rounds)) [
      | inl found ↦ found
      | inr (early, e) ↦
          let (result, found) =
            wait_for_bytes-ends start deadline (r.now + 50) q rounds p.1 (omega (arith, p.0)) in
          (result, e ∙ found)
    ]

-- It succeeds only when a round saw the file grown past the requested start.
wait_for_bytes-ok :
    (start deadline : ℕ) (rounds : List Round)
    → wait_for_bytes start deadline rounds ≡ some (ok tt)
    → Some (HasMore start) rounds
unfolding wait_for_bytes wait_round
wait_for_bytes-ok start deadline [] e = cc
wait_for_bytes-ok start deadline (r ∷ rounds) e = elim (Wait-cases (wait_round start deadline r)) [
  | inl w ↦ inl (round_result-ready start deadline r r.size w)
  | inr (inl (c, w)) ↦ absurd (ground (arith, w))
  | inr (inr w) ↦ inr (wait_for_bytes-ok start deadline rounds (ground (arith, w)))
]
