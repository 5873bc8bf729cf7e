-- ===== src/Pipeline/Reorder/Order.antt =====
-- The frames of a `FrameReorderBuffer` (crates/core/src/reorder.rs) are neither lost nor doubled,
-- they leave it by PTS when it is flushed, and it stays within its size.
use zap_stream_core.Prelude.{
  ℕ, zero, suc, ◌+◌, ◌≤◌, ◌≡◌, refl, sym, ap, ◌∙◌, inl, inr, Bool, true, false, Bool-cases, Option,
  none, some, Option-cases, List, [], ◌∷◌, ◌++◌, ltb, leb, if◌then◌else◌, length, arith,
}
use zap_stream_core.Prelude.Int.{ltb_ℤ}
use zap_stream_core.Pipeline.Reorder.{
  Frame, FrameReorderBuffer, take_out, emit_due, emit_forced, next_due, next_forced, rounds, insert,
  emit, push_frame, drain, flush_frames, is_due,
}

abbrev pub one_if : Bool → ℕ
one_if true = 1
one_if false = 0

abbrev pub count {ℓ} : {A : Type ℓ} → (Frame A → Bool) → List (Frame A) → ℕ
count p [] = 0
count p (f ∷ fs) = one_if (p f) + count p fs

abbrev pub earlier {ℓ} : {A : Type ℓ} → Frame A → Frame A → Bool
earlier f g = ltb_ℤ g.pts f.pts

-- No frame comes behind one of a later PTS.
abbrev pub Sorted {ℓ} : {A : Type ℓ} → List (Frame A) → Type 0
Sorted [] = Unit {0}
Sorted (f ∷ fs) = (count (earlier f) fs ≡ 0) × Sorted fs

-- What the code relies on of `BinaryHeap::pop` under the reversed order of PTS: it takes a frame out
-- of a heap that is not empty, keeps the other frames, and none of these is earlier. Which of two
-- frames of one PTS comes first is open.
pub record PopsEarliest {ℓ} {A : Type ℓ} (pop : List (Frame A) → Option (Frame A × List (Frame A)))
    : Type ℓ where
  pub gives :
      (f : Frame A) (fs : List (Frame A)) → (x : Frame A × List (Frame A)) × (pop (f ∷ fs) ≡ some x)
  pub keeps :
      (heap : List (Frame A)) (f : Frame A) (rest : List (Frame A))
      → pop heap ≡ some (f, rest)
      → (p : Frame A → Bool) → count p heap ≡ count p (f ∷ rest)
  pub least :
      (heap : List (Frame A)) (f : Frame A) (rest : List (Frame A))
      → pop heap ≡ some (f, rest)
      → count (earlier f) rest ≡ 0

count-length {ℓ} : {A : Type ℓ} (fs : List (Frame A)) → count (λ _. true) fs ≡ length fs
count-length [] = refl
count-length (f ∷ fs) = omega (arith, count-length fs)

count-append {ℓ} :
    {A : Type ℓ} (p : Frame A → Bool) (xs ys : List (Frame A))
    → count p (xs ++ ys) ≡ count p xs + count p ys
count-append p [] ys = omega arith
count-append p (x ∷ xs) ys = omega (arith, count-append p xs ys)

module _ {ℓ} {A : Type ℓ} (pop : List (Frame A) → Option (Frame A × List (Frame A)))
    (h : PopsEarliest pop) where
  pop-shorter :
      (heap : List (Frame A)) (f : Frame A) (rest : List (Frame A))
      → pop heap ≡ some (f, rest)
      → length heap ≡ suc (length rest)
  pop-shorter heap f rest e =
      omega (arith, h.keeps heap f rest e (λ _. true), count-length heap, count-length rest)

  pop-none : (heap : List (Frame A)) (p : Frame A → Bool) → pop heap ≡ none → 0 ≡ count p heap
  pop-none [] p e = refl
  pop-none (f ∷ fs) p e = absurd (none_or_some (sym e ∙ (h.gives f fs).1))
    where
      none_or_some : {x : Frame A × List (Frame A)} → ¬ (none ≡ some x)
      none_or_some e = cc

  drain-count :
      (n : ℕ) (heap : List (Frame A)) (p : Frame A → Bool)
      → length heap ≤ n
      → count p (drain pop n heap) ≡ count p heap
  unfolding drain
  drain-count zero [] p e = refl
  drain-count zero (f ∷ fs) p e = absurd (omega (arith, e))
  drain-count (suc n) heap p e = elim (Option-cases (pop heap)) [
    | inl none_left ↦ rw (none_left, drain) (pop-none heap p none_left)
    | inr ((f, rest), e1) ↦
        rw (e1, drain)
          (ap (λ n. one_if (p f) + n)
              (drain-count n rest p (omega (arith, e, pop-shorter heap f rest e1)))
            ∙ sym (h.keeps heap f rest e1 p))
  ]

  drain-Sorted : (n : ℕ) (heap : List (Frame A)) → length heap ≤ n → Sorted (drain pop n heap)
  unfolding drain
  drain-Sorted zero heap e = tt
  drain-Sorted (suc n) heap e = elim (Option-cases (pop heap)) [
    | inl none_left ↦ rw (none_left, drain) tt
    | inr ((f, rest), e1) ↦
        rw (e1, drain)
          (
            drain-count n rest (earlier f) (omega (arith, e, pop-shorter heap f rest e1))
                ∙ h.least heap f rest e1,
            drain-Sorted n rest (omega (arith, e, pop-shorter heap f rest e1)),
          )
  ]

  -- A round takes the frame that `pop` gives.
  abbrev Takes : (FrameReorderBuffer A → Option (Frame A × FrameReorderBuffer A)) → Type ℓ
  Takes next =
      (b : FrameReorderBuffer A) (f : Frame A) (c : FrameReorderBuffer A)
      → next b ≡ some (f, c)
      → (pop b.heap ≡ some (f, c.heap)) × (c.max_size ≡ b.max_size)

  emit_forced-Takes :
      (b : FrameReorderBuffer A) (g : Frame A) (c : FrameReorderBuffer A)
      (o : Option (Frame A × List (Frame A)))
      → emit_forced pop b o ≡ some (g, c)
      → (o ≡ some (g, c.heap)) × (c.max_size ≡ b.max_size)
  unfolding emit_forced take_out
  emit_forced-Takes b g c none e = cc
  emit_forced-Takes b g c (some (f, rest)) e = (cc, cc)

  the_pair : Frame A → FrameReorderBuffer A → Frame A × List (Frame A)
  the_pair g c = (g, c.heap)

  emit_due-Takes :
      (b : FrameReorderBuffer A) (g : Frame A) (c : FrameReorderBuffer A)
      (o : Option (Frame A × List (Frame A)))
      → emit_due pop b o ≡ some (g, c)
      → (o ≡ some (g, c.heap)) × (c.max_size ≡ b.max_size)
  unfolding emit_due emit_forced take_out the_pair
  emit_due-Takes b g c none e = cc
  emit_due-Takes b g c (some (f, rest)) e = go (is_due b.next_pts f.pts) e
    where
      go :
          (due : Bool)
          → (if due then emit_forced pop b (some (f, rest)) else none) ≡ some (g, c)
          → (some (f, rest) ≡ some (the_pair g c)) × (c.max_size ≡ b.max_size)
      go true e = emit_forced-Takes b g c (some (f, rest)) e
      go false e = cc

  next_forced-Takes : Takes (next_forced pop)
  unfolding next_forced
  next_forced-Takes b g c e = go (ltb b.max_size (length b.heap)) e
    where
      go :
          (full : Bool)
          → (if full then emit_forced pop b (pop b.heap) else none) ≡ some (g, c)
          → (pop b.heap ≡ some (g, c.heap)) × (c.max_size ≡ b.max_size)
      go true e = emit_forced-Takes b g c (pop b.heap) e
      go false e = cc

  next_due-Takes : Takes (next_due pop)
  unfolding next_due
  next_due-Takes b g c e = go (leb (length b.heap) b.min_depth) e
    where
      go :
          (shallow : Bool)
          → (if shallow then none else emit_due pop b (pop b.heap)) ≡ some (g, c)
          → (pop b.heap ≡ some (g, c.heap)) × (c.max_size ≡ b.max_size)
      go true e = cc
      go false e = emit_due-Takes b g c (pop b.heap) e

  rounds-count :
      (next : FrameReorderBuffer A → Option (Frame A × FrameReorderBuffer A)) (n : ℕ)
      (b : FrameReorderBuffer A) (p : Frame A → Bool)
      → Takes next
      → (count p (rounds pop next n b).0 + count p (rounds pop next n b).1.heap ≡ count p b.heap)
        × ((rounds pop next n b).1.max_size ≡ b.max_size)
  unfolding rounds
  rounds-count next zero b p t = (omega arith, refl)
  rounds-count next (suc n) b p t = elim (Option-cases (next b)) [
    | inl e ↦ rw (e, rounds) (omega arith, refl)
    | inr ((f, c), e) ↦
        let taken = t b f c e in
        let later = rounds-count next n c p t in
        rw (e, rounds)
          (omega (arith, later.0, h.keeps b.heap f c.heap taken.0 p), later.1 ∙ taken.1)
  ]

  rounds-stops :
      (next : FrameReorderBuffer A → Option (Frame A × FrameReorderBuffer A)) (n : ℕ)
      (b : FrameReorderBuffer A)
      → Takes next
      → length b.heap ≤ n
      → next (rounds pop next n b).1 ≡ none
  unfolding rounds
  rounds-stops next zero b t e = elim (Option-cases (next b)) [
    | inl stop ↦ stop
    | inr ((f, c), more) ↦ absurd (omega (arith, e, pop-shorter b.heap f c.heap (t b f c more).0))
  ]
  rounds-stops next (suc n) b t e = elim (Option-cases (next b)) [
    | inl stop ↦ rw (stop, rounds) stop
    | inr ((f, c), more) ↦
        rw (more, rounds)
          (rounds-stops next n c t (omega (arith, e, pop-shorter b.heap f c.heap (t b f c more).0)))
  ]

  emit_forced-none :
      (b : FrameReorderBuffer A) (o : Option (Frame A × List (Frame A)))
      → emit_forced pop b o ≡ none
      → o ≡ none
  unfolding emit_forced
  emit_forced-none b none e = refl
  emit_forced-none b (some x) e = cc

  next_forced-none :
      (b : FrameReorderBuffer A) → next_forced pop b ≡ none → length b.heap ≤ b.max_size
  unfolding next_forced
  next_forced-none b e = go (ltb b.max_size (length b.heap)) refl e
    where
      go :
          (full : Bool)
          → ltb b.max_size (length b.heap) ≡ full
          → (if full then emit_forced pop b (pop b.heap) else none) ≡ none
          → length b.heap ≤ b.max_size
      go true f e = omega (
        arith,
        count-length b.heap,
        pop-none b.heap (λ _. true) (emit_forced-none b (pop b.heap) e),
      )
      go false f e = ground arith

  emit-count :
      (c : FrameReorderBuffer A) (p : Frame A → Bool)
      → (count p (emit pop c).0 + count p (emit pop c).1.heap ≡ count p c.heap)
        × (length (emit pop c).1.heap ≤ c.max_size)
  unfolding emit
  emit-count c p =
      let x = rounds pop (next_due pop) (length c.heap) c in
      let y = rounds pop (next_forced pop) (length x.1.heap) x.1 in
      let a = rounds-count (next_due pop) (length c.heap) c p next_due-Takes in
      let b = rounds-count (next_forced pop) (length x.1.heap) x.1 p next_forced-Takes in
      let stop =
        next_forced-none y.1
          (rounds-stops (next_forced pop) (length x.1.heap) x.1 next_forced-Takes (omega arith)) in
      (omega (arith, count-append p x.0 y.0, a.0, b.0), omega (arith, stop, a.1, b.1))

  -- A frame is pushed into a buffer whose minimal depth is at most its maximal size, and `pop` takes
  -- an earliest frame: what comes out and what stays are the frames of the heap and the pushed one,
  -- as any predicate counts them, and what stays is no more than the maximal size.
  pub push_frame-count :
      (f : Frame A) (b : FrameReorderBuffer A) (p : Frame A → Bool)
      → b.min_depth ≤ b.max_size
      → (count p (push_frame pop f b).0 + count p (push_frame pop f b).1.heap
          ≡ one_if (p f) + count p b.heap)
        × (length (push_frame pop f b).1.heap ≤ b.max_size)
  unfolding push_frame insert emit
  push_frame-count f b p small = elim (Bool-cases (ltb (suc (length b.heap)) b.min_depth)) [
    | inl shallow ↦ rw shallow (omega arith, ground arith)
    | inr deep ↦ rw deep (emit-count (insert pop f b) p)
  ]

  -- When `pop` takes an earliest frame, a flush puts out the frames of the heap, as any predicate
  -- counts them, none behind one of a later PTS, and leaves none.
  pub flush_frames-Sorted :
      (b : FrameReorderBuffer A)
      → Sorted (flush_frames pop b).0
        × ((p : Frame A → Bool) → count p (flush_frames pop b).0 ≡ count p b.heap)
        × ((flush_frames pop b).1.heap ≡ [])
  unfolding flush_frames
  flush_frames-Sorted b = (
    drain-Sorted (length b.heap) b.heap (omega arith),
    λ p. drain-count (length b.heap) b.heap p (omega arith),
    refl,
  )
