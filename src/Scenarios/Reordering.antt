-- ===== src/Scenarios/Reordering.antt =====
-- A heap that a list is searched for its earliest frame in, and frames that leave it in order.
use zap_stream_core.Prelude.{
  ℕ, ◌+◌, ◌≤◌, ◌≡◌, refl, sym, ap, inl, inr, ◌∙◌, Bool, true, false, Bool-cases, Option, none, some,
  List, [], ◌∷◌, length, arith,
}
use zap_stream_core.Prelude.Int.{pos, ltb_ℤ, ◌≤ℤ◌}
use zap_stream_core.Pipeline.Reorder.{Frame, FrameReorderBuffer, push_frame, flush_frames}
use zap_stream_core.Pipeline.Reorder.Order.{
  one_if, count, earlier, Sorted, PopsEarliest, push_frame-count, flush_frames-Sorted,
}

select : Frame ℕ → List (Frame ℕ) → Frame ℕ × List (Frame ℕ)
select f [] = (f, [])
select f (g ∷ fs) = elim (ltb_ℤ g.pts f.pts) [
  | true ↦ let (m, rest) = select g fs in (m, f ∷ rest)
  | false ↦ let (m, rest) = select f fs in (m, g ∷ rest)
]

pop_earliest : List (Frame ℕ) → Option (Frame ℕ × List (Frame ℕ))
pop_earliest [] = none
pop_earliest (f ∷ fs) = some (select f fs)

select-count :
    (f : Frame ℕ) (fs : List (Frame ℕ)) (p : Frame ℕ → Bool)
    → one_if (p f) + count p fs ≡ one_if (p (select f fs).0) + count p (select f fs).1
unfolding select
select-count f [] p = refl
select-count f (g ∷ fs) p = elim (Bool-cases (ltb_ℤ g.pts f.pts)) [
  | inl e ↦ rw (e, select) (omega (arith, select-count g fs p))
  | inr e ↦ rw (e, select) (omega (arith, select-count f fs p))
]

select-first : (f : Frame ℕ) (fs : List (Frame ℕ)) → (select f fs).0.pts ≤ℤ f.pts
unfolding select
select-first f [] = omega arith
select-first f (g ∷ fs) = elim (Bool-cases (ltb_ℤ g.pts f.pts)) [
  | inl e ↦ rw (e, select) (ground (arith, e, select-first g fs))
  | inr e ↦ rw (e, select) (select-first f fs)
]

not_earlier : (m f : Frame ℕ) → m.pts ≤ℤ f.pts → one_if (earlier m f) ≡ 0
not_earlier m f h = ground arith

select-least :
    (f : Frame ℕ) (fs : List (Frame ℕ)) → count (earlier (select f fs).0) (select f fs).1 ≡ 0
unfolding select
select-least f [] = refl
select-least f (g ∷ fs) = elim (Bool-cases (ltb_ℤ g.pts f.pts)) [
  | inl e ↦
      rw (e, select)
        (omega (
          arith,
          not_earlier (select g fs).0 f (ground (arith, e, select-first g fs)),
          select-least g fs,
        ))
  | inr e ↦
      rw (e, select)
        (omega (
          arith,
          not_earlier (select f fs).0 g (ground (arith, e, select-first f fs)),
          select-least f fs,
        ))
]

some_inj : {x y : Frame ℕ × List (Frame ℕ)} → some x ≡ some y → x ≡ y
some_inj e = cc

pop_earliest-PopsEarliest : PopsEarliest pop_earliest
unfolding pop_earliest
pop_earliest-PopsEarliest = record {
  gives = λ f fs. (select f fs, refl);
  keeps = keeps;
  least = least;
}
  where
    keeps :
        (heap : List (Frame ℕ)) (f : Frame ℕ) (rest : List (Frame ℕ))
        → pop_earliest heap ≡ some (f, rest)
        → (p : Frame ℕ → Bool) → count p heap ≡ count p (f ∷ rest)
    keeps [] f rest e p = cc
    keeps (g ∷ fs) f rest e p = select-count g fs p ∙ ap (λ x. count p (x.0 ∷ x.1)) (some_inj e)

    least :
        (heap : List (Frame ℕ)) (f : Frame ℕ) (rest : List (Frame ℕ))
        → pop_earliest heap ≡ some (f, rest)
        → count (earlier f) rest ≡ 0
    least [] f rest e = cc
    least (g ∷ fs) f rest e =
        sym (ap (λ x. count (earlier x.0) x.1) (some_inj e)) ∙ select-least g fs

-- A frame of one tick.
abbrev frame : ℕ → Frame ℕ
frame t = record { pts = pos t; duration = pos 1; value = t }

abbrev buffer : FrameReorderBuffer ℕ
buffer = record {
  heap = frame 4 ∷ frame 2 ∷ frame 3 ∷ frame 5 ∷ [];
  max_size = 16;
  min_depth = 4;
  next_pts = some (pos 1);
}

push_frame-count_example :
    (count (λ _. true) (push_frame pop_earliest (frame 1) buffer).0
        + count (λ _. true) (push_frame pop_earliest (frame 1) buffer).1.heap
      ≡ 1 + count (λ _. true) buffer.heap)
    × (length (push_frame pop_earliest (frame 1) buffer).1.heap ≤ 16)
push_frame-count_example =
    push_frame-count pop_earliest pop_earliest-PopsEarliest (frame 1) buffer (λ _. true)
      (omega arith)

flush_frames-Sorted_example :
    Sorted (flush_frames pop_earliest buffer).0
    × ((p : Frame ℕ → Bool) → count p (flush_frames pop_earliest buffer).0 ≡ count p buffer.heap)
    × ((flush_frames pop_earliest buffer).1.heap ≡ [])
flush_frames-Sorted_example = flush_frames-Sorted pop_earliest pop_earliest-PopsEarliest buffer
