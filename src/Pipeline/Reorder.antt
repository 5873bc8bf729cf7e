-- ===== src/Pipeline/Reorder.antt =====
-- `FrameReorderBuffer` of crates/core/src/reorder.rs: frames leave the decoder in any order and enter
-- the encoder by PTS.
pub mod Order
use zap_stream_core.Prelude.{
  ℕ, zero, suc, ◌+◌, Bool, true, false, Option, none, some, List, [], ◌∷◌, ◌++◌, map, ltb, leb,
  if◌then◌else◌, length,
}
use zap_stream_core.Prelude.Int.{ℤ, ◌+ℤ◌, leb_ℤ}

pub record Frame {ℓ} (A : Type ℓ) : Type ℓ where
  pub pts : ℤ
  pub duration : ℤ
  pub value : A

-- The frames of the heap, in no order.
pub record FrameReorderBuffer {ℓ} (A : Type ℓ) : Type ℓ where
  pub heap : List (Frame A)
  pub max_size : ℕ
  pub min_depth : ℕ
  pub next_pts : Option ℤ

abbrev pub frame_reorder_buffer_size : ℕ
frame_reorder_buffer_size = 16

abbrev pub min_buffer_depth : ℕ
min_buffer_depth = 4

unfoldable pub new {ℓ} : {A : Type ℓ} → FrameReorderBuffer A
new = record {
  heap = [];
  max_size = frame_reorder_buffer_size;
  min_depth = min_buffer_depth;
  next_pts = none;
}

-- `should_emit`.
pub is_due : Option ℤ → ℤ → Bool
is_due none pts = true
is_due (some expected) pts = leb_ℤ pts expected

-- `pop` takes a frame out of the heap. A frame that goes out moves the expected time behind it.
module _ {ℓ} {A : Type ℓ} (pop : List (Frame A) → Option (Frame A × List (Frame A))) where
  pub take_out : Frame A → List (Frame A) → FrameReorderBuffer A → FrameReorderBuffer A
  take_out f rest b = record b { heap = rest; next_pts = some (f.pts +ℤ f.duration) }

  pub emit_due :
      FrameReorderBuffer A
      → Option (Frame A × List (Frame A))
      → Option (Frame A × FrameReorderBuffer A)
  unfolding is_due take_out
  emit_due b none = none
  emit_due b (some (f, rest)) =
      if is_due b.next_pts f.pts then some (f, take_out f rest b) else none

  -- One round of the loop over contiguous frames: the frame that is due, and the buffer without it.
  pub next_due : FrameReorderBuffer A → Option (Frame A × FrameReorderBuffer A)
  unfolding emit_due
  next_due b = if leb (length b.heap) b.min_depth then none else emit_due b (pop b.heap)

  pub emit_forced :
      FrameReorderBuffer A
      → Option (Frame A × List (Frame A))
      → Option (Frame A × FrameReorderBuffer A)
  unfolding take_out
  emit_forced b none = none
  emit_forced b (some (f, rest)) = some (f, take_out f rest b)

  -- One round of the safety valve.
  pub next_forced : FrameReorderBuffer A → Option (Frame A × FrameReorderBuffer A)
  unfolding emit_forced
  next_forced b = if ltb b.max_size (length b.heap) then emit_forced b (pop b.heap) else none

  -- A loop of rounds; the frames come out in the order of the list.
  pub rounds :
      (FrameReorderBuffer A → Option (Frame A × FrameReorderBuffer A))
      → ℕ
      → FrameReorderBuffer A
      → List (Frame A) × FrameReorderBuffer A
  rounds next zero b = ([], b)
  rounds next (suc n) b = elim (next b) [
    | none ↦ ([], b)
    | some (f, c) ↦ let (out, d) = rounds next n c in (f ∷ out, d)
  ]

  pub insert : Frame A → FrameReorderBuffer A → FrameReorderBuffer A
  insert f b = record b { heap = f ∷ b.heap }

  -- Both loops take a frame out in each round, so the size of the heap is fuel enough.
  pub emit : FrameReorderBuffer A → List (Frame A) × FrameReorderBuffer A
  unfolding rounds
  emit b =
      let (due, c) = rounds next_due (length b.heap) b in
      let (forced, d) = rounds next_forced (length c.heap) c in (due ++ forced, d)

  unfoldable pub push_frame : Frame A → FrameReorderBuffer A → List (Frame A) × FrameReorderBuffer A
  unfolding emit insert
  push_frame f b =
      let rest = emit (insert f b) in
      if ltb (length (insert f b).heap) b.min_depth then ([], insert f b) else rest

  unfoldable pub push : ℤ → ℤ → A → FrameReorderBuffer A → List A × FrameReorderBuffer A
  unfolding push_frame
  push pts duration value b =
      let (out, c) = push_frame (record { pts = pts; duration = duration; value = value }) b in
      (map (λ f. f.value) out, c)

  pub drain : ℕ → List (Frame A) → List (Frame A)
  drain zero heap = []
  drain (suc n) heap = elim (pop heap) [ none ↦ [] | some (f, rest) ↦ f ∷ drain n rest ]

  unfoldable pub flush_frames : FrameReorderBuffer A → List (Frame A) × FrameReorderBuffer A
  unfolding drain
  flush_frames b = (drain (length b.heap) b.heap, record b { heap = []; next_pts = none })

  unfoldable pub flush : FrameReorderBuffer A → List A × FrameReorderBuffer A
  unfolding flush_frames
  flush b = let (out, c) = flush_frames b in (map (λ f. f.value) out, c)
