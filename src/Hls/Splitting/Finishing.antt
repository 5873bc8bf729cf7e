-- ===== src/Hls/Splitting/Finishing.antt =====
-- The segment index until a segment is committed: `split_partial_segment` and the first half of
-- `split_next_seg` of crates/core/src/mux/hls/variant.rs, failures included.
use zap_stream_core.Prelude.{
  ℕ, ◌+◌, ◌≡◌, refl, subst, ◌∙◌, inl, inr, Bool, List, ◌==◌, map, Bool-cases,
}
use zap_stream_core.Prelude.Int.{ℤ}
use zap_stream_core.Hls.Segment.{HlsSegment, SegmentInfo, EgressSegment}
use zap_stream_core.Hls.State.{
  HlsVariant, Env, append_part, write_part_playlist, hash_segment, misaligned_part, M, get, pure,
  modify, attempt, Outcome, ◌>>=◌, ◌>>◌,
}
use zap_stream_core.Hls.Outcome.{Outcome-bind}
use zap_stream_core.Hls.Playlist.{write_playlist}
use zap_stream_core.Hls.Sequence.{
  Sequence, Chain, Chain-push_full, Chain-push_partial, Chain-prune_old_partials,
  Sequence-clean_segments,
}
use zap_stream_core.Hls.Splitting.Outcome.{
  On, Keeps, Keeps-bind, drain_to_current_file-Keeps, attempt-Keeps, write_playlist-Keeps,
  ensure-Keeps, video_var_id-Keeps, anchor_pdt-Keeps, create_segment_file-Keeps,
}
use zap_stream_core.Hls.Splitting.{
  split_partial_segment, publish_partial, push_partial, is_aligned, ensure, drain_to_current_file,
  finish_segment, create_segment_file, video_var_id, clean, anchor_pdt, commit_segment,
  publish_pushed, hash_and_commit, created_segment, deleted_segment,
}

-- The list is a run of consecutive indexes that ends before the variant's index, which is `k`.
abbrev pub At : ℕ → List HlsSegment → ℕ → ℕ → ℕ → Type 0
At k segs idx count size = Sequence segs idx × (idx ≡ k)

pub At-resize : (k : ℕ) (segs : List HlsSegment) (i c m n : ℕ) → At k segs i c m → At k segs i c n
At-resize k segs i c m n h = h

push_partial-At :
    (k : ℕ) (t : ℤ) (size start : ℕ) (v : HlsVariant)
    → On (At k) v
    → On (At k) (push_partial t size start v)
unfolding push_partial
push_partial-At k t size start v h =
    ((h.0.0, Chain-push_partial h.0.0 v.idx v.segments _ refl h.0.1), h.1)

publish_pushed-At :
    (k : ℕ) (env : Env) (t : ℤ) (size start : ℕ) → Keeps (At k) (publish_pushed env t start size)
unfolding publish_pushed
publish_pushed-At k env t size start v h =
    Keeps-bind (At k) (ensure aligned misaligned_part)
      (λ _. do modify (push_partial t size start); write_playlist env write_part_playlist)
      (ensure-Keeps (At k) aligned misaligned_part)
      (λ _ w p.
        write_playlist-Keeps (At k) env write_part_playlist (push_partial t size start w)
          (push_partial-At k t size start w p))
      v h
  where
    aligned : Bool
    aligned = is_aligned v.segment_type v.written

publish_partial-At :
    (k : ℕ) (env : Env) (t : ℤ) (size start : ℕ) → Keeps (At k) (publish_partial env t start size)
unfolding publish_partial
publish_partial-At k env t size start v h = elim (Bool-cases (size == 0)) [
  | inl e ↦ rw e h
  | inr e ↦ rw e (publish_pushed-At k env t size start v h)
]

pub split_partial_segment-At :
    (k : ℕ) (env : Env) (t : ℤ) → Keeps (At k) (split_partial_segment env t)
unfolding split_partial_segment
split_partial_segment-At k env t v h =
    Keeps-bind (At k) (drain_to_current_file env append_part env.part_bytes)
      (publish_partial env t v.written)
      (drain_to_current_file-Keeps (At k) (At-resize k) env append_part env.part_bytes)
      (λ size. publish_partial-At k env t size v.written) v h

commit_segment-At :
    (k : ℕ) (d pdt : ℤ) (hash : List ℕ) (v : HlsVariant)
    → On (At k) v
    → On (At (k + 1)) (commit_segment k d pdt hash v)
unfolding commit_segment
commit_segment-At k d pdt hash v h = (
  (
    h.0.0,
    Chain-prune_old_partials h.0.0 (k + 1) (k + 1) _
        (Chain-push_full h.0.0 k v.segments _ refl (subst (Chain h.0.0 v.segments) h.1 h.0.1)),
  ),
  refl,
)

-- A step that succeeds with the index advanced and a result that satisfies `G`, or fails with the
-- index as it was.
abbrev Commits : {A : Type 0} → (A → Type 0) → ℕ → M A → Type 0
Commits G k m =
    (v : HlsVariant)
    → On (At k) v
    → Outcome (λ a w. G a × On (At (k + 1)) w) (λ _ w. On (At k) w) (m v)

Commits-bind :
    {A B : Type 0} (G : B → Type 0) (k : ℕ) (m : M A) (f : A → M B)
    → Keeps (At k) m
    → ((a : A) → Commits G k (f a))
    → Commits G k (m >>= f)
Commits-bind G k m f h c v p =
    Outcome-bind (λ _ w. On (At k) w) (λ b w. G b × On (At (k + 1)) w) (λ _ w. On (At k) w) m f v
      (h v p) (λ a w q. c a w q)

abbrev pub Created : ℕ → EgressSegment × List EgressSegment → Type 0
Created k r = r.0.idx ≡ k

hash_and_commit-Commits :
    (k : ℕ) (env : Env) (d : ℤ) (variant : ℕ) (removed : List SegmentInfo) (pdt : ℤ)
    → Commits (Created k) k (hash_and_commit env k d variant removed pdt)
unfolding hash_and_commit
hash_and_commit-Commits k env d variant removed pdt =
    Commits-bind (Created k) k (attempt env hash_segment)
      (λ _. do
        v ← get
        let created = created_segment env v variant k d
        modify (commit_segment k d pdt created.sha256)
        pure (created, map (deleted_segment v variant) removed))
      (attempt-Keeps (At k) env hash_segment)
      (λ _ w p. (refl, commit_segment-At k d pdt (created_segment env w variant k d).sha256 w p))

clean-At : (k : ℕ) (env : Env) → Keeps (At k) (clean env)
unfolding clean
clean-At k env v h =
    let (chained, same) = Sequence-clean_segments env v h.0 in (chained, same ∙ h.1)

pub finish_segment-Commits :
    (k : ℕ) (env : Env) (d : ℤ) → Commits (Created k) k (finish_segment env k d)
unfolding finish_segment
finish_segment-Commits k env d =
    Commits-bind (Created k) k (create_segment_file env (k + 1))
      (λ _. do
        v ← get
        variant ← video_var_id v
        removed ← clean env
        pdt ← anchor_pdt env d
        hash_and_commit env k d variant removed pdt)
      (create_segment_file-Keeps (At k) (At-resize k) env (k + 1))
      (λ _ v.
        Commits-bind (Created k) k (video_var_id v)
          (λ variant. do
            removed ← clean env
            pdt ← anchor_pdt env d
            hash_and_commit env k d variant removed pdt)
          (video_var_id-Keeps (At k) v)
          (λ variant.
            Commits-bind (Created k) k (clean env)
              (λ removed. do pdt ← anchor_pdt env d; hash_and_commit env k d variant removed pdt)
              (clean-At k env)
              (λ removed.
                Commits-bind (Created k) k (anchor_pdt env d)
                  (λ pdt. hash_and_commit env k d variant removed pdt)
                  (anchor_pdt-Keeps (At k) env d)
                  (λ pdt. hash_and_commit-Commits k env d variant removed pdt)))
          v)
