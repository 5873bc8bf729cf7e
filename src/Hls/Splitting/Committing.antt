-- ===== src/Hls/Splitting/Committing.antt =====
-- The parts across `split_next_seg` and `process_packet` of crates/core/src/mux/hls/variant.rs: the
-- next segment begins with no part and an empty file.
use zap_stream_core.Prelude.{
  ℕ, ◌+◌, ◌≡◌, refl, sym, subst, ◌∙◌, inl, inr, false, List, [], ◌∷◌, ◌++◌, map, Option, none, some,
  Bool-cases,
}
use zap_stream_core.Prelude.Int.{ℤ}
use zap_stream_core.Hls.Segment.{HlsSegment, SegmentInfo, full, EgressSegment, segments}
use zap_stream_core.Hls.State.{
  HlsVariant, HlsVariantStream, Env, create_segment, hash_segment, write_segment_playlist, M, get,
  pure, modify, attempt, Outcome, ◌>>=◌, ◌>>◌,
}
use zap_stream_core.Hls.Outcome.{Outcome-bind, Outcome-weaken, Outcome-attempt}
use zap_stream_core.Hls.Playlist.{write_playlist}
use zap_stream_core.Hls.Window.{clean_segments}
use zap_stream_core.Hls.Window.Cleaning.{Slides, clean_segments-Slides}
use zap_stream_core.Hls.Sequence.{
  Chain, Sequence, Sequence-clean_segments, clean_segments-written, Chain-push_full,
  Chain-prune_old_partials,
}
use zap_stream_core.Hls.Tiling.{
  Tiled, Tiled-push_full, trailing-push_full, Tiled-prune_old_partials, trailing-prune_old_partials,
  Tiled-suffix,
}
use zap_stream_core.Hls.Splitting.Outcome.{On, write_playlist-Keeps}
use zap_stream_core.Hls.Splitting.Parts.{Live, LiveOnError, is_harmless}
use zap_stream_core.Hls.Splitting.{
  clean, hash_and_commit, commit_segment, created_segment, deleted_segment, finish_segment,
  create_segment_file, open_file, video_var_id, anchor_pdt, publish_segment, start_segment,
  id_or_first, video_stream,
}

-- The list of segment `k`, to be closed: in sequence and tiled.
abbrev pub Closing : ℕ → List HlsSegment → ℕ → ℕ → Type 0
Closing k segs idx count = Sequence segs idx × (idx ≡ k) × ((size : ℕ) × Tiled 0 segs size)

-- The file of the next segment is open and empty.
abbrev Opened : ℕ → List HlsSegment → ℕ → ℕ → ℕ → Type 0
Opened k segs idx count size = Closing k segs idx count × (size ≡ 0)

commit_segment-Live :
    (k : ℕ) (d pdt : ℤ) (hash : List ℕ) (v : HlsVariant)
    → On (Opened k) v
    → On Live (commit_segment k d pdt hash v)
unfolding commit_segment
commit_segment-Live k d pdt hash v ((seq, at, tiled), empty) = (
  (seq.0, Chain-prune_old_partials seq.0 (k + 1) (k + 1) _ pushed),
  Tiled-prune_old_partials seq.0 (k + 1) v.written _ pushed
      (rw empty (Tiled-push_full 0 tiled.0 v.segments _ tiled.1)),
  trailing-prune_old_partials seq.0 (k + 1) _ pushed ∙ trailing-push_full 0 v.segments _,
)
  where
    pushed :
        Chain seq.0
          (v.segments
            ++ full (record {
              index = k;
              duration = d;
              kind = v.segment_type;
              sha256 = hash;
              timestamp = pdt;
              discontinuity = false;
            })
              ∷ [])
          (k + 1)
    pushed = Chain-push_full seq.0 k v.segments _ refl (subst (Chain seq.0 v.segments) at seq.1)

-- A step from the opened file to the commit.
abbrev Closes : {A : Type 0} → ℕ → M A → Type 0
Closes k m = (v : HlsVariant) → On (Opened k) v → Outcome (λ _ w. On Live w) LiveOnError (m v)

-- Such a step begins with calls that keep the opened file and whose failures do harm.
Closes-bind :
    {A B : Type 0} (k : ℕ) (m : M A) (f : A → M B)
    → ((v : HlsVariant)
        → On (Opened k) v
        → Outcome (λ _ w. On (Opened k) w) (λ e _. is_harmless e ≡ false) (m v))
    → ((a : A) → Closes k (f a))
    → Closes k (m >>= f)
Closes-bind k m f h c v p =
    Outcome-bind (λ _ w. On (Opened k) w) (λ _ w. On Live w) LiveOnError m f v
      (Outcome-weaken _ _ _ _ (m v) (h v p) (λ _ _ q. q) (λ e w q r. cc)) (λ a w q. c a w q)

hash_and_commit-Closes :
    (k : ℕ) (env : Env) (d : ℤ) (variant : ℕ) (removed : List SegmentInfo) (pdt : ℤ)
    → Closes k (hash_and_commit env k d variant removed pdt)
unfolding hash_and_commit
hash_and_commit-Closes k env d variant removed pdt =
    Closes-bind k (attempt env hash_segment)
      (λ _. do
        v ← get
        let created = created_segment env v variant k d
        modify (commit_segment k d pdt created.sha256)
        pure (created, map (deleted_segment v variant) removed))
      (λ v p. elim (Bool-cases (env.fails hash_segment)) [ inl e ↦ rw e refl | inr e ↦ rw e p ])
      (λ _ w p. commit_segment-Live k d pdt (created_segment env w variant k d).sha256 w p)

Tiled-Slides :
    (v w : HlsVariant) (removed : List SegmentInfo) (size : ℕ)
    → Tiled 0 v.segments size
    → Slides v w removed
    → Tiled 0 w.segments size
Tiled-Slides v w removed size t s =
    subst (λ xs. Tiled 0 xs size) (sym s.kept)
      (Tiled-suffix 0 0 size s.dropped s.oldest s.rest (subst (λ xs. Tiled 0 xs size) s.parts t))

Tiled-clean_segments :
    (env : Env) (v : HlsVariant) (size : ℕ)
    → Sequence v.segments v.idx
    → Tiled 0 v.segments size
    → Tiled 0 (clean_segments env v).1.segments size
Tiled-clean_segments env v size seq t = elim (clean_segments-Slides env v seq) [
  | inl s ↦ Tiled-Slides v (clean_segments env v).1 (clean_segments env v).0 size t s
  | inr r ↦ subst (λ (w : HlsVariant). Tiled 0 w.segments size) (sym r.same) t
]

clean-Opened :
    (k : ℕ) (env : Env) (v : HlsVariant)
    → On (Opened k) v
    → Outcome (λ _ w. On (Opened k) w) (λ e _. is_harmless e ≡ false) (clean env v)
unfolding clean
clean-Opened k env v ((seq, at, tiled), empty) =
    let (seq', same) = Sequence-clean_segments env v seq in
    (
      (seq', same ∙ at, (tiled.0, Tiled-clean_segments env v tiled.0 seq tiled.1)),
      clean_segments-written env v ∙ empty,
    )

id_or_first-Opened :
    (k : ℕ) (s : Option HlsVariantStream) (ss : List HlsVariantStream) (v : HlsVariant)
    → On (Opened k) v
    → Outcome (λ _ w. On (Opened k) w) (λ e _. is_harmless e ≡ false) (id_or_first s ss v)
unfolding id_or_first
id_or_first-Opened k s [] v p = refl
id_or_first-Opened k (some s) (_ ∷ _) v p = p
id_or_first-Opened k none (_ ∷ _) v p = p

-- What follows the creation of the next file.
after_create-Closes :
    (k : ℕ) (env : Env) (d : ℤ)
    → Closes k (do
      v ← get
      variant ← video_var_id v
      removed ← clean env
      pdt ← anchor_pdt env d
      hash_and_commit env k d variant removed pdt)
unfolding video_var_id anchor_pdt
after_create-Closes k env d v =
    Closes-bind k (video_var_id v)
      (λ variant. do
        removed ← clean env
        pdt ← anchor_pdt env d
        hash_and_commit env k d variant removed pdt)
      (id_or_first-Opened k (video_stream v) v.streams)
      (λ variant.
        Closes-bind k (clean env)
          (λ removed. do pdt ← anchor_pdt env d; hash_and_commit env k d variant removed pdt)
          (clean-Opened k env)
          (λ removed.
            Closes-bind k (anchor_pdt env d) (λ pdt. hash_and_commit env k d variant removed pdt)
              (λ w p. p) (λ pdt. hash_and_commit-Closes k env d variant removed pdt)))
      v

pub finish_segment-Live :
    (k : ℕ) (env : Env) (d : ℤ) (v : HlsVariant)
    → Closing k v.segments v.idx v.current_partial_index
    → Outcome (λ _ w. On Live w) LiveOnError (finish_segment env k d v)
unfolding finish_segment create_segment_file open_file
finish_segment-Live k env d v p =
    Outcome-bind (λ _ w. On (Opened k) w) (λ _ w. On Live w) LiveOnError
      (create_segment_file env (k + 1))
      (λ _. do
        v ← get
        variant ← video_var_id v
        removed ← clean env
        pdt ← anchor_pdt env d
        hash_and_commit env k d variant removed pdt)
      v
      (Outcome-attempt (λ _ w. On (Opened k) w) LiveOnError env create_segment
        (modify (open_file (k + 1))) (record v { current_file = none }) (λ c. cc) (p, refl))
      (λ _ w q. after_create-Closes k env d w q)

pub publish_segment-Live :
    (env : Env) (t : ℤ) (created : EgressSegment) (deleted : List EgressSegment) (v : HlsVariant)
    → On Live v
    → Outcome (λ _ w. On Live w) LiveOnError (publish_segment env t created deleted v)
unfolding publish_segment start_segment
publish_segment-Live env t created deleted v h =
    Outcome-bind (λ _ w. On Live w) (λ _ w. On Live w) LiveOnError
      (write_playlist env write_segment_playlist)
      (λ _. do modify (start_segment t); pure (segments (created ∷ []) deleted)) v
      (Outcome-weaken _ _ _ _ (write_playlist env write_segment_playlist v)
        (write_playlist-Keeps Live env write_segment_playlist v h) (λ _ _ q. q) (λ _ _ q _. q))
      (λ _ w q. q)
