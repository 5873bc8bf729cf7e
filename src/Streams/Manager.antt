-- ===== src/Streams/Manager.antt =====
-- The map of active streams in `StreamManager` (crates/zap-stream/src/stream_manager.rs): the own
-- streams of a node and those that other nodes report. Names are numbers, times are in milliseconds
-- and counted from 0, and a difference is 0 when the clock has gone back.
use zap_stream_core.Prelude.{
  ℕ, ◌+◌, ◌-◌, ◌/◌, ◌%◌, ◌^◌, ◌≤◌, ◌≡◌, refl, sym, ap, subst, ◌∙◌, inl, inr, Bool, true, false,
  Bool-cases, Option, none, some, List, [], ◌∷◌, ◌==◌, ltb, leb, if◌then◌else◌, arith,
}
use zap_stream_core.Prelude.Text.{Text}

-- The fields that the operations below read or change.
pub record ActiveStreamInfo : Type 0 where
  pub user_id : ℕ
  pub started_at : ℕ
  pub node_name : ℕ
  pub last_update : Option ℕ
  pub viewers : ℕ
  pub average_fps : ℕ
  pub frame_count : ℕ
  pub urls : List Text
  pub title : Option Text

-- The hash map, with one entry for each stream id.
abbrev pub Streams : Type 0
Streams = List (ℕ × ActiveStreamInfo)

unfoldable pub get_stream : ℕ → Streams → Option ActiveStreamInfo
get_stream id [] = none
get_stream id ((k, s) ∷ streams) = if k == id then some s else get_stream id streams

-- `HashMap::remove`.
unfoldable pub remove_active_stream : ℕ → Streams → Streams
remove_active_stream id [] = []
remove_active_stream id ((k, s) ∷ streams) =
    let rest = remove_active_stream id streams in if k == id then rest else (k, s) ∷ rest

unfoldable pub add_active_stream : ℕ → ℕ → ℕ → ℕ → List Text → Option Text → Streams → Streams
unfolding remove_active_stream
add_active_stream now node_name id user_id urls title streams =
    (
      id,
      record {
        user_id = user_id;
        started_at = now;
        node_name = node_name;
        last_update = none;
        viewers = 0;
        average_fps = 0;
        frame_count = 0;
        urls = urls;
        title = title;
      },
    )
    ∷ remove_active_stream id streams

-- `(now - then).num_seconds()`.
abbrev pub seconds_since : ℕ → ℕ → ℕ
seconds_since now then_ = (now - then_) / 1000

abbrev pub remote_stream_stale_seconds : ℕ
remote_stream_stale_seconds = 120

abbrev pub last_seen : ActiveStreamInfo → ℕ
last_seen s = elim s.last_update [ none ↦ s.started_at | some t ↦ t ]

abbrev pub is_kept : ℕ → ℕ → ActiveStreamInfo → Bool
is_kept node_name now s =
    if s.node_name == node_name
    then true
    else leb (seconds_since now (last_seen s)) remote_stream_stale_seconds

unfoldable pub prune_stale_remote_streams : ℕ → ℕ → Streams → Streams
prune_stale_remote_streams node_name now [] = []
prune_stale_remote_streams node_name now ((k, s) ∷ streams) =
    let rest = prune_stale_remote_streams node_name now streams in
    if is_kept node_name now s then (k, s) ∷ rest else rest

is_timed_out : ℕ → ActiveStreamInfo → Bool
is_timed_out now s = elim s.last_update [
  | some last_segment ↦ ltb 60 (seconds_since now last_segment)
  | none ↦ ltb 30 (seconds_since now s.started_at)
]

status : ℕ → Option ActiveStreamInfo → Bool × Bool
unfolding is_timed_out
status now none = (false, false)
status now (some s) = (true, is_timed_out now s)

-- Whether the stream is active, and whether it should time out.
unfoldable pub check_stream_status : ℕ → ℕ → Streams → Bool × Bool
unfolding get_stream status
check_stream_status now id streams = status now (get_stream id streams)

-- `get_mut` and an update.
change : ℕ → (ActiveStreamInfo → ActiveStreamInfo) → Streams → Streams
change id f [] = []
change id f ((k, s) ∷ streams) = elim (k == id) [
  | true ↦ (k, f s) ∷ streams
  | false ↦ (k, s) ∷ change id f streams
]

-- `count as u32`.
unfoldable pub set_viewer_count : ℕ → ℕ → Streams → Streams
unfolding change
set_viewer_count id count = change id (λ s. record s { viewers = count % 2 ^ 32 })

-- `count` is what the viewer tracker says. The broadcast of the new state is left out.
unfoldable pub update_pipeline_metrics : ℕ → ℕ → ℕ → ℕ → ℕ → Streams → Streams
unfolding change
update_pipeline_metrics now id count average_fps frame_count = change id (λ s. record s {
  average_fps = average_fps;
  frame_count = frame_count;
  viewers = count % 2 ^ 32;
  last_update = some now;
})

unfoldable pub get_total_viewers : Streams → ℕ
get_total_viewers [] = 0
get_total_viewers ((k, s) ∷ streams) = s.viewers + get_total_viewers streams

-- No stream has two entries.
abbrev pub Unique : Streams → Type 0
Unique [] = Unit {0}
Unique ((k, s) ∷ streams) = (get_stream k streams ≡ none) × Unique streams

abbrev pub kept : ℕ → ℕ → Option ActiveStreamInfo → Option ActiveStreamInfo
kept node_name now none = none
kept node_name now (some s) = if is_kept node_name now s then some s else none

abbrev pub mapped :
    (ActiveStreamInfo → ActiveStreamInfo) → Option ActiveStreamInfo → Option ActiveStreamInfo
mapped f none = none
mapped f (some s) = some (f s)

get_stream-change :
    (id : ℕ) (f : ActiveStreamInfo → ActiveStreamInfo) (streams : Streams)
    → get_stream id (change id f streams) ≡ mapped f (get_stream id streams)
unfolding get_stream change
get_stream-change id f [] = refl
get_stream-change id f ((k, t) ∷ streams) = elim (Bool-cases (k == id)) [
  | inl b ↦ rw (b, change) (rw b refl)
  | inr b ↦ rw (b, change) (rw b (get_stream-change id f streams))
]

-- A stream that is active and whose metrics are updated is active and does not time out until more
-- than sixty whole seconds later.
pub check_stream_status-update :
    (now later id count fps frames : ℕ) (streams : Streams) (s : ActiveStreamInfo)
    → get_stream id streams ≡ some s
    → later ≤ now + 60999
    → check_stream_status later id (update_pipeline_metrics now id count fps frames streams)
      ≡ (true, false)
unfolding check_stream_status update_pipeline_metrics
check_stream_status-update now later id count fps frames streams s e h =
    ap (status later) (get_stream-change id _ streams ∙ ap (mapped _) e)
    ∙ ap (λ b. (true, b)) (ground (arith, h))

prune-absent :
    (node_name now id : ℕ) (streams : Streams)
    → get_stream id streams ≡ none
    → get_stream id (prune_stale_remote_streams node_name now streams) ≡ none
unfolding prune_stale_remote_streams get_stream
prune-absent node_name now id [] e = refl
prune-absent node_name now id ((k, s) ∷ streams) e = elim (Bool-cases (k == id)) [
  | inl b ↦ absurd (ground (arith, b, e))
  | inr b ↦
      let rest = prune-absent node_name now id streams (ground (arith, b, e)) in
      elim (Bool-cases (is_kept node_name now s)) [ inl y ↦ rw (y, b) rest | inr n ↦ rw n rest ]
]

-- Pruning leaves a stream of the node itself, and one of another node that was heard of in the last
-- 120 whole seconds, as it is, and drops any other, in a map with one entry for each stream.
get_stream-prune :
    (node_name now id : ℕ) (streams : Streams)
    → Unique streams
    → get_stream id (prune_stale_remote_streams node_name now streams)
      ≡ kept node_name now (get_stream id streams)
unfolding prune_stale_remote_streams get_stream
get_stream-prune node_name now id [] u = refl
get_stream-prune node_name now id ((k, s) ∷ streams) u =
    let rest = get_stream-prune node_name now id streams u.1 in
    elim (Bool-cases (is_kept node_name now s)) [
      | inl stays ↦ elim (Bool-cases (k == id)) [
        | inl e ↦ rw (stays, e) (ap (λ b. if b then some s else none) (sym stays))
        | inr e ↦ rw (stays, e) rest
      ]
      | inr goes ↦ elim (Bool-cases (k == id)) [
        | inl e ↦
            rw (goes, e)
              (prune-absent node_name now id streams
                  (subst (λ n. get_stream n streams ≡ none) (ground (arith, e)) u.0)
                ∙ ap (λ b. if b then some s else none) (sym goes))
        | inr e ↦ rw (goes, e) rest
      ]
    ]
