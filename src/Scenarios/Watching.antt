-- ===== src/Scenarios/Watching.antt =====
-- Two viewers, of which one has gone.
use zap_stream_core.Prelude.{ℕ, true, arith, false, ◌≡◌, refl, none, some, [], ◌∷◌}
use zap_stream_core.Streams.Viewers.{
  Viewers, viewer_of, track_viewer_in_memory, expired_tokens, remove_tokens, remove_tokens-tracked,
}
use zap_stream_core.Streams.Manager.{
  ActiveStreamInfo, Streams, get_stream, Unique, check_stream_status, update_pipeline_metrics,
  check_stream_status-update,
}

abbrev viewers : Viewers
viewers =
    (1, record { stream_id = 9; last_seen = 0 })
    ∷ (2, record { stream_id = 9; last_seen = 500000 })
    ∷ []

remove_tokens-tracked_example :
    viewer_of 1
      (remove_tokens (expired_tokens 700000 viewers) (track_viewer_in_memory 700001 9 1 viewers))
    ≡ none
remove_tokens-tracked_example =
    remove_tokens-tracked 700000 1 700001 9 viewers (refl, (refl, tt)) refl

-- A stream of node 0, and one of node 1.
abbrev stream : ℕ → ActiveStreamInfo
stream node_name = record {
  user_id = 3;
  started_at = 0;
  node_name = node_name;
  last_update = none;
  viewers = 0;
  average_fps = 0;
  frame_count = 0;
  urls = [];
  title = none;
}

abbrev streams : Streams
streams = (4, stream 0) ∷ (5, stream 1) ∷ []

stream_is : get_stream 4 streams ≡ some (stream 0)
unfolding get_stream
stream_is = refl

streams-Unique : Unique streams
unfolding get_stream
streams-Unique = (refl, (refl, tt))

check_stream_status-update_example :
    check_stream_status 60000 4 (update_pipeline_metrics 1000 4 7 30 25 streams) ≡ (true, false)
check_stream_status-update_example =
    check_stream_status-update 1000 60000 4 7 30 25 streams (stream 0) stream_is (omega arith)
