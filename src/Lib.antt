-- ===== src/Lib.antt =====
-- A model of zap-stream-core, a live streaming server: what its HLS muxer writes of a stream while
-- packets arrive, what its HTTP routes serve of that, and the bookkeeping around both.
--
-- The parts:
-- * Hls models crates/core/src/mux/hls. `HlsVariant` (Hls/State) is the state of one rendition with
--   the files of its directory and its published playlist. Hls/Segment is segment.rs; Hls/Window is
--   `clean_segments` and `prune_old_partials`; Hls/Playlist is `write_playlist`; Hls/Splitting is
--   `process_packet` with all that it calls in variant.rs; Hls/Resume is `new`, `open` and `reset`
--   with the loading of an earlier run's playlist; Hls/Muxer is `HlsMuxer` of mod.rs, and
--   Hls/Renditions its `new`.
-- * Http models crates/zap-stream/src/http/hls.rs: Http/Paths the names in requests, Http/Range byte
--   ranges and the wait for hinted parts, Http/Parts the test for published parts, Http/Blocking
--   blocking playlist requests. The server and the muxer meet in the playlist and in the size of
--   the segment files; Http/Parts/Availability relates the two.
-- * Pipeline models crates/core/src/reorder.rs (Pipeline/Reorder), the encoder parameters of
--   crates/core/src/egress/mod.rs (Pipeline/Params) with what an egress asks of the encoders
--   (Pipeline/Encoders), and the variants of crates/core/src/variant (Pipeline/Variants).
-- * Streams/Viewers models the in-memory viewer tracking of crates/zap-stream/src/viewer.rs,
--   Streams/Manager the map of active streams of crates/zap-stream/src/stream_manager.rs.
-- * Billing models crates/zap-stream-db/src/db.rs and model.rs with what charges through them:
--   Billing/Tables the rows, Billing/Ledger the statements that move money, Billing/Segments
--   `on_segments` and Billing/Streams `connect`, `start_stream`, `on_end`, `on_update` and
--   `check_streams` of crates/zap-stream/src/overseer.rs, Billing/Payments its `topup` and the
--   reconciliation of crates/zap-stream/src/payments.rs, Billing/External the metering by the clock of
--   crates/zap-stream-external/src/cloudflare/api.rs and Billing/External/Webhooks the webhooks of its
--   live inputs, from `handle_webhook` down; Billing/External/Poller is its `check_streams`, with which
--   it runs the webhooks in any order. Billing/Payments/History runs the calls that charge on one
--   database; Billing/Streams/Rows/Race lets a charge fall inside another call.
-- * Endpoint models crates/core/src/endpoint.rs: the capabilities with their order, text and parser,
--   and `get_variants_from_endpoint`, which makes of them, of the streams of an ingest and of the
--   egresses the variants to encode and the groups of each egress. Endpoint/Grouping is
--   `get_streams_for_egress`, Endpoint/Config the loop over the capabilities, Endpoint/Built the
--   check at its end and `get_egress_configs`.
-- * Scenarios has concrete states and requests.
--
-- The choices of the model:
-- * A method on `&mut self` is a function on the state that returns a result or an error, with the
--   state that it has reached in both cases (the monad `M` of Hls/State). A record `Env` says which
--   of the fallible calls fail for one packet, how much of a failed append reaches the file, the
--   bytes that ffmpeg's muxer emits, the clock and SHA-256.
-- * Times are exact integers in units of 1/705600000 s, where the code has f32 and f64 seconds.
-- * Counters such as `idx` are numbers without a bound; where a value comes from a request
--   (`get_range`, `next_segment_exists`) the wrap at 2^64 is written out. UUIDs are numbers. Texts
--   are lists of character codes.
-- * A segment file is named by its type and index, for the text that `segment_name` prints.
-- * What the relays, the building of events and the parsing of a UUID answer in a check of the streams
--   is the record `Round` (Billing/Streams/Rows); an error there ends the loop with what it has written.
-- * The loops that wait (hinted ranges, blocking playlists) run over a list of the rounds to come;
--   the theorems on their end say how many rounds are enough.
-- * The loops of the reorder buffer run on the size of its heap as fuel, which is enough since each
--   round takes a frame out. Which of two frames of one PTS the heap gives first is left open.
-- * The m3u8 and http_range_header crates are parameters: a parser of playlists is an argument, and
--   a range header is taken as parsed.
-- * What ffmpeg knows of codecs, formats and fractions is the record `Ffmpeg` (Pipeline/Variants), and
--   the f32 computation of a width a field of `Setup` (Endpoint/Config). A frame rate is in
--   millionths of a frame for each second, and 0 when it is not a positive normal f32. Fresh UUIDs
--   are the values of a counter; a map is a list of its entries.
-- * A table is a list of rows, with the columns that the modelled code decides by or bills with; titles,
--   events and the like, which it only passes on, are left out. An SQL
--   statement is a function on the tables, and a transaction one step. Keys, hashes, UUIDs and names
--   are numbers, the name of an endpoint without its case. Balances are integers without a bound.
--   Costs are exact where the code computes them in f32.
--
-- Not modelled: ffmpeg itself (demuxing, decoding, encoding, muxing), sockets, MySQL, Nostr and
-- Lightning clients, configuration files and the web API, which are libraries and glue; the threads of
-- the pipeline (crates/core/src/pipeline), the master playlist, the selection of multitrack renditions,
-- the recordings and the forwards of the external backend, and the printing of records.
pub mod Prelude
pub mod Hls
pub mod Http
pub mod Pipeline
pub mod Streams
pub mod Billing
pub mod Endpoint
pub mod Scenarios
