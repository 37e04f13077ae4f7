-- ===== src/Lib.antt =====
-- The verification library of bowst, a market data engine.
--
-- The program follows a venue's order books. A feed of numbered deltas and occasional snapshots goes
-- into a `BookSync` (crates/bowst-book/src/sync.rs), which buffers deltas until a snapshot arrives,
-- replays them over it, and from then on applies each delta that goes on from the last one. It owns
-- a `Book` (crates/bowst-book/src/book.rs) of two `Ladder`s (crates/bowst-book/src/ladder.rs), each
-- a bounded sorted array of price levels. Requests to the venue pass a `TokenBucket`
-- (crates/bowst-venue/src/ratelimit.rs), connections are retried after a `Backoff`
-- (crates/bowst-venue/src/backoff.rs), and latencies are counted in a `LatencyHistogram`
-- (crates/bowst-telemetry/src/histogram.rs). What is received is kept in a journal of sealed records
-- (crates/bowst-journal/src/format.rs), it arrives in WebSocket frames
-- (crates/bowst-venue/src/ws/frame.rs), and orders carry ids of crates/bowst-core/src/ids.rs. Venues
-- write numbers as decimal texts, which crates/bowst-core/src/fixed.rs turns into whole ticks and lots.
--
-- Which file models which part:
--   Prelude    shared names, lists, bytes, signed integers, saturating and wrapping words
--   Units      `Price`, `Qty` and `Side` of crates/bowst-core/src/units.rs
--   Fixed      crates/bowst-core/src/fixed.rs: `Dec` is `Decimal`, its texts are read in Parse and
--              written in Write, compared in Order; `Increment` and the conversion to whole increments
--              are in Increment, whose Division treats rounding, Units both paths of `to_units`,
--              Normal the constructor, RoundTrip the way back and Agrees the fast path from text
--   Money      the conversions of `Price` and `Qty` in units.rs, `Side`'s rounding, and `notional`, with
--              rounded quotes in Quote
--   Ladder     ladder.rs: `apply` is `apply`, its `match` is `apply_found`, `load` is `load` with the
--              loop `load_inner`. Search compares it with one walk, Spec has the walks that store,
--              delete and read a price, Apply, Valid and Exact treat updates, Load and LoadLoop
--              treat snapshots
--   Book       book.rs, both sides
--   Sync       sync.rs: `on_delta` and `on_snapshot` with their loops. Buffer and Messages treat the
--              buffer, Frame and Invariant the state machine, Exact and Run what a reader sees,
--              Replies what the caller is told, Gap what a gap does until a snapshot
--   RateLimit  ratelimit.rs, with what is granted over a sequence of requests in Bounds
--   Backoff    backoff.rs, with the delays in Delay
--   Histogram  histogram.rs, with the buckets in Buckets and what percentiles say in Percentile,
--              Close and Merge
--   Journal    format.rs, with its bytes in Fields, sealing and decoding in Record and records that
--              are cut short in Torn, and reader.rs in Reader; the CRC-32 is a parameter
--   Ws         ws/mod.rs, ws/frame.rs in Frame, with its Parse and Encode, and the bytes of a frame in
--              Wire, and ws/reader.rs in Reader: `spare` is `compact` and `spare`, the loop of
--              `next_event` is `read_frames`, one turn of it is `turn`. Loop follows the loop without a
--              bound on its turns, Stream has the stream of bytes that a reader stands for, View and
--              Events compare them, Receive treats new bytes, Chunks and Fragments split ones,
--              Invariant, Operations and Runs the reader's own state
--   Json       crates/bowst-venue/src/json.rs, UTF-8 in Utf8; `unexpected` is `fail`. Progress and Texts
--              say how far each operation reads, Skip has `skip`, with single values in Leaves and
--              containers in Ends
--   Levels     crates/bowst-venue/src/levels.rs and the errors in crates/bowst-venue/src/lib.rs; both loops
--              are `read_elements`
--   Ids        ids.rs, with digits in Hex and whole texts in Text
--
-- State is passed explicitly: an operation takes the state and gives the new state with its result,
-- also when the result is an error. A Rust `Result` is `Result`, an `Option` is `Option`, a `Vec` or
-- an iterator is a list, an unsigned word is a native number with the saturation, wrapping or check
-- that the code names, a `Price` or `Qty` is a signed integer, and a time or a duration is a number
-- of nanoseconds. The halving loop of the standard library's binary search runs on fuel, the length
-- of the array, which is enough since each turn shortens the rest, and the reader's loop over used-up
-- segments on the number of files that are left. The WebSocket reader's loop runs on the number of
-- bytes, since each frame has two at least, and so do skipping a JSON value and
-- reading an array of levels, since each value has one. All other loops are structural.
--
-- What the models leave out: allocation and capacity hints, hashing, formatting of errors, and the
-- bound 2^63 of prices and quantities in the book, which only compares them. Not modelled are the
-- rings, the venue's messages and the writing of the journal's files, on which these
-- parts do not rest, and sockets, TLS and threads, which are input and output only.

pub mod Prelude
pub mod Units
pub mod Ladder
pub mod Book
pub mod Sync
pub mod RateLimit
pub mod Backoff
pub mod Fixed
pub mod Money
pub mod Histogram
pub mod Journal
pub mod Ids
pub mod Json
pub mod Levels
pub mod Ws
