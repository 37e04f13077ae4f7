-- ===== src/Ws/Reader.antt =====
-- The event reader, crates/bowst-venue/src/ws/reader.rs. A slice of a buffer is the list of its bytes.
pub mod Slices
pub mod Stream
pub mod View
pub mod Invariant
pub mod Operations
pub mod Events
pub mod Loop
pub mod Receive
pub mod Chunks
pub mod Fragments
pub mod Runs
mod Tests
use bowst.Prelude.{
  ℕ, zero, suc, ◌+◌, ◌-◌, min, Bool, true, false, ◌&&◌, Option, none, some, List, [], ◌∷◌, ◌++◌,
  length, drop, replicate, ltb, ◌==◌, if◌then◌else◌, Result, ok, err, sat_add, slice?, overwrite,
  of_be,
}
use bowst.Ws.{WsError, message_too_large, unexpected_fragment, malformed_close, buffer_too_small}
use bowst.Ws.Frame.{Opcode, FrameHeader, parse_server_header}

pub data WsEvent : Type 0 where
  text binary ping pong : List ℕ → WsEvent
  close : Option ℕ → List ℕ → WsEvent

pub record ReaderConfig : Type 0 where
  pub buffer : ℕ
  pub max_frame : ℕ
  pub max_message : ℕ

pub record WsReader : Type 0 where
  pub buf : List ℕ
  pub start : ℕ
  pub end : ℕ
  pub message : List ℕ
  pub fragment : Option Opcode
  pub config : ReaderConfig

pub data Span : Type 0 where
  in_buf : ℕ → ℕ → Span
  in_message : Span

pub data Ready : Type 0 where
  whole : Opcode → Span → Ready
  pinged ponged : Span → Ready
  closed : Option ℕ → Span → Ready

abbrev pub max_server_header : ℕ
max_server_header = 10

unfoldable pub new : ReaderConfig → Result WsReader WsError
new config =
    if ltb config.buffer (sat_add config.max_frame max_server_header)
    then err buffer_too_small
    else ok (record {
      buf = replicate config.buffer 0;
      start = 0;
      end = 0;
      message = [];
      fragment = none;
      config = config;
    })

unfoldable pub reset : WsReader → WsReader
reset r = record r { start = 0; end = 0; message = []; fragment = none }

-- `get(from..to).unwrap_or_default()`.
unfoldable pub slice_of : List ℕ → ℕ → ℕ → List ℕ
slice_of bytes from to = elim (slice? bytes from to) [ none ↦ [] | some part ↦ part ]

-- What `spare` does to the reader; `copy_within` moves the unconsumed bytes to the front.
unfoldable pub compact : WsReader → WsReader
compact r =
    if r.start == r.end
    then record r { start = 0; end = 0 }
    else if ltb 0 r.start && ltb (length r.buf - r.end) r.config.max_frame
    then record r {
      buf = overwrite r.buf 0 (slice_of r.buf r.start r.end);
      end = r.end - r.start;
      start = 0;
    }
    else r

-- And the free space that it gives.
unfoldable pub spare : WsReader → WsReader × List ℕ
spare r = let r' = compact r in (r', slice_of r'.buf r'.end (length r'.buf))

unfoldable pub commit : WsReader → ℕ → WsReader
commit r n = record r { end = min (sat_add r.end n) (length r.buf) }

unfoldable pub buffered : WsReader → ℕ
buffered r = r.end - r.start

unfoldable pub bytes_in : WsReader → Span → List ℕ
bytes_in r (in_buf from to) = slice_of r.buf from to
bytes_in r in_message = r.message

unfoldable pub event : WsReader → Ready → WsEvent
event r (whole Opcode.binary span) = binary (bytes_in r span)
event r (whole _ span) = text (bytes_in r span)
event r (pinged span) = ping (bytes_in r span)
event r (ponged span) = pong (bytes_in r span)
event r (closed code span) = close code (bytes_in r span)

abbrev pub close_bytes : ℕ → ℕ → List ℕ → Result Ready WsError
close_bytes from to [] = ok (closed none (in_buf from to))
close_bytes from to (_ ∷ []) = err malformed_close
close_bytes from to (hi ∷ lo ∷ _) =
    ok (closed (some (of_be (hi ∷ lo ∷ []))) (in_buf (sat_add from 2) to))

unfoldable pub close_frame : WsReader → Span → Result Ready WsError
close_frame r (in_buf from to) = close_bytes from to (bytes_in r (in_buf from to))
close_frame r in_message = err malformed_close

unfoldable pub append : WsReader → Span → Result WsReader WsError
append r in_message = err unexpected_fragment
append r (in_buf from to) =
    if ltb r.config.max_message (sat_add (length r.message) (to - from))
    then err (message_too_large r.config.max_message)
    else ok (record r { message = r.message ++ slice_of r.buf from to })

-- The reader and the result; `kept` has the fragment added, or the reader as it was when that failed.
abbrev pub Step : Type 0
Step = WsReader × Result (Option Ready) WsError

abbrev pub keep : WsReader → Result WsReader WsError → (WsReader → Step) → Step
keep r (err e) next = (r, err e)
keep r (ok r') next = next r'

unfoldable pub on_data : WsReader → FrameHeader → Span → Step
on_data r header payload = elim r.fragment [
  | some _ ↦ (r, err unexpected_fragment)
  | none ↦
      if header.fin
      then (r, ok (some (whole header.opcode payload)))
      else (let r' = record r { fragment = some header.opcode; message = [] } in
          keep r' (append r' payload) (λ r''. (r'', ok none)))
]

unfoldable pub on_continuation : WsReader → FrameHeader → Span → Step
on_continuation r header payload = elim r.fragment [
  | none ↦ (r, err unexpected_fragment)
  | some opcode ↦ keep r (append r payload) (λ r'.
      if header.fin
      then (record r' { fragment = none }, ok (some (whole opcode in_message)))
      else (r', ok none))
]

abbrev pub closing : WsReader → Result Ready WsError → Step
closing r (err e) = (r, err e)
closing r (ok ready) = (r, ok (some ready))

unfoldable pub dispatch : Opcode → WsReader → FrameHeader → Span → Step
dispatch Opcode.ping r header payload = (r, ok (some (pinged payload)))
dispatch Opcode.pong r header payload = (r, ok (some (ponged payload)))
dispatch Opcode.close r header payload = closing r (close_frame r payload)
dispatch Opcode.text r header payload = on_data r header payload
dispatch Opcode.binary r header payload = on_data r header payload
dispatch Opcode.continuation r header payload = on_continuation r header payload

abbrev pub on_frame : WsReader → FrameHeader → Span → Step
on_frame r header = dispatch header.opcode r header

-- One turn of the loop: an error, no complete frame, a frame without an event, or an event.
pub data Turn : Type 0 where
  failed : WsError → Turn
  waits goes_on : Turn
  yields : Ready → Turn

abbrev pub turned : Step → WsReader × Turn
turned (r, err e) = (r, failed e)
turned (r, ok none) = (r, goes_on)
turned (r, ok (some ready)) = (r, yields ready)

abbrev pub available : WsReader → List ℕ
available r = slice_of r.buf r.start r.end

unfoldable pub turn : WsReader → WsReader × Turn
turn r = elim (parse_server_header (available r) r.config.max_frame) [
  | err e ↦ (r, failed e)
  | ok found ↦ elim found [
    | none ↦ (r, waits)
    | some header ↦
        let frame_len = sat_add header.header_len header.payload_len in
        if ltb (length (available r)) frame_len
        then (r, waits)
        else turned (
            on_frame (record r { start = sat_add r.start frame_len }) header
              (in_buf (sat_add r.start header.header_len) (sat_add r.start frame_len)))
  ]
]

-- The loop, for at most the given number of frames; more than there are bytes is enough, since each
-- frame has some.
unfoldable pub read_frames : ℕ → WsReader → WsReader × Result (Option WsEvent) WsError
read_frames zero r = (r, ok none)
read_frames (suc frames) r =
    let (r', t) = turn r in
    elim t [
      | failed e ↦ (r', err e)
      | waits ↦ (r', ok none)
      | goes_on ↦ read_frames frames r'
      | yields ready ↦ (r', ok (some (event r' ready)))
    ]

unfoldable pub next_event : WsReader → WsReader × Result (Option WsEvent) WsError
next_event r = read_frames (suc (buffered r)) r
