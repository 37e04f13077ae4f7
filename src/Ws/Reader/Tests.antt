-- ===== src/Ws/Reader/Tests.antt =====
-- A reader of 32 bytes, for frames of 20 bytes and messages of 8.
use bowst.Prelude.{
  ◌+◌, ◌≤◌, ◌*◌, ℕ, suc, ◌<◌, ◌≡◌, ◌≢◌, refl, inl, true, false, none, some, List, [], ◌∷◌, ◌++◌,
  length, ok, replicate, slice?, arith,
}
use bowst.Ws.Frame.{
  Opcode, from_bits, payload_length, checked_header, parse_bytes, parse_server_header,
}
use bowst.Ws.Reader.{
  WsEvent, ReaderConfig, WsReader, new, slice_of, compact, spare, buffered, bytes_in, event, append,
  on_data, on_continuation, dispatch, turn, read_frames, next_event, available,
}
use bowst.Ws.Reader.Stream.{first_event, data_event}
use bowst.Ws.Reader.View.{IsReader, view}
use bowst.Ws.Reader.Events.{seen, view-next_event}
use bowst.Ws.Reader.Loop.{Loop, next_event_ends}
use bowst.Ws.Reader.Receive.{receive, view-receive, spare_waits}
use bowst.Ws.Reader.Chunks.{extend, next_event-extend}
use bowst.Ws.Reader.Fragments.{IsFrame, IsMessage, last, next_event-IsMessage}
use bowst.Ws.Reader.Runs.{arrive, ask, run, run-IsReader}

abbrev config : ReaderConfig
config = record { buffer = 32; max_frame = 20; max_message = 8 }

abbrev fresh : WsReader
fresh = record {
  buf = replicate 32 0;
  start = 0;
  end = 0;
  message = [];
  fragment = none;
  config = config;
}

made : new config ≡ ok fresh
unfolding new
made = refl

-- A text message in two fragments, "Hel" and "lo", and a ping behind it.
abbrev hel : List ℕ
hel = 0x01 ∷ 3 ∷ 0x48 ∷ 0x65 ∷ 0x6c ∷ []

abbrev lo : List ℕ
lo = 0x80 ∷ 2 ∷ 0x6c ∷ 0x6f ∷ []

abbrev pinging : List ℕ
pinging = 0x89 ∷ 0 ∷ []

-- The reader with the given bytes.
abbrev holding : List ℕ → ℕ → WsReader
holding bytes n = record {
  buf = bytes;
  start = 0;
  end = n;
  message = [];
  fragment = none;
  config = config;
}

abbrev zeros : ℕ → List ℕ
zeros n = replicate n 0

abbrev full : WsReader
full = holding ((hel ++ lo ++ pinging) ++ zeros 21) 11

full-IsReader : IsReader full
full-IsReader = omega arith

run-IsReader_example : IsReader (run fresh (arrive (hel ++ lo) ∷ ask ∷ arrive pinging ∷ ask ∷ []))
run-IsReader_example =
    run-IsReader config fresh (arrive (hel ++ lo) ∷ ask ∷ arrive pinging ∷ ask ∷ []) (omega arith)
      (omega arith) made

reads : (next_event full).1 ≡ ok (some (WsEvent.text (0x48 ∷ 0x65 ∷ 0x6c ∷ 0x6c ∷ 0x6f ∷ [])))
unfolding next_event read_frames turn dispatch on_data on_continuation append event bytes_in
    buffered slice_of slice? parse_server_header parse_bytes from_bits payload_length checked_header
reads = refl

next_event_ends_example : (n : ℕ) × Loop (next_event full) n full × (2 * n ≤ buffered full + 2)
next_event_ends_example = next_event_ends full full-IsReader

view-next_event_example :
    seen (next_event full) ≡ first_event (suc (length (view full).pending)) config (view full)
view-next_event_example = view-next_event full full-IsReader

-- The first fragment only.
abbrev partial : WsReader
partial = holding (hel ++ zeros 27) 5

partial-IsReader : IsReader partial
partial-IsReader = omega arith

view-receive_example :
    IsReader (receive partial lo)
    × (view (receive partial lo)
        ≡ record { pending = available partial ++ lo; message = []; fragment = none })
unfolding spare compact slice_of slice?
view-receive_example = view-receive partial lo partial-IsReader (omega arith)

waits_for_more : (next_event partial).1 ≡ ok none
unfolding next_event read_frames turn dispatch on_data on_continuation append event bytes_in
    buffered slice_of slice? parse_server_header parse_bytes from_bits payload_length checked_header
waits_for_more = refl

spare_waits_example : 0 < length (spare (next_event partial).0).1
spare_waits_example = spare_waits partial partial-IsReader (omega arith) waits_for_more

-- The message, and the message with the ping behind it.
abbrev message : WsReader
message = holding ((hel ++ lo) ++ zeros 23) 9

message-IsReader : IsReader message
message-IsReader = omega arith

message_read : (next_event message).1 ≢ ok none
unfolding next_event read_frames turn dispatch on_data on_continuation append event bytes_in
    buffered slice_of slice? parse_server_header parse_bytes from_bits payload_length checked_header
message_read q = cc

full_view : view full ≡ extend pinging (view message)
unfolding slice_of slice?
full_view = refl

next_event-extend_example :
    seen (next_event full) ≡ (extend pinging (view (next_event message).0), (next_event message).1)
next_event-extend_example =
    next_event-extend message full pinging message-IsReader full-IsReader refl full_view
      message_read

hel-IsFrame : IsFrame 20 hel false Opcode.text (0x48 ∷ 0x65 ∷ 0x6c ∷ [])
unfolding parse_server_header parse_bytes from_bits payload_length checked_header
hel-IsFrame = record { header_len = 2; parsed = refl; body = refl }

lo-IsFrame : IsFrame 20 lo true Opcode.continuation (0x6c ∷ 0x6f ∷ [])
unfolding parse_server_header parse_bytes from_bits payload_length checked_header
lo-IsFrame = record { header_len = 2; parsed = refl; body = refl }

abbrev hello : List ℕ
hello = 0x48 ∷ 0x65 ∷ 0x6c ∷ 0x6c ∷ 0x6f ∷ []

hello-IsMessage : IsMessage 20 Opcode.text 1 (hel ++ lo) hello
hello-IsMessage = record {
  first_bytes = hel;
  first_payload = 0x48 ∷ 0x65 ∷ 0x6c ∷ [];
  next_bytes = lo;
  next_payload = 0x6c ∷ 0x6f ∷ [];
  data_opcode = inl refl;
  first = hel-IsFrame;
  rest = last lo-IsFrame;
  all_bytes = refl;
  all_payload = refl;
}

arrived : (view full).pending ≡ (hel ++ lo) ++ pinging
unfolding slice_of slice?
arrived = refl

next_event-IsMessage_example : seen (next_event full) ≡ (
  record { pending = pinging; message = hello; fragment = none },
  ok (some (data_event Opcode.text hello)),
)
next_event-IsMessage_example =
    next_event-IsMessage full pinging full-IsReader hello-IsMessage arrived refl (omega arith)
