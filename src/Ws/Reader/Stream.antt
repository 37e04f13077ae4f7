-- ===== src/Ws/Reader/Stream.antt =====
-- What the reader stands for: a stream of bytes, with a message in progress.
use bowst.Prelude.{
  ℕ, zero, suc, ◌+◌, Option, none, some, List, [], ◌∷◌, ◌++◌, length, take, drop, ltb,
  if◌then◌else◌, Result, ok, err, of_be,
}
use bowst.Ws.{WsError, message_too_large, unexpected_fragment, malformed_close}
use bowst.Ws.Frame.{Opcode, FrameHeader, parse_server_header}
use bowst.Ws.Reader.{WsEvent, text, binary, ping, pong, close, ReaderConfig}

pub record Stream : Type 0 where
  pub pending : List ℕ
  pub message : List ℕ
  pub fragment : Option Opcode

-- What the next frame of a stream does.
pub data Outcome : Type 0 where
  refused : WsError → Outcome
  short between : Outcome
  emits : WsEvent → Outcome

abbrev pub data_event : Opcode → List ℕ → WsEvent
data_event Opcode.binary payload = binary payload
data_event _ payload = text payload

abbrev pub close_event : List ℕ → Outcome
close_event [] = emits (close none [])
close_event (_ ∷ []) = refused malformed_close
close_event (hi ∷ lo ∷ reason) = emits (close (some (of_be (hi ∷ lo ∷ []))) reason)

-- A fragment is added to the message, if there is room.
abbrev pub add : ℕ → Stream → List ℕ → (Stream → Stream × Outcome) → Stream × Outcome
add limit s payload next =
    if ltb limit (length s.message + length payload)
    then (s, refused (message_too_large limit))
    else next (record s { message = s.message ++ payload })

abbrev pub data_frame : ℕ → Stream → FrameHeader → List ℕ → Stream × Outcome
data_frame limit s header payload = elim s.fragment [
  | some _ ↦ (s, refused unexpected_fragment)
  | none ↦
      if header.fin
      then (s, emits (data_event header.opcode payload))
      else add limit (record s { fragment = some header.opcode; message = [] }) payload
          (λ s'. (s', between))
]

abbrev pub continuation_frame : ℕ → Stream → FrameHeader → List ℕ → Stream × Outcome
continuation_frame limit s header payload = elim s.fragment [
  | none ↦ (s, refused unexpected_fragment)
  | some opcode ↦ add limit s payload (λ s'.
      if header.fin
      then (record s' { fragment = none }, emits (data_event opcode s'.message))
      else (s', between))
]

abbrev pub take_frame : Opcode → ℕ → Stream → FrameHeader → List ℕ → Stream × Outcome
take_frame Opcode.ping limit s header payload = (s, emits (ping payload))
take_frame Opcode.pong limit s header payload = (s, emits (pong payload))
take_frame Opcode.close limit s header payload = (s, close_event payload)
take_frame Opcode.text limit s header payload = data_frame limit s header payload
take_frame Opcode.binary limit s header payload = data_frame limit s header payload
take_frame Opcode.continuation limit s header payload = continuation_frame limit s header payload

-- The next frame, which counts only when it is there to its end.
unfoldable pub next_frame : ReaderConfig → Stream → Stream × Outcome
next_frame config s = elim (parse_server_header s.pending config.max_frame) [
  | err e ↦ (s, refused e)
  | ok found ↦ elim found [
    | none ↦ (s, short)
    | some header ↦
        let frame_len = header.header_len + header.payload_len in
        if ltb (length s.pending) frame_len
        then (s, short)
        else take_frame header.opcode config.max_message
            (record s { pending = drop frame_len s.pending }) header
            (take header.payload_len (drop header.header_len s.pending))
  ]
]

-- The first event of a stream, from at most the given number of frames.
unfoldable pub first_event : ℕ → ReaderConfig → Stream → Stream × Result (Option WsEvent) WsError
first_event zero config s = (s, ok none)
first_event (suc frames) config s =
    let (s', o) = next_frame config s in
    elim o [
      | refused e ↦ (s', err e)
      | short ↦ (s', ok none)
      | between ↦ first_event frames config s'
      | emits e ↦ (s', ok (some e))
    ]
