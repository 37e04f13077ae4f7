-- ===== src/Ws/Reader/Fragments.antt =====
-- A fragmented message is put together from its fragments, in their order.
use bowst.Prelude.{
  ℕ, suc, ◌+◌, ◌≤◌, ◌≡◌, ◌≢◌, ◌⊎◌, refl, sym, ap, ap₂, ◌∙◌, Bool, true, false, inl, inr, Option,
  none, some, List, ◌++◌, length, length-append, length-drop, take, take-append_length, drop,
  drop-append_length, drop-append_le, ltb, Result, ok, arith,
}
use mathlib.Core.List.{append_assoc}
use bowst.Ws.{WsError}
use bowst.Ws.Frame.{Opcode, FrameHeader, parse_server_header}
use bowst.Ws.Frame.Parse.{parse_server_header-append, parse_server_header_sound}
use bowst.Ws.Reader.{WsEvent, ReaderConfig, WsReader, next_event}
use bowst.Ws.Reader.Stream.{Stream, between, emits, data_event, take_frame, next_frame, first_event}
use bowst.Ws.Reader.View.{IsReader, view}
use bowst.Ws.Reader.Events.{seen, after_frame, first_event-after, view-next_event}
use bowst.Ws.Reader.Chunks.{first_event-more}

-- The bytes of one frame: a header that is accepted, and its payload.
pub record IsFrame (max : ℕ) (bytes : List ℕ) (fin : Bool) (o : Opcode) (payload : List ℕ)
    : Type 0 where
  pub header_len : ℕ
  pub parsed :
      parse_server_header bytes max
      ≡ ok (
          some (record {
            fin = fin;
            opcode = o;
            header_len = header_len;
            payload_len = length payload;
          }))
  pub body : drop header_len bytes ≡ payload

-- The next frame of a stream that begins with a frame.
next_frame-IsFrame :
    (config : ReaderConfig) (bytes rest payload m : List ℕ) (fin : Bool) (o : Opcode)
    (f : Option Opcode)
    → (w : IsFrame config.max_frame bytes fin o payload)
    → next_frame config (record { pending = bytes ++ rest; message = m; fragment = f })
      ≡ take_frame o config.max_message
          (record { pending = rest; message = m; fragment = f })
          (record {
            fin = fin;
            opcode = o;
            header_len = w.header_len;
            payload_len = length payload;
          })
          payload
unfolding next_frame
next_frame-IsFrame config bytes rest payload m fin o f w =
    let header : FrameHeader = record {
      fin = fin;
      opcode = o;
      header_len = w.header_len;
      payload_len = length payload;
    } in
    let (there, _, _, _, _) = parse_server_header_sound bytes config.max_frame header w.parsed in
    let size : w.header_len + length payload ≡ length bytes =
      omega (arith, ap length w.body, length-drop w.header_len bytes, there) in
    let parsed : parse_server_header (bytes ++ rest) config.max_frame ≡ ok (some header) =
      parse_server_header-append bytes rest config.max_frame
        (λ q. absurd (some_header (sym w.parsed ∙ q)))
      ∙ w.parsed in
    let late : ltb (length (bytes ++ rest)) (w.header_len + length payload) ≡ false =
      ground (arith, length-append bytes rest, size) in
    rw (parsed, next_frame)
      (rw late (
        ap₂
          (λ p q.
            take_frame o config.max_message (record { pending = p; message = m; fragment = f })
              header q)
          (drop-append_length bytes rest (w.header_len + length payload) size)
          (ap (take (length payload))
              (drop-append_le bytes rest w.header_len there ∙ ap (λ t. t ++ rest) w.body)
            ∙ take-append_length payload rest)))
  where
    some_header :
        {h : FrameHeader} → ◌≢◌ {A = Result (Option FrameHeader) WsError} (ok (some h)) (ok none)
    some_header q = cc

-- The frames that go on with a message, the last of which ends it, with their payloads together.
pub data Continued (max : ℕ) : ℕ → List ℕ → List ℕ → Type 0 where
  last :
      {bytes payload : List ℕ}
      → IsFrame max bytes true Opcode.continuation payload
      → Continued max 1 bytes payload
  more :
      {n : ℕ} {bytes payload bytes' payload' : List ℕ}
      → IsFrame max bytes false Opcode.continuation payload
      → Continued max n bytes' payload'
      → Continued max (suc n) (bytes ++ bytes') (payload ++ payload')

-- A message of two frames or more.
pub record IsMessage (max : ℕ) (o : Opcode) (n : ℕ) (bytes payload : List ℕ) : Type 0 where
  pub first_bytes : List ℕ
  pub first_payload : List ℕ
  pub next_bytes : List ℕ
  pub next_payload : List ℕ
  pub data_opcode : (o ≡ Opcode.text) ⊎ (o ≡ Opcode.binary)
  pub first : IsFrame max first_bytes false o first_payload
  pub rest : Continued max n next_bytes next_payload
  pub all_bytes : bytes ≡ first_bytes ++ next_bytes
  pub all_payload : payload ≡ first_payload ++ next_payload

abbrev waiting : List ℕ → List ℕ → Opcode → Stream
waiting p m o = record { pending = p; message = m; fragment = some o }

continued_lem :
    (config : ReaderConfig) (o : Opcode) {n : ℕ} {bytes payload : List ℕ} (m rest : List ℕ)
    → Continued config.max_frame n bytes payload
    → length m + length payload ≤ config.max_message
    → first_event n config (waiting (bytes ++ rest) m o) ≡ (
      record { pending = rest; message = m ++ payload; fragment = none },
      ok (some (data_event o (m ++ payload))),
    )
unfolding first_event
continued_lem config o m rest (last {bytes} {payload} f) fits =
    let t : ltb config.max_message (length m + length payload) ≡ false = ground arith in
    let ended : next_frame config (waiting (bytes ++ rest) m o) ≡ (
      record { pending = rest; message = m ++ payload; fragment = none },
      emits (data_event o (m ++ payload)),
    ) =
      next_frame-IsFrame config bytes rest payload m true Opcode.continuation (some o) f
      ∙ rw t refl in
    first_event-after 0 config (waiting (bytes ++ rest) m o)
    ∙ ap (after_frame (first_event 0 config)) ended
continued_lem config o m rest (more {n} {bytes} {payload} {bytes'} {payload'} f c) fits =
    let t : ltb config.max_message (length m + length payload) ≡ false =
      ground (arith, length-append payload payload') in
    let added : next_frame config (waiting (bytes ++ (bytes' ++ rest)) m o)
        ≡ (waiting (bytes' ++ rest) (m ++ payload) o, between) =
      next_frame-IsFrame config bytes (bytes' ++ rest) payload m false Opcode.continuation (some o)
        f
      ∙ rw t refl in
    first_event-after n config (waiting ((bytes ++ bytes') ++ rest) m o)
    ∙ ap (λ p. after_frame (first_event n config) (next_frame config (waiting p m o)))
        (append_assoc bytes bytes' rest)
    ∙ ap (after_frame (first_event n config)) added
    ∙ continued_lem config o (m ++ payload) rest c
        (omega (arith, length-append payload payload', length-append m payload))
    ∙ ap
        (λ t. (record { pending = rest; message = t; fragment = none }, ok (some (data_event o t))))
        (append_assoc m payload payload')

Continued-length :
    {max n : ℕ} {bytes payload : List ℕ} → Continued max n bytes payload → n ≤ length bytes
Continued-length {max} (last {bytes} {payload} f) =
    let (there, two, _, _, _) = parse_server_header_sound bytes max _ f.parsed in
    omega (arith, there, two)
Continued-length {max} (more {n} {bytes} {payload} {bytes'} {payload'} f c) =
    let (there, two, _, _, _) = parse_server_header_sound bytes max _ f.parsed in
    omega (arith, there, two, Continued-length c, length-append bytes bytes')

message_lem :
    {n : ℕ} {o : Opcode} {bytes payload : List ℕ} (config : ReaderConfig) (m rest : List ℕ)
    → IsMessage config.max_frame o n bytes payload
    → length payload ≤ config.max_message
    → first_event (suc n) config (record { pending = bytes ++ rest; message = m; fragment = none })
      ≡ (
        record { pending = rest; message = payload; fragment = none },
        ok (some (data_event o payload)),
      )
message_lem {n} {o} {bytes} {payload} config m rest w fits =
    let t : ltb config.max_message (0 + length w.first_payload) ≡ false =
      ground (arith, ap length w.all_payload, length-append w.first_payload w.next_payload) in
    first_event-after n config (record { pending = bytes ++ rest; message = m; fragment = none })
    ∙ ap
        (λ p.
          after_frame (first_event n config)
            (next_frame config (record { pending = p; message = m; fragment = none })))
        (ap (λ b. b ++ rest) w.all_bytes ∙ append_assoc w.first_bytes w.next_bytes rest)
    ∙ ap (after_frame (first_event n config)) (
        next_frame-IsFrame config w.first_bytes (w.next_bytes ++ rest) w.first_payload m false o
          none w.first
        ∙ begin o w.data_opcode w.first.header_len t)
    ∙ continued_lem config o w.first_payload rest w.rest
        (omega (arith, ap length w.all_payload, length-append w.first_payload w.next_payload))
    ∙ ap
        (λ t. (record { pending = rest; message = t; fragment = none }, ok (some (data_event o t))))
        (sym w.all_payload)
  where
    begin :
        (o : Opcode)
        → (o ≡ Opcode.text) ⊎ (o ≡ Opcode.binary)
        → (k : ℕ) → ltb config.max_message (0 + length w.first_payload) ≡ false
        → take_frame o config.max_message
            (record { pending = w.next_bytes ++ rest; message = m; fragment = none })
            (record {
              fin = false;
              opcode = o;
              header_len = k;
              payload_len = length w.first_payload;
            })
            w.first_payload
          ≡ (waiting (w.next_bytes ++ rest) w.first_payload o, between)
    begin Opcode.text a k t = rw t refl
    begin Opcode.binary a k t = rw t refl
    begin Opcode.continuation a k t = elim a [ inl e ↦ absurd (cc) | inr e ↦ absurd (cc) ]
    begin Opcode.close a k t = elim a [ inl e ↦ absurd (cc) | inr e ↦ absurd (cc) ]
    begin Opcode.ping a k t = elim a [ inl e ↦ absurd (cc) | inr e ↦ absurd (cc) ]
    begin Opcode.pong a k t = elim a [ inl e ↦ absurd (cc) | inr e ↦ absurd (cc) ]

-- When the bytes that have arrived begin with a fragmented text or binary message, no message is in
-- progress, and the message is within its limit, then the next event is that message with the payloads
-- of its fragments one after the other, and the bytes behind it are left.
pub next_event-IsMessage :
    {n : ℕ} {o : Opcode} {bytes payload : List ℕ} (r : WsReader) (rest : List ℕ)
    → IsReader r
    → IsMessage r.config.max_frame o n bytes payload
    → (view r).pending ≡ bytes ++ rest
    → r.fragment ≡ none
    → length payload ≤ r.config.max_message
    → seen (next_event r) ≡ (
      record { pending = rest; message = payload; fragment = none },
      ok (some (data_event o payload)),
    )
next_event-IsMessage {n} {o} {bytes} {payload} r rest v w arrived free fits =
    let s : Stream = record { pending = bytes ++ rest; message = r.message; fragment = none } in
    let whole = message_lem r.config r.message rest w fits in
    let found : (first_event (suc n) r.config s).1 ≢ ok none =
      λ q. some_event (ap (λ t. t.1) (sym whole) ∙ q) in
    view-next_event r v
    ∙ ap₂
        (λ p f.
          first_event (suc (length p)) r.config
            (record { pending = p; message = r.message; fragment = f }))
        arrived free
    ∙ first_event-more (suc n) (suc (length (bytes ++ rest))) r.config s found (
        omega (
          arith,
          length-append bytes rest,
          ap length w.all_bytes,
          length-append w.first_bytes w.next_bytes,
          Continued-length w.rest,
        ))
    ∙ whole
  where
    some_event : {e : WsEvent} → ◌≢◌ {A = Result (Option WsEvent) WsError} (ok (some e)) (ok none)
    some_event q = cc
