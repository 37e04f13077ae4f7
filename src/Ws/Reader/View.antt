-- ===== src/Ws/Reader/View.antt =====
-- The reader does to its buffers what the stream does to its bytes.
use bowst.Prelude.{
  ◌⊎◌, ℕ, ◌+◌, ◌-◌, ◌^◌, ◌≤◌, ◌<◌, ◌≡◌, refl, ap, ap₂, ◌∙◌, Bool, true, false, Bool-cases, inl, inr,
  Option, none, some, List, [], ◌∷◌, ◌++◌, length, take, drop, ltb, if◌then◌else◌, ok, err,
  Result-cases, of_be, sat_add, arith,
}
use bowst.Ws.{message_too_large}
use bowst.Ws.Frame.{Opcode, FrameHeader, parse_server_header}
use bowst.Ws.Frame.Parse.{parse_server_header_sound}
use bowst.Ws.Reader.{
  close, ReaderConfig, WsReader, Span, in_buf, in_message, closed, whole, slice_of, bytes_in, event,
  close_bytes, close_frame, append, on_data, on_continuation, closing, dispatch, on_frame, Turn,
  failed, waits, goes_on, yields, turned, available, turn,
}
use bowst.Ws.Reader.Slices.{length-slice_of, slice_of-slice_of, drop-slice_of}
use bowst.Ws.Reader.Stream.{
  Stream, Outcome, refused, short, between, emits, data_event, close_event, data_frame,
  continuation_frame, take_frame, next_frame,
}

-- The reader's indices are in order and in the buffer, a frame of the largest size and its header fit in
-- the buffer, and the message in progress is within its limit. A vector has less than 2^63 bytes.
pub record IsReader (r : WsReader) : Type 0 where
  pub order : r.start ≤ r.end
  pub within : r.end ≤ length r.buf
  pub size : length r.buf ≡ r.config.buffer
  pub room : r.config.max_frame + 10 ≤ r.config.buffer
  pub memory : r.config.buffer < 2 ^ 63
  pub message : length r.message ≤ r.config.max_message
  pub limit : r.config.max_message < 2 ^ 63

abbrev pub view : WsReader → Stream
view r = record { pending = available r; message = r.message; fragment = r.fragment }

-- A turn of the loop, as the stream sees it.
abbrev pub outcome : WsReader → Turn → Outcome
outcome r (failed e) = refused e
outcome r waits = short
outcome r goes_on = between
outcome r (yields ready) = emits (event r ready)

abbrev pub viewed : WsReader × Turn → Stream × Outcome
viewed (r, t) = (view r, outcome r t)

event-whole :
    (o : Opcode) (r : WsReader) (span : Span)
    → event r (whole o span) ≡ data_event o (bytes_in r span)
unfolding event
event-whole Opcode.binary r span = refl
event-whole Opcode.text r span = refl
event-whole Opcode.continuation r span = refl
event-whole Opcode.close r span = refl
event-whole Opcode.ping r span = refl
event-whole Opcode.pong r span = refl

event-closed :
    (r : WsReader) (code : Option ℕ) (span : Span)
    → event r (closed code span) ≡ close code (bytes_in r span)
unfolding event
event-closed r code span = refl

-- A reader with its fields apart, at a payload in its buffer.
module _ (buf : List ℕ) (start end from to : ℕ) (config : ReaderConfig)
    (limit : config.max_message < 2 ^ 63) (memory : length buf < 2 ^ 63) (order : from ≤ to)
    (within : to ≤ length buf) where
  abbrev reader : List ℕ → Option Opcode → WsReader
  reader m f = record {
    buf = buf;
    start = start;
    end = end;
    message = m;
    fragment = f;
    config = config;
  }

  abbrev span : Span
  span = in_buf from to

  abbrev payload : List ℕ
  payload = slice_of buf from to

  append_lem :
      (m : List ℕ) (f : Option Opcode)
      → length m ≤ config.max_message
      → append (reader m f) span ≡ (
          if ltb config.max_message (length m + length payload)
          then err (message_too_large config.max_message)
          else ok (reader (m ++ payload) f))
  unfolding append
  append_lem m f h =
      let t : ltb config.max_message (sat_add (length m) (to - from))
          ≡ ltb config.max_message (length m + length (slice_of buf from to)) =
        ground (arith, limit, length-slice_of buf from to order within) in
      rw t refl

  view-on_data :
      (m : List ℕ) (f : Option Opcode) (fin : Bool) (o : Opcode) (n k : ℕ)
      → (let header : FrameHeader = record {
        fin = fin;
        opcode = o;
        header_len = n;
        payload_len = k;
      } in
          viewed (turned (on_data (reader m f) header span))
          ≡ data_frame config.max_message (view (reader m f)) header payload)
  unfolding on_data bytes_in
  view-on_data m (some x) fin o n k = refl
  view-on_data m none true o n k =
      ap (λ t. (view (reader m none), emits t)) (event-whole o (reader m none) span)
  view-on_data m none false o n k =
      elim (Bool-cases (ltb config.max_message (0 + length payload))) [
        | inl big ↦ rw (append_lem [] (some o) (omega arith)) (rw big refl)
        | inr fits ↦ rw (append_lem [] (some o) (omega arith)) (rw fits refl)
      ]

  view-on_continuation :
      (m : List ℕ) (f : Option Opcode) (fin : Bool) (o : Opcode) (n k : ℕ)
      → length m ≤ config.max_message
      → (let header : FrameHeader = record {
        fin = fin;
        opcode = o;
        header_len = n;
        payload_len = k;
      } in
          viewed (turned (on_continuation (reader m f) header span))
          ≡ continuation_frame config.max_message (view (reader m f)) header payload)
  unfolding on_continuation bytes_in
  view-on_continuation m none fin o n k h = refl
  view-on_continuation m (some x) fin o n k h =
      elim (Bool-cases (ltb config.max_message (length m + length payload))) [
        | inl big ↦ rw (append_lem m (some x) h) (rw big refl)
        | inr fits ↦ rw (append_lem m (some x) h) (rw fits (last fin))
      ]
    where
      last :
          (fin : Bool)
          → viewed (
              turned (
                if fin
                then (reader (m ++ payload) none, ok (some (whole x in_message)))
                else (reader (m ++ payload) (some x), ok none)))
            ≡ (if fin
                then (view (reader (m ++ payload) none), emits (data_event x (m ++ payload)))
                else (view (reader (m ++ payload) (some x)), between))
      last true =
          ap (λ t. (view (reader (m ++ payload) none), emits t))
            (event-whole x (reader (m ++ payload) none) in_message)
      last false = refl

  close_view :
      (m : List ℕ) (f : Option Opcode)
      → viewed (turned (closing (reader m f) (close_frame (reader m f) span)))
        ≡ (view (reader m f), close_event payload)
  unfolding close_frame bytes_in
  close_view m f = go payload refl
    where
      go :
          (p : List ℕ)
          → payload ≡ p
          → viewed (turned (closing (reader m f) (close_bytes from to p)))
            ≡ (view (reader m f), close_event p)
      go [] e =
          ap (λ t. (view (reader m f), emits t))
            (event-closed (reader m f) none span ∙ ap (close none) e)
      go (x ∷ []) e = refl
      go (hi ∷ lo ∷ reason) e =
          let enough : from + 2 ≤ to =
            omega (arith, length-slice_of buf from to order within, ap length e) in
          let next : sat_add from 2 ≡ from + 2 = omega (arith, memory, enough, within) in
          let rest : slice_of buf (sat_add from 2) to ≡ reason =
            ap (λ i. slice_of buf i to) next
            ∙ drop-slice_of buf from to 2 enough within
            ∙ ap (drop 2) e in
          ap (λ t. (view (reader m f), emits t))
            (event-closed (reader m f) (some (of_be (hi ∷ lo ∷ []))) (in_buf (sat_add from 2) to)
              ∙ ap (close (some (of_be (hi ∷ lo ∷ [])))) rest)

  view-on_frame :
      (m : List ℕ) (f : Option Opcode) (header : FrameHeader)
      → length m ≤ config.max_message
      → viewed (turned (on_frame (reader m f) header span))
        ≡ take_frame header.opcode config.max_message (view (reader m f)) header payload
  unfolding dispatch event bytes_in
  view-on_frame m f header h = go header.opcode
    where
      go :
          (o : Opcode)
          → viewed (turned (dispatch o (reader m f) header span))
            ≡ take_frame o config.max_message (view (reader m f)) header payload
      go Opcode.ping = refl
      go Opcode.pong = refl
      go Opcode.close = close_view m f
      go Opcode.text =
          view-on_data m f header.fin header.opcode header.header_len header.payload_len
      go Opcode.binary =
          view-on_data m f header.fin header.opcode header.header_len header.payload_len
      go Opcode.continuation =
          view-on_continuation m f header.fin header.opcode header.header_len header.payload_len h

-- A frame that has arrived whole.
pub record Framed (r : WsReader) (header : FrameHeader) : Type 0 where
  pub two : 2 ≤ header.header_len
  pub there : r.start + (header.header_len + header.payload_len) ≤ r.end
  pub step :
      turn r
      ≡ turned (
          on_frame
            (record r { start = r.start + (header.header_len + header.payload_len) })
            header
            (in_buf
              (r.start + header.header_len)
              (r.start + (header.header_len + header.payload_len))))

-- Whether the frame of a header has arrived whole.
pub turn-Framed :
    (r : WsReader) (header : FrameHeader)
    → IsReader r
    → parse_server_header (available r) r.config.max_frame ≡ ok (some header)
    → ((ltb (length (available r)) (header.header_len + header.payload_len) ≡ true)
        × (turn r ≡ (r, waits)))
      ⊎ ((ltb (length (available r)) (header.header_len + header.payload_len) ≡ false)
          × Framed r header)
unfolding turn
turn-Framed r header v e =
    let (_, two, short_header, small, _) =
      parse_server_header_sound (available r) r.config.max_frame header e in
    let len : sat_add header.header_len header.payload_len
        ≡ header.header_len + header.payload_len =
      omega (arith, short_header, small, v.room, v.memory) in
    elim (Bool-cases (ltb (length (available r)) (header.header_len + header.payload_len))) [
      | inl early ↦ inl (early, rw (e, turn) (rw (len, early) refl))
      | inr late ↦
          let arrived : header.header_len + header.payload_len ≤ length (available r) =
            ground arith in
          let available_len = length-slice_of r.buf r.start r.end v.order v.within in
          let start : sat_add r.start (header.header_len + header.payload_len)
              ≡ r.start + (header.header_len + header.payload_len) =
            omega (arith, arrived, available_len, v.order, v.within, v.size, v.memory) in
          let body : sat_add r.start header.header_len ≡ r.start + header.header_len =
            omega (arith, arrived, available_len, v.order, v.within, v.size, v.memory) in
          inr (
            late,
            record {
              two = two;
              there = omega (arith, arrived, available_len, v.order);
              step = rw (e, turn) (rw (len, late) (rw (start, body) refl));
            },
          )
    ]

-- One turn of the loop treats the next frame of the stream.
pub view-turn : (r : WsReader) → IsReader r → viewed (turn r) ≡ next_frame r.config (view r)
unfolding turn next_frame
view-turn r v = elim (Result-cases (parse_server_header (available r) r.config.max_frame)) [
  | inr (x, e) ↦ rw (e, turn, next_frame) refl
  | inl (found, e) ↦ go found e
]
  where
    frame :
        (header : FrameHeader) (len : ℕ)
        → len ≡ header.header_len + header.payload_len
        → r.start + len ≤ r.end
        → viewed (
            turned (
              on_frame
                (record r { start = r.start + len })
                header
                (in_buf (r.start + header.header_len) (r.start + len))))
          ≡ take_frame header.opcode r.config.max_message
              (record {
                pending = drop len (available r);
                message = r.message;
                fragment = r.fragment;
              })
              header
              (take header.payload_len (drop header.header_len (available r)))
    frame header len e there' =
        let body : r.start + len - (r.start + header.header_len) ≡ header.payload_len =
          omega arith in
        let size : len - header.header_len ≡ header.payload_len = omega arith in
        view-on_frame r.buf (r.start + len) r.end (r.start + header.header_len) (r.start + len)
          r.config v.limit (omega (arith, v.size, v.memory)) (omega arith) (omega (arith, v.within))
          r.message r.fragment header v.message
        ∙ ap₂
            (λ p q.
              take_frame header.opcode r.config.max_message
                (record { pending = p; message = r.message; fragment = r.fragment }) header q)
            (drop-slice_of r.buf r.start r.end len there' v.within)
            (slice_of-slice_of r.buf r.start r.end header.header_len len v.order v.within
                (omega arith) there'
              ∙ ap (λ n. take n (drop header.header_len (available r))) size)

    go :
        (found : Option FrameHeader)
        → parse_server_header (available r) r.config.max_frame ≡ ok found
        → viewed (turn r) ≡ next_frame r.config (view r)
    go none e = rw (e, turn, next_frame) refl
    go (some header) e = elim (turn-Framed r header v e) [
      | inl (early, t) ↦ ap viewed t ∙ rw (e, next_frame) (rw early refl)
      | inr (late, f) ↦
          ap viewed f.step
          ∙ rw (e, next_frame)
              (rw late (frame header (header.header_len + header.payload_len) refl f.there))
    ]
