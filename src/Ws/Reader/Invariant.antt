-- ===== src/Ws/Reader/Invariant.antt =====
-- Every operation keeps the reader's indices, sizes and limits.
use bowst.Prelude.{
  ◌≢◌, ℕ, zero, suc, ◌+◌, ◌-◌, ◌^◌, ◌≤◌, ◌<◌, ◌≡◌, ◌⊎◌, refl, sym, ap, ◌∙◌, subst, Bool, true,
  false, Bool-cases, inl, inr, Option, none, some, [], ◌++◌, length, length-append, ltb,
  if◌then◌else◌, Result, ok, err, Result-cases, sat_add, arith,
}
use bowst.Ws.{WsError, unexpected_fragment}
use bowst.Ws.Frame.{Opcode, FrameHeader, parse_server_header}
use bowst.Ws.Reader.{
  WsEvent, WsReader, in_buf, in_message, Ready, whole, event, slice_of, close_frame, append, Step,
  keep, on_data, on_continuation, closing, dispatch, on_frame, Turn, failed, waits, goes_on, yields,
  turned, available, turn, read_frames,
}
use bowst.Ws.Reader.Slices.{length-slice_of}
use bowst.Ws.Reader.View.{IsReader, turn-Framed}

-- Only the message in progress may change, within its limit.
record Kept (r r' : WsReader) : Type 0 where
  buf : r'.buf ≡ r.buf
  start : r'.start ≡ r.start
  end : r'.end ≡ r.end
  config : r'.config ≡ r.config
  message : length r'.message ≤ r.config.max_message

append-Kept :
    (r r' : WsReader) (from to : ℕ)
    → r.config.max_message < 2 ^ 63
    → from ≤ to
    → to ≤ length r.buf
    → append r (in_buf from to) ≡ ok r'
    → Kept r r'
unfolding append
append-Kept r r' from to limit order within e =
    elim (Bool-cases (ltb r.config.max_message (sat_add (length r.message) (to - from)))) [
      | inl big ↦ absurd (ground arith)
      | inr fits ↦
          let same : record r { message = r.message ++ slice_of r.buf from to } ≡ r' =
            ground arith in
          let bound : length (r.message ++ slice_of r.buf from to) ≤ r.config.max_message = ground (
            arith,
            length-append r.message (slice_of r.buf from to),
            length-slice_of r.buf from to order within,
          ) in
          subst (λ t. Kept r t) same
            (record { buf = refl; start = refl; end = refl; config = refl; message = bound })
    ]

keep-Kept :
    (r : WsReader) (x : Result WsReader WsError) (next : WsReader → Step)
    → length r.message ≤ r.config.max_message
    → ((r' : WsReader) → x ≡ ok r' → Kept r (next r').0)
    → Kept r (keep r x next).0
keep-Kept r (ok r') next h k = k r' refl
keep-Kept r (err e) next h k = record {
  buf = refl;
  start = refl;
  end = refl;
  config = refl;
  message = h;
}

module _ (r : WsReader) (header : FrameHeader) (from to : ℕ) (limit : r.config.max_message < 2 ^ 63)
    (order : from ≤ to) (within : to ≤ length r.buf)
    (small : length r.message ≤ r.config.max_message) where
  unchanged : Kept r r
  unchanged = record { buf = refl; start = refl; end = refl; config = refl; message = small }

  on_data-Kept : Kept r (on_data r header (in_buf from to)).0
  unfolding on_data
  on_data-Kept = go r.fragment header.fin
    where
      go :
          (f : Option Opcode) (fin : Bool)
          → Kept r
              (elim f as (λ _. Step) [
                | some _ ↦ (r, err unexpected_fragment)
                | none ↦
                    if fin
                    then (r, ok (some (whole header.opcode (in_buf from to))))
                    else (let r' = record r { fragment = some header.opcode; message = [] } in
                        keep r' (append r' (in_buf from to)) (λ r''. (r'', ok none)))
              ]).0
      go (some x) fin = unchanged
      go none true = unchanged
      go none false =
          let r' : WsReader = record r { fragment = some header.opcode; message = [] } in
          let k : Kept r' (keep r' (append r' (in_buf from to)) (λ r''. (r'', ok none))).0 =
            keep-Kept r' (append r' (in_buf from to)) (λ r''. (r'', ok none)) (omega arith)
              (λ t e. append-Kept r' t from to limit order within e) in
          record {
            buf = k.buf;
            start = k.start;
            end = k.end;
            config = k.config;
            message = k.message;
          }

  on_continuation-Kept : Kept r (on_continuation r header (in_buf from to)).0
  unfolding on_continuation
  on_continuation-Kept = go r.fragment
    where
      go :
          (f : Option Opcode)
          → Kept r
              (elim f as (λ _. Step) [
                | none ↦ (r, err unexpected_fragment)
                | some opcode ↦ keep r (append r (in_buf from to)) (λ r'.
                    if header.fin
                    then (record r' { fragment = none }, ok (some (whole opcode in_message)))
                    else (r', ok none))
              ]).0
      go none = unchanged
      go (some x) =
          keep-Kept r (append r (in_buf from to)) _ small
            (λ t e. last t header.fin (append-Kept r t from to limit order within e))
        where
          last :
              (t : WsReader) (fin : Bool)
              → Kept r t
              → Kept r
                  (if◌then◌else◌ {A = Step} fin
                    (record t { fragment = none }, ok (some (whole x in_message)))
                    (t, ok none)).0
          last t true k = record {
            buf = k.buf;
            start = k.start;
            end = k.end;
            config = k.config;
            message = k.message;
          }
          last t false k = k

  on_frame-Kept : Kept r (on_frame r header (in_buf from to)).0
  unfolding dispatch
  on_frame-Kept = go header.opcode
    where
      closing-Kept : (x : Result Ready WsError) → Kept r (closing r x).0
      closing-Kept (ok y) = unchanged
      closing-Kept (err y) = unchanged

      go : (o : Opcode) → Kept r (dispatch o r header (in_buf from to)).0
      go Opcode.ping = unchanged
      go Opcode.pong = unchanged
      go Opcode.close = closing-Kept (close_frame r (in_buf from to))
      go Opcode.text = on_data-Kept
      go Opcode.binary = on_data-Kept
      go Opcode.continuation = on_continuation-Kept

-- What one turn of the loop does to the reader. A frame that gives no event takes two bytes at least.
pub record Moved (r r' : WsReader) (t : Turn) : Type 0 where
  pub valid : IsReader r'
  pub config : r'.config ≡ r.config
  pub buf : r'.buf ≡ r.buf
  pub end : r'.end ≡ r.end
  pub forward : r.start ≤ r'.start
  pub progress : (t ≢ goes_on) ⊎ (r.start + 2 ≤ r'.start)

turned_state : (s : Step) → (turned s).0 ≡ s.0
turned_state (r, err e) = refl
turned_state (r, ok none) = refl
turned_state (r, ok (some x)) = refl

Kept-Moved :
    (r r' : WsReader) (t : Turn) (len : ℕ)
    → IsReader r
    → 2 ≤ len
    → r.start + len ≤ r.end
    → Kept (record r { start = r.start + len }) r'
    → Moved r r' t
Kept-Moved r r' t len v two there k = record {
  valid = record {
    order = omega (arith, k.start, k.end, there);
    within = omega (arith, k.end, v.within, ap length k.buf);
    size = ap length k.buf ∙ v.size ∙ sym (ap (λ c. c.buffer) k.config);
    room = omega (arith, v.room, ap (λ c. c.buffer) k.config, ap (λ c. c.max_frame) k.config);
    memory = omega (arith, v.memory, ap (λ c. c.buffer) k.config);
    message = omega (arith, k.message, ap (λ c. c.max_message) k.config);
    limit = omega (arith, v.limit, ap (λ c. c.max_message) k.config);
  };
  config = k.config;
  buf = k.buf;
  end = k.end;
  forward = omega (arith, k.start);
  progress = inr (omega (arith, k.start, two));
}

pub turn-Moved : (r : WsReader) → IsReader r → Moved r (turn r).0 (turn r).1
unfolding turn
turn-Moved r v = elim (Result-cases (parse_server_header (available r) r.config.max_frame)) [
  | inr (x, e) ↦ rw (e, turn) (stays (failed x) (λ q. cc))
  | inl (found, e) ↦ go found e
]
  where
    stays : (t : Turn) → t ≢ goes_on → Moved r r t
    stays t h = record {
      valid = v;
      config = refl;
      buf = refl;
      end = refl;
      forward = omega arith;
      progress = inl h;
    }

    go :
        (found : Option FrameHeader)
        → parse_server_header (available r) r.config.max_frame ≡ ok found
        → Moved r (turn r).0 (turn r).1
    go none e = rw (e, turn) (stays waits (λ q. cc))
    go (some header) e = elim (turn-Framed r header v e) [
      | inl (early, t) ↦ rw t (stays waits (λ q. cc))
      | inr (late, f) ↦
          let len = header.header_len + header.payload_len in
          let s = record r { start = r.start + len } in
          let k : Kept s
              (on_frame s header (in_buf (r.start + header.header_len) (r.start + len))).0 =
            on_frame-Kept s header (r.start + header.header_len) (r.start + len) v.limit
              (omega arith) (omega (arith, f.there, v.within)) v.message in
          rw f.step (
            Kept-Moved r _ _ len v (omega (arith, f.two)) f.there
              (subst (λ t. Kept s t) (sym (turned_state _)) k))
    ]

pub read_frames-IsReader :
    (frames : ℕ) (r : WsReader) → IsReader r → IsReader (read_frames frames r).0
unfolding read_frames
read_frames-IsReader zero r v = v
read_frames-IsReader (suc frames) r v =
    go (turn r).0 (turn r).1 (λ x w. read_frames-IsReader frames x w) (turn-Moved r v)
  where
    go :
        (r' : WsReader) (t : Turn)
        → ((x : WsReader) → IsReader x → IsReader (read_frames frames x).0)
        → Moved r r' t
        → IsReader
            (elim t as (λ _. WsReader × Result (Option WsEvent) WsError) [
              | failed e ↦ (r', err e)
              | waits ↦ (r', ok none)
              | goes_on ↦ read_frames frames r'
              | yields ready ↦ (r', ok (some (event r' ready)))
            ]).0
    go r' (failed e) ih m = m.valid
    go r' waits ih m = m.valid
    go r' goes_on ih m = ih r' m.valid
    go r' (yields x) ih m = m.valid

pub read_frames_config :
    (frames : ℕ) (r : WsReader) → IsReader r → (read_frames frames r).0.config ≡ r.config
unfolding read_frames
read_frames_config zero r v = refl
read_frames_config (suc frames) r v =
    go (turn r).0 (turn r).1 (λ x w. read_frames_config frames x w) (turn-Moved r v)
  where
    go :
        (r' : WsReader) (t : Turn)
        → ((x : WsReader) → IsReader x → (read_frames frames x).0.config ≡ x.config)
        → Moved r r' t
        → (elim t as (λ _. WsReader × Result (Option WsEvent) WsError) [
          | failed e ↦ (r', err e)
          | waits ↦ (r', ok none)
          | goes_on ↦ read_frames frames r'
          | yields ready ↦ (r', ok (some (event r' ready)))
        ]).0.config
          ≡ r.config
    go r' (failed e) ih m = m.config
    go r' waits ih m = m.config
    go r' goes_on ih m = ih r' m.valid ∙ m.config
    go r' (yields x) ih m = m.config
