-- ===== src/Ws/Reader/Chunks.antt =====
-- How the bytes are split into reads makes no difference to the events.
use bowst.Prelude.{
  ℕ, zero, suc, ◌+◌, ◌≤◌, ◌≡◌, ◌≢◌, refl, sym, ap, ap₂, ◌∙◌, Bool, true, false, Bool-cases, inl,
  inr, Option, none, some, List, [], ◌++◌, length, length-append, length-drop, take, drop,
  take-append_le, drop-append_le, ltb, if◌then◌else◌, Result, ok, Result-cases, arith,
}
use bowst.Ws.{WsError, unexpected_fragment}
use bowst.Ws.Frame.{Opcode, FrameHeader, parse_server_header}
use bowst.Ws.Frame.Parse.{parse_server_header-append}
use bowst.Ws.Reader.{ReaderConfig, WsReader, next_event, available}
use bowst.Ws.Reader.Stream.{
  Stream, Outcome, refused, short, between, emits, data_event, add, data_frame, continuation_frame,
  take_frame, next_frame, first_event,
}
use bowst.Ws.Reader.View.{IsReader, view}
use bowst.Ws.Reader.Events.{seen, after_frame, first_event-after, view-next_event}

-- The same stream with more bytes behind it.
abbrev pub extend : List ℕ → Stream → Stream
extend more s = record s { pending = s.pending ++ more }

abbrev extended : List ℕ → Stream × Outcome → Stream × Outcome
extended more (s, o) = (extend more s, o)

add-extend :
    (limit : ℕ) (s : Stream) (payload more : List ℕ) (next : Stream → Stream × Outcome)
    → ((t : Stream) → next (extend more t) ≡ extended more (next t))
    → add limit (extend more s) payload next ≡ extended more (add limit s payload next)
add-extend limit s payload more next h =
    elim (Bool-cases (ltb limit (length s.message + length payload))) [
      | inl big ↦ rw big refl
      | inr fits ↦ rw fits (h (record s { message = s.message ++ payload }))
    ]

data_frame-extend :
    (limit : ℕ) (s : Stream) (header : FrameHeader) (payload more : List ℕ)
    → data_frame limit (extend more s) header payload
      ≡ extended more (data_frame limit s header payload)
data_frame-extend limit s header payload more = go s.fragment header.fin
  where
    go :
        (f : Option Opcode) (fin : Bool)
        → (let run : Stream → Stream × Outcome = λ t. elim f as (λ _. Stream × Outcome) [
          | some _ ↦ (t, refused unexpected_fragment)
          | none ↦
              if fin
              then (t, emits (data_event header.opcode payload))
              else add limit
                  (record t { fragment = some header.opcode; message = [] })
                  payload
                  (λ s'. (s', between))
        ] in
            run (extend more s) ≡ extended more (run s))
    go (some x) fin = refl
    go none true = refl
    go none false =
        add-extend limit (record s { fragment = some header.opcode; message = [] }) payload more
          (λ t. (t, between)) (λ t. refl)

continuation_frame-extend :
    (limit : ℕ) (s : Stream) (header : FrameHeader) (payload more : List ℕ)
    → continuation_frame limit (extend more s) header payload
      ≡ extended more (continuation_frame limit s header payload)
continuation_frame-extend limit s header payload more = go s.fragment
  where
    last :
        (x : Opcode) (fin : Bool) (t : Stream)
        → (if fin
            then (
              record t { pending = t.pending ++ more; fragment = none },
              emits (data_event x t.message),
            )
            else (extend more t, between))
          ≡ extended more (
              if fin
              then (record t { fragment = none }, emits (data_event x t.message))
              else (t, between))
    last x true t = refl
    last x false t = refl

    go :
        (f : Option Opcode)
        → (let run : Stream → Stream × Outcome = λ t. elim f as (λ _. Stream × Outcome) [
          | none ↦ (t, refused unexpected_fragment)
          | some opcode ↦ add limit t payload (λ s'.
              if header.fin
              then (record s' { fragment = none }, emits (data_event opcode s'.message))
              else (s', between))
        ] in
            run (extend more s) ≡ extended more (run s))
    go none = refl
    go (some x) = add-extend limit s payload more _ (λ t. last x header.fin t)

-- What a frame does is independent of the bytes behind it.
take_frame-extend :
    (o : Opcode) (limit : ℕ) (s : Stream) (header : FrameHeader) (payload more : List ℕ)
    → take_frame o limit (extend more s) header payload
      ≡ extended more (take_frame o limit s header payload)
take_frame-extend Opcode.ping limit s header payload more = refl
take_frame-extend Opcode.pong limit s header payload more = refl
take_frame-extend Opcode.close limit s header payload more = refl
take_frame-extend Opcode.text limit s header payload more =
    data_frame-extend limit s header payload more
take_frame-extend Opcode.binary limit s header payload more =
    data_frame-extend limit s header payload more
take_frame-extend Opcode.continuation limit s header payload more =
    continuation_frame-extend limit s header payload more

next_frame-extend :
    (config : ReaderConfig) (s : Stream) (more : List ℕ)
    → (next_frame config s).1 ≢ short
    → next_frame config (extend more s) ≡ extended more (next_frame config s)
unfolding next_frame
next_frame-extend config s more h =
    elim (Result-cases (parse_server_header s.pending config.max_frame)) [
      | inr (x, e) ↦ rw (e, parsed e (λ q. cc), next_frame) refl
      | inl (none, e) ↦ absurd (h (rw (e, next_frame) refl))
      | inl (some header, e) ↦
          elim (Bool-cases (ltb (length s.pending) (header.header_len + header.payload_len))) [
            | inl early ↦ absurd (h (rw (e, next_frame) (rw early refl)))
            | inr late ↦
                let longer : ltb (length (s.pending ++ more))
                      (header.header_len + header.payload_len)
                    ≡ false =
                  ground (arith, length-append s.pending more) in
                rw (e, parsed e (λ q. cc), next_frame)
                  (rw (late, longer) (framed header (ground arith)))
          ]
    ]
  where
    framed :
        (header : FrameHeader)
        → header.header_len + header.payload_len ≤ length s.pending
        → take_frame header.opcode config.max_message
            (record s {
              pending = drop (header.header_len + header.payload_len) (s.pending ++ more);
            })
            header
            (take header.payload_len (drop header.header_len (s.pending ++ more)))
          ≡ extended more (
              take_frame header.opcode config.max_message
                (record s { pending = drop (header.header_len + header.payload_len) s.pending })
                header
                (take header.payload_len (drop header.header_len s.pending)))
    framed header there =
        ap₂ (λ p q. take_frame header.opcode config.max_message (record s { pending = p }) header q)
          (drop-append_le s.pending more (header.header_len + header.payload_len) there)
          (ap (take header.payload_len)
              (drop-append_le s.pending more header.header_len (omega (arith, there)))
            ∙ take-append_le (drop header.header_len s.pending) more header.payload_len
                (omega (arith, length-drop header.header_len s.pending, there)))
        ∙ take_frame-extend header.opcode config.max_message _ header _ more

    parsed :
        {x : Result (Option FrameHeader) WsError}
        → parse_server_header s.pending config.max_frame ≡ x
        → x ≢ ok none
        → parse_server_header (s.pending ++ more) config.max_frame ≡ x
    parsed e n = parse_server_header-append s.pending more config.max_frame (λ q. n (sym e ∙ q)) ∙ e

first_event-extend :
    (frames : ℕ) (config : ReaderConfig) (s : Stream) (more : List ℕ)
    → (first_event frames config s).1 ≢ ok none
    → first_event frames config (extend more s)
      ≡ (extend more (first_event frames config s).0, (first_event frames config s).1)
unfolding first_event
first_event-extend zero config s more h = absurd (h refl)
first_event-extend (suc frames) config s more h =
    first_event-after frames config (extend more s)
    ∙ go (next_frame config s).0 (next_frame config s).1
        (λ t k. first_event-extend frames config t more k) (next_frame-extend config s more)
        (λ q. h (ap (λ t. t.1) (first_event-after frames config s) ∙ q))
    ∙ ap (λ t. (extend more t.0, t.1)) (sym (first_event-after frames config s))
  where
    go :
        (s' : Stream) (o : Outcome)
        → ((t : Stream)
            → (first_event frames config t).1 ≢ ok none
            → first_event frames config (extend more t)
              ≡ (extend more (first_event frames config t).0, (first_event frames config t).1))
        → (o ≢ short → next_frame config (extend more s) ≡ extended more (s', o))
        → (after_frame (first_event frames config) (s', o)).1 ≢ ok none
        → after_frame (first_event frames config) (next_frame config (extend more s)) ≡ (
          extend more (after_frame (first_event frames config) (s', o)).0,
          (after_frame (first_event frames config) (s', o)).1,
        )
    go s' (refused e) ih n h = ap (after_frame (first_event frames config)) (n (λ q. cc))
    go s' short ih n h = absurd (h refl)
    go s' between ih n h = ap (after_frame (first_event frames config)) (n (λ q. cc)) ∙ ih s' h
    go s' (emits e) ih n h = ap (after_frame (first_event frames config)) (n (λ q. cc))

-- Once a result is found, more turns do not change it.
pub first_event-more :
    (frames more : ℕ) (config : ReaderConfig) (s : Stream)
    → (first_event frames config s).1 ≢ ok none
    → frames ≤ more
    → first_event more config s ≡ first_event frames config s
unfolding first_event
first_event-more zero more config s h le = absurd (h refl)
first_event-more (suc frames) zero config s h le = absurd (omega arith)
first_event-more (suc frames) (suc more) config s h le =
    first_event-after more config s
    ∙ go (next_frame config s).0 (next_frame config s).1
        (λ t k. first_event-more frames more config t k (omega arith))
        (λ q. h (ap (λ t. t.1) (first_event-after frames config s) ∙ q))
    ∙ sym (first_event-after frames config s)
  where
    go :
        (s' : Stream) (o : Outcome)
        → ((t : Stream)
            → (first_event frames config t).1 ≢ ok none
            → first_event more config t ≡ first_event frames config t)
        → (after_frame (first_event frames config) (s', o)).1 ≢ ok none
        → after_frame (first_event more config) (s', o)
          ≡ after_frame (first_event frames config) (s', o)
    go s' (refused e) ih h = refl
    go s' short ih h = refl
    go s' between ih h = ih s' h
    go s' (emits e) ih h = refl

-- An event, or an error, is the same when more bytes have arrived before it is asked for, and so is the
-- stream behind it, apart from those bytes.
pub next_event-extend :
    (r q : WsReader) (more : List ℕ)
    → IsReader r
    → IsReader q
    → q.config ≡ r.config
    → view q ≡ extend more (view r)
    → (next_event r).1 ≢ ok none
    → seen (next_event q) ≡ (extend more (view (next_event r).0), (next_event r).1)
next_event-extend r q more v w c e h =
    let n = suc (length (available r)) in
    let found : (first_event n r.config (view r)).1 ≢ ok none =
      λ k. h (ap (λ t. t.1) (view-next_event r v) ∙ k) in
    let longer = first_event-extend n r.config (view r) more found in
    view-next_event q w
    ∙ ap₂ (λ c s. first_event (suc (length s.pending)) c s) c e
    ∙ first_event-more n (suc (length (available r ++ more))) r.config (extend more (view r))
        (λ k. found (ap (λ t. t.1) (sym longer) ∙ k))
        (omega (arith, length-append (available r) more))
    ∙ longer
    ∙ ap (λ t. (extend more t.0, t.1)) (sym (view-next_event r v))
