-- ===== src/Ws/Reader/Events.antt =====
-- The events of the reader are those of its stream.
use bowst.Prelude.{
  ℕ, zero, suc, ◌-◌, ◌≡◌, refl, sym, ap, ◌∙◌, Option, none, some, length, Result, ok, err,
}
use bowst.Ws.{WsError}
use bowst.Ws.Reader.{
  WsEvent, ReaderConfig, WsReader, buffered, event, Turn, failed, waits, goes_on, yields, turn,
  read_frames, next_event,
}
use bowst.Ws.Reader.Slices.{length-slice_of}
use bowst.Ws.Reader.Stream.{
  Stream, Outcome, refused, short, between, emits, next_frame, first_event,
}
use bowst.Ws.Reader.View.{IsReader, view, viewed, view-turn}
use bowst.Ws.Reader.Invariant.{Moved, turn-Moved}

-- A reader and a result, as the stream sees them.
abbrev pub seen :
    WsReader × Result (Option WsEvent) WsError → Stream × Result (Option WsEvent) WsError
seen (r, x) = (view r, x)

-- What the loop does after a turn.
abbrev pub after :
    (WsReader → WsReader × Result (Option WsEvent) WsError)
    → WsReader × Turn
    → WsReader × Result (Option WsEvent) WsError
after rest (r, failed e) = (r, err e)
after rest (r, waits) = (r, ok none)
after rest (r, goes_on) = rest r
after rest (r, yields ready) = (r, ok (some (event r ready)))

pub read_frames-after :
    (frames : ℕ) (r : WsReader) → read_frames (suc frames) r ≡ after (read_frames frames) (turn r)
unfolding read_frames
read_frames-after frames r = go (turn r).0 (turn r).1
  where
    go :
        (r' : WsReader) (t : Turn)
        → ◌≡◌ {A = WsReader × Result (Option WsEvent) WsError}
            (elim t as (λ _. WsReader × Result (Option WsEvent) WsError) [
              | failed e ↦ (r', err e)
              | waits ↦ (r', ok none)
              | goes_on ↦ read_frames frames r'
              | yields ready ↦ (r', ok (some (event r' ready)))
            ])
            (after (read_frames frames) (r', t))
    go r' (failed e) = refl
    go r' waits = refl
    go r' goes_on = refl
    go r' (yields x) = refl

abbrev pub after_frame :
    (Stream → Stream × Result (Option WsEvent) WsError)
    → Stream × Outcome
    → Stream × Result (Option WsEvent) WsError
after_frame rest (s, refused e) = (s, err e)
after_frame rest (s, short) = (s, ok none)
after_frame rest (s, between) = rest s
after_frame rest (s, emits e) = (s, ok (some e))

pub first_event-after :
    (frames : ℕ) (config : ReaderConfig) (s : Stream)
    → first_event (suc frames) config s
      ≡ after_frame (first_event frames config) (next_frame config s)
unfolding first_event
first_event-after frames config s = go (next_frame config s).0 (next_frame config s).1
  where
    go :
        (s' : Stream) (o : Outcome)
        → ◌≡◌ {A = Stream × Result (Option WsEvent) WsError}
            (elim o as (λ _. Stream × Result (Option WsEvent) WsError) [
              | refused e ↦ (s', err e)
              | short ↦ (s', ok none)
              | between ↦ first_event frames config s'
              | emits e ↦ (s', ok (some e))
            ])
            (after_frame (first_event frames config) (s', o))
    go s' (refused e) = refl
    go s' short = refl
    go s' between = refl
    go s' (emits e) = refl

view-read_frames :
    (frames : ℕ) (r : WsReader)
    → IsReader r
    → seen (read_frames frames r) ≡ first_event frames r.config (view r)
unfolding read_frames first_event
view-read_frames zero r v = refl
view-read_frames (suc frames) r v =
    ap seen (read_frames-after frames r)
    ∙ go (turn r).0 (turn r).1 (λ x w. view-read_frames frames x w) (turn-Moved r v)
    ∙ ap (after_frame (first_event frames r.config)) (view-turn r v)
    ∙ sym (first_event-after frames r.config (view r))
  where
    go :
        (r' : WsReader) (t : Turn)
        → ((x : WsReader)
            → IsReader x
            → seen (read_frames frames x) ≡ first_event frames x.config (view x))
        → Moved r r' t
        → seen (after (read_frames frames) (r', t))
          ≡ after_frame (first_event frames r.config) (viewed (r', t))
    go r' (failed e) ih m = refl
    go r' waits ih m = refl
    go r' goes_on ih m = ih r' m.valid ∙ ap (λ c. first_event frames c (view r')) m.config
    go r' (yields x) ih m = refl

-- The reader gives the first event of the stream of bytes that have arrived, or its error, and leaves the
-- rest of the stream, with the message in progress. Where the bytes lie in the buffer makes no difference.
pub view-next_event :
    (r : WsReader)
    → IsReader r
    → seen (next_event r) ≡ first_event (suc (length (view r).pending)) r.config (view r)
unfolding next_event buffered
view-next_event r v =
    view-read_frames (suc (r.end - r.start)) r v
    ∙ ap (λ n. first_event (suc n) r.config (view r))
        (sym (length-slice_of r.buf r.start r.end v.order v.within))
