-- ===== src/Ws/Reader/Loop.antt =====
-- The source's loop has no bound on its turns; a derivation here is a run of it that ends.
use bowst.Prelude.{
  ℕ, zero, suc, ◌+◌, ◌-◌, ◌*◌, ◌<◌, ◌≤◌, ◌≡◌, refl, sym, subst, inl, inr, Option, none, some,
  Result, ok, err, arith,
}
use bowst.Ws.{WsError}
use bowst.Ws.Reader.{
  WsEvent, WsReader, Ready, buffered, event, Turn, failed, waits, goes_on, yields, turn,
  read_frames, next_event,
}
use bowst.Ws.Reader.View.{IsReader}
use bowst.Ws.Reader.Invariant.{Moved, turn-Moved}
use bowst.Ws.Reader.Events.{after, read_frames-after}

-- From a reader the loop takes a number of turns and ends with `out`.
pub data Loop (out : WsReader × Result (Option WsEvent) WsError) : ℕ → WsReader → Type 0 where
  fails :
      (r r' : WsReader) (e : WsError) → turn r ≡ (r', failed e) → out ≡ (r', err e) → Loop out 1 r
  stops : (r r' : WsReader) → turn r ≡ (r', waits) → out ≡ (r', ok none) → Loop out 1 r
  gives :
      (r r' : WsReader) (ready : Ready)
      → turn r ≡ (r', yields ready)
      → out ≡ (r', ok (some (event r' ready)))
      → Loop out 1 r
  passes : (r r' : WsReader) (n : ℕ) → turn r ≡ (r', goes_on) → Loop out n r' → Loop out (suc n) r

read_frames-Loop :
    (frames : ℕ) (r : WsReader)
    → IsReader r
    → r.end - r.start < frames
    → (n : ℕ) × Loop (read_frames frames r) n r × (2 * n ≤ r.end - r.start + 2)
read_frames-Loop zero r v h = absurd (omega (arith, h))
read_frames-Loop (suc frames) r v h =
    go (turn r).0 (turn r).1 refl (turn-Moved r v) (read_frames-after frames r)
      (λ x w k. read_frames-Loop frames x w k)
  where
    go :
        (r' : WsReader) (t : Turn)
        → turn r ≡ (r', t)
        → Moved r r' t
        → read_frames (suc frames) r ≡ after (read_frames frames) (r', t)
        → ((x : WsReader)
            → IsReader x
            → x.end - x.start < frames
            → (n : ℕ) × Loop (read_frames frames x) n x × (2 * n ≤ x.end - x.start + 2))
        → (n : ℕ) × Loop (read_frames (suc frames) r) n r × (2 * n ≤ r.end - r.start + 2)
    go r' (failed e) t m out rest = (1, fails r r' e t out, omega arith)
    go r' waits t m out rest = (1, stops r r' t out, omega arith)
    go r' (yields x) t m out rest = (1, gives r r' x t out, omega arith)
    go r' goes_on t m out rest = elim m.progress [
      | inl no_frame ↦ absurd (no_frame refl)
      | inr further ↦
          let less : r'.end - r'.start + 2 ≤ r.end - r.start =
            omega (arith, m.end, further, m.valid.order) in
          let (n, l, bound) = rest r' m.valid (omega (arith, less, h)) in
          (
            suc n,
            passes r r' n t (subst (λ o. Loop o n r') (sym out) l),
            omega (arith, less, bound),
          )
    ]

-- The loop of `next_event` ends, from each reader that keeps its invariant: it takes a number of turns,
-- of which all but the last read a frame without an event, and the last has the error, the event or the
-- lack of bytes that `next_event` gives. Twice the turns are at most two more than the bytes that have
-- arrived.
pub next_event_ends :
    (r : WsReader) → IsReader r → (n : ℕ) × Loop (next_event r) n r × (2 * n ≤ buffered r + 2)
unfolding next_event buffered
next_event_ends r v = read_frames-Loop (suc (r.end - r.start)) r v (omega arith)
