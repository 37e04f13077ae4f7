-- ===== src/Sync/Gap.antt =====
-- A gap in the numbers takes the book away until a snapshot.
use bowst.Prelude.{
  ℕ, ◌+◌, ◌<◌, ◌≤◌, ◌≡◌, refl, true, false, none, List, [], ◌∷◌, err, All, u64_max, arith,
}
use bowst.Book.{LevelUpdate}
use bowst.Sync.{
  SeqRange, BookSync, gap, awaiting_snapshot, live, visible_book, last_seq, invalidate,
  on_live_delta, on_delta,
}
use bowst.Sync.Messages.{buffer_frame}
use bowst.Sync.Run.{Event, delta, snapshot, reconnect, handle, run}

abbrev pub NoSnapshot : Event → Type 0
NoSnapshot (snapshot seq bids asks) = true ≡ false
NoSnapshot _ = Unit

handle_waits :
    (s : BookSync) (e : Event)
    → s.state ≡ awaiting_snapshot
    → NoSnapshot e
    → (handle s e).state ≡ awaiting_snapshot
unfolding handle on_delta invalidate
handle_waits s (delta range us) w h = ground (arith, buffer_frame s range us)
handle_waits s (snapshot seq bids asks) w h = absurd (cc)
handle_waits s reconnect w h = refl

run_waits :
    (s : BookSync) (es : List Event)
    → s.state ≡ awaiting_snapshot
    → All NoSnapshot es
    → (run s es).state ≡ awaiting_snapshot
unfolding run
run_waits s [] w h = w
run_waits s (e ∷ es) w (h, hs) = run_waits (handle s e) es (handle_waits s e w h) hs

gap_reply :
    (s : BookSync) (n : ℕ) (range : SeqRange) (us : List LevelUpdate)
    → s.state ≡ live n
    → range.first ≤ u64_max
    → n + 1 < range.first
    → range.first ≤ range.last
    → ((on_delta s range us).1 ≡ err (gap (n + 1) range))
      × ((on_delta s range us).0.state ≡ awaiting_snapshot)
unfolding on_delta on_live_delta invalidate
gap_reply s n range us e w g o = ground (arith, buffer_frame (invalidate s) range us)

-- A delta whose range, of 64-bit words in order, starts past the next number that a live sync waits for
-- is answered with the gap. From then on neither the book nor a number can be read, whatever deltas
-- and resets come after it, in any order and number, as long as no snapshot does.
pub on_delta_gap :
    (s : BookSync) (n : ℕ) (range : SeqRange) (us : List LevelUpdate) (later : List Event)
    → s.state ≡ live n
    → range.first ≤ u64_max
    → n + 1 < range.first
    → range.first ≤ range.last
    → All NoSnapshot later
    → ((on_delta s range us).1 ≡ err (gap (n + 1) range))
      × (visible_book (run s (delta range us ∷ later)) ≡ none)
      × (last_seq (run s (delta range us ∷ later)) ≡ none)
unfolding run handle visible_book
on_delta_gap s n range us later e w g o none_later =
    let (reply, waiting) = gap_reply s n range us e w g o in
    let still = run_waits (on_delta s range us).0 later waiting none_later in
    (reply, rw still refl, rw still refl)
