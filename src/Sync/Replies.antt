-- ===== src/Sync/Replies.antt =====
-- What `BookSync` answers: sequence numbers that only go forward, snapshots that are too old.
use bowst.Prelude.{
  ℕ, ◌+◌, ◌-◌, ◌⊎◌, All, ◌<◌, ◌≤◌, ◌≡◌, refl, sym, true, Bool-cases, List, [], ◌∷◌, err,
  Result-cases, inl, inr, u64_max, ltb, sat_add, arith,
}
use bowst.Ladder.{Level}
use bowst.Book
use bowst.Book.{Book, LevelUpdate}
use bowst.Sync.{
  SeqRange, Pending, BookSync, snapshot_too_old, applied, awaiting_snapshot, live, invalidate,
  apply_all, check_crossed, replay_range, go_live, on_live_delta, on_delta, Replayed, reached,
  too_old, bad, replay, after_replay, use_snapshot, on_snapshot,
}
use bowst.Sync.Messages.{buffer_frame}
use bowst.Sync.Frame.{State-cases}

check_crossed_state : (s : BookSync) (m : ℕ) → (check_crossed s).0.state ≡ live m → s.state ≡ live m
unfolding check_crossed invalidate
check_crossed_state s m e = ground arith

go_live_state :
    {A : Type 0} (s : BookSync) (last m : ℕ) (a : A)
    → (go_live s last a).0.state ≡ live m
    → m ≡ last
unfolding go_live
go_live_state s last m a e = ground (arith, check_crossed_state (record s { state = live last }) m)

-- A delta never takes a live sync back: if it is live again afterwards, its number is at least the
-- one before; and a sync that waits for a snapshot does not go live by a delta.
pub on_delta_forward :
    (s : BookSync) (range : SeqRange) (us : List LevelUpdate) (m : ℕ)
    → (on_delta s range us).0.state ≡ live m
    → (n : ℕ) × (s.state ≡ live n) × (n ≤ m)
unfolding on_delta on_live_delta invalidate
on_delta_forward s range us m e = elim (State-cases s.state) [
  | inl a ↦ absurd (ground (arith, buffer_frame s range us))
  | inr (n, a) ↦ (
    n,
    a,
    ground (
      arith,
      buffer_frame (invalidate s) range us,
      go_live_state (record s { book = (apply_all s.book us).0 }) range.last m applied,
    ),
  )
]

replay_forward :
    (ms : List Pending) (us : List LevelUpdate) (b : Book) (c k : ℕ)
    → (replay ms us b c).1 ≡ reached k
    → c ≤ k
unfolding replay
replay_forward [] us b c k e = ground arith
replay_forward (x ∷ ms) us b c k e = ground (
  arith,
  replay_forward ms us b c k,
  replay_forward ms us (replay_range (sat_add x.start x.len - x.start) x.start us b).0 x.range.last
      k,
)

replay_too_old :
    (ms : List Pending) (us : List LevelUpdate) (b : Book) (c f : ℕ)
    → All (λ x. x.range.first ≤ u64_max) ms
    → (replay ms us b c).1 ≡ too_old f
    → c + 1 < f
unfolding replay
replay_too_old [] us b c f w e = absurd (ground arith)
replay_too_old (x ∷ ms) us b c f (w, ws) e = ground (
  arith,
  replay_too_old ms us b c f ws,
  replay_too_old ms us (replay_range (sat_add x.start x.len - x.start) x.start us b).0 x.range.last
      f ws,
)

after_replay_forward :
    (s : BookSync) (seq m c : ℕ) (r : Book × Replayed)
    → ((k : ℕ) → r.1 ≡ reached k → c ≤ k)
    → (after_replay s seq r).0.state ≡ live m
    → c ≤ m
unfolding after_replay invalidate
after_replay_forward s seq m c (b, bad e) h g = absurd (ground arith)
after_replay_forward s seq m c (b, too_old f) h g = absurd (ground arith)
after_replay_forward s seq m c (b, reached k) h g =
    let e = go_live_state (record s { book = b; pending = []; pending_updates = [] }) k m true g in
    omega (arith, h k refl, e)

use_snapshot_forward :
    (s : BookSync) (seq m : ℕ) (bids asks : List Level)
    → (use_snapshot s seq bids asks).0.state ≡ live m
    → seq ≤ m
unfolding use_snapshot invalidate
use_snapshot_forward s seq m bids asks e = elim (Result-cases (Book.load s.book bids asks).1) [
  | inr (x, f) ↦ absurd (ground arith)
  | inl (_, f) ↦
      let b = (Book.load s.book bids asks).0 in
      after_replay_forward s seq m seq (replay s.pending s.pending_updates b seq)
        (λ k. replay_forward s.pending s.pending_updates b seq k) (ground arith)
]

-- A snapshot never takes a sync back either: if it is live afterwards, then at least at the number
-- of the snapshot, and at least at the number it was live at before.
pub on_snapshot_forward :
    (s : BookSync) (seq m : ℕ) (bids asks : List Level)
    → (on_snapshot s seq bids asks).0.state ≡ live m
    → (seq ≤ m) × ((awaiting_snapshot ≡ s.state) ⊎ ((n : ℕ) × (s.state ≡ live n) × (n ≤ m)))
unfolding on_snapshot
on_snapshot_forward s seq m bids asks e = elim (State-cases s.state) [
  | inl a ↦ (use_snapshot_forward s seq m bids asks (ground arith), inl (sym a))
  | inr (n, a) ↦ elim (Bool-cases (ltb seq n)) [
    | inl old ↦ let k : n ≡ m = ground arith in (ground arith, inr (n, a, omega arith))
    | inr new ↦
        let k = use_snapshot_forward s seq m bids asks (ground arith) in
        (k, inr (n, a, ground arith))
  ]
]

after_replay_too_old :
    (s : BookSync) (seq a f : ℕ) (r : Book × Replayed)
    → (after_replay s seq r).1 ≡ err (snapshot_too_old a f)
    → (a ≡ seq)
      × (r.1 ≡ too_old f)
      × ((after_replay s seq r).0.pending ≡ s.pending)
      × ((after_replay s seq r).0.state ≡ awaiting_snapshot)
unfolding after_replay go_live check_crossed
after_replay_too_old s seq a f (b, bad e) h = absurd (ground arith)
after_replay_too_old s seq a f (b, too_old g) h = ground arith
after_replay_too_old s seq a f (b, reached k) h = absurd (ground arith)

-- A snapshot is reported as too old only if a buffered message starts past the number that would
-- follow it, by that message's first number; the buffered messages are kept for the next snapshot.
-- Their first numbers are 64-bit words.
pub on_snapshot_too_old :
    (s : BookSync) (seq a f : ℕ) (bids asks : List Level)
    → All (λ x. x.range.first ≤ u64_max) s.pending
    → (on_snapshot s seq bids asks).1 ≡ err (snapshot_too_old a f)
    → (a ≡ seq)
      × (seq + 1 < f)
      × ((on_snapshot s seq bids asks).0.pending ≡ s.pending)
      × ((on_snapshot s seq bids asks).0.state ≡ awaiting_snapshot)
unfolding on_snapshot use_snapshot
on_snapshot_too_old s seq a f bids asks w e = elim (Result-cases (Book.load s.book bids asks).1) [
  | inr (x, g) ↦ absurd (ground arith)
  | inl (_, g) ↦
      let b = (Book.load s.book bids asks).0 in
      let r = replay s.pending s.pending_updates b seq in
      ground (
        arith,
        after_replay_too_old s seq a f r,
        replay_too_old s.pending s.pending_updates b seq f w,
      )
]
