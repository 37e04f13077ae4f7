-- ===== src/Sync.antt =====
-- Keeping a book in step with a venue's feed, crates/bowst-book/src/sync.rs.
pub mod Buffer
pub mod Messages
pub mod Frame
pub mod Invariant
pub mod Exact
pub mod Run
pub mod Replies
pub mod Gap
mod Tests
use bowst.Prelude.{
  ℕ, zero, suc, ◌+◌, ◌-◌, Bool, true, false, Option, none, some, List, [], ◌∷◌, ◌++◌, length,
  get_elem?, last?, ltb, leb, ◌==◌, ◌||◌, if◌then◌else◌, Result, ok, err, sat_add,
}
use bowst.Units.{Price}
use bowst.Ladder.{Level, BookError, zero_capacity}
use bowst.Book
use bowst.Book.{Book, LevelUpdate, best_bid, best_ask, meets}

pub record SeqRange : Type 0 where
  pub first : ℕ
  pub last : ℕ

unfoldable pub new_range : ℕ → ℕ → Option SeqRange
new_range first last = if ltb last first then none else some (record { first = first; last = last })

abbrev pub single : ℕ → SeqRange
single seq = record { first = seq; last = seq }

abbrev pub continues : SeqRange → ℕ → Bool
continues r prev = leb r.first (sat_add prev 1)

pub record SyncConfig : Type 0 where
  pub levels_per_side : ℕ
  pub buffered_messages : ℕ
  pub buffered_updates : ℕ

pub data SyncError : Type 0 where
  gap : ℕ → SeqRange → SyncError
  snapshot_too_old : ℕ → ℕ → SyncError
  crossed : Price → Price → SyncError
  book_error : BookError → SyncError

pub data DeltaOutcome : Type 0 where
  applied buffered stale : DeltaOutcome

pub record SyncStats : Type 0 where
  pub invalidations : ℕ
  pub buffer_resets : ℕ
  pub stale_deltas : ℕ

pub record Pending : Type 0 where
  pub range : SeqRange
  pub start : ℕ
  pub len : ℕ

pub data State : Type 0 where
  awaiting_snapshot : State
  live : ℕ → State

pub record BookSync : Type 0 where
  pub book : Book
  pub state : State
  pub pending : List Pending
  pub pending_updates : List LevelUpdate
  pub config : SyncConfig
  pub stats : SyncStats

unfoldable pub new : SyncConfig → Result BookSync BookError
new c =
    if c.buffered_messages == 0 || c.buffered_updates == 0
    then err zero_capacity
    else elim (Book.new c.levels_per_side) [
      | err e ↦ err e
      | ok b ↦ ok (record {
        book = b;
        state = awaiting_snapshot;
        pending = [];
        pending_updates = [];
        config = c;
        stats = record { invalidations = 0; buffer_resets = 0; stale_deltas = 0 };
      })
    ]

-- The book, only while it is live.
unfoldable pub visible_book : BookSync → Option Book
visible_book s = elim s.state [ live _ ↦ some s.book | awaiting_snapshot ↦ none ]

abbrev pub last_seq : BookSync → Option ℕ
last_seq s = elim s.state [ live last ↦ some last | awaiting_snapshot ↦ none ]

abbrev pub is_live : BookSync → Bool
is_live s = elim s.state [ live _ ↦ true | awaiting_snapshot ↦ false ]

abbrev pub count_stale : BookSync → BookSync
count_stale s = record s {
  stats = record s.stats { stale_deltas = sat_add s.stats.stale_deltas 1 };
}

unfoldable pub invalidate : BookSync → BookSync
invalidate s = record s {
  book = Book.clear s.book;
  state = awaiting_snapshot;
  pending = [];
  pending_updates = [];
  stats = record s.stats { invalidations = sat_add s.stats.invalidations 1 };
}

abbrev pub reset : BookSync → BookSync
reset s = invalidate s

unfoldable pub restart_buffer : BookSync → BookSync
restart_buffer s = record s {
  pending = [];
  pending_updates = [];
  stats = record s.stats { buffer_resets = sat_add s.stats.buffer_resets 1 };
}

-- The loop that stores a message's updates; `none` when they do not fit.
unfoldable pub push_updates : ℕ → List LevelUpdate → List LevelUpdate → Option (List LevelUpdate)
push_updates limit stored [] = some stored
push_updates limit stored (u ∷ us) =
    let rest = push_updates limit (stored ++ (u ∷ [])) us in
    if leb limit (length stored) then none else rest

-- The end of `buffer`: room for one more message, then its updates.
unfoldable pub store_message : BookSync → SeqRange → List LevelUpdate → BookSync × DeltaOutcome
store_message s range updates =
    let s' = if leb s.config.buffered_messages (length s.pending) then restart_buffer s else s in
    elim (push_updates s'.config.buffered_updates s'.pending_updates updates) [
      | none ↦ (restart_buffer s', buffered)
      | some all ↦ (
        record s' {
          pending =
              s'.pending
              ++ (record {
                range = range;
                start = length s'.pending_updates;
                len = length all - length s'.pending_updates;
              }
                  ∷ []);
          pending_updates = all;
        },
        buffered,
      )
    ]

unfoldable pub buffer : BookSync → SeqRange → List LevelUpdate → BookSync × DeltaOutcome
buffer s range updates = elim (last? s.pending) [
  | none ↦ store_message s range updates
  | some prev ↦
      if leb range.last prev.range.last
      then (count_stale s, stale)
      else store_message (if continues range prev.range.last then s else restart_buffer s) range
          updates
]

unfoldable pub apply_all : Book → List LevelUpdate → Book × Result (Unit {0}) BookError
apply_all b [] = (b, ok tt)
apply_all b (u ∷ us) =
    let (b', r) = Book.apply b u in
    let rest = apply_all b' us in elim r [ err e ↦ (b', err e) | ok _ ↦ rest ]

unfoldable pub check_crossed : BookSync → BookSync × Result (Unit {0}) SyncError
check_crossed s = elim (best_bid s.book) [
  | none ↦ (s, ok tt)
  | some bid ↦ elim (best_ask s.book) [
    | none ↦ (s, ok tt)
    | some ask ↦
        if meets bid.price ask.price
        then (invalidate s, err (crossed bid.price ask.price))
        else (s, ok tt)
  ]
]

-- `self.state = Live { last }; self.check_crossed()?; Ok(a)`.
unfoldable pub go_live : {A : Type 0} → BookSync → ℕ → A → BookSync × Result A SyncError
go_live s last a =
    let (s', r) = check_crossed (record s { state = live last }) in
    (s', elim r [ err e ↦ err e | ok _ ↦ ok a ])

unfoldable pub on_live_delta :
    BookSync → ℕ → SeqRange → List LevelUpdate → BookSync × Result DeltaOutcome SyncError
on_live_delta s last range updates =
    if leb range.last last
    then (count_stale s, ok stale)
    else if continues range last
    then (let (b, r) = apply_all s.book updates in
        elim r [
          | err e ↦ (invalidate (record s { book = b }), err (book_error e))
          | ok _ ↦ go_live (record s { book = b }) range.last applied
        ])
    else ((buffer (invalidate s) range updates).0, err (gap (sat_add last 1) range))

unfoldable pub on_delta :
    BookSync → SeqRange → List LevelUpdate → BookSync × Result DeltaOutcome SyncError
on_delta s range updates = elim s.state [
  | awaiting_snapshot ↦ (let (s', r) = buffer s range updates in (s', ok r))
  | live last ↦ on_live_delta s last range updates
]

-- The loop over the positions of one buffered message: `count` positions from `at` on.
unfoldable pub replay_range : ℕ → ℕ → List LevelUpdate → Book → Book × Result (Unit {0}) BookError
replay_range zero at updates b = (b, ok tt)
replay_range (suc count) at updates b = elim (get_elem? updates at) [
  | none ↦ (b, ok tt)
  | some u ↦
      let (b', r) = Book.apply b u in
      elim r [ err e ↦ (b', err e) | ok _ ↦ replay_range count (at + 1) updates b' ]
]

-- How the loop over the buffered messages ends.
pub data Replayed : Type 0 where
  reached : ℕ → Replayed
  too_old : ℕ → Replayed
  bad : BookError → Replayed

unfoldable pub replay : List Pending → List LevelUpdate → Book → ℕ → Book × Replayed
replay [] updates b cursor = (b, reached cursor)
replay (m ∷ ms) updates b cursor = elim (leb m.range.last cursor) [
  | true ↦ replay ms updates b cursor
  | false ↦ elim (continues m.range cursor) [
    | false ↦ (b, too_old m.range.first)
    | true ↦
        let (b', r) = replay_range (sat_add m.start m.len - m.start) m.start updates b in
        elim r [ err e ↦ (b', bad e) | ok _ ↦ replay ms updates b' m.range.last ]
  ]
]

-- What follows the loop over the buffered messages.
unfoldable pub after_replay : BookSync → ℕ → Book × Replayed → BookSync × Result Bool SyncError
after_replay s seq (b, bad e) = (invalidate (record s { book = b }), err (book_error e))
after_replay s seq (b, too_old first) =
    (record s { book = Book.clear b; state = awaiting_snapshot }, err (snapshot_too_old seq first))
after_replay s seq (b, reached cursor) =
    go_live (record s { book = b; pending = []; pending_updates = [] }) cursor true

unfoldable pub use_snapshot :
    BookSync → ℕ → List Level → List Level → BookSync × Result Bool SyncError
use_snapshot s seq bids asks =
    let (b, r) = Book.load s.book bids asks in
    elim r [
      | err e ↦ (invalidate (record s { book = b }), err (book_error e))
      | ok _ ↦ after_replay s seq (replay s.pending s.pending_updates b seq)
    ]

unfoldable pub on_snapshot :
    BookSync → ℕ → List Level → List Level → BookSync × Result Bool SyncError
on_snapshot s seq bids asks = elim s.state [
  | awaiting_snapshot ↦ use_snapshot s seq bids asks
  | live last ↦ if ltb seq last then (s, ok false) else use_snapshot s seq bids asks
]
