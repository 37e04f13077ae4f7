-- ===== src/Sync/Tests.antt =====
-- A sync over a short feed.
use bowst.Prelude.{
  ℕ, ◌≡◌, refl, All, if◌then◌else◌, leb, arith, none, some, List, [], ◌∷◌, ok, err, subst,
}
use bowst.Prelude.Int.{pos}
use bowst.Units.{Side, buy, sell}
use bowst.Ladder
use bowst.Ladder.{
  Ladder, Level, duplicate_level, rank, search, apply_found, insert, validate, beyond_horizon, scan,
  load_inner, load_full, sort, insert_sorted, duplicate, sort_and_check,
}
use bowst.Ladder.Spec.{qty_at}
use bowst.Book
use bowst.Book.{Book, LevelUpdate, is_crossed}
use bowst.Book.Valid.{IsValidBook, load_refused, new-IsValidBook, market_all, listed}
use bowst.Sync.{
  single, SyncConfig, BookSync, gap, snapshot_too_old, awaiting_snapshot, live, new, visible_book,
  last_seq, on_delta, on_snapshot, on_live_delta, buffer, store_message, push_updates, use_snapshot,
  after_replay, replay, replay_range, apply_all, go_live, check_crossed,
}
use bowst.Sync.Frame.{IsValidSync}
use bowst.Sync.Exact.{Venue, IsHonest}
use bowst.Sync.Gap.{on_delta_gap}
use bowst.Sync.Run.{
  Event, delta, snapshot, reconnect, handle, run, IsWord, IsHonestEvent, run-IsValidSync, run_reads,
}

abbrev config : SyncConfig
config = record { levels_per_side = 2; buffered_messages = 2; buffered_updates = 4 }

abbrev empty_side : Side → Ladder
empty_side s = record { side = s; levels = []; capacity = 2; horizon = none }

abbrev started : BookSync
started = record {
  book = record { bids = empty_side buy; asks = empty_side sell };
  state = awaiting_snapshot;
  pending = [];
  pending_updates = [];
  config = config;
  stats = record { invalidations = 0; buffer_resets = 0; stale_deltas = 0 };
}

new-started : new config ≡ ok started
unfolding new Book.new Ladder.new
new-started = refl

-- A snapshot at 10 that arrives after the delta 11 raised the bid.
abbrev bid : Level
bid = record { price = pos 100; qty = pos 1 }

abbrev ask : Level
ask = record { price = pos 101; qty = pos 1 }

abbrev raised : Level
raised = record { price = pos 100; qty = pos 5 }

abbrev raise : List LevelUpdate
raise = record { side = buy; price = pos 100; qty = pos 5 } ∷ []

abbrev feed : List Event
feed = delta (single 11) raise ∷ snapshot 10 (bid ∷ []) (ask ∷ []) ∷ []

abbrev synced_book : Book
synced_book = record {
  bids = record (empty_side buy) { levels = raised ∷ [] };
  asks = record (empty_side sell) { levels = ask ∷ [] };
}

abbrev synced : BookSync
synced = record started { book = synced_book; state = live 11 }

run-feed : run started feed ≡ synced
unfolding run handle on_delta buffer store_message push_updates on_snapshot use_snapshot Book.load
    Ladder.load load_inner load_full sort insert_sorted duplicate sort_and_check validate
    after_replay replay replay_range Book.apply Ladder.apply beyond_horizon search scan rank
    apply_found insert go_live check_crossed
run-feed = refl

-- The venue's book, from the snapshot on.
abbrev venue : Venue
venue n =
    if leb n 10
    then listed (bid ∷ []) (ask ∷ [])
    else market_all (listed (bid ∷ []) (ask ∷ [])) raise

raise-IsHonest : IsHonest venue (single 11) raise
raise-IsHonest n from to s p =
    let e : 10 ≡ n = omega arith in
    subst (λ t. market_all (venue t) raise s p ≡ venue 11 s p) e refl

feed-IsHonest : All (IsHonestEvent venue) feed
feed-IsHonest = (raise-IsHonest, ((λ s p. refl), tt))

feed-IsWord : All IsWord feed
feed-IsWord = (omega arith, (tt, tt))

seen : visible_book (run started feed) ≡ some synced_book
unfolding visible_book
seen = rw run-feed refl

reached_11 : last_seq (run started feed) ≡ some 11
reached_11 = rw run-feed refl

run_reads_example : qty_at buy (pos 100) synced_book.bids.levels ≡ venue 11 buy (pos 100)
run_reads_example =
    run_reads venue config started feed synced_book 11 buy (pos 100) (omega arith) new-started
      feed-IsWord feed-IsHonest seen reached_11 tt

run-IsValidSync_example : IsValidSync (run started feed)
run-IsValidSync_example = run-IsValidSync config started feed (omega arith) new-started feed-IsWord

on_delta_gap_example :
    ((on_delta synced (single 20) raise).1 ≡ err (gap 12 (single 20)))
    × (visible_book (run synced (delta (single 20) raise ∷ delta (single 21) [] ∷ reconnect ∷ []))
        ≡ none)
    × (last_seq (run synced (delta (single 20) raise ∷ delta (single 21) [] ∷ reconnect ∷ []))
        ≡ none)
on_delta_gap_example =
    on_delta_gap synced 11 (single 20) raise (delta (single 21) [] ∷ reconnect ∷ []) refl
      (omega arith) (omega arith) (omega arith) (tt, (tt, tt))

goes_on : (on_delta synced (single 12) []).0.state ≡ live 12
unfolding on_delta on_live_delta apply_all go_live check_crossed
goes_on = refl

started_at : (on_snapshot started 10 (bid ∷ []) (ask ∷ [])).0.state ≡ live 10
unfolding on_snapshot use_snapshot Book.load Ladder.load load_inner load_full sort insert_sorted
    duplicate sort_and_check validate after_replay replay go_live check_crossed
started_at = refl

-- A message from 20 on is buffered, and a snapshot at 10 comes too early for it.
abbrev waiting : BookSync
waiting = record started {
  pending = record { range = single 20; start = 0; len = 1 } ∷ [];
  pending_updates = raise;
}

too_early : (on_snapshot waiting 10 (bid ∷ []) (ask ∷ [])).1 ≡ err (snapshot_too_old 10 20)
unfolding on_snapshot use_snapshot Book.load Ladder.load load_inner load_full sort insert_sorted
    duplicate sort_and_check validate after_replay replay
too_early = refl

abbrev ten : ℕ
ten = 10

started-IsValidBook : IsValidBook 2 started.book
unfolding Book.new Ladder.new
started-IsValidBook = (new-IsValidBook 2 started.book refl).0

-- The asks list a price twice.
abbrev bad_asks : List Level
bad_asks = ask ∷ ask ∷ []

bad_load : (Book.load started.book (bid ∷ []) bad_asks).1 ≡ err (duplicate_level sell (pos 101))
unfolding Book.load Ladder.load load_inner load_full sort insert_sorted duplicate sort_and_check
    validate rank
bad_load = refl

load_refused_example :
    IsValidBook 2 (Book.load started.book (bid ∷ []) bad_asks).0
    × ((Book.load started.book (bid ∷ []) bad_asks).0.bids.levels ≡ [])
    × ((Book.load started.book (bid ∷ []) bad_asks).0.asks.levels ≡ [])
load_refused_example =
    load_refused 2 started.book (bid ∷ []) bad_asks (duplicate_level sell (pos 101))
      started-IsValidBook bad_load
