-- ===== src/Sync/Run.antt =====
-- Any sequence of deltas, snapshots and resets, from a new sync on.
use bowst.Prelude.{
  ℕ, ◌+◌, ◌<◌, ◌≤◌, ◌≡◌, refl, some, List, [], ◌∷◌, ok, Result-cases, inl, inr, u64_max, ◌==◌, ◌||◌,
  Bool-cases, All, arith, subst,
}
use bowst.Ladder.{Level}
use bowst.Book
use bowst.Book.{Book, LevelUpdate, side_of}
use bowst.Units.{Price, Side, buy, sell}
use bowst.Ladder.Spec.{qty_at}
use bowst.Ladder.Apply.{Known}
use bowst.Book.Valid.{IsExactBook, IsValidBook, new-IsValidBook}
use bowst.Sync.{
  SeqRange, SyncConfig, BookSync, apply_all, live, new, visible_book, last_seq, on_delta,
  on_snapshot, reset, awaiting_snapshot,
}
use bowst.Sync.Frame.{IsValidSync}
use bowst.Sync.Buffer.{emptied-IsValidBuffer}
use bowst.Sync.Invariant.{IsGood, Says, on_delta-IsGood, on_snapshot-IsGood, invalidate-IsGood}
use bowst.Sync.Exact.{Venue, IsHonest, IsHonestSnapshot, ExactAt, extend, says}

-- What `new` builds.
abbrev fresh : SyncConfig → Book → BookSync
fresh c b = record {
  book = b;
  state = awaiting_snapshot;
  pending = [];
  pending_updates = [];
  config = c;
  stats = record { invalidations = 0; buffer_resets = 0; stale_deltas = 0 };
}

-- What can happen to a sync.
pub data Event : Type 0 where
  delta : SeqRange → List LevelUpdate → Event
  snapshot : ℕ → List Level → List Level → Event
  reconnect : Event

unfoldable pub handle : BookSync → Event → BookSync
handle s (delta range us) = (on_delta s range us).0
handle s (snapshot seq bids asks) = (on_snapshot s seq bids asks).0
handle s reconnect = reset s

unfoldable pub run : BookSync → List Event → BookSync
run s [] = s
run s (e ∷ es) = run (handle s e) es

-- `range.first` is a `u64`.
abbrev pub IsWord : Event → Type 0
IsWord (delta range us) = range.first ≤ u64_max
IsWord (snapshot seq bids asks) = Unit
IsWord reconnect = Unit

-- Whether an event keeps what is true of a sync, for any reading of what deltas and snapshots say.
module _ (E : ℕ → Book → Type 0) (H : SeqRange → List LevelUpdate → Type 0)
    (step : (n m : ℕ) (b : Book) (range : SeqRange) (us : List LevelUpdate)
      → IsValidBook m b
      → E n b
      → H range us
      → range.first ≤ n + 1
      → n < range.last
      → (apply_all b us).1 ≡ ok tt
      → E range.last (apply_all b us).0) where
  abbrev IsRead : Event → Type 0
  IsRead (delta range us) = H range us
  IsRead (snapshot seq bids asks) = Says E H step seq bids asks
  IsRead reconnect = Unit

  run-IsGood :
      (es : List Event) (s : BookSync)
      → IsGood E H s
      → All IsWord es
      → All IsRead es
      → IsGood E H (run s es)
  unfolding run handle
  run-IsGood [] s g w h = g
  run-IsGood (delta range us ∷ es) s g (w, ws) (h, hs) =
      run-IsGood es _ (on_delta-IsGood E H step s range us g w h) ws hs
  run-IsGood (snapshot seq bids asks ∷ es) s g (w, ws) (h, hs) =
      run-IsGood es _ (on_snapshot-IsGood E H step s seq bids asks g h) ws hs
  run-IsGood (reconnect ∷ es) s g (w, ws) (h, hs) =
      run-IsGood es _
        (invalidate-IsGood E H step s g.valid.buffer_valid.room g.valid.words g.valid.book_valid) ws
        hs

  new-IsGood :
      (c : SyncConfig) (s : BookSync) → c.buffered_updates ≤ u64_max → new c ≡ ok s → IsGood E H s
  unfolding new
  new-IsGood c s w e = elim (Bool-cases (c.buffered_messages == 0 || c.buffered_updates == 0)) [
    | inl z ↦ absurd (ground arith)
    | inr nz ↦ elim (Result-cases (Book.new c.levels_per_side)) [
      | inr (x, f) ↦ absurd (ground arith)
      | inl (b, f) ↦
          let (v, nb, na) = new-IsValidBook c.levels_per_side b f in
          let room : 0 < c.buffered_messages = ground arith in
          let made : fresh c b ≡ s = ground arith in
          subst (IsGood E H) made (record {
            valid = record {
              buffer_valid = emptied-IsValidBuffer (fresh c b) room refl refl;
              book_valid = v;
              words = w;
              idle = (nb, na);
            };
            keeps = tt;
            exact = λ n e. absurd (cc);
          })
    ]
  ]

IsRead-All :
    (es : List Event)
    → All (IsRead (λ _ _. Unit) (λ _ _. Unit) (λ n m b range us v x h f t e. tt)) es
IsRead-All [] = tt
IsRead-All (delta range us ∷ es) = (tt, IsRead-All es)
IsRead-All (snapshot seq bids asks ∷ es) = ((λ m b v e. tt), IsRead-All es)
IsRead-All (reconnect ∷ es) = (tt, IsRead-All es)

-- After any sequence of deltas, snapshots and resets from a new sync on, honest or not, the
-- invariant of the sync holds: both ladders are valid, the buffer is one chain within its limits,
-- and a live book is not crossed and has nothing buffered, while a book that is not live is empty.
-- First sequence numbers and the limit on buffered updates are 64-bit words.
pub run-IsValidSync :
    (c : SyncConfig) (s : BookSync) (es : List Event)
    → c.buffered_updates ≤ u64_max
    → new c ≡ ok s
    → All IsWord es
    → IsValidSync (run s es)
run-IsValidSync c s es w e ws =
    (run-IsGood (λ _ _. Unit) (λ _ _. Unit) (λ n m b range us v x h f t e. tt) es s
      (new-IsGood (λ _ _. Unit) (λ _ _. Unit) (λ n m b range us v x h f t e. tt) c s w e) ws
      (IsRead-All es)).valid

abbrev pub IsHonestEvent : Venue → Event → Type 0
IsHonestEvent venue (delta range us) = IsHonest venue range us
IsHonestEvent venue (snapshot seq bids asks) = IsHonestSnapshot venue seq bids asks
IsHonestEvent venue reconnect = Unit

module _ (venue : Venue) where
  IsRead-IsHonest :
      (es : List Event)
      → All (IsHonestEvent venue) es
      → All (IsRead (ExactAt venue) (IsHonest venue) (extend venue)) es
  IsRead-IsHonest [] h = tt
  IsRead-IsHonest (delta range us ∷ es) (h, hs) = (h, IsRead-IsHonest es hs)
  IsRead-IsHonest (snapshot seq bids asks ∷ es) (h, hs) =
      (says venue seq bids asks h, IsRead-IsHonest es hs)
  IsRead-IsHonest (reconnect ∷ es) (h, hs) = (tt, IsRead-IsHonest es hs)

  -- After any sequence of honest deltas and snapshots, and of resets, from a new sync on: if a
  -- book can be read, then at every price at the horizon of its side or better it shows the
  -- quantity that the venue's book has there at the sequence number the sync has reached. First
  -- sequence numbers and the limit on buffered updates are 64-bit words.
  pub run_reads :
      (c : SyncConfig) (s : BookSync) (es : List Event) (b : Book) (n : ℕ) (side : Side) (p : Price)
      → c.buffered_updates ≤ u64_max
      → new c ≡ ok s
      → All IsWord es
      → All (IsHonestEvent venue) es
      → visible_book (run s es) ≡ some b
      → last_seq (run s es) ≡ some n
      → Known side (side_of b side).horizon p
      → qty_at side p (side_of b side).levels ≡ venue n side p
  unfolding visible_book
  run_reads c s es b n side p w e ws h x y k =
      let g =
        run-IsGood (ExactAt venue) (IsHonest venue) (extend venue) es s
          (new-IsGood (ExactAt venue) (IsHonest venue) (extend venue) c s w e) ws
          (IsRead-IsHonest es h) in
      let alive : (run s es).state ≡ live n = ground arith in
      let same : (run s es).book ≡ b = ground arith in
      reads side b (subst (IsValidBook (run s es).config.levels_per_side) same g.valid.book_valid)
        (subst (λ t. IsExactBook t (venue n)) same (g.exact n alive)) k
    where
      reads :
          (side : Side) (b : Book) {m : ℕ}
          → IsValidBook m b
          → IsExactBook b (venue n)
          → Known side (side_of b side).horizon p
          → qty_at side p (side_of b side).levels ≡ venue n side p
      reads buy b v (x, y) k =
          subst (λ t. Known t b.bids.horizon p → qty_at t p b.bids.levels ≡ venue n buy p)
            v.bids_side (x p) k
      reads sell b v (x, y) k =
          subst (λ t. Known t b.asks.horizon p → qty_at t p b.asks.levels ≡ venue n sell p)
            v.asks_side (y p) k
