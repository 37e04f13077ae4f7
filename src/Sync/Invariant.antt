-- ===== src/Sync/Invariant.antt =====
-- The invariant of `BookSync` over every handler, in terms of what a delta and a snapshot say.
use bowst.Prelude.{
  ℕ, ◌+◌, ◌-◌, ◌<◌, ◌≤◌, ◌≡◌, refl, sym, ap, ◌∙◌, true, Bool-cases, inl, inr, List, [], ◌∷◌, length,
  take, drop, ltb, leb, ok, Result-cases, sat_add, u64_max, arith, subst,
}
use bowst.Ladder.{Level}
use bowst.Book
use bowst.Book.{Book, LevelUpdate, best_bid, best_ask, meets, is_crossed}
use bowst.Book.Valid.{IsValidBook, clear-IsValidBook}
use bowst.Sync.{
  SeqRange, continues, Pending, awaiting_snapshot, live, BookSync, applied, count_stale, invalidate,
  buffer, apply_all, go_live, on_live_delta, on_delta, replay_range, Replayed, reached, too_old,
  bad, replay, after_replay, use_snapshot, on_snapshot,
}
use bowst.Sync.Buffer.{slice, IsTiled, IsTiled-le, emptied-IsValidBuffer}
use bowst.Sync.Frame.{
  Idle, IsValidSync, apply_all-IsValidBook, replay_range-apply_all, State-cases, Idle-awaiting,
  Idle-live, loaded-IsValidBook, check_crossed_lem,
}
use bowst.Sync.Messages.{
  count_stale-IsValidBuffer, buffer_frame, AllMessages, Keeps, buffer-IsValidBuffer, buffer-Keeps,
}

module _ (E : ℕ → Book → Type 0) (H : SeqRange → List LevelUpdate → Type 0) where
  -- What holds of a sync whose live book has `E` at its sequence number.
  pub record IsGood (s : BookSync) : Type 0 where
    pub valid : IsValidSync s
    pub keeps : Keeps H s
    pub exact : (n : ℕ) → s.state ≡ live n → E n s.book

module _ (E : ℕ → Book → Type 0) (H : SeqRange → List LevelUpdate → Type 0)
    (extend : (n m : ℕ) (b : Book) (range : SeqRange) (us : List LevelUpdate)
      → IsValidBook m b
      → E n b
      → H range us
      → range.first ≤ n + 1
      → n < range.last
      → (apply_all b us).1 ≡ ok tt
      → E range.last (apply_all b us).0) where
  abbrev Good : BookSync → Type 0
  Good = IsGood E H

  pub invalidate-IsGood :
      (s : BookSync)
      → 0 < s.config.buffered_messages
      → s.config.buffered_updates ≤ u64_max
      → IsValidBook s.config.levels_per_side s.book
      → Good (invalidate s)
  unfolding invalidate
  invalidate-IsGood s r w v = record {
    valid = record {
      buffer_valid = emptied-IsValidBuffer (invalidate s) r refl refl;
      book_valid = clear-IsValidBook s.config.levels_per_side s.book v;
      words = w;
      idle = (refl, refl);
    };
    keeps = tt;
    exact = λ n e. absurd (cc);
  }

  -- Going live with nothing buffered, by way of the test for a crossed book.
  go_live-IsGood :
      {A : Type 0} (s : BookSync) (n : ℕ) (a : A)
      → 0 < s.config.buffered_messages
      → s.config.buffered_updates ≤ u64_max
      → IsValidBook s.config.levels_per_side s.book
      → s.pending ≡ []
      → s.pending_updates ≡ []
      → E n s.book
      → Good (go_live s n a).0
  unfolding go_live
  go_live-IsGood s n a r w v p u x =
      let s' : BookSync = record s { state = live n } in
      subst Good (sym (check_crossed_lem s')) (elim (Bool-cases (is_crossed s.book)) [
        | inl c ↦ rw c (invalidate-IsGood s' r w v)
        | inr c ↦ rw c (record {
          valid = record {
            buffer_valid = emptied-IsValidBuffer s' r p u;
            book_valid = v;
            words = w;
            idle = (p, u, c);
          };
          keeps = subst (λ t. AllMessages H t s.pending_updates) (sym p) tt;
          exact = λ m e. subst (λ t. E t s.book) (ground arith) x;
        })
      ])

  buffer-IsGood :
      (s : BookSync) (range : SeqRange) (us : List LevelUpdate)
      → Good s
      → s.state ≡ awaiting_snapshot
      → range.first ≤ u64_max
      → H range us
      → Good (buffer s range us).0
  buffer-IsGood s range us g await w h =
      let s' = (buffer s range us).0 in
      let (fb, fs, fc) = buffer_frame s range us in
      record {
        valid = record {
          buffer_valid = buffer-IsValidBuffer s range us g.valid.buffer_valid w;
          book_valid = rw (fc, fb) g.valid.book_valid;
          words = rw fc g.valid.words;
          idle =
              let (nb, na) = Idle-awaiting s await g.valid.idle in
              subst (λ t. Idle t s') (sym (fs ∙ await))
                (ap (λ b. b.bids.levels) fb ∙ nb, ap (λ b. b.asks.levels) fb ∙ na);
        };
        keeps = buffer-Keeps H s range us g.valid.buffer_valid g.keeps h;
        exact = λ n e. absurd (cc);
      }

  count_stale-IsGood : (s : BookSync) (n : ℕ) → Good s → s.state ≡ live n → Good (count_stale s)
  count_stale-IsGood s n g alive = record {
    valid = record {
      buffer_valid = count_stale-IsValidBuffer s g.valid.buffer_valid;
      book_valid = g.valid.book_valid;
      words = g.valid.words;
      idle = subst (λ t. Idle t (count_stale s)) (sym alive) (Idle-live s alive g.valid.idle);
    };
    keeps = g.keeps;
    exact = g.exact;
  }

  abbrev with_book : BookSync → List LevelUpdate → BookSync
  with_book s us = record s { book = (apply_all s.book us).0 }

  on_live_delta-IsGood :
      (s : BookSync) (n : ℕ) (range : SeqRange) (us : List LevelUpdate)
      → Good s
      → s.state ≡ live n
      → range.first ≤ u64_max
      → H range us
      → Good (on_live_delta s n range us).0
  unfolding on_live_delta
  on_live_delta-IsGood s n range us g alive w h =
      let v = apply_all-IsValidBook s.config.levels_per_side us s.book g.valid.book_valid in
      let (p, u, _) = Idle-live s alive g.valid.idle in
      elim (Bool-cases (leb range.last n)) [
        | inl old ↦ rw (old, on_live_delta) (count_stale-IsGood s n g alive)
        | inr new ↦ elim (Bool-cases (continues range n)) [
          | inr c ↦
              rw (new, on_live_delta)
                (rw c (
                  buffer-IsGood (invalidate s) range us
                    (invalidate-IsGood s g.valid.buffer_valid.room g.valid.words g.valid.book_valid)
                    (unfold invalidate in refl) w h))
          | inl c ↦ elim (Result-cases (apply_all s.book us).1) [
            | inr (e, f) ↦
                rw (new, on_live_delta)
                  (rw c (
                    rw f (
                      invalidate-IsGood (with_book s us) g.valid.buffer_valid.room g.valid.words
                        v)))
            | inl (_, f) ↦
                rw (new, on_live_delta)
                  (rw c (
                    rw f (
                      go_live-IsGood (with_book s us) range.last applied g.valid.buffer_valid.room
                        g.valid.words v p u
                        (extend n s.config.levels_per_side s.book range us g.valid.book_valid
                          (g.exact n alive) h (ground arith) (ground arith) f))))
          ]
        ]
      ]

  -- Whatever delta arrives, the invariant holds afterwards.
  pub on_delta-IsGood :
      (s : BookSync) (range : SeqRange) (us : List LevelUpdate)
      → Good s
      → range.first ≤ u64_max
      → H range us
      → Good (on_delta s range us).0
  unfolding on_delta
  on_delta-IsGood s range us g w h = elim (State-cases s.state) [
    | inl await ↦ rw (await, on_delta) (buffer-IsGood s range us g await w h)
    | inr (n, alive) ↦ rw (alive, on_delta) (on_live_delta-IsGood s n range us g alive w h)
  ]

  -- Where the loop over the buffered messages stops, the book is exact there.
  Replay : ℕ → Book × Replayed → Type 0
  Replay m (b, reached c) = IsValidBook m b × E c b
  Replay m (b, too_old f) = IsValidBook m b
  Replay m (b, bad e) = IsValidBook m b

  replay_lem :
      (m total : ℕ) (ms : List Pending) (at : ℕ) (us : List LevelUpdate) (b : Book) (c : ℕ)
      → IsTiled ms at total
      → total ≤ u64_max
      → AllMessages H ms us
      → IsValidBook m b
      → E c b
      → Replay m (replay ms us b c)
  unfolding replay Replay
  replay_lem m total [] at us b c t n k v x = (v, x)
  replay_lem m total (p ∷ ms) at us b c (st, t) n (h, k) v x =
      elim (Bool-cases (leb p.range.last c)) [
        | inl old ↦ rw (old, replay) (replay_lem m total ms (at + p.len) us b c t n k v x)
        | inr new ↦ elim (Bool-cases (continues p.range c)) [
          | inr gap ↦ rw (new, replay) (rw gap v)
          | inl on ↦
              let us' = slice p us in
              let end = IsTiled-le ms (at + p.len) total t in
              let count : sat_add p.start p.len - p.start ≡ p.len = omega arith in
              let whole =
                replay_range-apply_all (sat_add p.start p.len - p.start) p.start us b
                ∙ ap (λ k. apply_all b (take k (drop p.start us))) count in
              let r = replay_range (sat_add p.start p.len - p.start) p.start us b in
              let v' : IsValidBook m r.0 =
                subst (λ t. IsValidBook m t.0) (sym whole) (apply_all-IsValidBook m us' b v) in
              rw (new, replay)
                (rw on (elim (Result-cases r.1) [
                  | inr (e, f) ↦ rw f v'
                  | inl (_, f) ↦
                      let x' : E p.range.last r.0 =
                        subst (λ t. E p.range.last t.0) (sym whole)
                          (extend c m b p.range us' v x h (ground arith) (ground arith)
                            (ap (λ t. t.1) (sym whole) ∙ f)) in
                      rw f (replay_lem m total ms (at + p.len) us r.0 p.range.last t n k v' x')
                ]))
        ]
      ]

  awaiting-IsGood :
      (s : BookSync) (b : Book)
      → Good s
      → IsValidBook s.config.levels_per_side b
      → Good (record s { book = Book.clear b; state = awaiting_snapshot })
  awaiting-IsGood s b g v =
      let w = g.valid.buffer_valid in
      record {
        valid = record {
          buffer_valid = record {
            tiled = w.tiled;
            chained = w.chained;
            words = w.words;
            few = w.few;
            small = w.small;
            room = w.room;
          };
          book_valid = clear-IsValidBook s.config.levels_per_side b v;
          words = g.valid.words;
          idle = (refl, refl);
        };
        keeps = g.keeps;
        exact = λ n e. absurd (cc);
      }

  after_replay-IsGood :
      (s : BookSync) (seq : ℕ) (r : Book × Replayed)
      → Good s
      → Replay s.config.levels_per_side r
      → Good (after_replay s seq r).0
  unfolding after_replay Replay
  after_replay-IsGood s seq (b, bad e) g v =
      invalidate-IsGood (record s { book = b }) g.valid.buffer_valid.room g.valid.words v
  after_replay-IsGood s seq (b, too_old first) g v = awaiting-IsGood s b g v
  after_replay-IsGood s seq (b, reached c) g (v, x) =
      go_live-IsGood (record s { book = b; pending = []; pending_updates = [] }) c true
        g.valid.buffer_valid.room g.valid.words v refl refl x

  -- What a snapshot says of the book that is loaded from it.
  abbrev pub Says : ℕ → List Level → List Level → Type 0
  Says seq bids asks =
      (m : ℕ) (b : Book)
      → IsValidBook m b
      → (Book.load b bids asks).1 ≡ ok tt
      → E seq (Book.load b bids asks).0

  use_snapshot-IsGood :
      (s : BookSync) (seq : ℕ) (bids asks : List Level)
      → Good s
      → Says seq bids asks
      → Good (use_snapshot s seq bids asks).0
  unfolding use_snapshot
  use_snapshot-IsGood s seq bids asks g says =
      let m = s.config.levels_per_side in
      let b = (Book.load s.book bids asks).0 in
      let v = loaded-IsValidBook m s.book bids asks g.valid.book_valid in
      let w = g.valid.buffer_valid in
      elim (Result-cases (Book.load s.book bids asks).1) [
        | inr (e, f) ↦
            rw (f, use_snapshot) (invalidate-IsGood (record s { book = b }) w.room g.valid.words v)
        | inl (_, f) ↦
            let total = length s.pending_updates in
            let small : total ≤ u64_max = omega (arith, w.small, g.valid.words) in
            let x = says m s.book g.valid.book_valid f in
            let r =
              replay_lem m total s.pending 0 s.pending_updates b seq w.tiled small g.keeps v x in
            rw (f, use_snapshot)
              (after_replay-IsGood s seq (replay s.pending s.pending_updates b seq) g r)
      ]

  -- Whatever snapshot arrives, the invariant holds afterwards.
  pub on_snapshot-IsGood :
      (s : BookSync) (seq : ℕ) (bids asks : List Level)
      → Good s
      → Says seq bids asks
      → Good (on_snapshot s seq bids asks).0
  unfolding on_snapshot
  on_snapshot-IsGood s seq bids asks g says = elim (State-cases s.state) [
    | inl await ↦ rw (await, on_snapshot) (use_snapshot-IsGood s seq bids asks g says)
    | inr (n, alive) ↦ elim (Bool-cases (ltb seq n)) [
      | inl old ↦ rw (alive, on_snapshot) (rw old g)
      | inr new ↦ rw (alive, on_snapshot) (rw new (use_snapshot-IsGood s seq bids asks g says))
    ]
  ]
