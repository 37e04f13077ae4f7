-- ===== src/Sync/Exact.antt =====
-- A live `BookSync` reads as the venue's book at its sequence number, as long as the feed is honest.
use bowst.Prelude.{
  ℕ, ◌+◌, ◌<◌, ◌≤◌, ◌≡◌, ◌∙◌, List, [], ◌∷◌, Result, ok, err, Result-cases, inl, inr, u64_max,
  arith,
}
use bowst.Units.{Price, Side, buy, sell}
use bowst.Ladder.{Level, BookError}
use bowst.Book
use bowst.Book.{Book, LevelUpdate}
use bowst.Book.Valid.{
  IsValidBook, IsExactBook, Market, market_all, market_apply, listed, load_lem, LoadResult,
  apply-IsValidBook, apply-IsExactBook,
}
use bowst.Sync.{SeqRange, BookSync, apply_all, on_delta, on_snapshot}
use bowst.Sync.Invariant.{IsGood, on_delta-IsGood, on_snapshot-IsGood}

-- Updates that are all accepted leave the book exact against the market after the same updates.
apply_all-IsExactBook :
    (n : ℕ) (us : List LevelUpdate) (b : Book) (m : Market)
    → IsValidBook n b
    → IsExactBook b m
    → (apply_all b us).1 ≡ ok tt
    → IsExactBook (apply_all b us).0 (market_all m us)
unfolding apply_all market_all
apply_all-IsExactBook n [] b m v x e = x
apply_all-IsExactBook n (u ∷ us) b m v x e = elim (Result-cases (Book.apply b u).1) [
  | inr (_, f) ↦ absurd (ground arith)
  | inl (r, f) ↦
      let ih =
        apply_all-IsExactBook n us (Book.apply b u).0 (market_apply m u) (apply-IsValidBook n b u v)
          (apply-IsExactBook n b m u r v x f) (ground arith) in
      rw (f, apply_all) ih
]

-- The venue's book at each sequence number.
abbrev pub Venue : Type 0
Venue = ℕ → Market

-- A delta is honest if from any book that its range covers it leads to the book at its end: its
-- quantities are absolute.
abbrev pub IsHonest : Venue → SeqRange → List LevelUpdate → Type 0
IsHonest venue range us =
    (n : ℕ)
    → range.first ≤ n + 1
    → n < range.last
    → (s : Side) (p : Price) → market_all (venue n) us s p ≡ venue range.last s p

-- A snapshot is honest if it lists the book at its number.
abbrev pub IsHonestSnapshot : Venue → ℕ → List Level → List Level → Type 0
IsHonestSnapshot venue seq bids asks = (s : Side) (p : Price) → listed bids asks s p ≡ venue seq s p

abbrev pub ExactAt : Venue → ℕ → Book → Type 0
ExactAt venue n b = IsExactBook b (venue n)

-- A valid sync that buffers only honest deltas, and whose book, while live, is the venue's.
abbrev pub IsFaithful : Venue → BookSync → Type 0
IsFaithful venue s = IsGood (ExactAt venue) (IsHonest venue) s

IsExactBook-eq :
    (b : Book) (m m' : Market)
    → ((s : Side) (p : Price) → m s p ≡ m' s p)
    → IsExactBook b m
    → IsExactBook b m'
IsExactBook-eq b m m' e (x, y) = (λ p k. x p k ∙ e buy p, λ p k. y p k ∙ e sell p)

module _ (venue : Venue) where
  pub extend :
      (n m : ℕ) (b : Book) (range : SeqRange) (us : List LevelUpdate)
      → IsValidBook m b
      → ExactAt venue n b
      → IsHonest venue range us
      → range.first ≤ n + 1
      → n < range.last
      → (apply_all b us).1 ≡ ok tt
      → ExactAt venue range.last (apply_all b us).0
  extend n m b range us v x h from to e =
      IsExactBook-eq (apply_all b us).0 (market_all (venue n) us) (venue range.last) (h n from to)
        (apply_all-IsExactBook m us b (venue n) v x e)

  pub says :
      (seq : ℕ) (bids asks : List Level)
      → IsHonestSnapshot venue seq bids asks
      → (m : ℕ) (b : Book) → IsValidBook m b
      → (Book.load b bids asks).1 ≡ ok tt
      → ExactAt venue seq (Book.load b bids asks).0
  says seq bids asks h m b v e = go (Book.load b bids asks) (load_lem m b bids asks v) e
    where
      go :
          (r : Book × Result (Unit {0}) BookError)
          → LoadResult m bids asks r
          → r.1 ≡ ok tt
          → ExactAt venue seq r.0
      go (b', ok _) (_, x) e = IsExactBook-eq b' (listed bids asks) (venue seq) h x
      go (b', err _) x e = absurd (cc)

  -- One event keeps a faithful sync faithful, whatever it makes of the event.
  pub on_delta-IsFaithful :
      (s : BookSync) (range : SeqRange) (us : List LevelUpdate)
      → IsFaithful venue s
      → range.first ≤ u64_max
      → IsHonest venue range us
      → IsFaithful venue (on_delta s range us).0
  on_delta-IsFaithful s range us g w h =
      on_delta-IsGood (ExactAt venue) (IsHonest venue) extend s range us g w h

  pub on_snapshot-IsFaithful :
      (s : BookSync) (seq : ℕ) (bids asks : List Level)
      → IsFaithful venue s
      → IsHonestSnapshot venue seq bids asks
      → IsFaithful venue (on_snapshot s seq bids asks).0
  on_snapshot-IsFaithful s seq bids asks g h =
      on_snapshot-IsGood (ExactAt venue) (IsHonest venue) extend s seq bids asks g
        (says seq bids asks h)
