-- ===== src/Book/Valid.antt =====
-- The two-sided book keeps both ladders valid, and exact against an unbounded book.
use bowst.Prelude.{
  ℕ, Bool, true, false, if◌then◌else◌, ◌≡◌, refl, ◌∙◌, List, [], ◌∷◌, Result, ok, err, Result-cases,
  inl, inr, arith, subst,
}
use bowst.Units.{Side, buy, sell}
use bowst.Ladder
use bowst.Ladder.{Ladder, Level, Applied, BookError}
use bowst.Ladder.Spec.{qty_at}
use bowst.Ladder.Apply.{IsValid}
use bowst.Ladder.Valid.{apply-IsValid, apply_shape, clear-IsValid, new-IsValid}
use bowst.Ladder.Exact.{Quotes, quote, IsExact, apply-IsExact}
use bowst.Ladder.LoadLoop.{load-IsExact, load_shape, SameShape}
use bowst.Book
use bowst.Book.{Book, LevelUpdate, side_of, with_side, apply, load, clear}

-- Valid ladders on the right sides, with room for `n` levels each.
pub record IsValidBook (n : ℕ) (b : Book) : Type 0 where
  pub bids_valid : IsValid b.bids
  pub asks_valid : IsValid b.asks
  pub bids_side : b.bids.side ≡ buy
  pub asks_side : b.asks.side ≡ sell
  pub bids_room : b.bids.capacity ≡ n
  pub asks_room : b.asks.capacity ≡ n

-- Quantities at each price of each side.
abbrev pub Market : Type 0
Market = Side → Quotes

abbrev pub IsExactBook : Book → Market → Type 0
IsExactBook b m = IsExact b.bids (m buy) × IsExact b.asks (m sell)

-- What an update does to a market.
abbrev pub same_side : Side → Side → Bool
same_side buy buy = true
same_side sell sell = true
same_side _ _ = false

unfoldable pub market_apply : Market → LevelUpdate → Market
market_apply m u s = if same_side u.side s then quote s (m s) u.price u.qty else m s

unfoldable pub market_all : Market → List LevelUpdate → Market
market_all m [] = m
market_all m (u ∷ us) = market_all (market_apply m u) us

-- An update, valid or not, keeps both ladders valid.
pub apply-IsValidBook :
    (n : ℕ) (b : Book) (u : LevelUpdate) → IsValidBook n b → IsValidBook n (apply b u).0
unfolding apply
apply-IsValidBook n b u v = go u.side
  where
    go : (s : Side) → IsValidBook n (with_side b s (Ladder.apply (side_of b s) u.price u.qty).0)
    go buy =
        let (hs, hc) = apply_shape b.bids u.price u.qty v.bids_valid in
        record {
          bids_valid = apply-IsValid b.bids u.price u.qty v.bids_valid;
          asks_valid = v.asks_valid;
          bids_side = hs ∙ v.bids_side;
          asks_side = v.asks_side;
          bids_room = hc ∙ v.bids_room;
          asks_room = v.asks_room;
        }
    go sell =
        let (hs, hc) = apply_shape b.asks u.price u.qty v.asks_valid in
        record {
          bids_valid = v.bids_valid;
          asks_valid = apply-IsValid b.asks u.price u.qty v.asks_valid;
          bids_side = v.bids_side;
          asks_side = hs ∙ v.asks_side;
          bids_room = v.bids_room;
          asks_room = hc ∙ v.asks_room;
        }

-- An accepted update keeps both ladders exact.
pub apply-IsExactBook :
    (n : ℕ) (b : Book) (m : Market) (u : LevelUpdate) (r : Applied)
    → IsValidBook n b
    → IsExactBook b m
    → (apply b u).1 ≡ ok r
    → IsExactBook (apply b u).0 (market_apply m u)
unfolding apply market_apply
apply-IsExactBook n b m u r v x e = go u.side e
  where
    go :
        (s : Side)
        → (Ladder.apply (side_of b s) u.price u.qty).1 ≡ ok r
        → IsExactBook
            (with_side b s (Ladder.apply (side_of b s) u.price u.qty).0)
            (λ t. if same_side s t then quote t (m t) u.price u.qty else m t)
    go buy e = (
      subst (λ t. IsExact (Ladder.apply b.bids u.price u.qty).0 (quote t (m buy) u.price u.qty))
          v.bids_side (apply-IsExact b.bids (m buy) u.price u.qty r v.bids_valid x.0 e),
      x.1,
    )
    go sell e = (
      x.0,
      subst (λ t. IsExact (Ladder.apply b.asks u.price u.qty).0 (quote t (m sell) u.price u.qty))
          v.asks_side (apply-IsExact b.asks (m sell) u.price u.qty r v.asks_valid x.1 e),
    )

-- What a snapshot lists.
abbrev pub listed : List Level → List Level → Market
listed bids asks buy = λ p. qty_at buy p bids
listed bids asks sell = λ p. qty_at sell p asks

pub clear-IsValidBook : (n : ℕ) (b : Book) → IsValidBook n b → IsValidBook n (clear b)
clear-IsValidBook n b v = record {
  bids_valid = clear-IsValid b.bids v.bids_valid.room;
  asks_valid = clear-IsValid b.asks v.asks_valid.room;
  bids_side = v.bids_side;
  asks_side = v.asks_side;
  bids_room = v.bids_room;
  asks_room = v.asks_room;
}

-- Ladders of the right shape, emptied, are a valid book.
cleared-IsValidBook :
    (n : ℕ) (b : Book) (bids asks : Ladder)
    → IsValidBook n b
    → SameShape b.bids bids
    → SameShape b.asks asks
    → IsValidBook n (clear (record { bids = bids; asks = asks }))
cleared-IsValidBook n b bids asks v (hs, hc) (ks, kc) = record {
  bids_valid = clear-IsValid bids (rw hc v.bids_valid.room);
  asks_valid = clear-IsValid asks (rw kc v.asks_valid.room);
  bids_side = hs ∙ v.bids_side;
  asks_side = ks ∙ v.asks_side;
  bids_room = hc ∙ v.bids_room;
  asks_room = kc ∙ v.asks_room;
}

loaded-IsValidBook :
    (n : ℕ) (b : Book) (bids asks : List Level)
    → IsValidBook n b
    → (Ladder.load b.bids bids).1 ≡ ok tt
    → (Ladder.load b.asks asks).1 ≡ ok tt
    → let b' : Book = record {
      bids = (Ladder.load b.bids bids).0;
      asks = (Ladder.load b.asks asks).0;
    } in
      IsValidBook n b' × IsExactBook b' (listed bids asks)
loaded-IsValidBook n b bids asks v e f =
    let (bv, bs, bc, bx) = load-IsExact b.bids bids v.bids_valid.room e in
    let (av, as', ac, ax) = load-IsExact b.asks asks v.asks_valid.room f in
    (
      record {
        bids_valid = bv;
        asks_valid = av;
        bids_side = bs ∙ v.bids_side;
        asks_side = as' ∙ v.asks_side;
        bids_room = bc ∙ v.bids_room;
        asks_room = ac ∙ v.asks_room;
      },
      (
        subst (λ s. IsExact (Ladder.load b.bids bids).0 (λ p. qty_at s p bids)) v.bids_side bx,
        subst (λ s. IsExact (Ladder.load b.asks asks).0 (λ p. qty_at s p asks)) v.asks_side ax,
      ),
    )

-- What a load leaves, by its result.
abbrev pub LoadResult : ℕ → List Level → List Level → Book × Result (Unit {0}) BookError → Type 0
LoadResult n bids asks (b, ok _) = IsValidBook n b × IsExactBook b (listed bids asks)
LoadResult n bids asks (b, err _) = IsValidBook n b × (b.bids.levels ≡ []) × (b.asks.levels ≡ [])

-- A snapshot that is loaded leaves a valid book that reads as the snapshot on both sides; one that
-- is refused leaves a valid book with no level on either side.
pub load_lem :
    (n : ℕ) (b : Book) (bids asks : List Level)
    → IsValidBook n b
    → LoadResult n bids asks (load b bids asks)
unfolding load
load_lem n b bids asks v = elim (Result-cases (Ladder.load b.bids bids).1) [
  | inr (_, e) ↦
      rw (e, load)
        (
          cleared-IsValidBook n b (Ladder.load b.bids bids).0 b.asks v (load_shape b.bids bids)
              (refl, refl),
          refl,
          refl,
        )
  | inl (_, e) ↦ elim (Result-cases (Ladder.load b.asks asks).1) [
    | inr (_, f) ↦
        rw (e, load)
          (rw f (
            cleared-IsValidBook n b (Ladder.load b.bids bids).0 (Ladder.load b.asks asks).0 v
                (load_shape b.bids bids) (load_shape b.asks asks),
            refl,
            refl,
          ))
    | inl (_, f) ↦ rw (e, load) (rw f (loaded-IsValidBook n b bids asks v e f))
  ]
]

-- A snapshot that a valid book refuses, on either side, leaves a valid book with no level on
-- either side.
pub load_refused :
    (n : ℕ) (b : Book) (bids asks : List Level) (e : BookError)
    → IsValidBook n b
    → (load b bids asks).1 ≡ err e
    → IsValidBook n (load b bids asks).0
      × ((load b bids asks).0.bids.levels ≡ [])
      × ((load b bids asks).0.asks.levels ≡ [])
load_refused n b bids asks e v h = go (load b bids asks) (load_lem n b bids asks v) h
  where
    go :
        (r : Book × Result (Unit {0}) BookError)
        → LoadResult n bids asks r
        → r.1 ≡ err e
        → IsValidBook n r.0 × (r.0.bids.levels ≡ []) × (r.0.asks.levels ≡ [])
    go (b', ok _) x h = absurd (cc)
    go (b', err _) x h = x

pub new-IsValidBook :
    (n : ℕ) (b : Book)
    → Book.new n ≡ ok b
    → IsValidBook n b × (b.bids.levels ≡ []) × (b.asks.levels ≡ [])
unfolding Book.new
new-IsValidBook n b e = elim (Result-cases (Ladder.new buy n)) [
  | inr (x, f) ↦ absurd (ground arith)
  | inl (bids, f) ↦ elim (Result-cases (Ladder.new sell n)) [
    | inr (x, g) ↦ absurd (ground arith)
    | inl (asks, g) ↦
        let (bv, bs, bc, bl) = new-IsValid buy n bids f in
        let (av, as', ac, al) = new-IsValid sell n asks g in
        let fresh : Book = record { bids = bids; asks = asks } in
        let made : fresh ≡ b = ground arith in
        subst (λ t. IsValidBook n t × (t.bids.levels ≡ []) × (t.asks.levels ≡ [])) made
          (
            record {
              bids_valid = bv;
              asks_valid = av;
              bids_side = bs;
              asks_side = as';
              bids_room = bc;
              asks_room = ac;
            },
            bl,
            al,
          )
  ]
]
