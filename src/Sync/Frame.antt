-- ===== src/Sync/Frame.antt =====
-- The invariant of `BookSync`, and what its loops over updates do to the book.
use bowst.Prelude.{
  ℕ, zero, suc, ◌+◌, ◌≤◌, ◌≡◌, refl, false, inl, inr, ◌⊎◌, Option-cases, List, [], ◌∷◌, take, drop,
  get_elem?, drop-get_elem?, drop-get_elem?-none, if◌then◌else◌, Result, ok, err, u64_max, arith,
  subst,
}
use bowst.Ladder.{BookError, Level}
use bowst.Book
use bowst.Book.{Book, LevelUpdate, best_bid, best_ask, meets, is_crossed}
use bowst.Book.Valid.{IsValidBook, apply-IsValidBook, load_lem, LoadResult}
use bowst.Sync.{
  State, awaiting_snapshot, live, BookSync, invalidate, apply_all, check_crossed, replay_range,
}
use bowst.Sync.Buffer.{IsValidBuffer}

-- While live nothing is buffered and the book is not crossed; otherwise both sides are empty.
abbrev pub Idle : State → BookSync → Type 0
Idle awaiting_snapshot s = (s.book.bids.levels ≡ []) × (s.book.asks.levels ≡ [])
Idle (live _) s = (s.pending ≡ []) × (s.pending_updates ≡ []) × (is_crossed s.book ≡ false)

pub record IsValidSync (s : BookSync) : Type 0 where
  pub buffer_valid : IsValidBuffer s
  pub book_valid : IsValidBook s.config.levels_per_side s.book
  pub words : s.config.buffered_updates ≤ u64_max
  pub idle : Idle s.state s

-- `apply_all` keeps the book valid, whether it ends early or not.
pub apply_all-IsValidBook :
    (n : ℕ) (us : List LevelUpdate) (b : Book) → IsValidBook n b → IsValidBook n (apply_all b us).0
unfolding apply_all
apply_all-IsValidBook n [] b v = v
apply_all-IsValidBook n (u ∷ us) b v = ground (
  arith,
  apply-IsValidBook n b u v,
  apply_all-IsValidBook n us (Book.apply b u).0 (apply-IsValidBook n b u v),
)

-- The loop over positions is the loop over the slice.
pub replay_range-apply_all :
    (count at : ℕ) (us : List LevelUpdate) (b : Book)
    → replay_range count at us b ≡ apply_all b (take count (drop at us))
unfolding replay_range apply_all
replay_range-apply_all zero at us b = refl
replay_range-apply_all (suc count) at us b = elim (Option-cases (get_elem? us at)) [
  | inl e ↦ rw (drop-get_elem?-none us at e, e, replay_range)
  | inr (u, e) ↦
      rw (drop-get_elem? us at u e)
        (ground (arith, e, replay_range-apply_all count (at + 1) us (Book.apply b u).0))
]

pub State-cases : (t : State) → (t ≡ awaiting_snapshot) ⊎ ((n : ℕ) × (t ≡ live n))
State-cases awaiting_snapshot = inl refl
State-cases (live n) = inr (n, refl)

pub Idle-awaiting :
    (s : BookSync) → s.state ≡ awaiting_snapshot → Idle s.state s → Idle awaiting_snapshot s
Idle-awaiting s e i = subst (λ t. Idle t s) e i

pub Idle-live : (s : BookSync) {n : ℕ} → s.state ≡ live n → Idle s.state s → Idle (live n) s
Idle-live s e i = subst (λ t. Idle t s) e i

-- A snapshot, loaded or refused, leaves a valid book.
pub loaded-IsValidBook :
    (n : ℕ) (b : Book) (bids asks : List Level)
    → IsValidBook n b
    → IsValidBook n (Book.load b bids asks).0
loaded-IsValidBook n b bids asks v = go (Book.load b bids asks) (load_lem n b bids asks v)
  where
    go : (r : Book × Result (Unit {0}) BookError) → LoadResult n bids asks r → IsValidBook n r.0
    go (b, ok _) h = h.0
    go (b, err _) h = h.0

-- The test for a crossed book invalidates exactly a crossed one.
pub check_crossed_lem :
    (s : BookSync) → (check_crossed s).0 ≡ (if is_crossed s.book then invalidate s else s)
unfolding check_crossed is_crossed
check_crossed_lem s = ground arith
