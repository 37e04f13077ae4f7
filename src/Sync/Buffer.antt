-- ===== src/Sync/Buffer.antt =====
-- The buffer of deltas: its messages tile the stored updates and form one chain.
use bowst.Prelude.{
  ℕ, ◌+◌, ◌-◌, ◌<◌, ◌≤◌, ◌≡◌, refl, sym, ap, ◌∙◌, Bool-cases, inl, inr, some, Option-cases, List,
  [], ◌∷◌, ◌++◌, length, length-append, take, drop, last?, All, All-append, leb, if◌then◌else◌,
  u64_max, arith, subst,
}
use mathlib.Core.List.{append-nil, append_assoc}
use bowst.Book.{LevelUpdate}
use bowst.Sync.{SeqRange, Pending, BookSync, restart_buffer, push_updates, store_message}

-- The updates of one message.
abbrev pub slice : Pending → List LevelUpdate → List LevelUpdate
slice m us = take m.len (drop m.start us)

-- The messages lie one behind the other in the stored updates.
abbrev pub IsTiled : List Pending → ℕ → ℕ → Type 0
IsTiled [] at total = at ≡ total
IsTiled (m ∷ ms) at total = (m.start ≡ at) × IsTiled ms (at + m.len) total

-- Each message goes on from the one before it and past its end.
abbrev pub IsLinked : ℕ → List Pending → Type 0
IsLinked prev [] = Unit
IsLinked prev (m ∷ ms) =
    (prev < m.range.last) × (m.range.first ≤ prev + 1) × IsLinked m.range.last ms

abbrev pub IsChained : List Pending → Type 0
IsChained [] = Unit
IsChained (m ∷ ms) = IsLinked m.range.last ms

IsTiled-append :
    (ms : List Pending) (m : Pending) (at mid total : ℕ)
    → IsTiled ms at mid
    → m.start ≡ mid
    → mid + m.len ≡ total
    → IsTiled (ms ++ (m ∷ [])) at total
IsTiled-append [] m at mid total t h k = (omega arith, omega arith)
IsTiled-append (x ∷ ms) m at mid total (a, t) h k =
    (a, IsTiled-append ms m (at + x.len) mid total t h k)

pub IsTiled-le : (ms : List Pending) (at total : ℕ) → IsTiled ms at total → at ≤ total
IsTiled-le [] at total t = omega arith
IsTiled-le (m ∷ ms) at total (_, t) = omega (arith, IsTiled-le ms (at + m.len) total t)

IsLinked-append :
    (prev : ℕ) (ms : List Pending) (m : Pending)
    → IsLinked prev ms
    → ((p : Pending)
        → last? ms ≡ some p
        → (p.range.last < m.range.last) × (m.range.first ≤ p.range.last + 1))
    → (ms ≡ [] → (prev < m.range.last) × (m.range.first ≤ prev + 1))
    → IsLinked prev (ms ++ (m ∷ []))
IsLinked-append prev [] m l h k = let (a, b) = k refl in (a, b, tt)
IsLinked-append prev (x ∷ []) m (a, b, _) h k = let (c, d) = h x refl in (a, b, (c, d, tt))
IsLinked-append prev (x ∷ y ∷ ms) m (a, b, l) h k =
    (a, b, IsLinked-append x.range.last (y ∷ ms) m l h (λ e. absurd (cc)))

IsChained-append :
    (ms : List Pending) (m : Pending)
    → IsChained ms
    → ((p : Pending)
        → last? ms ≡ some p
        → (p.range.last < m.range.last) × (m.range.first ≤ p.range.last + 1))
    → IsChained (ms ++ (m ∷ []))
IsChained-append [] m c h = tt
IsChained-append (x ∷ []) m c h = let (a, b) = h x refl in (a, b, tt)
IsChained-append (x ∷ y ∷ ms) m c h = IsLinked-append x.range.last (y ∷ ms) m c h (λ e. absurd (cc))

-- What the loop over a message's updates stores.
pub push_updates-some :
    (limit : ℕ) (stored us all : List LevelUpdate)
    → length stored ≤ limit
    → push_updates limit stored us ≡ some all
    → (all ≡ stored ++ us) × (length all ≤ limit)
unfolding push_updates
push_updates-some limit stored [] all n e = (cc (append-nil stored), ground arith)
push_updates-some limit stored (u ∷ us) all n e =
    let (h, k) =
      push_updates-some limit (stored ++ (u ∷ [])) us all
        (ground (arith, length-append stored (u ∷ []))) (ground arith) in
    (h ∙ append_assoc stored (u ∷ []) us, k)

pub record IsValidBuffer (s : BookSync) : Type 0 where
  pub tiled : IsTiled s.pending 0 (length s.pending_updates)
  pub chained : IsChained s.pending
  pub words : All (λ m. m.range.first ≤ u64_max) s.pending
  pub few : length s.pending ≤ s.config.buffered_messages
  pub small : length s.pending_updates ≤ s.config.buffered_updates
  pub room : 0 < s.config.buffered_messages

pub emptied-IsValidBuffer :
    (s : BookSync)
    → 0 < s.config.buffered_messages
    → s.pending ≡ []
    → s.pending_updates ≡ []
    → IsValidBuffer s
emptied-IsValidBuffer s r p u = record {
  tiled = subst (λ t. IsTiled t 0 (length s.pending_updates)) (sym p) (rw u refl);
  chained = subst IsChained (sym p) tt;
  words = subst (All (λ m. m.range.first ≤ u64_max)) (sym p) tt;
  few = rw p (omega arith);
  small = rw u (omega arith);
  room = r;
}

-- A message that goes on from the buffered ones, or the first of them.
abbrev pub Follows : SeqRange → List Pending → Type 0
Follows range ms =
    (p : Pending)
    → last? ms ≡ some p
    → (p.range.last < range.last) × (range.first ≤ p.range.last + 1)

abbrev pub message : BookSync → SeqRange → List LevelUpdate → Pending
message s range all = record {
  range = range;
  start = length s.pending_updates;
  len = length all - length s.pending_updates;
}

abbrev pub with_message : BookSync → SeqRange → List LevelUpdate → BookSync
with_message s range all = record s {
  pending = s.pending ++ (message s range all ∷ []);
  pending_updates = all;
}

with_message-IsValidBuffer :
    (s : BookSync) (range : SeqRange) (us all : List LevelUpdate)
    → IsValidBuffer s
    → range.first ≤ u64_max
    → Follows range s.pending
    → length s.pending < s.config.buffered_messages
    → all ≡ s.pending_updates ++ us
    → length all ≤ s.config.buffered_updates
    → IsValidBuffer (with_message s range all)
with_message-IsValidBuffer s range us all v w f n e small = record {
  tiled =
      IsTiled-append s.pending (message s range all) 0 (length s.pending_updates) (length all)
        v.tiled refl (omega (arith, ap length e, length-append s.pending_updates us));
  chained = IsChained-append s.pending (message s range all) v.chained f;
  words = All-append _ s.pending (message s range all ∷ []) v.words (w, tt);
  few = omega (arith, length-append s.pending (message s range all ∷ []));
  small = small;
  room = v.room;
}

-- A buffer that is full is emptied first.
abbrev pub make_room : BookSync → BookSync
make_room s = if leb s.config.buffered_messages (length s.pending) then restart_buffer s else s

pub record HasRoom (s : BookSync) (range : SeqRange) (s' : BookSync) : Type 0 where
  pub valid : IsValidBuffer s'
  pub follows : Follows range s'.pending
  pub space : length s'.pending < s'.config.buffered_messages

restart-HasRoom :
    (s : BookSync) (range : SeqRange)
    → 0 < s.config.buffered_messages
    → HasRoom s range (restart_buffer s)
unfolding restart_buffer
restart-HasRoom s range r = record {
  valid = emptied-IsValidBuffer (restart_buffer s) r refl refl;
  follows = λ p e. absurd (cc);
  space = omega arith;
}

pub make_room-HasRoom :
    (s : BookSync) (range : SeqRange)
    → IsValidBuffer s
    → Follows range s.pending
    → HasRoom s range (make_room s)
make_room-HasRoom s range v f =
    elim (Bool-cases (leb s.config.buffered_messages (length s.pending))) [
      | inl full ↦ rw (full, make_room) (restart-HasRoom s range v.room)
      | inr ok ↦ rw (ok, make_room) (record { valid = v; follows = f; space = ground arith })
    ]

-- Storing a message that follows keeps the buffer valid, also where it overflows.
pub store_message-IsValidBuffer :
    (s : BookSync) (range : SeqRange) (us : List LevelUpdate)
    → IsValidBuffer s
    → range.first ≤ u64_max
    → Follows range s.pending
    → IsValidBuffer (store_message s range us).0
unfolding store_message
store_message-IsValidBuffer s range us v w f =
    let h = make_room-HasRoom s range v f in
    let s' = make_room s in
    elim (Option-cases (push_updates s'.config.buffered_updates s'.pending_updates us)) [
      | inl e ↦ rw (e, store_message) (restart-HasRoom s' range h.valid.room).valid
      | inr (all, e) ↦
          let (eq, small) = push_updates-some _ _ us all h.valid.small e in
          rw (e, store_message)
            (with_message-IsValidBuffer s' range us all h.valid w h.follows h.space eq small)
    ]
