-- ===== src/Sync/Messages.antt =====
-- `BookSync::buffer` as a whole: the buffer stays valid, and each message keeps its own updates.
use bowst.Prelude.{
  ℕ, ◌+◌, ◌-◌, ◌≤◌, ◌≡◌, refl, sym, ap, ◌∙◌, false, Bool-cases, inl, inr, some, Option-cases, List,
  [], ◌∷◌, ◌++◌, length, length-append, length-drop, take, drop, last?, All, All-append, leb,
  if◌then◌else◌, u64_max, arith, subst, drop-append_length, drop-append_le, take-append_le,
  take-all,
}
use bowst.Book.{LevelUpdate}
use bowst.Sync.{
  SeqRange, continues, Pending, BookSync, count_stale, restart_buffer, push_updates, store_message,
  buffer,
}
use bowst.Sync.Buffer.{
  slice, IsTiled, IsTiled-le, IsValidBuffer, emptied-IsValidBuffer, Follows, message, with_message,
  make_room, store_message-IsValidBuffer, push_updates-some, make_room-HasRoom,
}

pub count_stale-IsValidBuffer : (s : BookSync) → IsValidBuffer s → IsValidBuffer (count_stale s)
count_stale-IsValidBuffer s v = record {
  tiled = v.tiled;
  chained = v.chained;
  words = v.words;
  few = v.few;
  small = v.small;
  room = v.room;
}

-- What a guard of `buffer` has tested, and a restarted buffer: either way the message follows.
joined : BookSync → SeqRange → ℕ → BookSync
joined s range prev = if continues range prev then s else restart_buffer s

joined-Follows :
    (s : BookSync) (range : SeqRange) (prev : Pending)
    → IsValidBuffer s
    → last? s.pending ≡ some prev
    → leb range.last prev.range.last ≡ false
    → IsValidBuffer (joined s range prev.range.last)
      × Follows range (joined s range prev.range.last).pending
unfolding joined restart_buffer
joined-Follows s range prev v e past = elim (Bool-cases (continues range prev.range.last)) [
  | inl c ↦ rw (c, joined) (v, λ p h. ground arith)
  | inr c ↦
      rw (c, joined) (emptied-IsValidBuffer (restart_buffer s) v.room refl refl, λ p h. absurd (cc))
]

-- Whatever arrives, buffering it keeps the buffer valid.
pub buffer-IsValidBuffer :
    (s : BookSync) (range : SeqRange) (us : List LevelUpdate)
    → IsValidBuffer s
    → range.first ≤ u64_max
    → IsValidBuffer (buffer s range us).0
unfolding buffer joined
buffer-IsValidBuffer s range us v w = elim (Option-cases (last? s.pending)) [
  | inl e ↦ rw (e, buffer) (store_message-IsValidBuffer s range us v w (λ p h. absurd (cc)))
  | inr (prev, e) ↦ elim (Bool-cases (leb range.last prev.range.last)) [
    | inl old ↦ rw (e, buffer) (rw old (count_stale-IsValidBuffer s v))
    | inr new ↦
        let (v', f) = joined-Follows s range prev v e new in
        rw (e, buffer)
          (rw new (store_message-IsValidBuffer (joined s range prev.range.last) range us v' w f))
  ]
]

slice-append :
    (m : Pending) (xs ys : List LevelUpdate)
    → m.start + m.len ≤ length xs
    → slice m (xs ++ ys) ≡ slice m xs
slice-append m xs ys h =
    ap (take m.len) (drop-append_le xs ys m.start (omega arith))
    ∙ take-append_le (drop m.start xs) ys m.len (omega (arith, length-drop m.start xs))

-- A property of a message's range and updates.
module _ (H : SeqRange → List LevelUpdate → Type 0) where
  abbrev pub AllMessages : List Pending → List LevelUpdate → Type 0
  AllMessages ms us = All (λ m. H m.range (slice m us)) ms

  AllMessages-append :
      (ms : List Pending) (at total : ℕ) (xs ys : List LevelUpdate)
      → IsTiled ms at total
      → total ≤ length xs
      → AllMessages ms xs
      → AllMessages ms (xs ++ ys)
  AllMessages-append [] at total xs ys t n a = tt
  AllMessages-append (m ∷ ms) at total xs ys (e, t) n (h, a) =
      let le = IsTiled-le ms (at + m.len) total t in
      (
        subst (H m.range) (sym (slice-append m xs ys (omega arith))) h,
        AllMessages-append ms (at + m.len) total xs ys t n a,
      )

  new_slice :
      (s : BookSync) (range : SeqRange) (us all : List LevelUpdate)
      → all ≡ s.pending_updates ++ us
      → slice (message s range all) all ≡ us
  new_slice s range us all e =
      let n : length all - length s.pending_updates ≡ length us =
        omega (arith, ap length e, length-append s.pending_updates us) in
      ap (take (length all - length s.pending_updates))
        (ap (drop (length s.pending_updates)) e ∙ drop-append_length s.pending_updates us _ refl)
      ∙ take-all us _ (omega arith)

  abbrev pub Keeps : BookSync → Type 0
  Keeps s = AllMessages s.pending s.pending_updates

  restart-Keeps : (s : BookSync) → Keeps (restart_buffer s)
  unfolding restart_buffer
  restart-Keeps s = tt

  make_room-Keeps : (s : BookSync) → Keeps s → Keeps (make_room s)
  make_room-Keeps s k = elim (Bool-cases (leb s.config.buffered_messages (length s.pending))) [
    | inl full ↦ rw (full, make_room) (restart-Keeps s)
    | inr room ↦ rw (room, make_room) k
  ]

  with_message-Keeps :
      (s : BookSync) (range : SeqRange) (us all : List LevelUpdate)
      → IsTiled s.pending 0 (length s.pending_updates)
      → all ≡ s.pending_updates ++ us
      → Keeps s
      → H range us
      → Keeps (with_message s range all)
  with_message-Keeps s range us all t e k h =
      let old = subst (AllMessages s.pending) (sym e) (
        AllMessages-append s.pending 0 (length s.pending_updates) s.pending_updates us t
          (omega arith) k) in
      All-append _ s.pending (message s range all ∷ []) old
        (subst (H range) (sym (new_slice s range us all e)) h, tt)

  -- A message that is stored whole has the updates that arrived with it, and the others keep theirs.
  store_message-Keeps :
      (s : BookSync) (range : SeqRange) (us : List LevelUpdate)
      → IsValidBuffer s
      → Follows range s.pending
      → Keeps s
      → H range us
      → Keeps (store_message s range us).0
  unfolding store_message
  store_message-Keeps s range us v f k h =
      let r = make_room-HasRoom s range v f in
      let s' = make_room s in
      elim (Option-cases (push_updates s'.config.buffered_updates s'.pending_updates us)) [
        | inl e ↦ rw (e, store_message) (restart-Keeps s')
        | inr (all, e) ↦
            let (eq, _) = push_updates-some _ _ us all r.valid.small e in
            rw (e, store_message)
              (with_message-Keeps s' range us all r.valid.tiled eq (make_room-Keeps s k) h)
      ]

  joined-Keeps :
      (s : BookSync) (range : SeqRange) (prev : ℕ) → Keeps s → Keeps (joined s range prev)
  unfolding joined
  joined-Keeps s range prev k = elim (Bool-cases (continues range prev)) [
    | inl c ↦ rw (c, joined) k
    | inr c ↦ rw (c, joined) (restart-Keeps s)
  ]

  -- What holds of every buffered message with its updates still does when one more is buffered.
  pub buffer-Keeps :
      (s : BookSync) (range : SeqRange) (us : List LevelUpdate)
      → IsValidBuffer s
      → Keeps s
      → H range us
      → Keeps (buffer s range us).0
  unfolding buffer joined
  buffer-Keeps s range us v k h = elim (Option-cases (last? s.pending)) [
    | inl e ↦ rw (e, buffer) (store_message-Keeps s range us v (λ p g. absurd (cc)) k h)
    | inr (prev, e) ↦ elim (Bool-cases (leb range.last prev.range.last)) [
      | inl old ↦ rw (e, buffer) (rw old k)
      | inr new ↦
          let (v', f) = joined-Follows s range prev v e new in
          rw (e, buffer)
            (rw new (
              store_message-Keeps (joined s range prev.range.last) range us v' f
                (joined-Keeps s range prev.range.last k) h))
    ]
  ]

-- Buffering leaves the book, the state and the sizes alone.
abbrev pub SameFrame : BookSync → BookSync → Type 0
SameFrame s s' = (s'.book ≡ s.book) × (s'.state ≡ s.state) × (s'.config ≡ s.config)

store_message_frame :
    (s : BookSync) (range : SeqRange) (us : List LevelUpdate)
    → SameFrame s (store_message s range us).0
unfolding store_message restart_buffer
store_message_frame s range us = ground arith

pub buffer_frame :
    (s : BookSync) (range : SeqRange) (us : List LevelUpdate) → SameFrame s (buffer s range us).0
unfolding buffer restart_buffer
buffer_frame s range us =
    ground (arith, store_message_frame s range us, store_message_frame (restart_buffer s) range us)
