-- ===== src/Fixed/Write/Emit.antt =====
-- What the writer writes.
use bowst.Prelude.{
  ℕ, zero, suc, ◌+◌, ◌<◌, ◌≤◌, ◌≡◌, refl, ap, ◌∙◌, Bool, true, false, ◌&&◌, Bool-cases, inl, inr,
  List, [], ◌∷◌, ◌++◌, length, length-append, set, take, drop, length-drop, drop-drop, ltb, leb,
  ◌==◌, if◌then◌else◌, sat_add, u64_max, Result, ok, err, ◌>>=◌, arith,
}
use mathlib.Core.List.{append_assoc, append-nil}
use bowst.Fixed.{FixedError, buffer_too_small}
use bowst.Fixed.Parse.Reads.{pointed, signed}
use bowst.Fixed.Write.{Writer, push, emit}

-- A writer that has written `d` over the start of a buffer that goes on with `r`.
abbrev pub wrote : List ℕ → List ℕ → Writer
wrote d r = record { buf = d ++ r; pos = length d }

-- What a writer becomes by writing `text`, if there is room.
abbrev pub written : List ℕ → List ℕ → List ℕ → Result Writer FixedError
written d text r =
    if leb (length text) (length r)
    then ok (wrote (d ++ text) (drop (length text) r))
    else err buffer_too_small

set-append : (d r : List ℕ) (x b : ℕ) → set (d ++ (x ∷ r)) (length d) b ≡ (d ++ (b ∷ [])) ++ r
set-append [] r x b = refl
set-append (y ∷ d) r x b = ap (λ t. y ∷ t) (set-append d r x b)

push-wrote :
    (d r : List ℕ) (b : ℕ)
    → length d + length r ≤ u64_max
    → push (wrote d r) b ≡ written d (b ∷ []) r
unfolding push
push-wrote d [] b h =
    let t : ltb (length d) (length (d ++ [])) ≡ false = ground (arith, length-append d []) in
    rw t refl
push-wrote d (x ∷ r) b h =
    let t : ltb (length d) (length (d ++ (x ∷ r))) ≡ true =
      ground (arith, length-append d (x ∷ r)) in
    let u : leb 1 (suc (length r)) ≡ true = ground arith in
    let n : sat_add (length d) 1 ≡ length (d ++ (b ∷ [])) =
      omega (arith, length-append d (b ∷ [])) in
    rw (t, u, set-append d r x b, n) refl

-- Writing two texts one after the other.
written-then :
    (d a b r : List ℕ) (f : Writer → Result Writer FixedError)
    → (leb (length a) (length r) ≡ true
        → f (wrote (d ++ a) (drop (length a) r)) ≡ written (d ++ a) b (drop (length a) r))
    → (written d a r >>= f) ≡ written d (a ++ b) r
written-then d a b r f h = elim (Bool-cases (leb (length a) (length r))) [
  | inl room ↦
      let t : leb (length (a ++ b)) (length r) ≡ leb (length b) (length (drop (length a) r)) =
        ground (arith, length-append a b, length-drop (length a) r) in
      rw (room, t, ← append_assoc d a b, length-append a b, ← drop-drop (length a) (length b) r)
        (h room)
  | inr none ↦
      let t : leb (length (a ++ b)) (length r) ≡ false = ground (arith, length-append a b) in
      rw (none, t) refl
]

-- The digits from the index `i` on, with a point before the one at `point_at`.
abbrev pub spelled : ℕ → ℕ → ℕ → List ℕ → List ℕ
spelled scale point_at i [] = []
spelled scale point_at i (c ∷ cs) =
    (if i == point_at && ltb 0 scale then 46 ∷ [] else [])
    ++ (c ∷ spelled scale point_at (i + 1) cs)

room_after :
    (d a r : List ℕ)
    → length d + length r ≤ u64_max
    → leb (length a) (length r) ≡ true
    → length (d ++ a) + length (drop (length a) r) ≤ u64_max
room_after d a r h t = ground (arith, length-append d a, length-drop (length a) r)

emit-wrote :
    (scale point_at i : ℕ) (cs d r : List ℕ)
    → length d + length r ≤ u64_max
    → emit scale point_at i cs (wrote d r) ≡ written d (spelled scale point_at i cs) r
unfolding emit
emit-wrote scale point_at i [] d r h =
    let t : leb 0 (length r) ≡ true = ground arith in rw (t, append-nil d) refl
emit-wrote scale point_at i (c ∷ cs) d r h = elim (Bool-cases (i == point_at && ltb 0 scale)) [
  | inr plain ↦
      rw (plain, emit, ◌>>=◌) (digit (λ d r h. emit-wrote scale point_at (i + 1) cs d r h) d r h)
  | inl point ↦
      rw (point, emit, push-wrote d r 46 h)
        (written-then d (46 ∷ []) (c ∷ spelled scale point_at (i + 1) cs) r _ (λ t.
          digit (λ d r h. emit-wrote scale point_at (i + 1) cs d r h) (d ++ (46 ∷ [])) (drop 1 r)
            (room_after d (46 ∷ []) r h t)))
]
  where
    Rest : Type 0
    Rest =
        (d r : List ℕ)
        → length d + length r ≤ u64_max
        → emit scale point_at (i + 1) cs (wrote d r)
          ≡ written d (spelled scale point_at (i + 1) cs) r

    digit :
        Rest
        → (d r : List ℕ) → length d + length r ≤ u64_max
        → (push (wrote d r) c >>= λ w. emit scale point_at (i + 1) cs w)
          ≡ written d (c ∷ spelled scale point_at (i + 1) cs) r
    digit rest d r h = rw (push-wrote d r c h) (
        written-then d (c ∷ []) (spelled scale point_at (i + 1) cs) r
          (λ w. emit scale point_at (i + 1) cs w)
          (λ t. rest (d ++ (c ∷ [])) (drop 1 r) (room_after d (c ∷ []) r h t)))

spelled_after :
    (scale point_at i : ℕ) (cs : List ℕ) → point_at < i → spelled scale point_at i cs ≡ cs
spelled_after scale point_at i [] h = refl
spelled_after scale point_at i (c ∷ cs) h =
    let t : (i == point_at) ≡ false = ground arith in
    rw (t, spelled_after scale point_at (i + 1) cs (omega arith)) refl

pub spelled_lem :
    (n i scale : ℕ) (cs : List ℕ)
    → n ≤ length cs
    → length (drop n cs) ≡ scale
    → spelled scale (i + n) i cs ≡ take n cs ++ pointed (drop n cs)
spelled_lem zero i scale [] h e = refl
spelled_lem zero i scale (c ∷ cs) h e =
    let t : (i == i + 0) ≡ true = ground arith in
    let u : ltb 0 scale ≡ true = ground arith in
    rw (t, u, spelled_after scale (i + 0) (i + 1) cs (omega arith)) refl
spelled_lem (suc n) i scale [] h e = absurd (omega arith)
spelled_lem (suc n) i scale (c ∷ cs) h e =
    let t : (i == i + suc n) ≡ false = ground arith in
    let p : i + suc n ≡ i + 1 + n = omega arith in
    rw t (
      ap (λ q. c ∷ spelled scale q (i + 1) cs) p
      ∙ ap (λ x. c ∷ x) (spelled_lem n (i + 1) scale cs (omega arith) e))

pub sign-wrote :
    (negative : Bool) (scale point_at : ℕ) (ds text buf : List ℕ)
    → spelled scale point_at 0 ds ≡ text
    → length buf ≤ u64_max
    → ((if negative then push (wrote [] buf) 45 else ok (wrote [] buf)) >>= λ w.
        emit scale point_at 0 ds w)
      ≡ written [] (signed negative text) buf
sign-wrote false scale point_at ds text buf e h =
    emit-wrote scale point_at 0 ds [] buf (omega arith) ∙ ap (λ t. written [] t buf) e
sign-wrote true scale point_at ds text buf e h = rw (push-wrote [] buf 45 (omega arith)) (
    written-then [] (45 ∷ []) text buf (λ w. emit scale point_at 0 ds w)
      (λ t.
        emit-wrote scale point_at 0 ds (45 ∷ []) (drop 1 buf)
          (room_after [] (45 ∷ []) buf (omega arith) t)
        ∙ ap (λ t. written (45 ∷ []) t (drop 1 buf)) e))
