-- ===== src/Json/Progress.antt =====
-- Every operation that succeeds goes ahead in the buffer.
use bowst.Prelude.{
  ℕ, zero, suc, ◌+◌, ◌-◌, ◌<◌, ◌≤◌, ◌≡◌, refl, sym, ap, ◌∙◌, subst, Bool, true, false, Bool-cases,
  inl, inr, List, [], ◌∷◌, length, drop, length-drop, get_elem?, leb, if◌then◌else◌, Result, ok,
  err, ◌>>=◌, sat_add, u64_max, arith,
}
use bowst.Json.{
  Expected, Reader, is_byte, peek, advance, pass, is_whitespace, skip_whitespace, expect_byte,
  enter, leave, next_member,
}

-- The reader's position is in its buffer, whose length no word of 64 bits can miss.
pub record Inside (r : Reader) : Type 0 where
  pub within : r.pos ≤ length r.buf
  pub small : length r.buf < u64_max

-- A reader of the same bytes that is ahead by a number of bytes.
pub record Ahead (r : Reader) (least depth : ℕ) (after : Bool) (r' : Reader) : Type 0 where
  pub same : r'.buf ≡ r.buf
  pub ahead : r.pos + least ≤ r'.pos
  pub within : r'.pos ≤ length r'.buf
  pub deep : r'.depth ≡ depth
  pub comma : r'.after_value ≡ after

-- What holds of a result, if it is not an error.
abbrev pub Holds : {A E : Type 0} → (A → Type 0) → Result A E → Type 0
Holds P (ok a) = P a
Holds P (err e) = Unit {0}

pub bind-Holds :
    {A B E : Type 0} (P : A → Type 0) (Q : B → Type 0) (m : Result A E) (f : A → Result B E)
    → Holds P m
    → ((a : A) → P a → Holds Q (f a))
    → Holds Q (m >>= f)
bind-Holds P Q (ok a) f h k = k a h
bind-Holds P Q (err e) f h k = tt

pub if-Holds :
    {A E : Type 0} (P : A → Type 0) (b : Bool) (x y : Result A E)
    → (b ≡ true → Holds P x)
    → (b ≡ false → Holds P y)
    → Holds P (if b then x else y)
if-Holds P true x y h k = h refl
if-Holds P false x y h k = k refl

pub Ahead-trans :
    {r r' r'' : Reader} {n n' d d' : ℕ} {a a' : Bool}
    → Ahead r n d a r'
    → Ahead r' n' d' a' r''
    → Ahead r (n + n') d' a' r''
Ahead-trans p q = record {
  same = q.same ∙ p.same;
  ahead = omega (arith, p.ahead, q.ahead);
  within = q.within;
  deep = q.deep;
  comma = q.comma;
}

pub Ahead-less : {r r' : Reader} {n d : ℕ} {a : Bool} → Ahead r n d a r' → Ahead r 0 d a r'
Ahead-less p = record {
  same = p.same;
  ahead = omega (arith, p.ahead);
  within = p.within;
  deep = p.deep;
  comma = p.comma;
}

pub Ahead-Inside : {r r' : Reader} {n d : ℕ} {a : Bool} → Inside r → Ahead r n d a r' → Inside r'
Ahead-Inside i p = record {
  within = p.within;
  small = subst (λ b. length b < u64_max) (sym p.same) i.small;
}

pub pass_lem :
    (kind : ℕ → Bool) (rest : List ℕ) (pos : ℕ)
    → pos + length rest < u64_max
    → (pos ≤ pass kind rest pos) × (pass kind rest pos ≤ pos + length rest)
unfolding pass
pass_lem kind [] pos h = (omega arith, omega arith)
pass_lem kind (b ∷ rest) pos h = elim (Bool-cases (kind b)) [
  | inr e ↦ rw e (omega arith, omega arith)
  | inl e ↦
      let step : sat_add pos 1 ≡ pos + 1 = omega (arith, h) in
      let (p, q) = pass_lem kind rest (pos + 1) (omega (arith, h)) in
      rw (e, step) (omega (arith, p), omega (arith, q))
]

pub is_byte-lt :
    (b : ℕ) (bytes : List ℕ) (i : ℕ) → is_byte b (get_elem? bytes i) ≡ true → i < length bytes
is_byte-lt b [] i e = absurd (cc)
is_byte-lt b (x ∷ bytes) zero e = omega arith
is_byte-lt b (x ∷ bytes) (suc i) e = omega (arith, is_byte-lt b bytes i e)

pub pass-Inside :
    (kind : ℕ → Bool) (r : Reader)
    → Inside r
    → (r.pos ≤ pass kind (drop r.pos r.buf) r.pos)
      × (pass kind (drop r.pos r.buf) r.pos ≤ length r.buf)
pass-Inside kind r i =
    let l = length-drop r.pos r.buf in
    let (p, q) = pass_lem kind (drop r.pos r.buf) r.pos (omega (arith, l, i.within, i.small)) in
    (p, omega (arith, l, q, i.within))

pub skip_whitespace_lem :
    (r : Reader) → Inside r → Ahead r 0 r.depth r.after_value (skip_whitespace r)
unfolding skip_whitespace
skip_whitespace_lem r i = record {
  same = refl;
  ahead = omega (arith, (pass-Inside is_whitespace r i).0);
  within = (pass-Inside is_whitespace r i).1;
  deep = refl;
  comma = refl;
}

pub advance_lem :
    (b : ℕ) (r : Reader)
    → Inside r
    → is_byte b (peek r) ≡ true
    → Ahead r 1 r.depth r.after_value (advance r)
unfolding advance peek
advance_lem b r i e =
    let lt = is_byte-lt b r.buf r.pos e in
    record {
      same = refl;
      ahead = omega (arith, lt, i.small);
      within = omega (arith, lt, i.small);
      deep = refl;
      comma = refl;
    }

pub expect_byte_lem :
    (b : ℕ) (expected : Expected) (r : Reader)
    → Inside r
    → Holds (Ahead r 1 r.depth r.after_value) (expect_byte b expected r)
unfolding expect_byte skip_whitespace
expect_byte_lem b expected r i =
    let w = skip_whitespace_lem r i in
    if-Holds (Ahead r 1 r.depth r.after_value) (is_byte b (peek (skip_whitespace r))) _ _
      (λ e.
        let a = advance_lem b (skip_whitespace r) (Ahead-Inside i w) e in
        let t = Ahead-trans w a in record t { deep = a.deep ∙ w.deep; comma = a.comma ∙ w.comma })
      (λ e. tt)

pub enter_lem :
    (b : ℕ) (expected : Expected) (r : Reader)
    → Inside r
    → Holds (Ahead r 1 (r.depth + 1) false) (enter b expected r)
unfolding enter
enter_lem b expected r i =
    bind-Holds (Ahead r 1 r.depth r.after_value) (Ahead r 1 (r.depth + 1) false) _ _
      (expect_byte_lem b expected r i)
      (λ r' p.
        if-Holds (Ahead r 1 (r.depth + 1) false) (leb 32 r'.depth) _ _ (λ e. tt)
          (λ e. record {
            same = p.same;
            ahead = p.ahead;
            within = p.within;
            deep = let lt : r'.depth < 32 = ground arith in omega (arith, lt, p.deep);
            comma = refl;
          }))

leave_lem :
    (b : ℕ) (r : Reader)
    → Inside r
    → is_byte b (peek r) ≡ true
    → Ahead r 1 (r.depth - 1) true (leave r)
unfolding leave
leave_lem b r i e =
    let a = advance_lem b r i e in
    record {
      same = a.same;
      ahead = a.ahead;
      within = a.within;
      deep = ap (λ d. d - 1) a.deep;
      comma = refl;
    }

-- The next member of a container is ahead; past the last one the container is left.
abbrev pub Member : Reader → Bool × Reader → Type 0
Member r (true, r') = (after : Bool) × Ahead r 0 r.depth after r'
Member r (false, r') = Ahead r 1 (r.depth - 1) true r'

pub next_member_lem :
    (b : ℕ) (expected : Expected) (r : Reader)
    → Inside r
    → Holds (Member r) (next_member b expected r)
unfolding next_member skip_whitespace
next_member_lem b expected r i =
    let w = skip_whitespace_lem r i in
    let i' = Ahead-Inside i w in
    if-Holds (Member r) (is_byte b (peek (skip_whitespace r))) _ _
      (λ e.
        let l = leave_lem b (skip_whitespace r) i' e in
        let t = Ahead-trans w l in record t { deep = l.deep ∙ ap (λ d. d - 1) w.deep })
      (λ e.
        if-Holds (Member r) (skip_whitespace r).after_value _ _
          (λ e'.
            bind-Holds (Ahead (skip_whitespace r) 1 _ _) (Member r) _ _
              (expect_byte_lem 44 expected (skip_whitespace r) i')
              (λ r' p. (
                r.after_value,
                Ahead-less (record (Ahead-trans w p) {
                  deep = p.deep ∙ w.deep;
                  comma = p.comma ∙ w.comma;
                }),
              )))
          (λ e'. (r.after_value, w)))
