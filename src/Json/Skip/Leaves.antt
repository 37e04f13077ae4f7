-- ===== src/Json/Skip/Leaves.antt =====
-- Skipping strings, numbers and words.
use bowst.Prelude.{
  ℕ, zero, suc, ◌+◌, ◌-◌, ◌<◌, ◌≤◌, ◌≡◌, refl, subst, Bool, true, false, Option, some, none, List,
  length, take, drop, ◌&&◌, get_elem?, leb, ◌==◌, if◌then◌else◌, Result, ok, err, ok_or, sat_add,
  slice?, arith,
}
use bowst.Json.{
  Expected, JsonError, Reader, is_byte, pass, literal, is_word, true_word, false_word, null_word,
  fail,
}
use bowst.Json.Skip.{string_rest, in_number, skip_number, skip_literal, ◌>?◌, ◌>??◌}
use bowst.Json.Progress.{Inside, Ahead, Holds, if-Holds, pass-Inside}
use bowst.Json.Texts.{End, string_end_lem, after_string_lem, ok_or-Holds}

pub same_byte : (b : ℕ) → (b == b) ≡ true
same_byte b = ground arith

-- A result is reached, and if it is not an error, it has the property.
abbrev pub Returns : (Reader → Type 0) → Option (Result Reader JsonError) → Type 0
Returns P none = true ≡ false
Returns P (some res) = Holds P res

pub Returns-if :
    (P : Reader → Type 0) (b : Bool) (x y : Option (Result Reader JsonError))
    → (b ≡ true → Returns P x)
    → (b ≡ false → Returns P y)
    → Returns P (if b then x else y)
Returns-if P true x y h k = h refl
Returns-if P false x y h k = k refl

pub Returns-then :
    {A : Type 0} (P : A → Type 0) (Q : Reader → Type 0) (m : Result A JsonError)
    (f : A → Option (Result Reader JsonError))
    → Holds P m
    → ((a : A) → P a → Returns Q (f a))
    → Returns Q (m >? f)
Returns-then P Q (ok a) f h k = k a h
Returns-then P Q (err e) f h k = tt

pub Returns-next :
    (P Q : Reader → Type 0) (m : Option (Result Reader JsonError))
    (f : Reader → Option (Result Reader JsonError))
    → Returns P m
    → ((r : Reader) → P r → Returns Q (f r))
    → Returns Q (m >?? f)
Returns-next P Q none f h k = absurd (cc)
Returns-next P Q (some m) f h k = Returns-then P Q m f h k

pub Returns-map :
    (P Q : Reader → Type 0) (m : Option (Result Reader JsonError))
    → ((r : Reader) → P r → Q r)
    → Returns P m
    → Returns Q m
Returns-map P Q none f h = h
Returns-map P Q (some (ok r)) f h = f r h
Returns-map P Q (some (err e)) f h = tt

pub string_rest_lem :
    (fuel : ℕ) (r : Reader)
    → Inside r
    → length r.buf - r.pos < fuel
    → Returns (Ahead r 1 r.depth true) (string_rest fuel r)
unfolding string_rest
string_rest_lem zero r i h = absurd (omega (arith, h))
string_rest_lem (suc fuel) r i h =
    Returns-then (End r) (Ahead r 1 r.depth true) _ _ (string_end_lem r i) (λ end q.
      Returns-if (Ahead r 1 r.depth true) (is_byte 34 (get_elem? r.buf end)) _ _
        (λ _. after_string_lem r end i q)
        (λ _.
          Returns-if (Ahead r 1 r.depth true) (leb (length r.buf) (sat_add end 1)) _ _ (λ _. tt)
            (λ e.
              let (low, _) = q in
              let lt : sat_add end 1 < length r.buf = ground arith in
              let two : sat_add end 2 ≡ end + 2 = omega (arith, lt, i.small) in
              let one : end + 1 < length r.buf = omega (arith, lt, i.small) in
              let r' : Reader = record r { pos = end + 2 } in
              let i' : Inside r' = record { within = omega (arith, one); small = i.small } in
              let rest = string_rest_lem fuel r' i' (omega (arith, low, one, h)) in
              rw two (
                Returns-map (Ahead r' 1 r.depth true) (Ahead r 1 r.depth true) (string_rest fuel r')
                  (λ r'' p. record {
                    same = p.same;
                    ahead = omega (arith, low, p.ahead);
                    within = p.within;
                    deep = p.deep;
                    comma = p.comma;
                  })
                  rest))))

pub is_word-le :
    (bytes buf : List ℕ) (start end : ℕ)
    → is_word bytes (slice? buf start end) ≡ true
    → end ≤ length buf
unfolding slice?
is_word-le bytes buf start end e = go (leb start end) (leb end (length buf)) refl e
  where
    go :
        (s t : Bool)
        → leb end (length buf) ≡ t
        → is_word bytes (if s && t then some (take (end - start) (drop start buf)) else none) ≡ true
        → end ≤ length buf
    go true true u e = ground arith
    go true false u e = absurd (cc)
    go false t u e = absurd (cc)

pub literal_lem :
    (bytes : List ℕ) (r r' : Reader)
    → Inside r
    → 0 < length bytes
    → literal bytes r ≡ some r'
    → Ahead r 1 r.depth true r'
unfolding literal
literal_lem bytes r r' i h e =
    go (is_word bytes (slice? r.buf r.pos (sat_add r.pos (length bytes)))) refl e
  where
    new : Reader
    new = record r { pos = sat_add r.pos (length bytes); after_value = true }

    go :
        (t : Bool)
        → is_word bytes (slice? r.buf r.pos (sat_add r.pos (length bytes))) ≡ t
        → (if t then some new else none) ≡ some r'
        → Ahead r 1 r.depth true r'
    go false u e = absurd (cc)
    go true u e =
        let le = is_word-le bytes r.buf r.pos (sat_add r.pos (length bytes)) u in
        let eq : new ≡ r' = cc in
        subst (Ahead r 1 r.depth true) eq (record {
          same = refl;
          ahead = omega (arith, h, i.within, i.small);
          within = le;
          deep = refl;
          comma = refl;
        })

pub skip_literal_lem : (r : Reader) → Inside r → Holds (Ahead r 1 r.depth true) (skip_literal r)
unfolding skip_literal
skip_literal_lem r i =
    go (literal true_word r) (literal false_word r)
      (λ r' e. literal_lem true_word r r' i (omega arith) e)
      (λ r' e. literal_lem false_word r r' i (omega arith) e)
  where
    go :
        (a b : Option Reader)
        → ((r' : Reader) → a ≡ some r' → Ahead r 1 r.depth true r')
        → ((r' : Reader) → b ≡ some r' → Ahead r 1 r.depth true r')
        → Holds (Ahead r 1 r.depth true) (elim a [
          | some r' ↦ ok r'
          | none ↦ elim b [
            | some r' ↦ ok r'
            | none ↦ ok_or (literal null_word r) (fail r Expected.any_value)
          ]
        ])
    go (some r') b h k = h r' refl
    go none (some r') h k = k r' refl
    go none none h k =
        ok_or-Holds (Ahead r 1 r.depth true) _ _
          (λ r' e. literal_lem null_word r r' i (omega arith) e)

pub skip_number_lem : (r : Reader) → Inside r → Holds (Ahead r 1 r.depth true) (skip_number r)
unfolding skip_number
skip_number_lem r i =
    let pos = pass in_number (drop r.pos r.buf) r.pos in
    let (p, q) = pass-Inside in_number r i in
    if-Holds (Ahead r 1 r.depth true) (pos == r.pos) _ _ (λ _. tt)
      (λ e. record { same = refl; ahead = ground arith; within = q; deep = refl; comma = refl })
