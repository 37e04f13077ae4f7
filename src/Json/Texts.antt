-- ===== src/Json/Texts.antt =====
-- Strings, and the members of objects and arrays.
use bowst.Prelude.{
  ℕ, ◌+◌, ◌-◌, ◌<◌, ◌≤◌, ◌≡◌, refl, ◌∙◌, Bool, true, false, Option, some, none, List, [], ◌∷◌,
  length, drop, length-drop, get_elem?, if◌then◌else◌, Result, ok, ok_or, ◌>>=◌, sat_add, slice?,
  arith,
}
use bowst.Json.{
  Expected, JsonError, Reader, is_byte, position, ends_string, string_end, quoted, after_string,
  str, next_key, next_element, has_key, expect_byte, is_control,
}
use bowst.Json.Utf8.{is_utf8}
use bowst.Json.Progress.{
  Inside, Ahead, Holds, bind-Holds, if-Holds, Ahead-trans, Ahead-less, Ahead-Inside,
  expect_byte_lem, Member, next_member_lem,
}

pub ok_or-Holds :
    {A E : Type 0} (P : A → Type 0) (o : Option A) (e : E)
    → ((a : A) → o ≡ some a → P a)
    → Holds P (ok_or o e)
ok_or-Holds P (some a) e h = h a refl
ok_or-Holds P none e h = tt

plus_one-lt :
    (o : Option ℕ) (n len : ℕ)
    → ((m : ℕ) → o ≡ some m → m < len)
    → elim o [ none ↦ none | some m ↦ some (m + 1) ] ≡ some n
    → n < len + 1
plus_one-lt none n len h e = absurd (cc)
plus_one-lt (some m) n len h e =
    let lt = h m refl in let eq : m + 1 ≡ n = cc in omega (arith, lt, eq)

position-lt : (p : ℕ → Bool) (bytes : List ℕ) (n : ℕ) → position p bytes ≡ some n → n < length bytes
unfolding position
position-lt p [] n e = absurd (cc)
position-lt p (b ∷ bytes) n e = go (p b) (position-lt p bytes) e
  where
    go :
        (t : Bool)
        → ((m : ℕ) → position p bytes ≡ some m → m < length bytes)
        → (if t then some 0 else elim (position p bytes) [ none ↦ none | some m ↦ some (m + 1) ])
          ≡ some n
        → n < length (b ∷ bytes)
    go true h e = let eq : 0 ≡ n = cc in omega (arith, eq)
    go false h e = omega (arith, plus_one-lt (position p bytes) n (length bytes) h e)

abbrev pub End : Reader → ℕ → Type 0
End r end = (r.pos ≤ end) × (end < length r.buf)

pub string_end_lem : (r : Reader) → Inside r → Holds (End r) (string_end r)
unfolding string_end
string_end_lem r i =
    bind-Holds (λ n. n < length (drop r.pos r.buf)) (End r) _ _
      (ok_or-Holds (λ n. n < length (drop r.pos r.buf)) _ _
        (position-lt ends_string (drop r.pos r.buf)))
      (λ n lt.
        let l = length-drop r.pos r.buf in
        if-Holds (End r) (is_control (get_elem? r.buf (sat_add r.pos n))) _ _ (λ _. tt)
          (λ _. (omega (arith, lt, l, i.small), omega (arith, lt, l, i.small))))

abbrev pub Quoted : Reader → Reader × ℕ × List ℕ → Type 0
Quoted r (r', end, text) = Ahead r 1 r.depth r.after_value r' × End r' end

pub quoted_lem : (r : Reader) → Inside r → Holds (Quoted r) (quoted r)
unfolding quoted
quoted_lem r i =
    bind-Holds (Ahead r 1 r.depth r.after_value) (Quoted r) _ _
      (expect_byte_lem 34 Expected.string r i)
      (λ r' p. bind-Holds (End r') (Quoted r) _ _ (string_end_lem r' (Ahead-Inside i p)) (λ end q.
        if-Holds (Quoted r) (is_byte 92 (get_elem? r'.buf end)) _ _ (λ _. tt)
          (λ _.
            bind-Holds (λ _. Unit {0}) (Quoted r)
              (ok_or (slice? r'.buf r'.pos end) JsonError.unexpected_end) _
              (ok_or-Holds (λ _. Unit {0}) _ _ (λ _ _. tt)) (λ text _. (p, q)))))

pub after_string_lem :
    (r : Reader) (end : ℕ) → Inside r → End r end → Ahead r 1 r.depth true (after_string r end)
after_string_lem r end i (p, q) = record {
  same = refl;
  ahead = omega (arith, p, q, i.small);
  within = omega (arith, q, i.small);
  deep = refl;
  comma = refl;
}

abbrev pub Text : Reader → List ℕ × Reader → Type 0
Text r (text, r') = Ahead r 1 r.depth true r'

pub str_lem : (r : Reader) → Inside r → Holds (Text r) (str r)
unfolding str
str_lem r i = bind-Holds (Quoted r) (Text r) _ _ (quoted_lem r i) (λ (r', end, text) (p, q).
    if-Holds (Text r) (is_utf8 text) _ _
      (λ _.
        let a = after_string_lem r' end (Ahead-Inside i p) q in
        let t = Ahead-trans p a in
        record {
          same = t.same;
          ahead = omega (arith, t.ahead);
          within = t.within;
          deep = a.deep ∙ p.deep;
          comma = refl;
        })
      (λ _. tt))

-- What finds the next member moves on, and leaves the container when there is none.
abbrev pub Finds : (Reader → Result (Bool × Reader) JsonError) → Type 0
Finds next = (r : Reader) → Inside r → Holds (Member r) (next r)

pub next_element-Finds : Finds next_element
unfolding next_element
next_element-Finds r i = next_member_lem 93 Expected.element_or_close r i

abbrev Keyed : Reader → Option (List ℕ) × Reader → Type 0
Keyed r (some key, r') = Ahead r 2 r.depth false r'
Keyed r (none, r') = Ahead r 1 (r.depth - 1) true r'

next_key_lem : (r : Reader) → Inside r → Holds (Keyed r) (next_key r)
unfolding next_key
next_key_lem r i =
    bind-Holds (Member r) (Keyed r) _ _ (next_member_lem 125 Expected.key_or_close r i)
      (λ (more, r') m. member more r' m)
  where
    member :
        (more : Bool) (r' : Reader)
        → Member r (more, r')
        → Holds (Keyed r) (
            if more
            then (str r' >>= λ (key, r').
                expect_byte 58 Expected.colon (record r' { after_value = false }) >>= λ r''.
                ok (some key, r''))
            else ok (none, r'))
    member false r' m = m
    member true r' (a, m) =
        bind-Holds (Text r') (Keyed r) _ _ (str_lem r' (Ahead-Inside i m)) (λ (key, s) p.
          bind-Holds (Ahead (record s { after_value = false }) 1 s.depth false) (Keyed r) _ _
            (expect_byte_lem 58 Expected.colon (record s { after_value = false })
              (record { within = p.within; small = (Ahead-Inside (Ahead-Inside i m) p).small }))
            (λ u q. record {
              same = q.same ∙ p.same ∙ m.same;
              ahead = omega (arith, m.ahead, p.ahead, q.ahead);
              within = q.within;
              deep = q.deep ∙ p.deep ∙ m.deep;
              comma = q.comma;
            }))

pub has_key-Finds : Finds has_key
unfolding has_key
has_key-Finds r i =
    bind-Holds (Keyed r) (Member r) _ _ (next_key_lem r i) (λ (key, r') p. found key r' p)
  where
    found :
        (key : Option (List ℕ)) (r' : Reader)
        → Keyed r (key, r')
        → Member r (elim key [ none ↦ false | some _ ↦ true ], r')
    found none r' p = p
    found (some key) r' p = (false, Ahead-less p)
