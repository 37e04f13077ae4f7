-- ===== src/Ids/Text.antt =====
-- The text of a client order id decodes to it, and nothing else does.
use bowst.Prelude.{
  not, ◌||◌, length-take, length-drop, ℕ, zero, suc, ◌%◌, ◌/◌, ◌≤◌, ◌≡◌, refl, sym, ap, ap₂, ◌∙◌,
  subst, Bool, true, false, ◌==◌, Option, none, some, List, [], ◌∷◌, ◌++◌, reverse, length,
  length-append, length-reverse, take, drop, take-append-drop, take-append_le, take-all,
  drop-append_length, if◌then◌else◌, u32_max, arith,
}
use mathlib.Core.List.{reverse-append, reverse-reverse}
use bowst.Ids.{
  ClientOrderId, hex, hex_digit, nibbles, write_hex, encode, decode, read_parts, strip_prefix,
  contains, all_hex, parse_hex, prefix,
}
use bowst.Ids.Hex.{parse_hex-nibbles, parse_hex-last, hex_digit-digit_value, contains-hex_digit}

length-nibbles : (n v : ℕ) → length (nibbles n v) ≡ n
unfolding nibbles
length-nibbles zero v = refl
length-nibbles (suc n) v = ap suc (length-nibbles n (v / 16))

-- The digits of an id are digits of the alphabet.
contains-nibble : (v : ℕ) → contains hex (hex_digit (v % 256 % 16)) ≡ true
contains-nibble v = contains-hex_digit (v % 256 % 16) (omega arith)

all_hex-append :
    (xs ys : List ℕ) → all_hex xs ≡ true → all_hex ys ≡ true → all_hex (xs ++ ys) ≡ true
all_hex-append [] ys h k = k
all_hex-append (x ∷ xs) ys h k = ground (arith, all_hex-append xs ys)

all_hex-write : (n v : ℕ) → all_hex (reverse (nibbles n v)) ≡ true
unfolding nibbles
all_hex-write zero v = refl
all_hex-write (suc n) v = rw (reverse-append (hex_digit (v % 256 % 16) ∷ []) (nibbles n (v / 16))) (
    all_hex-append (reverse (nibbles n (v / 16))) (hex_digit (v % 256 % 16) ∷ [])
      (all_hex-write n (v / 16)) (ground (arith, contains-nibble v)))

read_parts-some :
    (digits : List ℕ) (id : ClientOrderId)
    → parse_hex 0 (take 8 digits) ≡ some id.session
    → parse_hex 0 (drop 8 digits) ≡ some id.sequence
    → read_parts digits ≡ some id
unfolding read_parts
read_parts-some digits id p q = rw (read_parts, p) (rw q refl)

-- The text of an id decodes to the id. Both parts are 32-bit words.
pub decode-encode :
    (id : ClientOrderId)
    → id.session ≤ u32_max
    → id.sequence ≤ u32_max
    → decode (encode id) ≡ some id
unfolding decode encode
decode-encode id s q =
    let a = write_hex id.session 8 in
    let b = write_hex id.sequence 8 in
    let eight : (v : ℕ) → 8 ≡ length (write_hex v 8) =
      λ v. omega (arith, length-reverse (nibbles 8 v), length-nibbles 8 v) in
    let size : length (a ++ b) == 16 ≡ true =
      ground (arith, length-append a b, eight id.session, eight id.sequence) in
    let digits = all_hex-append a b (all_hex-write 8 id.session) (all_hex-write 8 id.sequence) in
    let front : take 8 (a ++ b) ≡ a =
      take-append_le a b 8 (omega (arith, eight id.session))
      ∙ take-all a 8 (omega (arith, eight id.session)) in
    let back : drop 8 (a ++ b) ≡ b = drop-append_length a b 8 (eight id.session) in
    let parsed : read_parts (a ++ b) ≡ some id =
      read_parts-some (a ++ b) id (rw front (parse_hex-nibbles 8 id.session (omega arith) s))
        (rw back (parse_hex-nibbles 8 id.sequence (omega arith) q)) in
    rw (size, digits) parsed

all_hex-split :
    (xs : List ℕ) (c : ℕ)
    → all_hex (xs ++ (c ∷ [])) ≡ true
    → (all_hex xs ≡ true) × (contains hex c ≡ true)
all_hex-split [] c h = (refl, ground (arith, h))
all_hex-split (x ∷ xs) c h = ground (arith, all_hex-split xs c)

-- Reading digits of the alphabet and writing them again gives the same digits.
nibbles-parse_hex :
    (cs : List ℕ) (v : ℕ)
    → all_hex (reverse cs) ≡ true
    → parse_hex 0 (reverse cs) ≡ some v
    → nibbles (length cs) v ≡ cs
unfolding nibbles
nibbles-parse_hex [] v h e = refl
nibbles-parse_hex (c ∷ cs) v h e =
    let split = reverse-append (c ∷ []) cs in
    let (h', k) = all_hex-split (reverse cs) c (rw split at h) in
    let (a, d, p, q, s) = parse_hex-last (reverse cs) c v (rw split at e) in
    let (own, small) = hex_digit-digit_value c d k q in
    let low : v % 256 % 16 ≡ d = omega (arith, s, small) in
    let high : v / 16 ≡ a = omega (arith, s, small) in
    rw (low, high, own) (ap (λ t. c ∷ t) (nibbles-parse_hex cs a h' p))

write_hex-parse_hex :
    (bs : List ℕ) (v : ℕ)
    → length bs ≡ 8
    → all_hex bs ≡ true
    → parse_hex 0 bs ≡ some v
    → write_hex v 8 ≡ bs
write_hex-parse_hex bs v n h e =
    let twice = reverse-reverse bs in
    let size : length (reverse bs) ≡ 8 = length-reverse bs ∙ n in
    let same =
      nibbles-parse_hex (reverse bs) v (subst (λ t. all_hex t ≡ true) (sym twice) h)
        (subst (λ t. parse_hex 0 t ≡ some v) (sym twice) e) in
    ap reverse (subst (λ k. nibbles k v ≡ reverse bs) size same) ∙ twice

all_hex-halves :
    (n : ℕ) (xs : List ℕ)
    → all_hex xs ≡ true
    → (all_hex (take n xs) ≡ true) × (all_hex (drop n xs) ≡ true)
all_hex-halves zero xs h = (refl, h)
all_hex-halves (suc n) [] h = (refl, refl)
all_hex-halves (suc n) (x ∷ xs) h = ground (arith, all_hex-halves n xs)

strip_prefix_lem :
    (text digits : List ℕ) → strip_prefix text ≡ some digits → text ≡ prefix ++ digits
strip_prefix_lem [] digits e = absurd (cc)
strip_prefix_lem (a ∷ []) digits e = absurd (cc)
strip_prefix_lem (a ∷ b ∷ rest) digits e = ground (arith, e)

same_of_eq : (a b : ℕ) → a == b ≡ true → a ≡ b
same_of_eq a b h = ground arith

-- The parts that digits were read as.
read_parts_lem :
    (digits : List ℕ) (id : ClientOrderId)
    → read_parts digits ≡ some id
    → (parse_hex 0 (take 8 digits) ≡ some id.session)
      × (parse_hex 0 (drop 8 digits) ≡ some id.sequence)
unfolding read_parts
read_parts_lem digits id e = go (parse_hex 0 (take 8 digits)) (parse_hex 0 (drop 8 digits)) e
  where
    go :
        (o o' : Option ℕ)
        → elim o as (λ _. Option ClientOrderId) [
          | none ↦ none
          | some s ↦ elim o' as (λ _. Option ClientOrderId) [
            | none ↦ none
            | some q ↦ some (record { session = s; sequence = q })
          ]
        ]
          ≡ some id
        → (o ≡ some id.session) × (o' ≡ some id.sequence)
    go none o' h = absurd (cc)
    go (some s) none h = absurd (cc)
    go (some s) (some q) h =
        let made : record { session = s; sequence = q } ≡ id = ground arith in
        (ap (λ t. some t.session) made, ap (λ t. some t.sequence) made)

decode_digits :
    (text : List ℕ) (id : ClientOrderId)
    → decode text ≡ some id
    → (digits : List ℕ) × (strip_prefix text ≡ some digits)
      × (length digits ≡ 16)
      × (all_hex digits ≡ true)
      × (read_parts digits ≡ some id)
unfolding decode
decode_digits text id e = go (strip_prefix text) refl e
  where
    checked :
        (b c : Bool) (o : Option ClientOrderId)
        → (if not b || not c then none else o) ≡ some id
        → (b ≡ true) × (c ≡ true) × (o ≡ some id)
    checked true true o h = (refl, refl, h)
    checked true false o h = absurd (cc)
    checked false c o h = absurd (cc)

    go :
        (o : Option (List ℕ))
        → strip_prefix text ≡ o
        → elim o as (λ _. Option ClientOrderId) [
          | none ↦ none
          | some digits ↦
              if not (length digits == 16) || not (all_hex digits) then none else read_parts digits
        ]
          ≡ some id
        → (digits : List ℕ) × (strip_prefix text ≡ some digits)
          × (length digits ≡ 16)
          × (all_hex digits ≡ true)
          × (read_parts digits ≡ some id)
    go none f h = absurd (cc)
    go (some digits) f h =
        let (n, k, r) = checked (length digits == 16) (all_hex digits) (read_parts digits) h in
        (digits, f, same_of_eq (length digits) 16 n, k, r)

-- A text that decodes to an id is the text of that id: no other text, such as one with capital
-- digits or of another length, is taken for it.
pub encode-decode : (text : List ℕ) (id : ClientOrderId) → decode text ≡ some id → encode id ≡ text
unfolding encode
encode-decode text id e =
    let (digits, f, n, h, r) = decode_digits text id e in
    let (p, q) = read_parts_lem digits id r in
    let (ha, hb) = all_hex-halves 8 digits h in
    let a =
      write_hex-parse_hex (take 8 digits) id.session (omega (arith, length-take 8 digits, n)) ha
        p in
    let b =
      write_hex-parse_hex (drop 8 digits) id.sequence (omega (arith, length-drop 8 digits, n)) hb
        q in
    ap₂ (λ x y. prefix ++ (x ++ y)) a b
    ∙ ap (λ t. prefix ++ t) (take-append-drop 8 digits)
    ∙ sym (strip_prefix_lem text digits f)
