-- ===== src/Journal/Torn.antt =====
-- A record that is cut short decodes to nothing.
use bowst.Prelude.{
  ℕ, zero, suc, ◌+◌, ◌-◌, ◌<◌, ◌≤◌, ◌≡◌, refl, ap, ◌∙◌, Bool-cases, true, false, inl, inr, none,
  some, List, [], ◌∷◌, ◌++◌, length, take, drop, ltb, ◌==◌, ok, sat_add, u64_max, length-take,
  slice?, le_bytes, arith,
}
use bowst.Journal.{
  RecordHeader, max_payload, word_at, whole, incomplete, header_checksum, decode_body,
  decode_record,
}
use bowst.Journal.Record.{decode_record_sound}

take-drop-take :
    (n i w : ℕ) (xs : List ℕ) → i + w ≤ n → take w (drop i (take n xs)) ≡ take w (drop i xs)
take-drop-take zero zero zero xs h = refl
take-drop-take zero zero (suc w) xs h = absurd (omega arith)
take-drop-take zero (suc i) w xs h = absurd (omega arith)
take-drop-take (suc n) i w [] h = refl
take-drop-take (suc n) zero zero (x ∷ xs) h = refl
take-drop-take (suc n) zero (suc w) (x ∷ xs) h =
    ap (λ t. x ∷ t) (take-drop-take n zero w xs (omega arith))
take-drop-take (suc n) (suc i) w (x ∷ xs) h = take-drop-take n i w xs (omega arith)

slice?-prefix :
    (bytes : List ℕ) (n i w : ℕ)
    → i + w ≤ n
    → n ≤ length bytes
    → slice? (take n bytes) i (i + w) ≡ slice? bytes i (i + w)
unfolding slice?
slice?-prefix bytes n i w h le =
    let size : i + w - i ≡ w = omega arith in
    let same : take w (drop i (take n bytes)) ≡ take w (drop i bytes) =
      take-drop-take n i w bytes h in
    rw (size, same) (ground (arith, length-take n bytes))

word_at-prefix :
    (bytes : List ℕ) (n w i : ℕ)
    → i + w ≤ n
    → n ≤ length bytes
    → i + w ≤ u64_max
    → word_at w (take n bytes) i ≡ word_at w bytes i
unfolding word_at
word_at-prefix bytes n w i h le small =
    let e : sat_add i w ≡ i + w = omega arith in
    rw (word_at, e) (rw (slice?-prefix bytes n i w h le) refl)

slice?-past : (bytes : List ℕ) (end : ℕ) → length bytes < end → slice? bytes 0 end ≡ none
unfolding slice?
slice?-past bytes end h = ground arith

-- The length that a record's header names.
length_named :
    (crc : List ℕ → ℕ) (bytes : List ℕ) (offset total : ℕ) (h : RecordHeader)
    → decode_record crc bytes offset ≡ ok (whole h total)
    → (total ≡ sat_add 32 (word_at 4 bytes 4)) × (ltb max_payload (word_at 4 bytes 4) ≡ false)
unfolding decode_record decode_body slice?
length_named crc bytes offset total h e = ground arith

header_checksum-prefix :
    (crc : List ℕ → ℕ) (bytes : List ℕ) (n c : ℕ)
    → 24 ≤ n
    → n ≤ length bytes
    → header_checksum crc (take n bytes) c ≡ header_checksum crc bytes c
unfolding header_checksum
header_checksum-prefix crc bytes n c h le =
    ap (λ o. crc (elim o as (λ _. List ℕ) [ some b ↦ b | none ↦ [] ] ++ le_bytes 4 c))
      (slice?-prefix bytes n 0 24 h le)

-- A record that is cut short anywhere, also within its header, decodes as incomplete: it is neither
-- accepted nor reported as corrupt.
pub decode_record_torn :
    (crc : List ℕ → ℕ) (bytes : List ℕ) (offset total n : ℕ) (h : RecordHeader)
    → decode_record crc bytes offset ≡ ok (whole h total)
    → n < total
    → decode_record crc (take n bytes) offset ≡ ok incomplete
unfolding decode_record
decode_record_torn crc bytes offset total n h e lt =
    let (_, le, _, good, _) = decode_record_sound crc bytes offset total h e in
    elim (Bool-cases (ltb n 32)) [
      | inl short ↦ ground (arith, length-take n bytes)
      | inr long ↦
          let a = word_at-prefix bytes n 4 24 (ground arith) (omega arith) (omega arith) in
          let b = word_at-prefix bytes n 4 28 (ground arith) (omega arith) (omega arith) in
          let c = word_at-prefix bytes n 4 4 (ground arith) (omega arith) (omega arith) in
          let same : header_checksum crc (take n bytes) (word_at 4 bytes 24) ≡ word_at 4 bytes 28 =
            header_checksum-prefix crc bytes n (word_at 4 bytes 24) (ground arith) (omega arith)
            ∙ good in
          let (len, small) = length_named crc bytes offset total h e in
          let size : length (take n bytes) ≡ n = omega (arith, length-take n bytes) in
          let cut = slice?-past (take n bytes) total (omega arith) in
          let equal : word_at 4 bytes 28 == word_at 4 bytes 28 ≡ true = ground arith in
          rw (size, long, a, same, b, equal, c, small, ← len) (rw cut refl)
    ]
