-- ===== src/Journal/Fields.antt =====
-- Writing fields one behind the other, and reading words back where they were written.
use bowst.Prelude.{
  ℕ, suc, ◌+◌, ◌-◌, ◌^◌, ◌<◌, ◌≤◌, ◌≡◌, refl, sym, ap, ◌∙◌, true, false, some, List, [], ◌∷◌, ◌++◌,
  length, take, drop, replicate, ltb, leb, ok, sat_add, u64_max, length-append, length-drop,
  drop-append_length, drop-append_le, take-append_le, take-all, slice?, le_bytes, overwrite,
  of_le-le_bytes, length-le_bytes, arith,
}
use mathlib.Core.List.{append_assoc}
use bowst.Journal.{
  RecordHeader, word_at, put_fields, header_fields, encode_record_header, encode_file_header,
  decode_file_header, magic,
}

take-append_length : (d r : List ℕ) → take (length d) (d ++ r) ≡ d
take-append_length d r =
    take-append_le d r (length d) (omega arith) ∙ take-all d (length d) (omega arith)

-- Writing over a gap of the same length.
pub overwrite-gap :
    (d g f p : List ℕ)
    → length f ≤ length g
    → overwrite (d ++ (g ++ p)) (length d) f ≡ d ++ (f ++ (drop (length f) g ++ p))
unfolding overwrite
overwrite-gap d g f p h =
    let fits : leb (length d + length f) (length (d ++ (g ++ p))) ≡ true =
      ground (arith, length-append d (g ++ p), length-append g p) in
    rw (fits, take-append_length d (g ++ p), drop_both d g p (length f) h)
  where
    drop_both :
        (d g p : List ℕ) (k : ℕ)
        → k ≤ length g
        → drop (length d + k) (d ++ (g ++ p)) ≡ drop k g ++ p
    drop_both [] g p k h = let e : 0 + k ≡ k = omega arith in rw e (drop-append_le g p k h)
    drop_both (x ∷ d) g p k h =
        let e : suc (length d) + k ≡ suc (length d + k) = omega arith in rw e (drop_both d g p k h)

-- What the fields are together.
abbrev pub concat : List (List ℕ) → List ℕ
concat [] = []
concat (f ∷ fs) = f ++ concat fs

pub put_fields_lem :
    (fs : List (List ℕ)) (d g p : List ℕ)
    → length g ≡ length (concat fs)
    → length d + length g ≤ u64_max
    → put_fields (d ++ (g ++ p)) (length d) fs ≡ d ++ (concat fs ++ p)
unfolding put_fields
put_fields_lem [] d [] p e h = refl
put_fields_lem [] d (x ∷ g) p e h = absurd (omega arith)
put_fields_lem (f ∷ fs) d g p e h =
    let le : length f ≤ length g = omega (arith, e, length-append f (concat fs)) in
    let next : sat_add (length d) (length f) ≡ length (d ++ f) = omega (arith, length-append d f) in
    let ih =
      put_fields_lem fs (d ++ f) (drop (length f) g) p
        (omega (arith, e, length-append f (concat fs), length-drop (length f) g))
        (omega (arith, length-append d f, length-drop (length f) g)) in
    rw (overwrite-gap d g f p le, next, ← append_assoc d f (drop (length f) g ++ p))
      (ih
        ∙ append_assoc d f (concat fs ++ p)
        ∙ ap (λ t. d ++ t) (sym (append_assoc f (concat fs) p)))

pub slice?-mid : (d f r : List ℕ) → slice? (d ++ (f ++ r)) (length d) (length d + length f) ≡ some f
unfolding slice?
slice?-mid d f r =
    let fits : leb (length d + length f) (length (d ++ (f ++ r))) ≡ true =
      ground (arith, length-append d (f ++ r), length-append f r) in
    let ordered : leb (length d) (length d + length f) ≡ true = ground arith in
    let size : length d + length f - length d ≡ length f = omega arith in
    rw (fits, ordered, size, drop-append_length d (f ++ r) (length d) refl, take-append_length f r)

-- Reading a word back where it was written.
pub word_at-le_bytes :
    (w n : ℕ) (d r : List ℕ)
    → length d + w ≤ u64_max
    → n < 256 ^ w
    → word_at w (d ++ (le_bytes w n ++ r)) (length d) ≡ n
unfolding word_at
word_at-le_bytes w n d r h b =
    let e : sat_add (length d) w ≡ length d + length (le_bytes w n) =
      omega (arith, length-le_bytes w n) in
    rw (word_at, e) (rw (slice?-mid d (le_bytes w n) r) (of_le-le_bytes w n b))

-- The bytes of a record with given checksums.
abbrev pub front : RecordHeader → ℕ → List ℕ
front h n =
    le_bytes 2 h.kind
    ++ (le_bytes 2 h.source ++ (le_bytes 4 n ++ (le_bytes 8 h.mono ++ le_bytes 8 h.wall)))

abbrev pub bytes_of : RecordHeader → ℕ → ℕ → ℕ → List ℕ → List ℕ
bytes_of h n c k p = front h n ++ (le_bytes 4 c ++ (le_bytes 4 k ++ p))

-- The fields are words of their sizes.
pub record IsWordHeader (h : RecordHeader) : Type 0 where
  pub kind_word : h.kind < 2 ^ 16
  pub source_word : h.source < 2 ^ 16
  pub mono_word : h.mono < 2 ^ 64
  pub wall_word : h.wall < 2 ^ 64

pub encoded :
    (h : RecordHeader) (n : ℕ) (p : List ℕ)
    → encode_record_header h n (replicate 32 0 ++ p) ≡ bytes_of h n 0 0 p
unfolding encode_record_header
encoded h n p = put_fields_lem (header_fields h n) [] (replicate 32 0) p refl (omega arith)

-- A segment's file header decodes to the segment's index, whatever follows it.
pub decode_file_header-encode :
    (segment created : ℕ) (rest : List ℕ)
    → segment < 2 ^ 32
    → decode_file_header (encode_file_header segment created ++ rest) ≡ ok segment
unfolding encode_file_header decode_file_header
decode_file_header-encode segment created rest h =
    let fields = magic ∷ le_bytes 4 1 ∷ le_bytes 4 segment ∷ le_bytes 8 created ∷ [] in
    let e : encode_file_header segment created
        ≡ magic ++ (le_bytes 4 1 ++ (le_bytes 4 segment ++ (le_bytes 8 created ++ replicate 8 0))) =
      put_fields_lem fields [] (replicate 24 0) (replicate 8 0) refl (omega arith) in
    let tail = le_bytes 8 created ++ (replicate 8 0 ++ rest) in
    let v = word_at-le_bytes 4 1 magic (le_bytes 4 segment ++ tail) (omega arith) (omega arith) in
    let s = word_at-le_bytes 4 segment (magic ++ le_bytes 4 1) tail (omega arith) h in
    let all = magic ++ (le_bytes 4 1 ++ (le_bytes 4 segment ++ tail)) in
    let m : slice? all 0 8 ≡ some magic =
      slice?-mid [] magic (le_bytes 4 1 ++ (le_bytes 4 segment ++ tail)) in
    let long : ltb (length all) 32 ≡ false = ground arith in rw (e, long, m, v, s) refl
