-- ===== src/Journal/Record.antt =====
-- A sealed record decodes to its header, whatever follows it.
use bowst.Prelude.{
  ℕ, ◌+◌, ◌^◌, ◌<◌, ◌≤◌, ◌≡◌, refl, sym, ap, ◌∙◌, subst, true, false, none, some, List, [], ◌++◌,
  length, take, replicate, ltb, ◌==◌, ok, sat_add, length-append, drop-append_length, drop-all, ap₂,
  slice?, le_bytes, overwrite, arith,
}
use mathlib.Core.List.{append_assoc}
use bowst.Journal.{
  RecordHeader, max_payload, word_at, encode_record_header, upto, onward, whole, record_checksum,
  header_checksum, seal, decode_body, decode_record,
}
use bowst.Journal.Fields.{
  overwrite-gap, slice?-mid, word_at-le_bytes, encoded, front, bytes_of, IsWordHeader,
}

overwrite-same :
    (d g f p : List ℕ)
    → length f ≡ length g
    → overwrite (d ++ (g ++ p)) (length d) f ≡ d ++ (f ++ p)
overwrite-same d g f p e =
    overwrite-gap d g f p (omega (arith, e))
    ∙ ap (λ t. d ++ (f ++ (t ++ p))) (drop-all g (length f) (omega (arith, e)))

upto-front : (d r : List ℕ) (n : ℕ) → length d ≡ n → upto (d ++ r) n ≡ d
upto-front d r n e =
    let size : n ≡ length {A = ℕ} [] + length d = omega (arith, e) in
    let whole_front : slice? (d ++ r) 0 (length {A = ℕ} [] + length d) ≡ some d =
      slice?-mid [] d r in
    rw size (ap (λ o. elim o as (λ _. List ℕ) [ some b ↦ b | none ↦ [] ]) whole_front)

module _ (crc : List ℕ → ℕ) where
  record_checksum-parts :
      (d g k p : List ℕ)
      → length d ≡ 24
      → length g ≡ 4
      → length k ≡ 4
      → record_checksum crc (d ++ (g ++ (k ++ p))) ≡ crc (d ++ p)
  unfolding record_checksum
  record_checksum-parts d g k p e f h =
      let size : 32 ≡ length (d ++ (g ++ k)) =
        omega (arith, length-append d (g ++ k), length-append g k, e, f, h) in
      let assoc : d ++ (g ++ (k ++ p)) ≡ (d ++ (g ++ k)) ++ p =
        sym (append_assoc d (g ++ k) p ∙ ap (λ t. d ++ t) (append_assoc g k p)) in
      let tail : onward (d ++ (g ++ (k ++ p))) 32 ≡ p =
        rw assoc (drop-append_length (d ++ (g ++ k)) p 32 size) in
      ap₂ (λ x y. crc (x ++ y)) (upto-front d (g ++ (k ++ p)) 24 e) tail

  header_checksum-parts :
      (d r : List ℕ) (c : ℕ)
      → length d ≡ 24
      → header_checksum crc (d ++ r) c ≡ crc (d ++ le_bytes 4 c)
  unfolding header_checksum
  header_checksum-parts d r c e = ap (λ t. crc (t ++ le_bytes 4 c)) (upto-front d r 24 e)

  abbrev pub crc_of : List ℕ → List ℕ → ℕ
  crc_of d p = crc (d ++ p)

  abbrev pub header_crc_of : List ℕ → List ℕ → ℕ
  header_crc_of d p = crc (d ++ le_bytes 4 (crc_of d p))

  seal-parts :
      (d g k p : List ℕ)
      → length d ≡ 24
      → length g ≡ 4
      → length k ≡ 4
      → seal crc (d ++ (g ++ (k ++ p)))
        ≡ d ++ (le_bytes 4 (crc_of d p) ++ (le_bytes 4 (header_crc_of d p) ++ p))
  unfolding seal
  seal-parts d g k p e f h =
      let c = le_bytes 4 (crc_of d p) in
      let hc = le_bytes 4 (header_crc_of d p) in
      let first : overwrite (d ++ (g ++ (k ++ p))) 24 c ≡ d ++ (c ++ (k ++ p)) =
        subst (λ n. overwrite (d ++ (g ++ (k ++ p))) n c ≡ d ++ (c ++ (k ++ p))) e
          (overwrite-same d g c (k ++ p) (sym f)) in
      let size : length (d ++ c) ≡ 28 = omega (arith, length-append d c, e) in
      let second : overwrite (d ++ (c ++ (k ++ p))) 28 hc ≡ d ++ (c ++ (hc ++ p)) =
        rw (← append_assoc d c (k ++ p)) (
          subst (λ n. overwrite ((d ++ c) ++ (k ++ p)) n hc ≡ d ++ (c ++ (hc ++ p))) size
            (overwrite-same (d ++ c) k hc p (sym h) ∙ append_assoc d c (hc ++ p))) in
      rw
        (
          record_checksum-parts d g k p e f h,
          header_checksum-parts d (g ++ (k ++ p)) (crc_of d p) e,
          first,
        )
        second

  abbrev pub sealed : RecordHeader → List ℕ → List ℕ → List ℕ
  sealed h p rest =
      bytes_of h (length p) (crc_of (front h (length p)) p) (header_crc_of (front h (length p)) p)
        (p ++ rest)

  pub seal_encoded :
      (h : RecordHeader) (p rest : List ℕ)
      → seal crc (encode_record_header h (length p) (replicate 32 0 ++ p)) ++ rest ≡ sealed h p rest
  seal_encoded h p rest =
      rw
        (
          encoded h (length p) p,
          seal-parts (front h (length p)) (le_bytes 4 0) (le_bytes 4 0) p refl refl refl,
        )
        refl

  decoded_body :
      (h : RecordHeader) (p : List ℕ) (c k total offset : ℕ)
      → IsWordHeader h
      → c ≡ crc_of (front h (length p)) p
      → c < 2 ^ 32
      → decode_body crc (bytes_of h (length p) c k p) total offset ≡ ok (whole h total)
  unfolding decode_body
  decoded_body h p c k total offset v e b =
      let n = length p in
      let check : record_checksum crc (bytes_of h n c k p) ≡ c =
        record_checksum-parts (front h n) (le_bytes 4 c) (le_bytes 4 k) p refl refl refl ∙ sym e in
      let kept = word_at-le_bytes 4 c (front h n) (le_bytes 4 k ++ p) (omega arith) b in
      let tail = le_bytes 4 c ++ (le_bytes 4 k ++ p) in
      let a =
        word_at-le_bytes 2 h.kind []
          (le_bytes 2 h.source
            ++ (le_bytes 4 n ++ (le_bytes 8 h.mono ++ (le_bytes 8 h.wall ++ tail))))
          (omega arith) v.kind_word in
      let s =
        word_at-le_bytes 2 h.source (le_bytes 2 h.kind)
          (le_bytes 4 n ++ (le_bytes 8 h.mono ++ (le_bytes 8 h.wall ++ tail))) (omega arith)
          v.source_word in
      let m =
        word_at-le_bytes 8 h.mono (le_bytes 2 h.kind ++ (le_bytes 2 h.source ++ le_bytes 4 n))
          (le_bytes 8 h.wall ++ tail) (omega arith) v.mono_word in
      let w =
        word_at-le_bytes 8 h.wall
          (le_bytes 2 h.kind ++ (le_bytes 2 h.source ++ (le_bytes 4 n ++ le_bytes 8 h.mono))) tail
          (omega arith) v.wall_word in
      let equal : c == c ≡ true = ground arith in rw (check, kept, equal, a, s, m, w) refl

  decoded :
      (h : RecordHeader) (p rest : List ℕ) (c k offset : ℕ)
      → IsWordHeader h
      → length p ≤ max_payload
      → c ≡ crc_of (front h (length p)) p
      → k ≡ header_crc_of (front h (length p)) p
      → c < 2 ^ 32
      → k < 2 ^ 32
      → decode_record crc (bytes_of h (length p) c k (p ++ rest)) offset
        ≡ ok (whole h (32 + length p))
  unfolding decode_record
  decoded h p rest c k offset v l ec ek bc bk =
      let n = length p in
      let all = bytes_of h n c k (p ++ rest) in
      let long : ltb (length all) 32 ≡ false = ground arith in
      let kept_c : word_at 4 all 24 ≡ c =
        word_at-le_bytes 4 c (front h n) (le_bytes 4 k ++ (p ++ rest)) (omega arith) bc in
      let kept_k : word_at 4 all 28 ≡ k =
        word_at-le_bytes 4 k (front h n ++ le_bytes 4 c) (p ++ rest) (omega arith) bk in
      let kept_n : word_at 4 all 4 ≡ n =
        word_at-le_bytes 4 n (le_bytes 2 h.kind ++ le_bytes 2 h.source)
          (le_bytes 8 h.mono
            ++ (le_bytes 8 h.wall ++ (le_bytes 4 c ++ (le_bytes 4 k ++ (p ++ rest)))))
          (omega arith) (omega arith) in
      let check : header_checksum crc all c ≡ k =
        header_checksum-parts (front h n) (le_bytes 4 c ++ (le_bytes 4 k ++ (p ++ rest))) c refl
        ∙ sym (ek ∙ ap (λ t. crc (front h n ++ le_bytes 4 t)) (sym ec)) in
      let equal : k == k ≡ true = ground arith in
      let small : ltb max_payload n ≡ false = ground arith in
      let total : sat_add 32 n ≡ 32 + n = omega arith in
      let size : 32 + n ≡ length {A = ℕ} [] + length (bytes_of h n c k p) = omega arith in
      let cut : slice? all 0 (32 + n) ≡ some (bytes_of h n c k p) =
        rw size (slice?-mid [] (bytes_of h n c k p) rest) in
      rw (long, kept_c, check, kept_k, equal, kept_n, small, total)
        (rw cut (rw (kept_n, total) (decoded_body h p c k (32 + n) offset v ec bc)))

-- A record that is encoded into a zeroed header before its payload and sealed decodes to its header
-- and its whole length, whatever bytes follow it. The header's fields are words, the payload is at
-- most the largest one, and checksums are 32-bit words.
pub decode_record-seal :
    (crc : List ℕ → ℕ) (h : RecordHeader) (p rest : List ℕ) (offset : ℕ)
    → ((bs : List ℕ) → crc bs < 2 ^ 32)
    → IsWordHeader h
    → length p ≤ max_payload
    → decode_record crc
        (seal crc (encode_record_header h (length p) (replicate 32 0 ++ p)) ++ rest)
        offset
      ≡ ok (whole h (32 + length p))
decode_record-seal crc h p rest offset word v l =
    rw (seal_encoded crc h p rest) (decoded crc h p rest _ _ offset v l refl refl (word _) (word _))

-- What decodes to a record lies within the bytes, is longer than its header by at most the largest
-- payload, and has both checksums right: no more is read than is there, and reading goes forward.
pub decode_record_sound :
    (crc : List ℕ → ℕ) (bytes : List ℕ) (offset total : ℕ) (h : RecordHeader)
    → decode_record crc bytes offset ≡ ok (whole h total)
    → (32 ≤ total)
      × (total ≤ length bytes)
      × (total ≤ 32 + max_payload)
      × (header_checksum crc bytes (word_at 4 bytes 24) ≡ word_at 4 bytes 28)
      × (record_checksum crc (take total bytes) ≡ word_at 4 (take total bytes) 24)
unfolding decode_record decode_body slice?
decode_record_sound crc bytes offset total h e = ground arith
