-- ===== src/Journal/Reader/Next.antt =====
-- What reading one record gives.
use bowst.Prelude.{
  ℕ, zero, suc, ◌+◌, ◌^◌, ◌<◌, ◌≤◌, ◌≡◌, refl, sym, ap, ◌∙◌, true, none, some, List, [], ◌++◌,
  length, length-append, length-take, drop, take, replicate, drop-append_length, ltb, if◌then◌else◌,
  ok, err, sat_add, u64_max, slice?, arith,
}
use mathlib.Core.List.{append_assoc, append-nil}
use bowst.Journal.{max_payload, whole, incomplete, encode_record_header, seal, decode_record}
use bowst.Journal.Fields.{IsWordHeader, slice?-mid, front, bytes_of}
use bowst.Journal.Record.{decode_record-seal, seal_encoded, crc_of, header_crc_of}
use bowst.Journal.Torn.{decode_record_torn}
use bowst.Journal.Reader.{
  JournalReader, Record, truncated, current_path, skip, turns, read_here, next_record,
}

-- The bytes of a record as the writer leaves them.
abbrev pub record_bytes : (List ℕ → ℕ) → Record → List ℕ
record_bytes crc x =
    seal crc (encode_record_header x.header (length x.payload) (replicate 32 0 ++ x.payload))

skip_here :
    (n : ℕ) (r : JournalReader) → ltb r.pos (length r.contents) ≡ true → skip n r ≡ (r, ok true)
unfolding skip
skip_here zero r h = rw (h, skip) refl
skip_here (suc n) r h = rw (h, skip) refl

next_record-here :
    (crc : List ℕ → ℕ) (r : JournalReader)
    → ltb r.pos (length r.contents) ≡ true
    → next_record crc r ≡ read_here crc r
unfolding next_record
next_record-here crc r h =
    rw (skip_here (turns r) r h, next_record)
      (ap (λ s. read_here crc s.0) (skip_here (turns r) r h))

-- The header bytes of a sealed record.
abbrev head_bytes : (List ℕ → ℕ) → Record → List ℕ
head_bytes crc x =
    bytes_of x.header (length x.payload) (crc_of crc (front x.header (length x.payload)) x.payload)
      (header_crc_of crc (front x.header (length x.payload)) x.payload) []

laid_out :
    (crc : List ℕ → ℕ) (x : Record) (before rest : List ℕ)
    → before ++ (record_bytes crc x ++ rest) ≡ (before ++ head_bytes crc x) ++ (x.payload ++ rest)
laid_out crc x before rest =
    ap (λ t. before ++ t) (seal_encoded crc x.header x.payload rest)
    ∙ sym (append_assoc before (head_bytes crc x) (x.payload ++ rest))

-- Where a record of the journal stands next, reading gives its header and its payload, and goes on
-- behind it. Checksums are 32-bit words, the record is one that can be written, and the segment's
-- size is a 64-bit word.
pub next_record_reads :
    (crc : List ℕ → ℕ) (r : JournalReader) (x : Record) (before rest : List ℕ)
    → ((bs : List ℕ) → crc bs < 2 ^ 32)
    → IsWordHeader x.header
    → length x.payload ≤ max_payload
    → r.contents ≡ before ++ (record_bytes crc x ++ rest)
    → r.pos ≡ length before
    → length r.contents ≤ u64_max
    → next_record crc r ≡ (record r { pos = r.pos + (32 + length x.payload) }, ok (some x))
unfolding read_here
next_record_reads crc r x before rest word v l e p w =
    let n = length x.payload in
    let whole_size : length r.contents ≡ length before + (32 + (n + length rest)) =
      ap length (e ∙ laid_out crc x before rest)
      ∙ omega (
        arith,
        length-append (before ++ head_bytes crc x) (x.payload ++ rest),
        length-append before (head_bytes crc x),
        length-append x.payload rest,
      ) in
    let left : ltb r.pos (length r.contents) ≡ true = ground (arith, whole_size, p) in
    let tail : drop r.pos r.contents ≡ record_bytes crc x ++ rest =
      ap (drop r.pos) e ∙ drop-append_length before (record_bytes crc x ++ rest) r.pos p in
    let found : decode_record crc (drop r.pos r.contents) r.pos ≡ ok (whole x.header (32 + n)) =
      ap (λ t. decode_record crc t r.pos) tail
      ∙ decode_record-seal crc x.header x.payload rest r.pos word v l in
    let end : sat_add r.pos (32 + n) ≡ r.pos + (32 + n) = omega (arith, whole_size, p, w) in
    let start : sat_add r.pos 32 ≡ length (before ++ head_bytes crc x) =
      omega (arith, whole_size, p, w, length-append before (head_bytes crc x)) in
    let stop : r.pos + (32 + n) ≡ length (before ++ head_bytes crc x) + n =
      omega (arith, p, length-append before (head_bytes crc x)) in
    let cut : slice? r.contents (length (before ++ head_bytes crc x))
          (length (before ++ head_bytes crc x) + n)
        ≡ some x.payload =
      ap
        (λ t.
          slice? t (length (before ++ head_bytes crc x)) (length (before ++ head_bytes crc x) + n))
        (e ∙ laid_out crc x before rest)
      ∙ slice?-mid (before ++ head_bytes crc x) x.payload rest in
    let payload : slice? r.contents (sat_add r.pos 32) (r.pos + (32 + n)) ≡ some x.payload =
      rw (start, stop) cut in
    next_record-here crc r left ∙ rw (read_here, found) (rw (end) (rw payload refl))

pub length-record_bytes :
    (crc : List ℕ → ℕ) (x : Record) (rest : List ℕ)
    → length (record_bytes crc x ++ rest) ≡ 32 + (length x.payload + length rest)
length-record_bytes crc x rest =
    ap length (seal_encoded crc x.header x.payload rest)
    ∙ omega (arith, length-append x.payload rest)

-- Where a record that is cut short, though not to nothing, ends the segment, reading gives nothing
-- more and reports the torn tail if no segment follows, and reports the truncation if one does.
-- Checksums are 32-bit words, and the record is one that can be written.
pub next_record_torn :
    (crc : List ℕ → ℕ) (r : JournalReader) (x : Record) (before : List ℕ) (n : ℕ)
    → ((bs : List ℕ) → crc bs < 2 ^ 32)
    → IsWordHeader x.header
    → length x.payload ≤ max_payload
    → 0 < n
    → n < 32 + length x.payload
    → r.contents ≡ before ++ take n (record_bytes crc x)
    → r.pos ≡ length before
    → next_record crc r ≡ (
        if ltb r.next_file (length r.files)
        then (r, err (truncated (current_path r) r.pos))
        else (record r { pos = length r.contents; torn_tail = true }, ok none))
unfolding read_here
next_record_torn crc r x before n word v l some_bytes short e p =
    let size : length (record_bytes crc x) ≡ 32 + length x.payload =
      ap length (sym (append-nil (record_bytes crc x)))
      ∙ length-record_bytes crc x []
      ∙ omega arith in
    let left : ltb r.pos (length r.contents) ≡ true = ground (
      arith,
      p,
      ap length e,
      length-append before (take n (record_bytes crc x)),
      length-take n (record_bytes crc x),
      size,
    ) in
    let decodes : decode_record crc (record_bytes crc x) r.pos
        ≡ ok (whole x.header (32 + length x.payload)) =
      ap (λ t. decode_record crc t r.pos) (sym (append-nil (record_bytes crc x)))
      ∙ decode_record-seal crc x.header x.payload [] r.pos word v l in
    let tail : drop r.pos r.contents ≡ take n (record_bytes crc x) =
      ap (drop r.pos) e ∙ drop-append_length before (take n (record_bytes crc x)) r.pos p in
    let found : decode_record crc (drop r.pos r.contents) r.pos ≡ ok incomplete =
      ap (λ t. decode_record crc t r.pos) tail
      ∙ decode_record_torn crc (record_bytes crc x) r.pos (32 + length x.payload) n x.header decodes
          short in
    next_record-here crc r left ∙ rw (read_here, found) refl
