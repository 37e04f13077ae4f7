-- ===== src/Journal.antt =====
-- The journal's records on disk, crates/bowst-journal/src/format.rs. Bytes are numbers below 256.
pub mod Fields
pub mod Record
pub mod Torn
pub mod Reader
mod Tests
use bowst.Prelude.{
  ℕ, ◌+◌, ◌*◌, ◌^◌, ◌≡◌, Bool, true, false, not, ◌||◌, Option, none, some, List, [], ◌∷◌, ◌++◌,
  length, take, drop, replicate, ltb, leb, ◌==◌, if◌then◌else◌, Result, ok, err, sat_add, slice?,
  le_bytes, of_le, overwrite,
}

abbrev pub magic : List ℕ
magic = 66 ∷ 79 ∷ 87 ∷ 83 ∷ 84 ∷ 74 ∷ 78 ∷ 76 ∷ []

abbrev pub version : ℕ
version = 1

abbrev pub file_header_len : ℕ
file_header_len = 32

abbrev pub record_header_len : ℕ
record_header_len = 32

abbrev pub max_payload : ℕ
max_payload = 16 * 2 ^ 20

pub record RecordHeader : Type 0 where
  pub kind : ℕ
  pub source : ℕ
  pub mono : ℕ
  pub wall : ℕ

pub data FormatError : Type 0 where
  bad_file_header : FormatError
  checksum : ℕ → FormatError
  too_large : ℕ → ℕ → FormatError
  bad_header_checksum : ℕ → FormatError

-- `u16_at`, `u32_at` and `u64_at`, by the number of bytes.
unfoldable pub word_at : ℕ → List ℕ → ℕ → ℕ
word_at width bytes at = elim (slice? bytes at (sat_add at width)) [ some b ↦ of_le b | none ↦ 0 ]

-- The loop that writes fields one behind the other.
unfoldable pub put_fields : List ℕ → ℕ → List (List ℕ) → List ℕ
put_fields out at [] = out
put_fields out at (field ∷ fields) =
    put_fields (overwrite out at field) (sat_add at (length field)) fields

abbrev pub header_fields : RecordHeader → ℕ → List (List ℕ)
header_fields h payload_len =
    le_bytes 2 h.kind
    ∷ le_bytes 2 h.source
    ∷ le_bytes 4 payload_len
    ∷ le_bytes 8 h.mono
    ∷ le_bytes 8 h.wall
    ∷ le_bytes 4 0
    ∷ le_bytes 4 0
    ∷ []

unfoldable pub encode_file_header : ℕ → ℕ → List ℕ
encode_file_header segment created =
    put_fields (replicate file_header_len 0) 0
      (magic ∷ le_bytes 4 version ∷ le_bytes 4 segment ∷ le_bytes 8 created ∷ [])

-- Equality of two runs of bytes.
abbrev pub same_bytes : List ℕ → List ℕ → Bool
same_bytes [] [] = true
same_bytes [] (y ∷ ys) = false
same_bytes (x ∷ xs) [] = false
same_bytes (x ∷ xs) (y ∷ ys) = if x == y then same_bytes xs ys else false

unfoldable pub decode_file_header : List ℕ → Result ℕ FormatError
decode_file_header bytes =
    if ltb (length bytes) file_header_len
      || not (elim (slice? bytes 0 8) [ some m ↦ same_bytes m magic | none ↦ false ])
      || not (word_at 4 bytes 8 == version)
    then err bad_file_header
    else ok (word_at 4 bytes 12)

unfoldable pub encode_record_header : RecordHeader → ℕ → List ℕ → List ℕ
encode_record_header h payload_len out = put_fields out 0 (header_fields h payload_len)

abbrev pub crc_at : ℕ
crc_at = 24

abbrev pub header_crc_at : ℕ
header_crc_at = 28

-- `get(..n).unwrap_or_default()`, and `get(n..)`.
abbrev pub upto : List ℕ → ℕ → List ℕ
upto bytes n = elim (slice? bytes 0 n) [ some b ↦ b | none ↦ [] ]

abbrev pub onward : List ℕ → ℕ → List ℕ
onward bytes n = drop n bytes

-- What a record decodes to.
pub data Decoded : Type 0 where
  whole : RecordHeader → ℕ → Decoded
  incomplete : Decoded

-- `crc` is the CRC-32 of crc32fast, of all that the hasher was updated with.
module _ (crc : List ℕ → ℕ) where
  unfoldable pub record_checksum : List ℕ → ℕ
  record_checksum bytes = crc (upto bytes crc_at ++ onward bytes record_header_len)

  unfoldable pub header_checksum : List ℕ → ℕ → ℕ
  header_checksum bytes record_crc = crc (upto bytes crc_at ++ le_bytes 4 record_crc)

  unfoldable pub seal : List ℕ → List ℕ
  seal bytes =
      let c = record_checksum bytes in
      let h = header_checksum bytes c in
      overwrite (overwrite bytes crc_at (le_bytes 4 c)) header_crc_at (le_bytes 4 h)

  -- What follows once the whole record is there.
  unfoldable pub decode_body : List ℕ → ℕ → ℕ → Result Decoded FormatError
  decode_body bytes total offset =
      if record_checksum bytes == word_at 4 bytes crc_at
      then ok (
          whole
            (record {
              kind = word_at 2 bytes 0;
              source = word_at 2 bytes 2;
              mono = word_at 8 bytes 8;
              wall = word_at 8 bytes 16;
            })
            total)
      else err (checksum offset)

  unfoldable pub decode_record : List ℕ → ℕ → Result Decoded FormatError
  decode_record bytes offset =
      if ltb (length bytes) record_header_len
      then ok incomplete
      else if header_checksum bytes (word_at 4 bytes crc_at) == word_at 4 bytes header_crc_at
      then (let len = word_at 4 bytes 4 in
          if ltb max_payload len
          then err (too_large offset len)
          else elim (slice? bytes 0 (sat_add record_header_len len)) [
            | none ↦ ok incomplete
            | some r ↦ decode_body r (sat_add record_header_len len) offset
          ])
      else err (bad_header_checksum offset)
