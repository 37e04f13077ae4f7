-- ===== src/Journal/Tests.antt =====
-- Records under a simple checksum, the sum of the bytes.
use bowst.Prelude.{
  ℕ, ◌≡◌, ◌+◌, ◌%◌, ◌^◌, ◌≤◌, arith, List, [], ◌∷◌, ◌++◌, length, take, replicate, ok,
}
use bowst.Journal.{
  RecordHeader, max_payload, word_at, record_checksum, header_checksum, encode_record_header, seal,
  whole, incomplete, decode_record,
}
use bowst.Journal.Fields.{IsWordHeader}
use bowst.Journal.Record.{decode_record-seal, decode_record_sound}
use bowst.Journal.Torn.{decode_record_torn}

abbrev sum : List ℕ → ℕ
sum [] = 0
sum (b ∷ bs) = b + sum bs

abbrev crc : List ℕ → ℕ
crc bs = sum bs % 2 ^ 32

abbrev header : RecordHeader
header = record { kind = 256; source = 1; mono = 7; wall = 99 }

header-IsWordHeader : IsWordHeader header
header-IsWordHeader = record {
  kind_word = omega arith;
  source_word = omega arith;
  mono_word = omega arith;
  wall_word = omega arith;
}

abbrev payload : List ℕ
payload = 1 ∷ 2 ∷ 3 ∷ []

abbrev stored : List ℕ
stored = seal crc (encode_record_header header 3 (replicate 32 0 ++ payload)) ++ (9 ∷ 9 ∷ [])

decode_record-seal_example : decode_record crc stored 0 ≡ ok (whole header 35)
decode_record-seal_example =
    decode_record-seal crc header payload (9 ∷ 9 ∷ []) 0 (λ bs. omega arith) header-IsWordHeader
      (omega arith)

decodes : decode_record crc stored 0 ≡ ok (whole header 35)
decodes =
    decode_record-seal crc header payload (9 ∷ 9 ∷ []) 0 (λ bs. omega arith) header-IsWordHeader
      (omega arith)

decode_record_sound_example :
    (32 ≤ 35)
    × (35 ≤ length stored)
    × (35 ≤ 32 + max_payload)
    × (header_checksum crc stored (word_at 4 stored 24) ≡ word_at 4 stored 28)
    × (record_checksum crc (take 35 stored) ≡ word_at 4 (take 35 stored) 24)
decode_record_sound_example = decode_record_sound crc stored 0 35 header decodes

decode_record_torn_example : decode_record crc (take 34 stored) 0 ≡ ok incomplete
decode_record_torn_example = decode_record_torn crc stored 0 35 34 header decodes (omega arith)
