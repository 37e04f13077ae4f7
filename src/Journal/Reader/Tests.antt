-- ===== src/Journal/Reader/Tests.antt =====
-- A reader of one segment with one record, whole or cut short.
use bowst.Prelude.{
  ℕ, ◌≡◌, refl, ◌+◌, ◌%◌, ◌^◌, ltb, if◌then◌else◌, false, true, none, arith, List, [], ◌∷◌, ◌++◌,
  length, take, some, ok, err,
}
use bowst.Journal.Fields.{IsWordHeader}
use bowst.Journal.Reader.Ends.{Ended, skip-Ended}
use bowst.Journal.Reader.{
  skip, turns, load_next, JournalReader, Record, truncated, current_path, next_record,
}
use bowst.Journal.Reader.Next.{
  record_bytes, length-record_bytes, next_record_reads, next_record_torn,
}

abbrev sum : List ℕ → ℕ
sum [] = 0
sum (b ∷ bs) = b + sum bs

abbrev crc : List ℕ → ℕ
crc bs = sum bs % 2 ^ 32

abbrev entry : Record
entry = record {
  header = record { kind = 256; source = 1; mono = 7; wall = 99 };
  payload = 1 ∷ 2 ∷ 3 ∷ [];
}

entry-IsWordHeader : IsWordHeader entry.header
entry-IsWordHeader = record {
  kind_word = omega arith;
  source_word = omega arith;
  mono_word = omega arith;
  wall_word = omega arith;
}

abbrev reader : JournalReader
reader = record {
  files = [];
  next_file = 1;
  contents = 0 ∷ (record_bytes crc entry ++ (9 ∷ []));
  pos = 1;
  torn_tail = false;
}

next_record_reads_example :
    next_record crc reader ≡ (record reader { pos = 1 + (32 + 3) }, ok (some entry))
next_record_reads_example =
    next_record_reads crc reader entry (0 ∷ []) (9 ∷ []) (λ bs. omega arith) entry-IsWordHeader
      (omega arith) refl refl (omega (arith, length-record_bytes crc entry (9 ∷ [])))

abbrev cut_reader : JournalReader
cut_reader = record reader { contents = 0 ∷ take 20 (record_bytes crc entry) }

next_record_torn_example : next_record crc cut_reader ≡ (
    if ltb 1 0
    then (cut_reader, err (truncated (current_path cut_reader) 1))
    else (record cut_reader { pos = length cut_reader.contents; torn_tail = true }, ok none))
next_record_torn_example =
    next_record_torn crc cut_reader entry (0 ∷ []) 20 (λ bs. omega arith) entry-IsWordHeader
      (omega arith) (omega arith) (omega arith) refl refl

-- At the end of the last segment.
abbrev used_reader : JournalReader
used_reader = record reader { files = [] ∷ []; contents = []; next_file = 1 }

skips : (skip (turns used_reader) used_reader).1 ≡ ok false
unfolding skip load_next
skips = refl

skip-Ended_example : Ended false (skip (turns used_reader) used_reader).0
skip-Ended_example = skip-Ended used_reader false (omega arith) skips
