-- ===== src/Journal/Reader.antt =====
-- Reading a journal's segments back, crates/bowst-journal/src/reader.rs. A file is its bytes; reading
-- it does not fail.
pub mod Next
pub mod Ends
mod Tests
use bowst.Prelude.{
  ℕ, zero, suc, ◌+◌, ◌-◌, Bool, true, false, Option, none, some, List, [], ◌∷◌, length, drop,
  get_elem?, ltb, leb, ◌==◌, if◌then◌else◌, Result, ok, err, sat_add, slice?, u32_max, min, map,
}
use bowst.Journal.{
  RecordHeader, FormatError, Decoded, whole, incomplete, decode_record, decode_file_header,
  file_header_len, record_header_len,
}

pub record Record : Type 0 where
  pub header : RecordHeader
  pub payload : List ℕ

-- Files are named by their place in the reader's list.
pub data ReadError : Type 0 where
  corrupt : ℕ → FormatError → ReadError
  truncated : ℕ → ℕ → ReadError
  missing_segment : ℕ → ℕ → ReadError

pub record JournalReader : Type 0 where
  pub files : List (List ℕ)
  pub next_file : ℕ
  pub contents : List ℕ
  pub pos : ℕ
  pub torn_tail : Bool

-- `sort_unstable_by_key` on the segments' indices, which are distinct.
unfoldable pub insert_segment : ℕ × List ℕ → List (ℕ × List ℕ) → List (ℕ × List ℕ)
insert_segment s [] = s ∷ []
insert_segment s (t ∷ ts) =
    let rest = insert_segment s ts in if leb s.0 t.0 then s ∷ t ∷ ts else t ∷ rest

unfoldable pub sort_segments : List (ℕ × List ℕ) → List (ℕ × List ℕ)
sort_segments [] = []
sort_segments (s ∷ ss) = insert_segment s (sort_segments ss)

-- The loop over neighbours, with `saturating_add` on `u32`.
unfoldable pub check_segments : List (ℕ × List ℕ) → Result (Unit {0}) ReadError
check_segments [] = ok tt
check_segments (a ∷ []) = ok tt
check_segments (a ∷ b ∷ rest) =
    let next = check_segments (b ∷ rest) in
    if min (a.0 + 1) u32_max == b.0 then next else err (missing_segment (min (a.0 + 1) u32_max) b.0)

-- `open`, on the segments that the directory holds.
unfoldable pub open_segments : List (ℕ × List ℕ) → Result JournalReader ReadError
open_segments segments = elim (check_segments (sort_segments segments)) [
  | err e ↦ err e
  | ok _ ↦ ok (record {
    files = map (λ s. s.1) (sort_segments segments);
    next_file = 0;
    contents = [];
    pos = 0;
    torn_tail = false;
  })
]

abbrev pub current_path : JournalReader → ℕ
current_path r = r.next_file - 1

unfoldable pub load_next : JournalReader → JournalReader × Result Bool ReadError
load_next r = elim (get_elem? r.files r.next_file) [
  | none ↦ (r, ok false)
  | some bytes ↦
      let r' = record r { next_file = sat_add r.next_file 1; contents = bytes } in
      elim (decode_file_header bytes) [
        | err e ↦ (r', err (corrupt r.next_file e))
        | ok _ ↦ (record r' { pos = file_header_len }, ok true)
      ]
]

-- The loop over exhausted segments, on fuel: one turn for each file that is left, and one more.
unfoldable pub skip : ℕ → JournalReader → JournalReader × Result Bool ReadError
skip zero r = (r, ok (ltb r.pos (length r.contents)))
skip (suc fuel) r = elim (ltb r.pos (length r.contents)) [
  | true ↦ (r, ok true)
  | false ↦
      let (r', found) = load_next r in
      elim found [
        | err e ↦ (r', err e)
        | ok more ↦ elim more [ false ↦ (r', ok false) | true ↦ skip fuel r' ]
      ]
]

abbrev pub turns : JournalReader → ℕ
turns r = length r.files - r.next_file + 1

module _ (crc : List ℕ → ℕ) where
  -- The rest of `next_record`, once there are bytes left in the segment.
  unfoldable pub read_here : JournalReader → JournalReader × Result (Option Record) ReadError
  read_here r = elim (decode_record crc (drop r.pos r.contents) r.pos) [
    | err e ↦ (r, err (corrupt (current_path r) e))
    | ok found ↦ elim found [
      | incomplete ↦
          if ltb r.next_file (length r.files)
          then (r, err (truncated (current_path r) r.pos))
          else (record r { pos = length r.contents; torn_tail = true }, ok none)
      | whole h len ↦
          let end = sat_add r.pos len in
          (
            record r { pos = end },
            ok (
                some (record {
                  header = h;
                  payload = elim (slice? r.contents (sat_add r.pos record_header_len) end) [
                    | some p ↦ p
                    | none ↦ []
                  ];
                })),
          )
    ]
  ]

  unfoldable pub next_record : JournalReader → JournalReader × Result (Option Record) ReadError
  next_record r =
      let (r', found) = skip (turns r) r in
      elim found [
        | err e ↦ (r', err e)
        | ok more ↦ elim more [ false ↦ (r', ok none) | true ↦ read_here r' ]
      ]
