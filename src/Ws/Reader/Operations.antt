-- ===== src/Ws/Reader/Operations.antt =====
-- The other operations keep the reader valid.
use bowst.Prelude.{
  ℕ, ◌+◌, ◌-◌, ◌^◌, ◌≤◌, ◌<◌, ◌≡◌, refl, ◌∙◌, subst, Bool-cases, inl, inr, none, List, [], ◌++◌,
  length, length-append, length-replicate, length-take, length-drop, take, drop, replicate, ltb,
  leb, ◌==◌, ◌&&◌, ok, sat_add, overwrite, arith,
}
use bowst.Ws.Reader.{ReaderConfig, WsReader, new, reset, compact, commit, slice_of}
use bowst.Ws.Reader.View.{IsReader}

-- A reader that is made has nothing in it.
pub new-IsReader :
    (config : ReaderConfig) (r : WsReader)
    → config.buffer < 2 ^ 63
    → config.max_message < 2 ^ 63
    → new config ≡ ok r
    → IsReader r
unfolding new
new-IsReader config r memory limit e =
    elim (Bool-cases (ltb config.buffer (sat_add config.max_frame 10))) [
      | inl small ↦ absurd (ground arith)
      | inr fits ↦
          let made : record {
            buf = replicate config.buffer 0;
            start = 0;
            end = 0;
            message = [];
            fragment = none;
            config = config;
          }
              ≡ r =
            ground arith in
          let size = length-replicate {A = ℕ} config.buffer 0 in
          subst IsReader made (record {
            order = omega arith;
            within = omega arith;
            size = size;
            room = ground arith;
            memory = memory;
            message = omega arith;
            limit = limit;
          })
    ]

pub reset-IsReader : (r : WsReader) → IsReader r → IsReader (reset r)
unfolding reset
reset-IsReader r v = record {
  order = omega arith;
  within = omega arith;
  size = v.size;
  room = v.room;
  memory = v.memory;
  message = omega arith;
  limit = v.limit;
}

pub commit-IsReader : (r : WsReader) (n : ℕ) → IsReader r → IsReader (commit r n)
unfolding commit
commit-IsReader r n v = record {
  order = omega (arith, v.order, v.within, v.size, v.memory);
  within = omega arith;
  size = v.size;
  room = v.room;
  memory = v.memory;
  message = v.message;
  limit = v.limit;
}

pub length-overwrite : (out src : List ℕ) (at : ℕ) → length (overwrite out at src) ≡ length out
unfolding overwrite
length-overwrite out src at = elim (Bool-cases (leb (at + length src) (length out))) [
  | inr long ↦ rw long refl
  | inl fits ↦ rw fits (
      ground (
        arith,
        length-append (take at out) (src ++ drop (at + length src) out),
        length-append src (drop (at + length src) out),
        length-take at out,
        length-drop (at + length src) out,
      ))
]

pub compact-IsReader : (r : WsReader) → IsReader r → IsReader (compact r)
unfolding compact
compact-IsReader r v = elim (Bool-cases (r.start == r.end)) [
  | inl empty ↦ rw empty (placed r.buf 0 refl (omega arith) (omega arith))
  | inr apart ↦ elim (Bool-cases (ltb 0 r.start && ltb (length r.buf - r.end) r.config.max_frame)) [
    | inr far ↦ rw (apart, far) v
    | inl near ↦
        rw (apart, near)
          (placed (overwrite r.buf 0 (slice_of r.buf r.start r.end)) (r.end - r.start)
            (length-overwrite r.buf (slice_of r.buf r.start r.end) 0) (omega arith)
            (omega (arith, v.within)))
  ]
]
  where
    placed :
        (buf : List ℕ) (end : ℕ)
        → length buf ≡ length r.buf
        → 0 ≤ end
        → end ≤ length r.buf
        → IsReader (record r { buf = buf; start = 0; end = end })
    placed buf end e a b = record {
      order = a;
      within = omega (arith, e);
      size = e ∙ v.size;
      room = v.room;
      memory = v.memory;
      message = v.message;
      limit = v.limit;
    }
