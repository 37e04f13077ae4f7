-- ===== src/Ws/Reader/Receive.antt =====
-- Bytes arrive in the free space, which is never empty while a frame is awaited.
use bowst.Prelude.{
  ℕ, zero, suc, ◌+◌, ◌-◌, ◌≤◌, ◌<◌, ◌≡◌, ◌≢◌, refl, sym, ap, ap₂, ◌∙◌, subst, min, true, false,
  Bool-cases, inl, inr, none, some, List, ◌++◌, length, length-append, length-take, take, drop,
  take-append_length, drop-append_le, ltb, leb, ◌==◌, ◌&&◌, ok, err, Result-cases, sat_add,
  overwrite, arith,
}
use mathlib.Core.List.{append_assoc}
use bowst.Ws.{WsError}
use bowst.Ws.Frame.{parse_server_header}
use bowst.Ws.Frame.Parse.{parse_server_header-none, parse_server_header_sound}
use bowst.Ws.Reader.{
  WsReader, Turn, failed, waits, goes_on, yields, compact, spare, commit, buffered, Step,
  read_frames, slice_of, available, turn, turned, next_event,
}
use bowst.Ws.Reader.Slices.{slice_of_lem, length-slice_of, drop-take}
use bowst.Ws.Reader.Stream.{Stream}
use bowst.Ws.Reader.View.{IsReader, view, turn-Framed}
use bowst.Ws.Reader.Invariant.{Moved, turn-Moved, read_frames-IsReader, read_frames_config}
use bowst.Ws.Reader.Operations.{compact-IsReader, commit-IsReader, length-overwrite}
use bowst.Ws.Reader.Events.{after, read_frames-after}

-- What the transport does with the bytes that it has read: they lie in the free space, and are
-- committed.
abbrev pub receive : WsReader → List ℕ → WsReader
receive r bytes =
    commit (record (compact r) { buf = overwrite (compact r).buf (compact r).end bytes })
      (length bytes)

overwrite_lem :
    (out src : List ℕ) (at : ℕ)
    → at + length src ≤ length out
    → overwrite out at src ≡ take at out ++ (src ++ drop (at + length src) out)
unfolding overwrite
overwrite_lem out src at h =
    let t : leb (at + length src) (length out) ≡ true = ground arith in rw t refl

view-compact : (r : WsReader) → IsReader r → view (compact r) ≡ view r
unfolding compact
view-compact r v = elim (Bool-cases (r.start == r.end)) [
  | inl empty ↦
      let same : r.start ≡ r.end = ground arith in
      let nothing : slice_of r.buf r.start r.end ≡ slice_of r.buf 0 0 =
        slice_of_lem r.buf r.start r.end v.order v.within
        ∙ (let z : r.end - r.start ≡ 0 = omega (arith, same) in
            ap (λ n. take n (drop r.start r.buf)) z)
        ∙ sym (slice_of_lem r.buf 0 0 (omega arith) (omega arith)) in
      rw empty (ap seen_as (sym nothing))
  | inr apart ↦ elim (Bool-cases (ltb 0 r.start && ltb (length r.buf - r.end) r.config.max_frame)) [
    | inr far ↦ rw (apart, far) refl
    | inl near ↦ rw (apart, near) (ap seen_as moved)
  ]
]
  where
    seen_as : List ℕ → Stream
    seen_as p = record { pending = p; message = r.message; fragment = r.fragment }

    moved : slice_of (overwrite r.buf 0 (available r)) 0 (r.end - r.start) ≡ available r
    moved =
        let n = length-slice_of r.buf r.start r.end v.order v.within in
        slice_of_lem (overwrite r.buf 0 (available r)) 0 (r.end - r.start) (omega arith)
          (omega (arith, length-overwrite r.buf (available r) 0, v.within))
        ∙ (let z : r.end - r.start - 0 ≡ r.end - r.start = omega arith in
            ap (λ k. take k (overwrite r.buf 0 (available r))) z)
        ∙ ap (take (r.end - r.start))
            (overwrite_lem r.buf (available r) 0 (omega (arith, n, v.within)))
        ∙ ap (λ k. take k (available r ++ drop (0 + length (available r)) r.buf)) (sym n)
        ∙ take-append_length (available r) _

committed :
    (r : WsReader) (bytes : List ℕ)
    → IsReader r
    → r.end + length bytes ≤ length r.buf
    → view (commit (record r { buf = overwrite r.buf r.end bytes }) (length bytes))
      ≡ record { pending = available r ++ bytes; message = r.message; fragment = r.fragment }
unfolding commit
committed r bytes v fits =
    ap (λ p. record { pending = p; message = r.message; fragment = r.fragment })
      (ap (slice_of buf r.start) last
        ∙ slice_of_lem buf r.start (r.end + n) (omega (arith, v.order)) (omega (arith, size))
        ∙ ap (λ t. take (r.end + n - r.start) (drop r.start t))
            (overwrite_lem r.buf bytes r.end fits)
        ∙ ap (take (r.end + n - r.start)) (
            drop-append_le (take r.end r.buf) (bytes ++ rest) r.start
              (omega (arith, length-take r.end r.buf, v.order, v.within)))
        ∙ ap (λ t. take (r.end + n - r.start) (t ++ (bytes ++ rest))) front
        ∙ ap₂ take count (sym (append_assoc (available r) bytes rest))
        ∙ take-append_length (available r ++ bytes) rest)
  where
    n : ℕ
    n = length bytes

    buf : List ℕ
    buf = overwrite r.buf r.end bytes

    rest : List ℕ
    rest = drop (r.end + n) r.buf

    size : length buf ≡ length r.buf
    size = length-overwrite r.buf bytes r.end

    last : min (sat_add r.end n) (length buf) ≡ r.end + n
    last = omega (arith, size, fits, v.size, v.memory)

    front : drop r.start (take r.end r.buf) ≡ available r
    front = drop-take r.buf r.start r.end ∙ sym (slice_of_lem r.buf r.start r.end v.order v.within)

    count : r.end + n - r.start ≡ length (available r ++ bytes)
    count = omega (
      arith,
      length-append (available r) bytes,
      length-slice_of r.buf r.start r.end v.order v.within,
      v.order,
    )

length-spare :
    (r : WsReader) → IsReader r → length (spare r).1 ≡ length (compact r).buf - (compact r).end
unfolding spare
length-spare r v =
    let w = compact-IsReader r v in
    length-slice_of (compact r).buf (compact r).end (length (compact r).buf) w.within (omega arith)

-- Making room keeps the bytes that are not consumed, and the bytes that arrive follow them: the reader
-- stays valid, and nothing else of the stream changes.
pub view-receive :
    (r : WsReader) (bytes : List ℕ)
    → IsReader r
    → length bytes ≤ length (spare r).1
    → IsReader (receive r bytes)
      × (view (receive r bytes)
          ≡ record { pending = available r ++ bytes; message = r.message; fragment = r.fragment })
view-receive r bytes v fits =
    let w = compact-IsReader r v in
    let there : (compact r).end + length bytes ≤ length (compact r).buf =
      omega (arith, length-spare r v, w.within) in
    let same = view-compact r v in
    (
      commit-IsReader _ (length bytes) (written w),
      committed (compact r) bytes w there
          ∙ ap (λ (s : Stream). record s { pending = s.pending ++ bytes }) same,
    )
  where
    written :
        {q : WsReader} → IsReader q → IsReader (record q { buf = overwrite q.buf q.end bytes })
    written {q} w = record {
      order = w.order;
      within = omega (arith, w.within, length-overwrite q.buf bytes q.end);
      size = length-overwrite q.buf bytes q.end ∙ w.size;
      room = w.room;
      memory = w.memory;
      message = w.message;
      limit = w.limit;
    }

turned-ne-waits : (s : Step) → (turned s).1 ≢ waits
turned-ne-waits (r, err e) q = cc
turned-ne-waits (r, ok none) q = cc
turned-ne-waits (r, ok (some x)) q = cc

-- A reader that waits has less than a frame of the largest size.
turn-waits : (r : WsReader) → IsReader r → (turn r).1 ≡ waits → buffered r < r.config.max_frame + 10
unfolding turn buffered
turn-waits r v e = elim (Result-cases (parse_server_header (available r) r.config.max_frame)) [
  | inr (x, p) ↦ absurd (refused x (rw (p, turn) at e))
  | inl (none, p) ↦ omega (arith, parse_server_header-none (available r) r.config.max_frame p, n)
  | inl (some header, p) ↦ elim (turn-Framed r header v p) [
    | inr (late, f) ↦ absurd (turned-ne-waits _ (ap (λ t. t.1) (sym f.step) ∙ e))
    | inl (early, t) ↦
        let (_, _, short_header, small, _) =
          parse_server_header_sound (available r) r.config.max_frame header p in
        let less : length (available r) < header.header_len + header.payload_len = ground arith in
        omega (arith, less, short_header, small, n)
  ]
]
  where
    n : length (available r) ≡ r.end - r.start
    n = length-slice_of r.buf r.start r.end v.order v.within

    refused : (x : WsError) → failed x ≢ waits
    refused x q = cc

read_frames-waits :
    (frames : ℕ) (r : WsReader)
    → IsReader r
    → buffered r < frames
    → (read_frames frames r).1 ≡ ok none
    → buffered (read_frames frames r).0 < r.config.max_frame + 10
unfolding buffered
read_frames-waits zero r v h e = absurd (omega arith)
read_frames-waits (suc frames) r v h e =
    subst (λ t. t.0.end - t.0.start < r.config.max_frame + 10) (sym (read_frames-after frames r))
      (go (turn r).0 (turn r).1 (λ x w. read_frames-waits frames x w) (turn-Moved r v)
        (turn-waits r v) (subst (λ t. t.1 ≡ ok none) (read_frames-after frames r) e))
  where
    go :
        (r' : WsReader) (t : Turn)
        → ((x : WsReader)
            → IsReader x
            → x.end - x.start < frames
            → (read_frames frames x).1 ≡ ok none
            → (read_frames frames x).0.end - (read_frames frames x).0.start
              < x.config.max_frame + 10)
        → Moved r r' t
        → (t ≡ waits → r.end - r.start < r.config.max_frame + 10)
        → (after (read_frames frames) (r', t)).1 ≡ ok none
        → (after (read_frames frames) (r', t)).0.end - (after (read_frames frames) (r', t)).0.start
          < r.config.max_frame + 10
    go r' (failed x) ih m w e = absurd (cc)
    go r' waits ih m w e = omega (arith, w refl, m.end, m.forward)
    go r' goes_on ih m w e = elim m.progress [
      | inl no_frame ↦ absurd (no_frame refl)
      | inr further ↦ omega (
        arith,
        ih r' m.valid (omega (arith, m.end, further, v.order, m.valid.order)) e,
        ap (λ c. c.max_frame) m.config,
      )
    ]
    go r' (yields x) ih m w e = absurd (cc)

spare_room :
    (r : WsReader)
    → IsReader r
    → 0 < r.config.max_frame
    → buffered r < r.config.max_frame + 10
    → 0 < length (spare r).1
unfolding compact buffered
spare_room r v some_frame few = omega (arith, length-spare r v, room)
  where
    enough :
        ltb 0 r.start && ltb (length r.buf - r.end) r.config.max_frame ≡ false
        → 0 < length r.buf - r.end
    enough far = elim (Bool-cases (ltb 0 r.start)) [
      | inr front ↦ ground (arith, v.size, v.room, few)
      | inl later ↦ ground (arith, some_frame)
    ]

    moves : ltb 0 r.start && ltb (length r.buf - r.end) r.config.max_frame ≡ true → 0 < r.start
    moves near = ground arith

    room : 0 < length (compact r).buf - (compact r).end
    room = elim (Bool-cases (r.start == r.end)) [
      | inl empty ↦ rw empty (omega (arith, v.size, v.room))
      | inr apart ↦
          elim (Bool-cases (ltb 0 r.start && ltb (length r.buf - r.end) r.config.max_frame)) [
            | inr far ↦ rw (apart, far) (enough far)
            | inl near ↦
                rw (apart, near)
                  (omega (
                    arith,
                    few,
                    v.size,
                    v.room,
                    v.order,
                    length-overwrite r.buf (available r) 0,
                    moves near,
                  ))
          ]
    ]

-- While the reader waits for more bytes there is room for them, if frames with a payload are accepted at
-- all: the next read cannot be given an empty buffer.
pub spare_waits :
    (r : WsReader)
    → IsReader r
    → 0 < r.config.max_frame
    → (next_event r).1 ≡ ok none
    → 0 < length (spare (next_event r).0).1
unfolding next_event
spare_waits r v some_frame e =
    let n = suc (buffered r) in
    let c = read_frames_config n r v in
    spare_room (read_frames n r).0 (read_frames-IsReader n r v)
      (subst (λ c. 0 < c.max_frame) (sym c) some_frame)
      (subst (λ c. buffered (read_frames n r).0 < c.max_frame + 10) (sym c)
        (read_frames-waits n r v (omega arith) e))
