-- ===== src/Ws/Frame/Parse.antt =====
-- Parsing a header from bytes that arrive bit by bit.
use Prim.Native.Nat.{bit_and}
use bowst.Prelude.{
  ◌<◌, ℕ, zero, suc, ◌-◌, ◌≤◌, ◌≡◌, ◌≢◌, ◌⊎◌, refl, Bool, true, false, not, ◌&&◌, Bool-cases, inl,
  inr, Option, none, some, Option-cases, List, [], ◌∷◌, ◌++◌, length, length-append, get_elem?,
  drop, drop-append_le, take-append_le, length-drop, leb, ◌==◌, if◌then◌else◌, Result, ok, err,
  Result-cases, slice?, arith, subst,
}
use bowst.Ws.{WsError, reserved_bits, masked_server_frame}
use bowst.Ws.Frame.{
  Opcode, is_control, FrameHeader, payload_length, checked_header, parse_bytes, parse_server_header,
  from_bits,
}

get_elem?-append :
    (xs ys : List ℕ) (i a : ℕ) → get_elem? xs i ≡ some a → get_elem? (xs ++ ys) i ≡ some a
get_elem?-append [] ys i a e = absurd (cc)
get_elem?-append (x ∷ xs) ys zero a e = e
get_elem?-append (x ∷ xs) ys (suc i) a e = get_elem?-append xs ys i a e

slice?-append :
    (xs ys bs : List ℕ) (i j : ℕ) → slice? xs i j ≡ some bs → slice? (xs ++ ys) i j ≡ some bs
unfolding slice?
slice?-append xs ys bs i j e = elim (Bool-cases (leb i j && leb j (length xs))) [
  | inr out ↦ absurd (ground arith)
  | inl within ↦
      let n : leb j (length (xs ++ ys)) ≡ true = ground (arith, length-append xs ys) in
      let m : leb i j ≡ true = ground arith in
      let d = drop-append_le xs ys i (ground arith) in
      let t = take-append_le (drop i xs) ys (j - i) (ground (arith, length-drop i xs)) in
      rw (n, m, d, t) (ground arith)
]

payload_length-append :
    (buf more : List ℕ) (marker : ℕ)
    → payload_length buf marker ≢ ok none
    → payload_length (buf ++ more) marker ≡ payload_length buf marker
unfolding payload_length
payload_length-append buf more marker h = elim (Bool-cases (marker == 126)) [
  | inl m ↦ elim (Option-cases (slice? buf 2 4)) [
    | inl e ↦ absurd (h (rw (m, payload_length) (rw e refl)))
    | inr (bs, e) ↦ rw (m, payload_length) (rw (e, slice?-append buf more bs 2 4 e) refl)
  ]
  | inr m ↦ elim (Bool-cases (marker == 127)) [
    | inl k ↦ elim (Option-cases (slice? buf 2 10)) [
      | inl e ↦ absurd (h (rw (m, k, payload_length) (rw e refl)))
      | inr (bs, e) ↦ rw (m, k, payload_length) (rw (e, slice?-append buf more bs 2 10 e) refl)
    ]
    | inr k ↦ rw (m, k, payload_length) refl
  ]
]

parse_bytes-append :
    (buf more : List ℕ) (max b0 b1 : ℕ)
    → parse_bytes buf max b0 b1 ≢ ok none
    → parse_bytes (buf ++ more) max b0 b1 ≡ parse_bytes buf max b0 b1
unfolding parse_bytes
parse_bytes-append buf more max b0 b1 h = elim (Bool-cases (not (bit_and b0 0x70 == 0))) [
  | inl r ↦ rw (r, parse_bytes) refl
  | inr r ↦ elim (Result-cases (from_bits (bit_and b0 0x0f))) [
    | inr (x, f) ↦ rw (r, f, parse_bytes) refl
    | inl (o, f) ↦ elim (Bool-cases (not (bit_and b1 0x80 == 0))) [
      | inl m ↦ rw (r, f, parse_bytes) (rw m refl)
      | inr m ↦
          let more_needed : payload_length buf (bit_and b1 0x7f) ≢ ok none =
            λ e. h (rw (r, f, parse_bytes) (rw m (rw e refl))) in
          rw (r, f, parse_bytes)
            (rw m (rw (payload_length-append buf more (bit_and b1 0x7f) more_needed) refl))
    ]
  ]
]

-- Once the bytes that have arrived decide a header, as a header or as a violation, more bytes do not
-- change the decision.
pub parse_server_header-append :
    (buf more : List ℕ) (max : ℕ)
    → parse_server_header buf max ≢ ok none
    → parse_server_header (buf ++ more) max ≡ parse_server_header buf max
unfolding parse_server_header
parse_server_header-append buf more max h = elim (Option-cases (get_elem? buf 0)) [
  | inl e ↦ absurd (h (rw (e, parse_server_header) refl))
  | inr (b0, e) ↦ elim (Option-cases (get_elem? buf 1)) [
    | inl f ↦ absurd (h (rw (e, parse_server_header) (rw f refl)))
    | inr (b1, f) ↦
        let decided : parse_bytes buf max b0 b1 ≢ ok none =
          λ g. h (rw (e, parse_server_header) (rw (f, g) refl)) in
        rw (e, get_elem?-append buf more 0 b0 e, parse_server_header)
          (rw (f, get_elem?-append buf more 1 b1 f) (parse_bytes-append buf more max b0 b1 decided))
  ]
]

payload_length_sound :
    (buf : List ℕ) (marker len n : ℕ)
    → 2 ≤ length buf
    → payload_length buf marker ≡ ok (some (len, n))
    → (n ≤ length buf) × (2 ≤ n) × (n ≤ 10)
unfolding payload_length slice?
payload_length_sound buf marker len n h e = ground arith

-- What a header that was accepted satisfies, given where its length was found.
abbrev IsFrame : ℕ → ℕ → FrameHeader → Type 0
IsFrame max n h =
    (h.header_len ≡ n)
    × (h.payload_len ≤ max)
    × ((is_control h.opcode ≡ false) ⊎ ((h.fin ≡ true) × (h.payload_len ≤ 125)))

checked_header_sound :
    (fin : Bool) (o : Opcode) (len n max : ℕ) (h : FrameHeader)
    → checked_header fin o len n max ≡ ok (some h)
    → IsFrame max n h
unfolding checked_header
checked_header_sound fin o len n max h e = elim (Bool-cases (is_control o)) [
  | inr c ↦
      let made : record { fin = fin; opcode = o; header_len = n; payload_len = len } ≡ h =
        ground arith in
      subst (IsFrame max n) made (refl, ground arith, inl c)
  | inl c ↦
      let made : record { fin = fin; opcode = o; header_len = n; payload_len = len } ≡ h =
        ground arith in
      subst (IsFrame max n) made (refl, ground arith, inr (ground arith, ground arith))
]

parse_bytes_sound :
    (buf : List ℕ) (max b0 b1 : ℕ) (h : FrameHeader)
    → parse_bytes buf max b0 b1 ≡ ok (some h)
    → (len n : ℕ) × (payload_length buf (bit_and b1 0x7f) ≡ ok (some (len, n))) × IsFrame max n h
unfolding parse_bytes
parse_bytes_sound buf max b0 b1 h e =
    go (not (bit_and b0 0x70 == 0)) (from_bits (bit_and b0 0x0f)) (not (bit_and b1 0x80 == 0))
      (payload_length buf (bit_and b1 0x7f)) e
  where
    go :
        (r : Bool) (f : Result Opcode WsError) (m : Bool) (p : Result (Option (ℕ × ℕ)) WsError)
        → (if r then err reserved_bits else elim f as (λ _. Result (Option FrameHeader) WsError) [
          | err e ↦ err e
          | ok opcode ↦
              if m
              then err masked_server_frame
              else elim p as (λ _. Result (Option FrameHeader) WsError) [
                | err e ↦ err e
                | ok found ↦ elim found as (λ _. Result (Option FrameHeader) WsError) [
                  | none ↦ ok none
                  | some (len, header_len) ↦
                      checked_header (not (bit_and b0 0x80 == 0)) opcode len header_len max
                ]
              ]
        ])
          ≡ ok (some h)
        → (len n : ℕ) × (p ≡ ok (some (len, n))) × IsFrame max n h
    go true f m p e = absurd (cc)
    go false (err x) m p e = absurd (cc)
    go false (ok o) true p e = absurd (cc)
    go false (ok o) false (err x) e = absurd (cc)
    go false (ok o) false (ok none) e = absurd (cc)
    go false (ok o) false (ok (some (len, n))) e =
        (len, n, refl, checked_header_sound (not (bit_and b0 0x80 == 0)) o len n max h e)

-- A header that is accepted has arrived whole and takes at most ten bytes, its payload is within the
-- limit, and a control frame is not fragmented and has at most 125 bytes.
pub parse_server_header_sound :
    (buf : List ℕ) (max : ℕ) (h : FrameHeader)
    → parse_server_header buf max ≡ ok (some h)
    → (h.header_len ≤ length buf)
      × (2 ≤ h.header_len)
      × (h.header_len ≤ 10)
      × (h.payload_len ≤ max)
      × ((is_control h.opcode ≡ false) ⊎ ((h.fin ≡ true) × (h.payload_len ≤ 125)))
unfolding parse_server_header
parse_server_header_sound buf max h e = elim (Option-cases (get_elem? buf 0)) [
  | inl f ↦ absurd (ground arith)
  | inr (b0, f) ↦ elim (Option-cases (get_elem? buf 1)) [
    | inl g ↦ absurd (ground arith)
    | inr (b1, g) ↦
        let (len, n, p, (same, fits, control)) = parse_bytes_sound buf max b0 b1 h (ground arith) in
        let (a, b, c) = payload_length_sound buf (bit_and b1 0x7f) len n (two_bytes buf b1 g) p in
        (omega (arith, same, a), omega (arith, same, b), omega (arith, same, c), fits, control)
  ]
]
  where
    two_bytes : (xs : List ℕ) (b : ℕ) → get_elem? xs 1 ≡ some b → 2 ≤ length xs
    two_bytes [] b g = absurd (cc)
    two_bytes (x ∷ []) b g = absurd (cc)
    two_bytes (x ∷ y ∷ xs) b g = omega arith

payload_length-none :
    (buf : List ℕ) (marker : ℕ) → payload_length buf marker ≡ ok none → length buf < 10
unfolding payload_length slice?
payload_length-none buf marker e = ground arith

parse_bytes-none :
    (buf : List ℕ) (max b0 b1 : ℕ) → parse_bytes buf max b0 b1 ≡ ok none → length buf < 10
unfolding parse_bytes checked_header
parse_bytes-none buf max b0 b1 e = elim (Result-cases (payload_length buf (bit_and b1 0x7f))) [
  | inl (none, p) ↦ payload_length-none buf (bit_and b1 0x7f) p
  | inl (some (len, n), p) ↦ absurd (ground arith)
  | inr (x, p) ↦ absurd (ground arith)
]

-- Only a header that has not arrived whole is waited for.
pub parse_server_header-none :
    (buf : List ℕ) (max : ℕ) → parse_server_header buf max ≡ ok none → length buf < 10
unfolding parse_server_header
parse_server_header-none [] max e = omega arith
parse_server_header-none (x ∷ []) max e = omega arith
parse_server_header-none (x ∷ y ∷ xs) max e = parse_bytes-none (x ∷ y ∷ xs) max x y e
