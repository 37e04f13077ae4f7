-- ===== src/Ws/Frame/Encode.antt =====
-- Encoding a client frame writes exactly the frame, or nothing that fits.
use Prim.Native.Nat.{bit_or}
use bowst.Prelude.{
  ℕ, suc, ◌+◌, ◌<◌, ◌≤◌, ◌≡◌, refl, sym, ap, ◌∙◌, true, false, ◌&&◌, Bool-cases, inl, inr,
  drop-drop, List, [], ◌∷◌, ◌++◌, length, length-append, take, drop, length-drop, take-append_le,
  take-all, ltb, leb, if◌then◌else◌, ok, err, u64_max, overwrite, be_bytes, le_bytes, ◌^◌,
  length-le_bytes, length-reverse, arith,
}
use mathlib.Core.List.{append_assoc, append-nil}
use bowst.Ws.{buffer_too_small, invalid_control_frame}
use bowst.Ws.Frame.{
  Opcode, bits_of, is_control, max_control_payload, Writer, put, put_all, length_fields, masked,
  encode_client_frame,
}

-- Fields one behind the other.
abbrev pub concat : List (List ℕ) → List ℕ
concat [] = []
concat (f ∷ fs) = f ++ concat fs

-- A writer that has written `d` over the start of a buffer that goes on with `r`.
abbrev pub wrote : List ℕ → List ℕ → Writer
wrote d r = record { out = d ++ r; pos = length d }

take-length : (d r : List ℕ) → take (length d) (d ++ r) ≡ d
take-length d r = take-append_le d r (length d) (omega arith) ∙ take-all d (length d) (omega arith)

drop-length : (d r : List ℕ) (k : ℕ) → drop (length d + k) (d ++ r) ≡ drop k r
drop-length [] r k = let e : 0 + k ≡ k = omega arith in ap (λ n. drop n r) e
drop-length (x ∷ d) r k =
    let e : suc (length d) + k ≡ suc (length d + k) = omega arith in rw e (drop-length d r k)

put-wrote :
    (d r f : List ℕ)
    → length d + length r ≤ u64_max
    → put (wrote d r) f ≡ (
        if leb (length f) (length r)
        then ok (wrote (d ++ f) (drop (length f) r))
        else err buffer_too_small)
unfolding put overwrite
put-wrote d r f h = elim (Bool-cases (leb (length f) (length r))) [
  | inl fits ↦
      let a : leb (length d + length f) u64_max ≡ true = ground arith in
      let b : leb (length d + length f) (length (d ++ r)) ≡ true =
        ground (arith, length-append d r) in
      let c : length d + length f ≡ length (d ++ f) = omega (arith, length-append d f) in
      rw
        (
          fits,
          a,
          b,
          take-length d r,
          drop-length d r (length f),
          ← append_assoc d f (drop (length f) r),
          c,
        )
        refl
  | inr long ↦
      let b : leb (length d + length f) (length (d ++ r)) ≡ false =
        ground (arith, length-append d r) in
      rw (long, b) (ground arith)
]

put_all-wrote :
    (fs : List (List ℕ)) (d r : List ℕ)
    → length d + length r ≤ u64_max
    → put_all (wrote d r) fs ≡ (
        if leb (length (concat fs)) (length r)
        then ok (wrote (d ++ concat fs) (drop (length (concat fs)) r))
        else err buffer_too_small)
unfolding put_all
put_all-wrote [] d r h = let a : leb 0 (length r) ≡ true = ground arith in rw (a, append-nil d) refl
put_all-wrote (f ∷ fs) d r h = elim (Bool-cases (leb (length f) (length r))) [
  | inr long ↦
      let b : leb (length (f ++ concat fs)) (length r) ≡ false =
        ground (arith, length-append f (concat fs)) in
      rw (b, put-wrote d r f h, long, put_all) refl
  | inl fits ↦
      let ih =
        put_all-wrote fs (d ++ f) (drop (length f) r)
          (ground (arith, length-append d f, length-drop (length f) r)) in
      let test : leb (length (concat fs)) (length (drop (length f) r))
          ≡ leb (length (f ++ concat fs)) (length r) =
        ground (arith, length-append f (concat fs), length-drop (length f) r) in
      let rest : drop (length (concat fs)) (drop (length f) r) ≡ drop (length (f ++ concat fs)) r =
        drop-drop (length f) (length (concat fs)) r
        ∙ ap (λ n. drop n r) (sym (length-append f (concat fs))) in
      rw (put-wrote d r f h, fits, ← test, ← rest, ← append_assoc d f (concat fs), put_all) ih
]

-- The bytes of a frame: the first byte, the length, the mask, and the payload under the mask.
abbrev pub frame : Opcode → List ℕ → List ℕ → List ℕ
frame opcode payload mask = concat (
    (bit_or 0x80 (bits_of opcode) ∷ [])
    ∷ (length_fields (length payload) ++ (mask ∷ masked mask payload ∷ [])))

-- A control frame with more than 125 bytes is refused. Any other frame is written to the start of the
-- buffer, the rest of which stays, and its length is reported; or, if the buffer is shorter than the
-- frame, it is refused. The buffer's length is a 64-bit word.
pub encode_client_frame-frame :
    (opcode : Opcode) (payload mask out : List ℕ)
    → length out ≤ u64_max
    → encode_client_frame opcode payload mask out ≡ (
        if is_control opcode && ltb max_control_payload (length payload)
        then err invalid_control_frame
        else if leb (length (frame opcode payload mask)) (length out)
        then ok (wrote (frame opcode payload mask) (drop (length (frame opcode payload mask)) out))
        else err buffer_too_small)
unfolding encode_client_frame
encode_client_frame-frame opcode payload mask out h =
    elim (Bool-cases (is_control opcode && ltb max_control_payload (length payload))) [
      | inl bad ↦ rw bad refl
      | inr good ↦ rw good (put_all-wrote _ [] out (omega arith))
    ]

length-be_bytes : (w n : ℕ) → length (be_bytes w n) ≡ w
length-be_bytes w n = length-reverse (le_bytes w n) ∙ length-le_bytes w n

length-masked :
    (mask payload : List ℕ) → 0 < length mask → length (masked mask payload) ≡ length payload
unfolding masked
length-masked [] payload h = absurd (omega arith)
length-masked (k ∷ ks) [] h = refl
length-masked (k ∷ ks) (b ∷ bs) h =
    ap suc (length-masked (ks ++ (k ∷ [])) bs (omega (arith, length-append ks (k ∷ []))))

-- A frame with a mask of four bytes is longer than its payload by 6, 8 or 14 bytes.
pub length-frame :
    (opcode : Opcode) (payload mask : List ℕ)
    → length mask ≡ 4
    → length (frame opcode payload mask)
      ≡ length payload
        + (if ltb (length payload) 126 then 6 else if ltb (length payload) (2 ^ 16) then 8 else 14)
unfolding length_fields
length-frame opcode payload mask h =
    let m = length-masked mask payload (omega (arith, h)) in
    let body : length (mask ++ (masked mask payload ++ [])) ≡ 4 + length payload = omega (
      arith,
      length-append mask (masked mask payload ++ []),
      length-append (masked mask payload) [],
      h,
      m,
    ) in
    elim (Bool-cases (ltb (length payload) 126)) [
      | inl short ↦ rw short (omega (arith, body))
      | inr long ↦ elim (Bool-cases (ltb (length payload) (2 ^ 16))) [
        | inl medium ↦
            rw (long, medium)
              (omega (
                arith,
                body,
                length-be_bytes 2 (length payload),
                length-append (be_bytes 2 (length payload)) (mask ++ (masked mask payload ++ [])),
              ))
        | inr large ↦
            rw (long, large)
              (omega (
                arith,
                body,
                length-be_bytes 8 (length payload),
                length-append (be_bytes 8 (length payload)) (mask ++ (masked mask payload ++ [])),
              ))
      ]
    ]
