-- ===== src/Ws/Frame/Wire.antt =====
-- The bytes of a masked frame as RFC 6455 lays them out, apart from the encoder: crates/bowst-venue/
-- src/ws/frame.rs writes exactly these.
use Prim.Native.Nat.{bit_or, bit_xor}
use bowst.Prelude.{
  ℕ, zero, suc, ◌+◌, ◌/◌, ◌%◌, ◌^◌, ◌<◌, ◌≤◌, ◌≡◌, refl, ap, ap₂, ◌∙◌, Bool, true, false, ◌&&◌,
  Bool-cases, inl, inr, List, [], ◌∷◌, ◌++◌, length, drop, ltb, leb, ◌==◌, if◌then◌else◌, ok, err,
  u64_max, be_bytes, subst, arith,
}
use mathlib.Core.List.{append-nil}
use native.Mathlib.Nat.{div-div-eq-div-mul}
use bowst.Ws.{buffer_too_small, invalid_control_frame}
use bowst.Ws.Frame.{
  Opcode, continuation, text, binary, close, ping, pong, bits_of, is_control, length_fields, masked,
  encode_client_frame,
}
use bowst.Ws.Frame.Encode.{concat, frame, wrote, encode_client_frame-frame}

-- The whole message's flag and the opcode.
abbrev pub first_byte : Opcode → ℕ
first_byte continuation = 0x80
first_byte text = 0x81
first_byte binary = 0x82
first_byte close = 0x88
first_byte ping = 0x89
first_byte pong = 0x8a

-- The mask's flag with the length, or with 126 or 127 and the length in two or eight bytes, of which
-- the highest is first.
abbrev pub length_bytes : ℕ → List ℕ
length_bytes n =
    if ltb n 126
    then (128 + n) ∷ []
    else if ltb n 65536
    then (128 + 126) ∷ (n / 256) ∷ (n % 256) ∷ []
    else (128 + 127)
      ∷ (n / 2 ^ 56 % 256)
      ∷ (n / 2 ^ 48 % 256)
      ∷ (n / 2 ^ 40 % 256)
      ∷ (n / 2 ^ 32 % 256)
      ∷ (n / 2 ^ 24 % 256)
      ∷ (n / 2 ^ 16 % 256)
      ∷ (n / 2 ^ 8 % 256)
      ∷ (n % 256)
      ∷ []

abbrev pub key_at : ℕ → ℕ → ℕ → ℕ → ℕ → ℕ
key_at k0 k1 k2 k3 i =
    if i % 4 == 0 then k0 else if i % 4 == 1 then k1 else if i % 4 == 2 then k2 else k3

-- The payload from its byte `i` on.
unfoldable pub masked_from : (ℕ → ℕ) → ℕ → List ℕ → List ℕ
masked_from key i [] = []
masked_from key i (b ∷ bytes) = bit_xor b (key i) ∷ masked_from key (i + 1) bytes

abbrev pub wire : Opcode → List ℕ → ℕ → ℕ → ℕ → ℕ → List ℕ
wire opcode payload k0 k1 k2 k3 =
    first_byte opcode
    ∷ (length_bytes (length payload)
        ++ (k0 ∷ k1 ∷ k2 ∷ k3 ∷ masked_from (key_at k0 k1 k2 k3) 0 payload))

masked-masked_from :
    (key : ℕ → ℕ) (i : ℕ) (payload : List ℕ)
    → ((j : ℕ) → key (j + 1 + 3) ≡ key j)
    → masked (key i ∷ key (i + 1) ∷ key (i + 2) ∷ key (i + 3) ∷ []) payload
      ≡ masked_from key i payload
unfolding masked masked_from
masked-masked_from key i [] again = refl
masked-masked_from key i (b ∷ bytes) again =
    let one : i + 2 ≡ i + 1 + 1 = omega arith in
    let two : i + 3 ≡ i + 1 + 2 = omega arith in
    ap (λ t. bit_xor b (key i) ∷ t)
      (rw (one, two, ← again i) (masked-masked_from key (i + 1) bytes again))

key_at_again : (k0 k1 k2 k3 j : ℕ) → key_at k0 k1 k2 k3 (j + 1 + 3) ≡ key_at k0 k1 k2 k3 j
key_at_again k0 k1 k2 k3 j = let e : (j + 1 + 3) % 4 ≡ j % 4 = omega arith in rw e refl

-- A test that holds of each number below a bound.
below : ℕ → (ℕ → Bool) → Bool
below zero test = true
below (suc n) test = let rest = below n test in if test n then rest else false

of_below : (n : ℕ) (test : ℕ → Bool) (x : ℕ) → below n test ≡ true → x < n → test x ≡ true
unfolding below
of_below zero test x e lt = absurd (omega arith)
of_below (suc n) test x e lt = ground (arith, of_below n test x)

flags : below 126 (λ x. bit_or 0x80 x == 128 + x) ≡ true
unfolding below
flags = refl

flag : (x : ℕ) → x < 126 → bit_or 0x80 x ≡ 128 + x
flag x h = let t = of_below 126 (λ x. bit_or 0x80 x == 128 + x) x flags h in ground arith

first_byte_lem : (opcode : Opcode) → bit_or 0x80 (bits_of opcode) ≡ first_byte opcode
first_byte_lem continuation = refl
first_byte_lem text = refl
first_byte_lem binary = refl
first_byte_lem close = refl
first_byte_lem ping = refl
first_byte_lem pong = refl

two_bytes : (n : ℕ) → n < 65536 → be_bytes 2 n ≡ (n / 256) ∷ (n % 256) ∷ []
two_bytes n h = let e : n / 256 % 256 ≡ n / 256 = omega arith in rw e refl

eight_bytes :
    (n : ℕ)
    → be_bytes 8 n
      ≡ (n / 2 ^ 56 % 256)
        ∷ (n / 2 ^ 48 % 256)
        ∷ (n / 2 ^ 40 % 256)
        ∷ (n / 2 ^ 32 % 256)
        ∷ (n / 2 ^ 24 % 256)
        ∷ (n / 2 ^ 16 % 256)
        ∷ (n / 2 ^ 8 % 256)
        ∷ (n % 256)
        ∷ []
eight_bytes n =
    rw
      (
        div-div-eq-div-mul n 256 256,
        div-div-eq-div-mul n (2 ^ 16) 256,
        div-div-eq-div-mul n (2 ^ 24) 256,
        div-div-eq-div-mul n (2 ^ 32) 256,
        div-div-eq-div-mul n (2 ^ 40) 256,
        div-div-eq-div-mul n (2 ^ 48) 256,
      )
      refl

length_fields-length_bytes :
    (n : ℕ) (fields : List (List ℕ))
    → concat (length_fields n ++ fields) ≡ length_bytes n ++ concat fields
unfolding length_fields
length_fields-length_bytes n fields = elim (Bool-cases (ltb n 126)) [
  | inl short ↦ rw short (ap (λ b. b ∷ concat fields) (flag n (ground arith)))
  | inr long ↦ elim (Bool-cases (ltb n 65536)) [
    | inl medium ↦
        rw (long, medium) (ap (λ t. 254 ∷ (t ++ concat fields)) (two_bytes n (ground arith)))
    | inr large ↦ rw (long, large) (ap (λ t. 255 ∷ (t ++ concat fields)) (eight_bytes n))
  ]
]

frame-wire :
    (opcode : Opcode) (payload : List ℕ) (k0 k1 k2 k3 : ℕ)
    → frame opcode payload (k0 ∷ k1 ∷ k2 ∷ k3 ∷ []) ≡ wire opcode payload k0 k1 k2 k3
frame-wire opcode payload k0 k1 k2 k3 =
    let key = key_at k0 k1 k2 k3 in
    ap₂ (λ b t. b ∷ t) (first_byte_lem opcode)
      (length_fields-length_bytes (length payload) _
        ∙ ap (λ t. length_bytes (length payload) ++ (k0 ∷ k1 ∷ k2 ∷ k3 ∷ t))
            (append-nil _ ∙ masked-masked_from key 0 payload (key_at_again k0 k1 k2 k3)))

-- A control frame with more than 125 bytes is refused. Any other frame is written to the start of the
-- buffer, the rest of which stays, as RFC 6455 lays it out: a byte with the opcode, the length in one,
-- three or nine bytes with the mask's flag, the mask, and byte `i` of the payload under byte `i % 4` of
-- the mask; its length is reported. If the buffer is shorter than the frame, it is refused. The
-- buffer's length is a 64-bit word.
pub encode_client_frame-wire :
    (opcode : Opcode) (payload out : List ℕ) (k0 k1 k2 k3 : ℕ)
    → length out ≤ u64_max
    → encode_client_frame opcode payload (k0 ∷ k1 ∷ k2 ∷ k3 ∷ []) out ≡ (
        if is_control opcode && ltb 125 (length payload)
        then err invalid_control_frame
        else if leb (length (wire opcode payload k0 k1 k2 k3)) (length out)
        then ok (
            wrote
              (wire opcode payload k0 k1 k2 k3)
              (drop (length (wire opcode payload k0 k1 k2 k3)) out))
        else err buffer_too_small)
encode_client_frame-wire opcode payload out k0 k1 k2 k3 h =
    subst
      (λ bytes. encode_client_frame opcode payload (k0 ∷ k1 ∷ k2 ∷ k3 ∷ []) out ≡ (
        if is_control opcode && ltb 125 (length payload)
        then err invalid_control_frame
        else if leb (length bytes) (length out)
        then ok (wrote bytes (drop (length bytes) out))
        else err buffer_too_small))
      (frame-wire opcode payload k0 k1 k2 k3)
      (encode_client_frame-frame opcode payload (k0 ∷ k1 ∷ k2 ∷ k3 ∷ []) out h)
