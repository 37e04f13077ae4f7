-- ===== src/Ws/Frame.antt =====
-- Frame headers, crates/bowst-venue/src/ws/frame.rs. Bytes are numbers below 256.
pub mod Parse
pub mod Encode
pub mod Wire
mod Tests
use Prim.Native.Nat.{bit_and, bit_or, bit_xor}
use bowst.Prelude.{
  ℕ, ◌+◌, ◌^◌, Bool, true, false, not, ◌&&◌, ◌||◌, Option, none, some, List, [], ◌∷◌, ◌++◌, length,
  get_elem?, ltb, leb, ◌==◌, if◌then◌else◌, Result, ok, err, u64_max, slice?, be_bytes, of_be,
  overwrite,
}
use bowst.Ws.{
  WsError, reserved_bits, unknown_opcode, masked_server_frame, invalid_length,
  invalid_control_frame, frame_too_large, buffer_too_small,
}

pub data Opcode : Type 0 where
  continuation text binary close ping pong : Opcode

unfoldable pub from_bits : ℕ → Result Opcode WsError
from_bits bits =
    if bits == 0
    then ok continuation
    else if bits == 1
    then ok text
    else if bits == 2
    then ok binary
    else if bits == 8
    then ok close
    else if bits == 9
    then ok ping
    else if bits == 10
    then ok pong
    else err (unknown_opcode bits)

abbrev pub bits_of : Opcode → ℕ
bits_of continuation = 0
bits_of text = 1
bits_of binary = 2
bits_of close = 8
bits_of ping = 9
bits_of pong = 10

abbrev pub is_control : Opcode → Bool
is_control close = true
is_control ping = true
is_control pong = true
is_control _ = false

pub record FrameHeader : Type 0 where
  pub fin : Bool
  pub opcode : Opcode
  pub header_len : ℕ
  pub payload_len : ℕ

abbrev pub max_control_payload : ℕ
max_control_payload = 125

abbrev pub len_16 : ℕ
len_16 = 126

abbrev pub len_64 : ℕ
len_64 = 127

-- The `match` on the length marker: the length and the header's length, `none` for too few bytes.
unfoldable pub payload_length : List ℕ → ℕ → Result (Option (ℕ × ℕ)) WsError
payload_length buf marker =
    if marker == len_16
    then elim (slice? buf 2 4) [
      | none ↦ ok none
      | some bytes ↦
          if ltb (of_be bytes) len_16 then err invalid_length else ok (some (of_be bytes, 4))
    ]
    else if marker == len_64
    then elim (slice? buf 2 10) [
      | none ↦ ok none
      | some bytes ↦
          if ltb (of_be bytes) (2 ^ 16) || leb (2 ^ 63) (of_be bytes)
          then err invalid_length
          else ok (some (of_be bytes, 10))
    ]
    else ok (some (marker, 2))

-- What follows the length.
unfoldable pub checked_header : Bool → Opcode → ℕ → ℕ → ℕ → Result (Option FrameHeader) WsError
checked_header fin opcode len header_len max_payload =
    if is_control opcode && (not fin || ltb max_control_payload len)
    then err invalid_control_frame
    else if leb len max_payload
    then ok
        (some (record { fin = fin; opcode = opcode; header_len = header_len; payload_len = len }))
    else err (frame_too_large len max_payload)

-- What follows the first two bytes.
unfoldable pub parse_bytes : List ℕ → ℕ → ℕ → ℕ → Result (Option FrameHeader) WsError
parse_bytes buf max_payload b0 b1 =
    if not (bit_and b0 0x70 == 0) then err reserved_bits else elim (from_bits (bit_and b0 0x0f)) [
      | err e ↦ err e
      | ok opcode ↦
          if not (bit_and b1 0x80 == 0)
          then err masked_server_frame
          else elim (payload_length buf (bit_and b1 0x7f)) [
            | err e ↦ err e
            | ok found ↦ elim found [
              | none ↦ ok none
              | some (len, header_len) ↦
                  checked_header (not (bit_and b0 0x80 == 0)) opcode len header_len max_payload
            ]
          ]
    ]

unfoldable pub parse_server_header : List ℕ → ℕ → Result (Option FrameHeader) WsError
parse_server_header buf max_payload = elim (get_elem? buf 0) [
  | none ↦ ok none
  | some b0 ↦ elim (get_elem? buf 1) [
    | none ↦ ok none
    | some b1 ↦ parse_bytes buf max_payload b0 b1
  ]
]

pub record Writer : Type 0 where
  pub out : List ℕ
  pub pos : ℕ

-- `reserve` and the copy into it. What an error leaves in the buffer is not kept.
unfoldable pub put : Writer → List ℕ → Result Writer WsError
put w bytes =
    if leb (w.pos + length bytes) u64_max && leb (w.pos + length bytes) (length w.out)
    then ok (record { out = overwrite w.out w.pos bytes; pos = w.pos + length bytes })
    else err buffer_too_small

-- Several writes one after the other, each with `?`.
unfoldable pub put_all : Writer → List (List ℕ) → Result Writer WsError
put_all w [] = ok w
put_all w (bytes ∷ rest) = elim (put w bytes) [ err e ↦ err e | ok w' ↦ put_all w' rest ]

-- The marker and the extended length.
unfoldable pub length_fields : ℕ → List (List ℕ)
length_fields len =
    if ltb len len_16
    then (bit_or 0x80 len ∷ []) ∷ []
    else if ltb len (2 ^ 16)
    then (bit_or 0x80 len_16 ∷ []) ∷ be_bytes 2 len ∷ []
    else (bit_or 0x80 len_64 ∷ []) ∷ be_bytes 8 len ∷ []

-- The payload under the mask's bytes, over and over.
unfoldable pub masked : List ℕ → List ℕ → List ℕ
masked [] payload = []
masked (key ∷ keys) [] = []
masked (key ∷ keys) (byte ∷ rest) = bit_xor byte key ∷ masked (keys ++ (key ∷ [])) rest

unfoldable pub encode_client_frame : Opcode → List ℕ → List ℕ → List ℕ → Result Writer WsError
encode_client_frame opcode payload mask out =
    if is_control opcode && ltb max_control_payload (length payload)
    then err invalid_control_frame
    else put_all (record { out = out; pos = 0 })
        ((bit_or 0x80 (bits_of opcode) ∷ [])
          ∷ (length_fields (length payload) ++ (mask ∷ masked mask payload ∷ [])))
