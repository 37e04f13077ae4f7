-- ===== src/Ws/Frame/Tests.antt =====
-- The frames of RFC 6455's examples.
use bowst.Prelude.{
  ℕ, ◌≡◌, ◌≢◌, ◌⊎◌, refl, ◌≤◌, true, false, ◌&&◌, arith, none, some, List, [], ◌∷◌, length, drop,
  ltb, leb, if◌then◌else◌, ok, err,
}
use bowst.Ws.{invalid_control_frame, buffer_too_small}
use bowst.Ws.Frame.{
  text, is_control, from_bits, FrameHeader, payload_length, checked_header, parse_bytes,
  parse_server_header, length_fields, masked, encode_client_frame,
}
use bowst.Ws.Frame.Parse.{parse_server_header_sound}
use bowst.Ws.Frame.Encode.{frame, wrote}
use bowst.Ws.Frame.Wire.{length_bytes, wire, encode_client_frame-wire}

-- A single unmasked text message, "Hello".
abbrev hello : List ℕ
hello = 0x48 ∷ 0x65 ∷ 0x6c ∷ 0x6c ∷ 0x6f ∷ []

abbrev header : FrameHeader
header = record { fin = true; opcode = text; header_len = 2; payload_len = 5 }

parses : parse_server_header (0x81 ∷ 0x05 ∷ hello) 100 ≡ ok (some header)
unfolding parse_server_header parse_bytes from_bits payload_length checked_header
parses = refl

parses_early : parse_server_header (0x81 ∷ 0x05 ∷ []) 100 ≡ ok (some header)
unfolding parse_server_header parse_bytes from_bits payload_length checked_header
parses_early = refl

decided : parse_server_header (0x81 ∷ 0x05 ∷ []) 100 ≢ ok none
decided e = cc (parses_early)

parse_server_header_sound_example :
    (2 ≤ length (0x81 ∷ 0x05 ∷ hello))
    × (2 ≤ 2)
    × (2 ≤ 10)
    × (5 ≤ 100)
    × ((is_control text ≡ false) ⊎ ((true ≡ true) × (5 ≤ 125)))
parse_server_header_sound_example =
    parse_server_header_sound (0x81 ∷ 0x05 ∷ hello) 100 header parses

abbrev mask : List ℕ
mask = 0x37 ∷ 0xfa ∷ 0x21 ∷ 0x3d ∷ []

-- The masked "Hello" of the RFC.
frame-hello :
    frame text hello mask
    ≡ 0x81 ∷ 0x85 ∷ 0x37 ∷ 0xfa ∷ 0x21 ∷ 0x3d ∷ 0x7f ∷ 0x9f ∷ 0x4d ∷ 0x51 ∷ 0x58 ∷ []
unfolding length_fields masked
frame-hello = refl

abbrev buffer : List ℕ
buffer = 0 ∷ 0 ∷ 0 ∷ 0 ∷ 0 ∷ 0 ∷ 0 ∷ 0 ∷ 0 ∷ 0 ∷ 0 ∷ 0 ∷ []

encode_client_frame-wire_example :
    encode_client_frame text hello (0x37 ∷ 0xfa ∷ 0x21 ∷ 0x3d ∷ []) buffer ≡ (
      if is_control text && ltb 125 (length hello)
      then err invalid_control_frame
      else if leb (length (wire text hello 0x37 0xfa 0x21 0x3d)) (length buffer)
      then ok (
          wrote
            (wire text hello 0x37 0xfa 0x21 0x3d)
            (drop (length (wire text hello 0x37 0xfa 0x21 0x3d)) buffer))
      else err buffer_too_small)
encode_client_frame-wire_example =
    encode_client_frame-wire text hello buffer 0x37 0xfa 0x21 0x3d (omega arith)

-- The first bytes of a frame of 300 and of one of 65536 bytes.
lengths :
    (length_bytes 300 ≡ 254 ∷ 1 ∷ 44 ∷ [])
    × (length_bytes 65536 ≡ 255 ∷ 0 ∷ 0 ∷ 0 ∷ 0 ∷ 0 ∷ 1 ∷ 0 ∷ 0 ∷ [])
lengths = (refl, refl)
