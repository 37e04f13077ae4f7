-- ===== src/Ids/Tests.antt =====
-- The text of a known id.
use bowst.Prelude.{ℕ, ◌≡◌, refl, arith, some, List, [], ◌∷◌}
use bowst.Ids.{
  ClientOrderId, encode, decode, read_parts, hex_digit, nibbles, parse_hex, digit_value,
}
use bowst.Ids.Text.{decode-encode}

-- 0x65f1a2c0 and 1.
abbrev id : ClientOrderId
id = record { session = 1710334656; sequence = 1 }

-- bw65f1a2c000000001
abbrev text : List ℕ
text =
    98 ∷ 119 ∷ 54 ∷ 53 ∷ 102 ∷ 49 ∷ 97 ∷ 50 ∷ 99 ∷ 48 ∷ 48 ∷ 48 ∷ 48 ∷ 48 ∷ 48 ∷ 48 ∷ 48 ∷ 49 ∷ []

encode-id : encode id ≡ text
unfolding encode nibbles hex_digit
encode-id = refl

decodes : decode text ≡ some id
unfolding decode read_parts parse_hex digit_value
decodes = refl

decode-encode_example : decode (encode id) ≡ some id
decode-encode_example = decode-encode id (omega arith) (omega arith)
