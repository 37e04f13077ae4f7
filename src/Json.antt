-- ===== src/Json.antt =====
-- The JSON reader, crates/bowst-venue/src/json.rs. Its buffer is a list of bytes, of which `pos` have
-- been read. What an error leaves in the reader is not modelled: no caller goes on with it.
pub mod Utf8
pub mod Progress
pub mod Texts
pub mod Skip
mod Tests
use bowst.Prelude.{
  ℕ, zero, suc, ◌+◌, ◌-◌, ◌*◌, min, Bool, true, false, ◌&&◌, ◌||◌, not, Option, some, none, List,
  [], ◌∷◌, length, take, drop, get_elem?, ltb, leb, ◌==◌, if◌then◌else◌, Result, ok, err, ◌>>=◌,
  ok_or, sat_add, u64_max, slice?,
}
use bowst.Json.Utf8.{is_utf8}

abbrev pub max_depth : ℕ
max_depth = 32

-- What the reader was looking for.
pub data Expected : Type 0 where
  object_start array_start key_or_close element_or_close : Expected
  colon string string_character utf8 boolean any_value number end_of_input : Expected

pub data JsonError : Type 0 where
  unexpected_end : JsonError
  unexpected : ℕ → Expected → JsonError
  too_deep : ℕ → JsonError
  escaped_string : ℕ → JsonError
  invalid_integer : ℕ → JsonError

pub record Reader : Type 0 where
  pub buf : List ℕ
  pub pos : ℕ
  pub depth : ℕ
  pub after_value : Bool

unfoldable pub new : List ℕ → Reader
new buf = record { buf = buf; pos = 0; depth = 0; after_value = false }

unfoldable pub peek : Reader → Option ℕ
peek r = get_elem? r.buf r.pos

-- Whether the next byte is `b`.
abbrev pub is_byte : ℕ → Option ℕ → Bool
is_byte b none = false
is_byte b (some c) = c == b

unfoldable pub advance : Reader → Reader
advance r = record r { pos = sat_add r.pos 1 }

-- The loops over bytes of one kind move a position over the rest of the buffer.
unfoldable pub pass : (ℕ → Bool) → List ℕ → ℕ → ℕ
pass kind [] pos = pos
pass kind (b ∷ rest) pos = let next = pass kind rest (sat_add pos 1) in if kind b then next else pos

abbrev pub is_whitespace : ℕ → Bool
is_whitespace b = b == 32 || b == 9 || b == 10 || b == 13

unfoldable pub skip_whitespace : Reader → Reader
skip_whitespace r = record r { pos = pass is_whitespace (drop r.pos r.buf) r.pos }

unfoldable pub fail : Reader → Expected → JsonError
fail r expected = if leb (length r.buf) r.pos then unexpected_end else unexpected r.pos expected

unfoldable pub expect_byte : ℕ → Expected → Reader → Result Reader JsonError
expect_byte byte expected r =
    let r' = skip_whitespace r in
    if is_byte byte (peek r') then ok (advance r') else err (fail r' expected)

unfoldable pub enter : ℕ → Expected → Reader → Result Reader JsonError
enter opening expected r = do
  r' ← expect_byte opening expected r
  if leb max_depth r'.depth
      then err (too_deep r'.pos)
      else ok (record r' { depth = min (r'.depth + 1) 255; after_value = false })

unfoldable pub leave : Reader → Reader
leave r = let r' = advance r in record r' { depth = r'.depth - 1; after_value = true }

unfoldable pub next_member : ℕ → Expected → Reader → Result (Bool × Reader) JsonError
next_member close expected r =
    let r' = skip_whitespace r in
    if is_byte close (peek r')
    then ok (false, leave r')
    else if r'.after_value
    then (expect_byte 44 expected r' >>= λ r''. ok (true, r''))
    else ok (true, r')

-- `Iterator::position`.
unfoldable pub position : (ℕ → Bool) → List ℕ → Option ℕ
position p [] = none
position p (b ∷ rest) =
    let next = position p rest in
    if p b then some 0 else elim next [ none ↦ none | some n ↦ some (n + 1) ]

abbrev pub ends_string : ℕ → Bool
ends_string b = b == 34 || b == 92 || ltb b 32

abbrev pub is_control : Option ℕ → Bool
is_control none = false
is_control (some b) = ltb b 32

unfoldable pub string_end : Reader → Result ℕ JsonError
string_end r = do
  found ← ok_or (position ends_string (drop r.pos r.buf)) unexpected_end
  if is_control (get_elem? r.buf (sat_add r.pos found))
      then err (fail (record r { pos = sat_add r.pos found }) string_character)
      else ok (sat_add r.pos found)

-- What `str` and `str_bytes` share: the reader after the opening quote, and where the text ends.
unfoldable pub quoted : Reader → Result (Reader × ℕ × List ℕ) JsonError
quoted r = do
  r' ← expect_byte 34 string r
  end ← string_end r'
  if is_byte 92 (get_elem? r'.buf end)
      then err (escaped_string end)
      else ok_or (slice? r'.buf r'.pos end) unexpected_end >>= λ text. ok (r', end, text)

abbrev pub after_string : Reader → ℕ → Reader
after_string r end = record r { pos = sat_add end 1; after_value = true }

unfoldable pub str_bytes : Reader → Result (List ℕ × Reader) JsonError
str_bytes r = do (r', end, text) ← quoted r; ok (text, after_string r' end)

unfoldable pub str : Reader → Result (List ℕ × Reader) JsonError
str r = do
  (r', end, text) ← quoted r
  if is_utf8 text then ok (text, after_string r' end) else err (unexpected r'.pos utf8)

unfoldable pub begin_object : Reader → Result Reader JsonError
begin_object r = enter 123 object_start r

unfoldable pub next_key : Reader → Result (Option (List ℕ) × Reader) JsonError
next_key r = do
  (more, r') ← next_member 125 key_or_close r
  if more
      then (do
        (key, r'') ← str r'
        r''' ← expect_byte 58 colon (record r'' { after_value = false })
        ok (some key, r'''))
      else ok (none, r')

-- `self.next_key()?.is_some()`.
unfoldable pub has_key : Reader → Result (Bool × Reader) JsonError
has_key r = do (key, r') ← next_key r; ok (elim key [ none ↦ false | some _ ↦ true ], r')

unfoldable pub begin_array : Reader → Result Reader JsonError
begin_array r = enter 91 array_start r

unfoldable pub next_element : Reader → Result (Bool × Reader) JsonError
next_element r = next_member 93 element_or_close r

abbrev pub is_digit : ℕ → Bool
is_digit b = leb 48 b && leb b 57

-- The loop over digits. Where the checked product overflows, so does the sum.
unfoldable pub read_digits : ℕ → List ℕ → ℕ → ℕ → Result (ℕ × ℕ) JsonError
read_digits start [] pos value = ok (pos, value)
read_digits start (b ∷ rest) pos value =
    let next = read_digits start rest (sat_add pos 1) (value * 10 + (b - 48)) in
    if not (is_digit b)
    then ok (pos, value)
    else if leb (value * 10 + (b - 48)) u64_max
    then next
    else err (invalid_integer start)

abbrev pub continues_number : Option ℕ → Bool
continues_number none = false
continues_number (some b) = b == 46 || b == 101 || b == 69 || b == 45 || b == 43

unfoldable pub u64 : Reader → Result (ℕ × Reader) JsonError
u64 r =
    let r' = skip_whitespace r in
    do
      (pos, value) ← read_digits r'.pos (drop r'.pos r'.buf) r'.pos 0
      if pos - r'.pos == 0
            || (ltb 1 (pos - r'.pos) && is_byte 48 (get_elem? r'.buf r'.pos))
            || continues_number (get_elem? r'.buf pos)
          then err (invalid_integer r'.pos)
          else ok (value, record r' { pos = pos; after_value = true })

unfoldable pub same_bytes : List ℕ → List ℕ → Bool
same_bytes [] [] = true
same_bytes (a ∷ rest) (b ∷ bytes) = let next = same_bytes rest bytes in a == b && next
same_bytes _ _ = false

abbrev pub is_word : List ℕ → Option (List ℕ) → Bool
is_word word none = false
is_word word (some bytes) = same_bytes bytes word

unfoldable pub literal : List ℕ → Reader → Option Reader
literal word r =
    let end = sat_add r.pos (length word) in
    if is_word word (slice? r.buf r.pos end)
    then some (record r { pos = end; after_value = true })
    else none

abbrev pub true_word : List ℕ
true_word = 116 ∷ 114 ∷ 117 ∷ 101 ∷ []

abbrev pub false_word : List ℕ
false_word = 102 ∷ 97 ∷ 108 ∷ 115 ∷ 101 ∷ []

abbrev pub null_word : List ℕ
null_word = 110 ∷ 117 ∷ 108 ∷ 108 ∷ []

unfoldable pub bool : Reader → Result (Bool × Reader) JsonError
bool r =
    let r' = skip_whitespace r in
    elim (literal true_word r') [
      | some r'' ↦ ok (true, r'')
      | none ↦ elim (literal false_word r') [
        | some r'' ↦ ok (false, r'')
        | none ↦ err (fail r' boolean)
      ]
    ]

unfoldable pub finish : Reader → Result (Unit {0}) JsonError
finish r =
    let r' = skip_whitespace r in
    if not (r'.depth == 0)
    then err unexpected_end
    else if ltb r'.pos (length r'.buf)
    then err (fail r' end_of_input)
    else ok tt
