-- ===== src/Json/Skip.antt =====
-- Skipping a value of any type, in crates/bowst-venue/src/json.rs.
pub mod Leaves
pub mod Ends
use bowst.Prelude.{
  ℕ, zero, suc, ◌+◌, ◌-◌, ◌*◌, min, Bool, true, false, ◌&&◌, ◌||◌, not, Option, some, none, List,
  [], ◌∷◌, length, take, drop, get_elem?, ltb, leb, ◌==◌, if◌then◌else◌, Result, ok, err, ◌>>=◌,
  ok_or, sat_add, u64_max, slice?,
}
use bowst.Json.Utf8.{is_utf8}
use bowst.Json.{
  has_key, Expected, JsonError, Reader, advance, after_string, any_value, begin_array, begin_object,
  bool, continues_number, ends_string, enter, expect_byte, fail, false_word, finish, is_byte,
  is_control, is_digit, is_whitespace, is_word, leave, literal, max_depth, new, next_element,
  next_key, next_member, null_word, number, pass, peek, position, quoted, read_digits, same_bytes,
  skip_whitespace, str, str_bytes, string_end, true_word, u64, unexpected_end,
}

-- One string is skipped in as many turns as it has escapes, so the bytes that are left are enough
-- fuel for `skip_string` and for `skip`, which are `none` when they run out of it.
-- The operator `?` in these.
infixl 5 ◌>?◌ ◌>??◌
abbrev pub ◌>?◌ : {A B E : Type 0} → Result A E → (A → Option (Result B E)) → Option (Result B E)
ok a >? f = f a
err e >? f = some (err e)

abbrev pub ◌>??◌ :
    {A B E : Type 0} → Option (Result A E) → (A → Option (Result B E)) → Option (Result B E)
none >?? f = none
some res >?? f = res >? f

unfoldable pub string_rest : ℕ → Reader → Option (Result Reader JsonError)
string_rest zero r = none
string_rest (suc fuel) r =
    let next = λ (end : ℕ). string_rest fuel (record r { pos = sat_add end 2 }) in
    string_end r >? λ end.
    if is_byte 34 (get_elem? r.buf end)
    then some (ok (after_string r end))
    else if leb (length r.buf) (sat_add end 1)
    then some (err unexpected_end)
    else next end

unfoldable pub skip_string : ℕ → Reader → Option (Result Reader JsonError)
skip_string fuel r = string_rest fuel (advance r)

abbrev pub in_number : ℕ → Bool
in_number b = b == 45 || b == 43 || b == 46 || b == 101 || b == 69 || is_digit b

unfoldable pub skip_number : Reader → Result Reader JsonError
skip_number r =
    let pos = pass in_number (drop r.pos r.buf) r.pos in
    if pos == r.pos then err (fail r number) else ok (record r { pos = pos; after_value = true })

-- `self.literal(b"true") || self.literal(b"false") || self.literal(b"null")`.
unfoldable pub skip_literal : Reader → Result Reader JsonError
skip_literal r = elim (literal true_word r) [
  | some r' ↦ ok r'
  | none ↦ elim (literal false_word r) [
    | some r' ↦ ok r'
    | none ↦ ok_or (literal null_word r) (fail r any_value)
  ]
]

-- The loops over the members of a container, with what finds the next one and what skips it.
unfoldable pub skip_members :
    (Reader → Result (Bool × Reader) JsonError)
    → (Reader → Option (Result Reader JsonError))
    → ℕ
    → Reader
    → Option (Result Reader JsonError)
skip_members next skip_one zero r = none
skip_members next skip_one (suc fuel) r =
    let rest = skip_members next skip_one fuel in
    next r >? λ (more, r'). if more then (skip_one r' >?? rest) else some (ok r')

abbrev pub starts_literal : ℕ → Bool
starts_literal b = b == 116 || b == 102 || b == 110

-- What a value begins with.
pub data Kind : Type 0 where
  object array text_value word numeric other : Kind

unfoldable pub kind_of : ℕ → Kind
kind_of b =
    if b == 123
    then object
    else if b == 91
    then array
    else if b == 34
    then text_value
    else if starts_literal b
    then word
    else if b == 45 || is_digit b
    then numeric
    else other

-- The `match` of `skip`, with what skips a member.
unfoldable pub skip_value :
    (Reader → Option (Result Reader JsonError)) → ℕ → Reader → Option (Result Reader JsonError)
skip_value skip_one fuel r = ok_or (peek r) unexpected_end >? λ b. elim (kind_of b) [
  | object ↦ begin_object r >? skip_members has_key skip_one fuel
  | array ↦ begin_array r >? skip_members next_element skip_one fuel
  | text_value ↦ skip_string fuel r
  | word ↦ some (skip_literal r)
  | numeric ↦ some (skip_number r)
  | other ↦ some (err (fail r any_value))
]

unfoldable pub skip : ℕ → Reader → Option (Result Reader JsonError)
skip zero r = none
skip (suc fuel) r = skip_value (skip fuel) fuel (skip_whitespace r)
