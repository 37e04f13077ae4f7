-- ===== src/Fixed/Write/RoundTrip.antt =====
-- What `write_to` writes, and that `parse_bytes` reads it back.
use bowst.Prelude.{
  ℕ, ◌+◌, ◌-◌, ◌^◌, ◌<◌, ◌≤◌, ◌≡◌, refl, ap, ◌∙◌, Bool, true, false, List, [], ◌∷◌, ◌++◌, length,
  length-append, take, drop, length-drop, length-take, drop-append_length, take-append_length,
  All-take, All-drop_le, Ordering, take-append-drop, All, leb, u64_max, ok, ◌>>=◌, arith,
}
use mathlib.Core.List.{append-nil}
use bowst.Prelude.Int.{ℤ, pos, negsuc, fits, cmp, i128_half}
use bowst.Fixed.{Decimal, is_negative, max_text_len}
use bowst.Fixed.Parse.{parse_bytes}
use bowst.Fixed.Parse.Value.{IsDigit, horner}
use bowst.Fixed.Parse.Reads.{pointed, signed, opposite, IsNumber, parse_bytes_reads}
use bowst.Fixed.Write.{magnitude, Writer, write_to}
use bowst.Fixed.Write.Digits.{digits_lem}
use bowst.Fixed.Write.Emit.{wrote, written, spelled, spelled_lem, sign-wrote}

magnitude-lt : (m : ℤ) → fits i128_half m ≡ true → magnitude m < 10 ^ 39
magnitude-lt (pos n) h = ground arith
magnitude-lt (negsuc n) h = ground arith

abbrev point_at : Decimal → List ℕ → ℕ
point_at d ds = length ds - d.scale

-- The text of a decimal number with the given digits.
abbrev spelling : Decimal → List ℕ → List ℕ
spelling d ds =
    signed (is_negative d) (take (point_at d ds) ds ++ pointed (drop (point_at d ds) ds))

record Spells (d : Decimal) (ds : List ℕ) : Type 0 where
  all : All IsDigit ds
  value : horner 0 ds ≡ magnitude d.mantissa
  enough : d.scale < length ds
  few : length ds ≤ 39

write_to_writes :
    (d : Decimal) (buf : List ℕ)
    → fits i128_half d.mantissa ≡ true
    → d.scale ≤ 36
    → length buf ≤ u64_max
    → (ds : List ℕ) × (write_to d buf ≡ written [] (spelling d ds) buf) × Spells d ds
unfolding write_to
write_to_writes d buf f sc h =
    let (ds, e, all, value, enough, few) =
      digits_lem 42 39 (magnitude d.mantissa) 0 (d.scale + 1) [] (magnitude-lt d.mantissa f)
        (omega arith) (omega arith) (omega arith) in
    let spells : Spells d ds = record {
      all = all;
      value = value;
      enough = omega arith;
      few = omega arith;
    } in
    let behind : length (drop (point_at d ds) ds) ≡ d.scale =
      omega (arith, length-drop (point_at d ds) ds, enough) in
    let shape : spelled d.scale (point_at d ds) 0 ds
        ≡ take (point_at d ds) ds ++ pointed (drop (point_at d ds) ds) =
      (let z : point_at d ds ≡ 0 + point_at d ds = omega arith in
        ap (λ p. spelled d.scale p 0 ds) z)
      ∙ spelled_lem (point_at d ds) 0 d.scale ds (omega arith) behind in
    (
      ds,
      rw (e ∙ ap ok (append-nil ds), ◌>>=◌)
          (sign-wrote (is_negative d) d.scale (point_at d ds) ds _ buf shape h),
      spells,
    )

length-pointed : (cs : List ℕ) → length (pointed cs) ≤ length cs + 1
length-pointed [] = omega arith
length-pointed (c ∷ cs) = omega arith

length-signed : (negative : Bool) (cs : List ℕ) → length (signed negative cs) ≤ length cs + 1
length-signed true cs = omega arith
length-signed false cs = omega arith

spelling-length : (d : Decimal) (ds : List ℕ) → Spells d ds → length (spelling d ds) ≤ 41
spelling-length d ds s =
    let p = point_at d ds in
    omega (
      arith,
      s.few,
      length-signed (is_negative d) (take p ds ++ pointed (drop p ds)),
      length-append (take p ds) (pointed (drop p ds)),
      length-pointed (drop p ds),
      length-take p ds,
      length-drop p ds,
    )

opposite-magnitude : (d : Decimal) → opposite (is_negative d) (magnitude d.mantissa) ≡ d.mantissa
unfolding is_negative
opposite-magnitude d = go d.mantissa
  where
    go :
        (m : ℤ)
        → opposite
            (elim (cmp m (pos 0)) as (λ _. Bool) [ Ordering.lt ↦ true | _ ↦ false ])
            (magnitude m)
          ≡ m
    go (pos n) = ground arith
    go (negsuc n) = refl

spelling-IsNumber :
    (d : Decimal) (ds : List ℕ)
    → Spells d ds
    → d.scale ≤ 18
    → magnitude d.mantissa < i128_half
    → IsNumber (spelling d ds) d
spelling-IsNumber d ds s few v =
    let p = point_at d ds in
    let split : horner 0 (take p ds ++ drop p ds) ≡ magnitude d.mantissa =
      ap (horner 0) (take-append-drop p ds) ∙ s.value in
    let places : length (drop p ds) ≡ d.scale = omega (arith, length-drop p ds, s.enough) in
    (
      is_negative d,
      take p ds,
      drop p ds,
      refl,
      All-take IsDigit p ds s.all,
      All-drop_le IsDigit ds 0 p (omega arith) s.all,
      omega (arith, length-take p ds, s.enough),
      omega arith,
      omega arith,
      rw (split, places, opposite-magnitude d) refl,
    )

-- A decimal number with at most 36 decimal places is written into a buffer of 42 bytes or more: its
-- text takes at most 42 bytes from the start, and the rest of the buffer stays as it was.
pub write_to-fits :
    (d : Decimal) (buf : List ℕ)
    → fits i128_half d.mantissa ≡ true
    → d.scale ≤ 36
    → max_text_len ≤ length buf
    → length buf ≤ u64_max
    → (w : Writer) × (write_to d buf ≡ ok w)
      × (w.pos ≤ max_text_len)
      × (length w.buf ≡ length buf)
      × (drop w.pos w.buf ≡ drop w.pos buf)
write_to-fits d buf f sc room h =
    let (ds, e, s) = write_to_writes d buf f sc h in
    let t : leb (length (spelling d ds)) (length buf) ≡ true =
      ground (arith, spelling-length d ds s) in
    (
      wrote (spelling d ds) (drop (length (spelling d ds)) buf),
      e ∙ rw t refl,
      omega (arith, spelling-length d ds s),
      omega (
        arith,
        length-append (spelling d ds) (drop (length (spelling d ds)) buf),
        length-drop (length (spelling d ds)) buf,
        spelling-length d ds s,
      ),
      drop-append_length (spelling d ds) (drop (length (spelling d ds)) buf) _ refl,
    )

-- What is written is read back as the same decimal number, with the same number of decimal places, if
-- these are at most 18 and the mantissa is not the least `i128`.
pub parse_bytes-write_to :
    (d : Decimal) (buf : List ℕ)
    → magnitude d.mantissa < i128_half
    → d.scale ≤ 18
    → max_text_len ≤ length buf
    → length buf ≤ u64_max
    → (w : Writer) × (write_to d buf ≡ ok w) × (parse_bytes (take w.pos w.buf) ≡ ok d)
parse_bytes-write_to d buf v sc room h =
    let (ds, e, s) = write_to_writes d buf (in_range d.mantissa v) (omega arith) h in
    let t : leb (length (spelling d ds)) (length buf) ≡ true =
      ground (arith, spelling-length d ds s) in
    let text = take-append_length (spelling d ds) (drop (length (spelling d ds)) buf) in
    (
      wrote (spelling d ds) (drop (length (spelling d ds)) buf),
      e ∙ rw t refl,
      ap parse_bytes text ∙ parse_bytes_reads (spelling d ds) d (spelling-IsNumber d ds s sc v),
    )
  where
    in_range : (m : ℤ) → magnitude m < i128_half → fits i128_half m ≡ true
    in_range (pos n) h = ground arith
    in_range (negsuc n) h = ground arith
