-- ===== src/Json/Skip/Ends.antt =====
-- Skipping a value ends, and leaves the reader past it.
use bowst.Prelude.{
  ℕ, zero, suc, ◌+◌, ◌-◌, ◌<◌, ◌≡◌, ◌⊎◌, refl, ap, ◌∙◌, Bool, true, false, inl, inr, Option, some,
  none, length, if◌then◌else◌, Result, ok, err, arith,
}
use bowst.Json.{
  has_key, Expected, JsonError, Reader, is_byte, peek, advance, next_element, begin_object,
  begin_array, skip_whitespace, fail,
}
use bowst.Json.Skip.{
  skip_string, skip_number, skip_literal, skip_members, skip_value, skip, kind_of, ◌>?◌, ◌>??◌,
  object, array, text_value, word, numeric, other, Kind,
}
use bowst.Json.Progress.{
  Inside, Ahead, Holds, Ahead-trans, Ahead-Inside, advance_lem, skip_whitespace_lem, enter_lem,
  Member,
}
use bowst.Json.Texts.{Finds, next_element-Finds, has_key-Finds, ok_or-Holds}
use bowst.Json.Skip.Leaves.{
  same_byte, Returns, Returns-then, Returns-next, Returns-map, string_rest_lem, skip_literal_lem,
  skip_number_lem,
}

abbrev Skips : (Reader → Option (Result Reader JsonError)) → ℕ → Type 0
Skips skip_one fuel =
    (r : Reader)
    → Inside r
    → length r.buf - r.pos < fuel
    → Returns (Ahead r 1 r.depth true) (skip_one r)

left :
    {r r' : Reader} {n d fuel : ℕ} {a : Bool}
    → Ahead r n d a r'
    → length r.buf - r.pos < fuel
    → length r'.buf - r'.pos < fuel
left p h = omega (arith, ap length p.same, p.ahead, h)

skip_members_lem :
    (next : Reader → Result (Bool × Reader) JsonError)
    (skip_one : Reader → Option (Result Reader JsonError)) (most fuel : ℕ) (r : Reader)
    → Finds next
    → Skips skip_one most
    → Inside r
    → length r.buf - r.pos < fuel
    → length r.buf - r.pos < most
    → Returns (Ahead r 1 (r.depth - 1) true) (skip_members next skip_one fuel r)
unfolding skip_members
skip_members_lem next skip_one most zero r finds skips i h k = absurd (omega (arith, h))
skip_members_lem next skip_one most (suc fuel) r finds skips i h k =
    Returns-then (Member r) (Ahead r 1 (r.depth - 1) true) _ _ (finds r i)
      (λ (more, r') m. member more r' m (skip_members_lem next skip_one most fuel))
  where
    member :
        (more : Bool) (r' : Reader)
        → Member r (more, r')
        → ((r : Reader)
            → Finds next
            → Skips skip_one most
            → Inside r
            → length r.buf - r.pos < fuel
            → length r.buf - r.pos < most
            → Returns (Ahead r 1 (r.depth - 1) true) (skip_members next skip_one fuel r))
        → Returns
            (Ahead r 1 (r.depth - 1) true)
            (if more then (skip_one r' >?? skip_members next skip_one fuel) else some (ok r'))
    member false r' m rest = m
    member true r' (a, m) rest =
        Returns-next (Ahead r' 1 r'.depth true) (Ahead r 1 (r.depth - 1) true) _ _
          (skips r' (Ahead-Inside i m) (left m k))
          (λ r'' p.
            let t = Ahead-trans m p in
            Returns-map (Ahead r'' 1 (r''.depth - 1) true) (Ahead r 1 (r.depth - 1) true) _
              (λ s q. record {
                same = q.same ∙ t.same;
                ahead = omega (arith, q.ahead, t.ahead);
                within = q.within;
                deep = q.deep ∙ ap (λ d. d - 1) (p.deep ∙ m.deep);
                comma = q.comma;
              })
              (rest r'' finds skips (Ahead-Inside i t)
                (omega (arith, ap length t.same, t.ahead, h, t.within)) (left t k)))

-- What `r'` leaves of a distance to the end, when it is ahead.
nearer :
    {r r' : Reader} {n d fuel : ℕ} {a : Bool}
    → Ahead r (suc n) d a r'
    → length r.buf - r.pos < suc fuel
    → length r'.buf - r'.pos < fuel
nearer p h = omega (arith, ap length p.same, p.ahead, p.within, h)

skip_string_lem :
    (b fuel : ℕ) (r : Reader)
    → Inside r
    → peek r ≡ some b
    → length r.buf - r.pos < suc fuel
    → Returns (Ahead r 1 r.depth true) (skip_string fuel r)
unfolding skip_string
skip_string_lem b fuel r i e h =
    let a = advance_lem b r i (ap (is_byte b) e ∙ same_byte b) in
    Returns-map (Ahead (advance r) 1 (advance r).depth true) (Ahead r 1 r.depth true) _
      (λ r' p. record {
        same = p.same ∙ a.same;
        ahead = omega (arith, p.ahead, a.ahead);
        within = p.within;
        deep = p.deep ∙ a.deep;
        comma = p.comma;
      })
      (string_rest_lem fuel (advance r) (Ahead-Inside i a) (nearer a h))

-- A container is entered, its members are skipped and it is left.
skip_container :
    (next : Reader → Result (Bool × Reader) JsonError)
    (skip_one : Reader → Option (Result Reader JsonError)) (fuel : ℕ) (r : Reader)
    (m : Result Reader JsonError)
    → Finds next
    → Skips skip_one fuel
    → Inside r
    → length r.buf - r.pos < suc fuel
    → Holds (Ahead r 1 (r.depth + 1) false) m
    → Returns (Ahead r 1 r.depth true) (m >? skip_members next skip_one fuel)
skip_container next skip_one fuel r m finds skips i h e =
    Returns-then (Ahead r 1 (r.depth + 1) false) (Ahead r 1 r.depth true) m _ e (λ r' p.
      Returns-map (Ahead r' 1 (r'.depth - 1) true) (Ahead r 1 r.depth true) _
        (λ s q. record {
          same = q.same ∙ p.same;
          ahead = omega (arith, p.ahead, q.ahead);
          within = q.within;
          deep = omega (arith, q.deep, p.deep);
          comma = q.comma;
        })
        (skip_members_lem next skip_one fuel fuel r' finds skips (Ahead-Inside i p) (nearer p h)
          (nearer p h)))

skip_value_lem :
    (skip_one : Reader → Option (Result Reader JsonError)) (fuel : ℕ) (r : Reader)
    → Skips skip_one fuel
    → Inside r
    → length r.buf - r.pos < suc fuel
    → Returns (Ahead r 1 r.depth true) (skip_value skip_one fuel r)
unfolding skip_value begin_object begin_array
skip_value_lem skip_one fuel r skips i h =
    Returns-then (λ b. peek r ≡ some b) (Ahead r 1 r.depth true) _ _
      (ok_or-Holds (λ b. peek r ≡ some b) _ _ (λ b e. e)) (λ b e. by_kind b e (kind_of b))
  where
    by_kind :
        (b : ℕ)
        → peek r ≡ some b
        → (k : Kind)
        → Returns (Ahead r 1 r.depth true) (elim k [
          | object ↦ begin_object r >? skip_members has_key skip_one fuel
          | array ↦ begin_array r >? skip_members next_element skip_one fuel
          | text_value ↦ skip_string fuel r
          | word ↦ some (skip_literal r)
          | numeric ↦ some (skip_number r)
          | other ↦ some (err (fail r Expected.any_value))
        ])
    by_kind b e object =
        skip_container has_key skip_one fuel r _ has_key-Finds skips i h
          (enter_lem 123 Expected.object_start r i)
    by_kind b e array =
        skip_container next_element skip_one fuel r _ next_element-Finds skips i h
          (enter_lem 91 Expected.array_start r i)
    by_kind b e text_value = skip_string_lem b fuel r i e h
    by_kind b e word = skip_literal_lem r i
    by_kind b e numeric = skip_number_lem r i
    by_kind b e other = tt

skip-Skips : (fuel : ℕ) → Skips (skip fuel) fuel
unfolding skip
skip-Skips zero r i h = absurd (omega (arith, h))
skip-Skips (suc fuel) r i h =
    let w = skip_whitespace_lem r i in
    Returns-map (Ahead (skip_whitespace r) 1 (skip_whitespace r).depth true)
      (Ahead r 1 r.depth true) _
      (λ r' p.
        let t = Ahead-trans w p in
        record {
          same = t.same;
          ahead = omega (arith, t.ahead);
          within = t.within;
          deep = p.deep ∙ w.deep;
          comma = p.comma;
        })
      (skip_value_lem (skip fuel) fuel (skip_whitespace r) (skip-Skips fuel) (Ahead-Inside i w)
        (left w h))

-- Skipping a value from a place in a buffer of less than 2^64 - 1 bytes ends, also when the fuel is only
-- more than the bytes that are left: it has an error, or a reader of the same bytes that is further on
-- and still in the buffer, at the depth it had before, and that expects a comma.
pub skip_lem :
    (r : Reader) (fuel : ℕ)
    → Inside r
    → length r.buf - r.pos < fuel
    → ((e : JsonError) × (skip fuel r ≡ some (err e)))
      ⊎ ((r' : Reader) × (skip fuel r ≡ some (ok r')) × Ahead r 1 r.depth true r')
skip_lem r fuel i h = go (skip fuel r) (skip-Skips fuel r i h)
  where
    go :
        (m : Option (Result Reader JsonError))
        → Returns (Ahead r 1 r.depth true) m
        → ((e : JsonError) × (m ≡ some (err e)))
          ⊎ ((r' : Reader) × (m ≡ some (ok r')) × Ahead r 1 r.depth true r')
    go none p = absurd (cc)
    go (some (err e)) p = inl (e, refl)
    go (some (ok r')) p = inr (r', refl, p)
