-- ===== src/Journal/Reader/Ends.antt =====
-- The reader's loop over used-up segments ends by itself.
use bowst.Prelude.{
  ℕ, zero, suc, ◌+◌, ◌-◌, ◌<◌, ◌≤◌, ◌≡◌, refl, sym, ap, ◌∙◌, subst, Bool, true, false, Bool-cases,
  inl, inr, none, some, Option-cases, List, [], ◌∷◌, length, get_elem?, ltb, ok, Result-cases,
  u64_max, arith,
}
use bowst.Journal.Reader.{JournalReader, load_next, skip, turns}

get_elem?-past : {A : Type 0} (xs : List A) (i : ℕ) → get_elem? xs i ≡ none → length xs ≤ i
get_elem?-past [] i e = omega arith
get_elem?-past (x ∷ xs) zero e = absurd (cc)
get_elem?-past (x ∷ xs) (suc i) e = omega (arith, get_elem?-past xs i e)

get_elem?-within :
    {A : Type 0} (xs : List A) (i : ℕ) (a : A) → get_elem? xs i ≡ some a → i < length xs
get_elem?-within [] i a e = absurd (cc)
get_elem?-within (x ∷ xs) zero a e = omega arith
get_elem?-within (x ∷ xs) (suc i) a e = omega (arith, get_elem?-within xs i a e)

load_next-false :
    (r : JournalReader)
    → (load_next r).1 ≡ ok false
    → ((load_next r).0 ≡ r) × (length r.files ≤ r.next_file)
unfolding load_next
load_next-false r e = elim (Option-cases (get_elem? r.files r.next_file)) [
  | inl f ↦ rw (load_next, f) (refl, get_elem?-past r.files r.next_file f)
  | inr (bytes, f) ↦ absurd (ground (arith, f))
]

load_next-true :
    (r : JournalReader)
    → length r.files ≤ u64_max
    → (load_next r).1 ≡ ok true
    → ((load_next r).0.files ≡ r.files)
      × ((load_next r).0.next_file ≡ r.next_file + 1)
      × (r.next_file < length r.files)
unfolding load_next
load_next-true r w e = elim (Option-cases (get_elem? r.files r.next_file)) [
  | inl f ↦ absurd (ground (arith, f))
  | inr (bytes, f) ↦ let lt = get_elem?-within r.files r.next_file bytes f in ground (arith, f, lt)
]

-- There are bytes left in the segment, or no segment is left.
abbrev pub Ended : Bool → JournalReader → Type 0
Ended true r = ltb r.pos (length r.contents) ≡ true
Ended false r = length r.files ≤ r.next_file

skip_turns-Ended :
    (n : ℕ) (r : JournalReader) (b : Bool)
    → length r.files ≤ u64_max
    → length r.files - r.next_file < n
    → (skip n r).1 ≡ ok b
    → Ended b (skip n r).0
unfolding skip
skip_turns-Ended zero r b w f e = absurd (omega arith)
skip_turns-Ended (suc n) r b w f e = elim (Bool-cases (ltb r.pos (length r.contents))) [
  | inl here ↦
      let same : true ≡ b = ground (arith, here) in
      subst (λ t. Ended t (skip (suc n) r).0) same (rw (here, skip) here)
  | inr used ↦ elim (Result-cases (load_next r).1) [
    | inr (x, g) ↦ absurd (ground (arith, used))
    | inl (true, g) ↦
        let (files, next, lt) = load_next-true r w g in
        let r' = (load_next r).0 in
        let step : skip (suc n) r ≡ skip n r' = rw (used, skip) (rw g refl) in
        let count : length r'.files ≡ length r.files = ap length files in
        subst (λ t. Ended b t.0) (sym step)
          (skip_turns-Ended n r' b (omega (arith, count)) (omega (arith, count, next, lt))
            (sym (ap (λ t. t.1) step) ∙ e))
    | inl (false, g) ↦
        let (same, past) = load_next-false r g in
        let step : skip (suc n) r ≡ ((load_next r).0, ok false) = rw (used, skip) (rw g refl) in
        let no_more : false ≡ b = ground (arith, step) in
        subst (λ t. Ended b t.0) (sym step)
          (subst (λ t. Ended t (load_next r).0) no_more (rw same past))
  ]
]

-- The loop over used-up segments, on as many turns as there are segments left and one more, ends
-- as the code's loop does: with bytes left to read, or, if it finds no more, behind the last
-- segment. The number of segments is a 64-bit word.
pub skip-Ended :
    (r : JournalReader) (b : Bool)
    → length r.files ≤ u64_max
    → (skip (turns r) r).1 ≡ ok b
    → Ended b (skip (turns r) r).0
skip-Ended r b w e = skip_turns-Ended (turns r) r b w (omega arith) e
