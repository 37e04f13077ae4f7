-- ===== src/Ladder/LoadLoop.antt =====
-- `Ladder::load`: the loop over a snapshot, and what it leaves.
use bowst.Prelude.{
  ℕ, ◌<◌, ◌≤◌, ◌≡◌, refl, sym, ◌∙◌, Bool, true, false, Bool-cases, inl, inr, none, List, [], ◌∷◌,
  ◌++◌, length, All, All-append, arith, subst, ltb, Result, ok, err, Result-cases, length-append,
}
use mathlib.Core.List.{append-nil, append_assoc}
use bowst.Units.{Price, Side, is_zero}
use bowst.Ladder.{
  Level, Ladder, BookError, insert, sort_and_check, validate, load_full, load_inner, load, clear,
}
use bowst.Ladder.Spec.{qty_at}
use bowst.Ladder.Apply.{IsPositive, Known, IsValid}
use bowst.Ladder.Load.{length-sort_and_check, Loaded, sort_and_check-Loaded, load_full-Loaded}
use bowst.Ladder.Exact.{IsExact}

-- A level that the loop takes is positive.
taken :
    (l : Ladder) (b : Bool) (x : Level) (rest : List Level)
    → (load_inner l b (x ∷ rest)).1 ≡ ok tt
    → (validate l.side x.price x.qty ≡ ok tt) × (is_zero x.qty ≡ false)
unfolding load_inner
taken l true x rest e = ground arith
taken l false x rest e = ground arith

IsPositive-of_taken :
    (l : Ladder) (x : Level)
    → validate l.side x.price x.qty ≡ ok tt
    → is_zero x.qty ≡ false
    → IsPositive x
unfolding validate
IsPositive-of_taken l x h z = ground arith

-- The rest of the loop after a level has been put into a full ladder.
abbrev after_full : Ladder → Level → List Level → Ladder × Result (Unit {0}) BookError
after_full l x rest = elim (load_full l x).1 [
  | err e ↦ ((load_full l x).0, err e)
  | ok _ ↦ load_inner (load_full l x).0 true rest
]

abbrev after_sort : Ladder → Level → List Level → Ladder × Result (Unit {0}) BookError
after_sort l x rest = elim (sort_and_check l).1 [
  | err e ↦ ((sort_and_check l).0, err e)
  | ok _ ↦ after_full (sort_and_check l).0 x rest
]

module _ (l : Ladder) (x : Level) (rest : List Level) where
  after_full_ok :
      {u : Unit {0}}
      → (load_full l x).1 ≡ ok u
      → after_full l x rest ≡ load_inner (load_full l x).0 true rest
  after_full_ok h = rw (h, after_full)

  after_full_err :
      {b : BookError} → (load_full l x).1 ≡ err b → after_full l x rest ≡ ((load_full l x).0, err b)
  after_full_err h = rw (h, after_full)

  after_sort_ok :
      {u : Unit {0}}
      → (sort_and_check l).1 ≡ ok u
      → after_sort l x rest ≡ after_full (sort_and_check l).0 x rest
  after_sort_ok h = rw (h, after_sort)

  after_sort_err :
      {b : BookError}
      → (sort_and_check l).1 ≡ err b
      → after_sort l x rest ≡ ((sort_and_check l).0, err b)
  after_sort_err h = rw (h, after_sort)

module _ (l : Ladder) (x : Level) (rest : List Level) (good : validate l.side x.price x.qty ≡ ok tt)
    (nz : is_zero x.qty ≡ false) where
  step_push :
      (b : Bool)
      → ltb (length l.levels) l.capacity ≡ true
      → load_inner l b (x ∷ rest) ≡ load_inner (record l { levels = l.levels ++ (x ∷ []) }) b rest
  unfolding load_inner
  step_push true h = rw (good, load_inner) (rw nz (rw h))
  step_push false h = rw (good, load_inner) (rw nz (rw h))

  step_full :
      ltb (length l.levels) l.capacity ≡ false → load_inner l true (x ∷ rest) ≡ after_full l x rest
  unfolding load_inner
  step_full h = rw (good, load_inner) (rw nz (rw h))

  step_sort :
      ltb (length l.levels) l.capacity ≡ false → load_inner l false (x ∷ rest) ≡ after_sort l x rest
  unfolding load_inner
  step_sort h = rw (good, load_inner) (rw nz (rw h))

-- A loaded ladder of another side and capacity, where these are equal.
Loaded-at :
    {s s' : Side} {n n' : ℕ} (seen : List Level) {l : Ladder}
    → s ≡ s'
    → n ≡ n'
    → Loaded s n seen l
    → Loaded s' n' seen l
Loaded-at {s} {s'} {n} {n'} seen {l} p q h =
    subst (λ t. Loaded t n' seen l) p (subst (λ t. Loaded s t seen l) q h)

-- What the rest of the loop gives, from any full ladder that is exact on what it has seen.
abbrev FullLoaded : List Level → Type 0
FullLoaded rest =
    (l : Ladder) (seen : List Level)
    → IsValid l
    → IsExact l (λ p. qty_at l.side p seen)
    → length l.levels ≡ l.capacity
    → (load_inner l true rest).1 ≡ ok tt
    → Loaded l.side l.capacity (seen ++ rest) (load_inner l true rest).0

after_full-Loaded :
    (rest : List Level) (l : Ladder) (seen : List Level) (x : Level)
    → FullLoaded rest
    → IsPositive x
    → IsValid l
    → IsExact l (λ p. qty_at l.side p seen)
    → length l.levels ≡ l.capacity
    → (after_full l x rest).1 ≡ ok tt
    → Loaded l.side l.capacity (seen ++ (x ∷ rest)) (after_full l x rest).0
after_full-Loaded rest l seen x ih po v ex n e = elim (Result-cases (load_full l x).1) [
  | inr (b, h) ↦ absurd (cc (after_full_err l x rest h))
  | inl (_, h) ↦
      let ((v', hs, hc, ex'), n') = load_full-Loaded l seen x po v ex n h in
      let l' = (load_full l x).0 in
      let seen' : List Level = seen ++ (x ∷ []) in
      let e' : (load_inner l' true rest).1 ≡ ok tt = rw (after_full_ok l x rest h) at e in
      let ex'' : IsExact l' (λ p. qty_at l'.side p seen') =
        subst (λ s. IsExact l' (λ p. qty_at s p seen')) (sym hs) ex' in
      let all = ih l' seen' v' ex'' (n' ∙ sym hc) e' in
      rw (after_full_ok l x rest h) (
        subst (λ t. Loaded l.side l.capacity t (load_inner l' true rest).0)
          (append_assoc seen (x ∷ []) rest) (Loaded-at (seen' ++ rest) hs hc all))
]

full-Loaded : (rest : List Level) → FullLoaded rest
full-Loaded [] l seen v ex n e =
    unfold load_inner in
    (v, refl, refl, subst (λ t. IsExact l (λ p. qty_at l.side p t)) (sym (append-nil seen)) ex)
full-Loaded (x ∷ rest) l seen v ex n e =
    let (good, nz) = taken l true x rest e in
    let step = step_full l x rest good nz (ground arith) in
    subst (λ t. Loaded l.side l.capacity (seen ++ (x ∷ rest)) t.0) (sym step)
      (after_full-Loaded rest l seen x (full-Loaded rest) (IsPositive-of_taken l x good nz) v ex n
        (rw step at e))

after_sort-Loaded :
    (rest : List Level) (l : Ladder) (x : Level)
    → IsPositive x
    → All IsPositive l.levels
    → 0 < l.capacity
    → length l.levels ≡ l.capacity
    → l.horizon ≡ none
    → (after_sort l x rest).1 ≡ ok tt
    → Loaded l.side l.capacity (l.levels ++ (x ∷ rest)) (after_sort l x rest).0
after_sort-Loaded rest l x px po ro n h e = elim (Result-cases (sort_and_check l).1) [
  | inr (b, g) ↦ absurd (cc (after_sort_err l x rest g))
  | inl (_, g) ↦
      let l' = (sort_and_check l).0 in
      let (v, hs, hc, ex) = sort_and_check-Loaded l po ro (omega arith) h g in
      let ex' : IsExact l' (λ p. qty_at l'.side p l.levels) =
        subst (λ s. IsExact l' (λ p. qty_at s p l.levels)) (sym hs) ex in
      let n' : length l'.levels ≡ l'.capacity = length-sort_and_check l ∙ n ∙ sym hc in
      rw (after_sort_ok l x rest g) (
        Loaded-at (l.levels ++ (x ∷ rest)) hs hc (
          after_full-Loaded rest l' l.levels x (full-Loaded rest) px v ex' n'
            (rw (after_sort_ok l x rest g) at e)))
]

unsorted-Loaded :
    (rest : List Level) (l : Ladder)
    → All IsPositive l.levels
    → 0 < l.capacity
    → length l.levels ≤ l.capacity
    → l.horizon ≡ none
    → (load_inner l false rest).1 ≡ ok tt
    → Loaded l.side l.capacity (l.levels ++ rest) (load_inner l false rest).0
unsorted-Loaded [] l po ro n h e =
    let e' : (sort_and_check l).1 ≡ ok tt = unfold load_inner in e in
    unfold load_inner in
    subst (λ t. Loaded l.side l.capacity t (sort_and_check l).0) (sym (append-nil l.levels))
      (sort_and_check-Loaded l po ro n h e')
unsorted-Loaded (x ∷ rest) l po ro n h e = elim (Bool-cases (ltb (length l.levels) l.capacity)) [
  | inl room ↦
      let (good, nz) = taken l false x rest e in
      let step = step_push l x rest good nz false room in
      let l' : Ladder = record l { levels = l.levels ++ (x ∷ []) } in
      let all =
        unsorted-Loaded rest l'
          (All-append IsPositive l.levels (x ∷ []) po (IsPositive-of_taken l x good nz, tt)) ro
          (ground (arith, length-append l.levels (x ∷ []))) h (rw step at e) in
      rw (step, ← append_assoc l.levels (x ∷ []) rest) all
  | inr full ↦
      let (good, nz) = taken l false x rest e in
      let step = step_sort l x rest good nz full in
      let all =
        after_sort-Loaded rest l x (IsPositive-of_taken l x good nz) po ro (ground arith) h
          (rw step at e) in
      rw step all
]

-- A snapshot that `load` accepts leaves a valid ladder, of the same side and capacity, that reads
-- at every price at the horizon or better as the snapshot lists it, however the snapshot is ordered.
pub load-IsExact :
    (l : Ladder) (levels : List Level)
    → 0 < l.capacity
    → (load l levels).1 ≡ ok tt
    → IsValid (load l levels).0
      × ((load l levels).0.side ≡ l.side)
      × ((load l levels).0.capacity ≡ l.capacity)
      × IsExact (load l levels).0 (λ p. qty_at l.side p levels)
unfolding load
load-IsExact l levels ro e = elim (Result-cases (load_inner (clear l) false levels).1) [
  | inr (b, h) ↦ absurd (ground arith)
  | inl (_, h) ↦ rw (h, load) (unsorted-Loaded levels (clear l) tt ro (omega arith) refl h)
]

-- A snapshot that `load` refuses leaves the ladder empty, with no horizon.
pub load_fails_empty :
    (l : Ladder) (levels : List Level) (b : BookError)
    → (load l levels).1 ≡ err b
    → ((load l levels).0.levels ≡ []) × ((load l levels).0.horizon ≡ none)
unfolding load
load_fails_empty l levels b e = ground arith

-- Loading changes neither the side nor the capacity, whether it succeeds or not.
abbrev pub SameShape : Ladder → Ladder → Type 0
SameShape l l' = (l'.side ≡ l.side) × (l'.capacity ≡ l.capacity)

load_full_shape : (l : Ladder) (x : Level) → SameShape l (load_full l x).0
unfolding load_full insert
load_full_shape l x = ground arith

sort_shape : (l : Ladder) → SameShape l (sort_and_check l).0
unfolding sort_and_check
sort_shape l = (refl, refl)

load_inner_shape : (rest : List Level) (b : Bool) (l : Ladder) → SameShape l (load_inner l b rest).0
unfolding load_inner
load_inner_shape [] true l = (refl, refl)
load_inner_shape [] false l = sort_shape l
load_inner_shape (x ∷ rest) true l = ground (
  arith,
  load_full_shape l x,
  load_inner_shape rest true (record l { levels = l.levels ++ (x ∷ []) }),
  load_inner_shape rest true (load_full l x).0,
)
load_inner_shape (x ∷ rest) false l = ground (
  arith,
  sort_shape l,
  load_full_shape (sort_and_check l).0 x,
  load_inner_shape rest false (record l { levels = l.levels ++ (x ∷ []) }),
  load_inner_shape rest true (load_full (sort_and_check l).0 x).0,
)

pub load_shape : (l : Ladder) (levels : List Level) → SameShape l (load l levels).0
unfolding load
load_shape l levels = ground (arith, load_inner_shape levels false (clear l))

-- A snapshot that a ladder with room for a level accepts in `load`, however it is ordered and
-- however long it is, reads at every price at the horizon or better as the snapshot lists it.
pub load_reads :
    (l : Ladder) (levels : List Level) (p : Price)
    → 0 < l.capacity
    → (load l levels).1 ≡ ok tt
    → Known (load l levels).0.side (load l levels).0.horizon p
    → qty_at (load l levels).0.side p (load l levels).0.levels ≡ qty_at l.side p levels
load_reads l levels p ro e k = (load-IsExact l levels ro e).3 p k
