-- ===== src/RateLimit/Bounds.antt =====
-- What a token bucket grants: never more than its capacity, at most the refill rate over time, and
-- after the wait that it names.
use bowst.Prelude.{
  ℕ, zero, suc, ◌+◌, ◌-◌, ◌*◌, ◌<◌, ◌≤◌, ◌≡◌, refl, sym, ap, subst, max, Bool-cases, List, [], ◌∷◌,
  ◌∙◌, ok, err, inl, inr, u64_max, u128_max, sat_mul128, div_ceil, div_ceil-enough, ltb, leb, arith,
}
use native.Mathlib.Nat.{add-mul, zero-mul, mul-le-mul_right}
use bowst.RateLimit.{TokenBucket, new, refill, available, try_take, observe_used}

-- The bucket holds at most its capacity, and its window is not empty.
pub record IsValidBucket (b : TokenBucket) : Type 0 where
  pub full : b.scaled ≤ b.capacity * b.window
  pub window_pos : 0 < b.window

-- What can be asked of a bucket.
pub data Request : Type 0 where
  ask : ℕ → Request
  take_tokens : ℕ → Request
  report : ℕ → Request

unfoldable pub serve : TokenBucket → Request → ℕ → TokenBucket
serve b (ask _) now = (available b now).0
serve b (take_tokens cost) now = (try_take b cost now).0
serve b (report used) now = observe_used b used now

-- The tokens that a request is granted.
unfoldable pub granted : TokenBucket → Request → ℕ → ℕ
granted b (ask _) now = 0
granted b (take_tokens cost) now = elim (try_take b cost now).1 [ ok _ ↦ cost | err _ ↦ 0 ]
granted b (report used) now = 0

pub new-IsValidBucket : (capacity window now : ℕ) → IsValidBucket (new capacity window now)
unfolding new
new-IsValidBucket c w now = record { full = omega arith; window_pos = omega arith }

-- No request makes a bucket hold more than its capacity.
pub serve-IsValidBucket :
    (b : TokenBucket) (r : Request) (now : ℕ) → IsValidBucket b → IsValidBucket (serve b r now)
unfolding serve available try_take observe_used refill
serve-IsValidBucket b (ask _) now v = record {
  full = ground arith;
  window_pos = ground (arith, v.window_pos);
}
serve-IsValidBucket b (take_tokens cost) now v = record {
  full = ground (arith, v.full);
  window_pos = ground (arith, v.window_pos);
}
serve-IsValidBucket b (report used) now v = record {
  full = ground arith;
  window_pos = ground (arith, v.window_pos);
}

-- One request changes neither the capacity nor the window, and does not turn the clock back.
abbrev SameBucket : TokenBucket → TokenBucket → Type 0
SameBucket b b' = (b'.capacity ≡ b.capacity) × (b'.window ≡ b.window) × (b.last ≤ b'.last)

serve_shape : (b : TokenBucket) (r : Request) (now : ℕ) → SameBucket b (serve b r now)
unfolding serve available try_take observe_used refill
serve_shape b (ask _) now = ground arith
serve_shape b (take_tokens cost) now = ground arith
serve_shape b (report used) now = ground arith

elapsed_of : (last now : ℕ) → max last now - last ≡ now - last
elapsed_of last now = omega arith

refill_budget :
    (b : TokenBucket) (now : ℕ)
    → (refill b now).scaled ≤ b.scaled + ((refill b now).last - b.last) * b.capacity
unfolding refill
refill_budget b now = rw (elapsed_of b.last now) (omega arith)

-- A request pays for what it is granted out of what the bucket holds and what has accrued.
serve_budget :
    (b : TokenBucket) (r : Request) (now : ℕ)
    → b.capacity * b.window ≤ u128_max
    → (serve b r now).scaled + granted b r now * b.window
      ≤ b.scaled + ((serve b r now).last - b.last) * b.capacity
unfolding serve granted available observe_used
serve_budget b (ask _) now h = omega (arith, refill_budget b now)
serve_budget b (report used) now h = omega (arith, refill_budget b now)
serve_budget b (take_tokens cost) now h = elim (Bool-cases (ltb b.capacity cost)) [
  | inl big ↦ unfold try_take in ground (arith, big)
  | inr small ↦
      let le : cost * b.window ≤ b.capacity * b.window = mul-le-mul_right b.window (ground arith) in
      let w : (refill b now).window ≡ b.window = unfold refill in refl in
      unfold try_take in ground (arith, refill_budget b now, small, w)
]

-- Requests with the times at which they are made.
unfoldable pub serve_all : TokenBucket → List (Request × ℕ) → TokenBucket
serve_all b [] = b
serve_all b ((r, now) ∷ rs) = serve_all (serve b r now) rs

unfoldable pub granted_all : TokenBucket → List (Request × ℕ) → ℕ
granted_all b [] = 0
granted_all b ((r, now) ∷ rs) = granted b r now + granted_all (serve b r now) rs

split_span : (a b c k : ℕ) → a ≤ b → b ≤ c → (b - a) * k + (c - b) * k ≡ (c - a) * k
split_span a b c k h g =
    let e : (b - a) + (c - b) ≡ c - a = omega arith in cc (add-mul (b - a) (c - b) k, e)

pub serve_all_shape : (rs : List (Request × ℕ)) (b : TokenBucket) → SameBucket b (serve_all b rs)
unfolding serve_all
serve_all_shape [] b = (refl, refl, omega arith)
serve_all_shape ((r, now) ∷ rs) b =
    let (c, w, l) = serve_shape b r now in
    let (c', w', l') = serve_all_shape rs (serve b r now) in (c' ∙ c, w' ∙ w, omega (arith, l, l'))

-- Over any sequence of requests the tokens granted, times the window, are at most what the bucket
-- held at first and what accrues at the refill rate from the first time to the last. A full
-- bucket, tokens times window, is within 128 bits.
pub serve_all_budget :
    (rs : List (Request × ℕ)) (b : TokenBucket)
    → b.capacity * b.window ≤ u128_max
    → (serve_all b rs).scaled + granted_all b rs * b.window
      ≤ b.scaled + ((serve_all b rs).last - b.last) * b.capacity
unfolding serve_all granted_all
serve_all_budget [] b h = omega arith
serve_all_budget ((r, now) ∷ rs) b h =
    let b' = serve b r now in
    let (c, w, l) = serve_shape b r now in
    let (c', w', l') = serve_all_shape rs b' in
    let ih = serve_all_budget rs b' (rw (c, w) h) in
    omega (
      arith,
      ih,
      ap (λ t. granted_all b' rs * t) w,
      ap (λ t. ((serve_all b' rs).last - b'.last) * t) c,
      serve_budget b r now h,
      split_span b.last b'.last (serve_all b' rs).last b.capacity l l',
      add-mul (granted b r now) (granted_all b' rs) b.window,
    )

take_if :
    (b : TokenBucket) (cost now : ℕ)
    → cost ≤ b.capacity
    → cost * b.window ≤ (refill b now).scaled
    → (try_take b cost now).1 ≡ ok tt
unfolding try_take refill
take_if b cost now c h = ground arith

positive : {s : ℕ} (a b : ℕ) → s < a * b → 0 < a
positive zero b h = absurd (omega (arith, zero-mul b))
positive (suc a) b h = omega arith

-- What a refusal that names a wait says.
refused :
    (b : TokenBucket) (cost now wait : ℕ)
    → cost ≤ b.capacity
    → wait < u64_max
    → b.capacity * b.window ≤ u128_max
    → (try_take b cost now).1 ≡ err wait
    → ((try_take b cost now).0 ≡ refill b now)
      × (cost * b.window - (refill b now).scaled ≤ wait * b.capacity)
unfolding try_take refill
refused b cost now wait c w h e =
    let fits : cost * b.window ≤ b.capacity * b.window = mul-le-mul_right b.window c in
    let missing = sat_mul128 cost b.window - (refill b now).scaled in
    let enough = div_ceil-enough missing (max b.capacity 1) (omega arith) in
    elim (Bool-cases (leb (sat_mul128 cost b.window) (refill b now).scaled)) [
      | inl can ↦ absurd (ground arith)
      | inr cannot ↦
          let lack : (refill b now).scaled < b.capacity * b.window = ground (arith, fits) in
          let some_room : max b.capacity 1 ≡ b.capacity =
            ground (arith, positive b.capacity b.window lack) in
          let named : div_ceil missing (max b.capacity 1) ≡ wait = ground arith in
          (
            ground arith,
            omega (
              arith,
              enough,
              named,
              some_room,
              ap (λ t. t * max b.capacity 1) named,
              ap (λ t. wait * t) some_room,
            ),
          )
    ]

-- A refusal with a wait is kept to: asked again after that wait, and after nothing else, the
-- bucket grants the cost. The cost is within the capacity, the clock has not gone back, a full
-- bucket is within 128 bits, and the wait is below the greatest 64-bit word.
pub try_take_waits :
    (b : TokenBucket) (cost now wait : ℕ)
    → b.capacity * b.window ≤ u128_max
    → cost ≤ b.capacity
    → b.last ≤ now
    → wait < u64_max
    → (try_take b cost now).1 ≡ err wait
    → (try_take (try_take b cost now).0 cost (now + wait)).1 ≡ ok tt
unfolding try_take refill
try_take_waits b cost now wait h c l w e =
    let (same, enough) = refused b cost now wait c w h e in
    subst (λ t. (try_take t cost (now + wait)).1 ≡ ok tt) (sym same)
      (take_if (refill b now) cost (now + wait) c (later enough))
  where
    elapsed : now + wait - max b.last now ≡ wait
    elapsed = omega arith

    fits : cost * b.window ≤ b.capacity * b.window
    fits = mul-le-mul_right b.window c

    later :
        cost * b.window - (refill b now).scaled ≤ wait * b.capacity
        → cost * b.window ≤ (refill (refill b now) (now + wait)).scaled
    later enough = rw elapsed (omega (arith, fits, enough, h))
