-- ===== src/RateLimit/Tests.antt =====
-- A token bucket of ten tokens for 1000 nanoseconds.
use bowst.Prelude.{ℕ, ◌≡◌, refl, ◌+◌, ◌-◌, ◌*◌, ◌≤◌, arith, List, [], ◌∷◌, ok, err, div_ceil}
use bowst.RateLimit.{TokenBucket, new, refill, try_take}
use bowst.RateLimit.Bounds.{
  Request, take_tokens, serve_all, granted_all, serve_all_budget, try_take_waits,
}

abbrev bucket : TokenBucket
bucket = record { capacity = 10; window = 1000; scaled = 10000; last = 0 }

new-bucket : new 10 1000 0 ≡ bucket
unfolding new
new-bucket = refl

abbrev requests : List (Request × ℕ)
requests = (take_tokens 8, 0) ∷ (take_tokens 8, 100) ∷ (take_tokens 8, 600) ∷ []

serve_all_budget_example :
    (serve_all bucket requests).scaled + granted_all bucket requests * 1000
    ≤ 10000 + ((serve_all bucket requests).last - 0) * 10
serve_all_budget_example = serve_all_budget requests bucket (omega arith)

-- After eight tokens at once, three more take 100 nanoseconds.
abbrev low_bucket : TokenBucket
low_bucket = record bucket { scaled = 2000 }

take_eight : (try_take bucket 8 0).0 ≡ low_bucket
unfolding try_take refill
take_eight = refl

refuses_three : (try_take low_bucket 3 0).1 ≡ err 100
unfolding try_take refill div_ceil
refuses_three = refl

try_take_waits_example : (try_take (try_take low_bucket 3 0).0 3 100).1 ≡ ok tt
try_take_waits_example =
    try_take_waits low_bucket 3 0 100 (omega arith) (omega arith) (omega arith) (omega arith)
      refuses_three
