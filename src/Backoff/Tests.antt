-- ===== src/Backoff/Tests.antt =====
-- A backoff from 500 milliseconds to 30 seconds, in nanoseconds.
use bowst.Prelude.{◌≡◌, refl, ◌/◌, ◌≤◌, arith}
use bowst.Backoff.{Backoff, new, factor, step, jitter, next_delay}
use bowst.Backoff.Delay.{next_delay_bounds}

abbrev backoff : Backoff
backoff = record (new 500000000 30000000000) { attempt = 2 }

step_two : step backoff ≡ 2000000000
unfolding step factor
step_two = refl

delay_two : (next_delay backoff 4294967295).1 ≡ 2000000000
unfolding next_delay step factor jitter
delay_two = refl

next_delay_bounds_example :
    (step backoff / 2 ≤ (next_delay backoff 7).1)
    × ((next_delay backoff 7).1 ≤ step backoff)
    × (step backoff ≤ 30000000000)
next_delay_bounds_example = next_delay_bounds backoff 7 (omega arith) (omega arith)
