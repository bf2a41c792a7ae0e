-- ===== src/Tests/Numbers.antt =====
-- The theorems on the arithmetic, the generator and the timers.
use workload.Prelude.{ℕ, ◌≡◌, arith, true}
use workload.Math.{aspect_ratio_uint}
use workload.Math.Gcd.{aspect_ratio_uint_lowest}
use workload.Random.{randomize_update}
use workload.Random.Step.{back, back-randomize_update}
use workload.Timer.{check_timer, init_timer, at_tick, check_timer-init_timer}

back-randomize_update_example : back (randomize_update 12345) ≡ 12345
back-randomize_update_example = back-randomize_update 12345 (omega arith)

check_timer-init_timer_example :
    ((check_timer (at_tick 50) (init_timer (at_tick 10) 300)).0 ≡ true)
    × ((check_timer (at_tick 50) (init_timer (at_tick 10) 300)).1 ≡ 0)
check_timer-init_timer_example = check_timer-init_timer 10 50 300 (omega arith) (omega arith)

aspect_ratio_uint_lowest_example : ◌≡◌ {A = ℕ} 1 1
aspect_ratio_uint_lowest_example =
    aspect_ratio_uint_lowest 12 18 1 (omega arith) (omega arith)
      ((aspect_ratio_uint 12 18).ratio1, omega arith)
      ((aspect_ratio_uint 12 18).ratio2, omega arith)
