-- ===== src/Timer.antt =====
-- source/timer.c: time stamps in milliseconds from the clock ticks of times(2), and timers.
use workload.Prelude.{
  ℕ, ◌+◌, ◌-◌, ◌*◌, ◌/◌, ◌≤◌, ◌<◌, ◌≡◌, arith, Bool, true, false, Option, none, some, ltb, leb,
  if◌then◌else◌, u64,
}

-- `workload_timer_t`. A clock tick rate that is not known is 0.
pub record Timer : Type 0 where
  pub prev_clock : ℕ
  pub clock_tick : ℕ
  pub time_stamp : ℕ
  pub start_time_stamp : ℕ
  pub timeout : ℕ
  pub duration : ℕ

-- What times(2) and sysconf(_SC_CLK_TCK) answer: `none` is -1, and a rate that is not positive is 0.
pub record Clock : Type 0 where
  pub now : Option ℕ
  pub rate : ℕ

-- "update time stamp"
abbrev advance : ℕ → Timer → Timer
advance now t = record t {
  time_stamp =
      u64 (
        t.time_stamp + u64 (u64 (now + 18446744073709551616 - t.prev_clock) * 1000) / t.clock_tick);
  prev_clock = now;
}

stamped : Option ℕ → ℕ → Timer → Timer
stamped none rate t = t
stamped (some now) rate t =
    let fresh = record t { clock_tick = rate; prev_clock = now } in
    if ltb 0 t.clock_tick
    then advance now t
    else if ltb 0 rate
    then advance now fresh
    else record t { clock_tick = rate }

-- workload_time_stamp_msec_private
pub time_stamp_msec : Clock → Timer → ℕ × Timer
unfolding stamped
time_stamp_msec clock t = let s = stamped clock.now clock.rate t in (s.time_stamp, s)

-- workload_set_timer
pub set_timer : Clock → (timeout : ℕ) → Timer → Timer
set_timer clock timeout t =
    let (stamp, s) = time_stamp_msec clock t in
    record s { start_time_stamp = stamp; timeout = timeout; duration = 0 }

-- `def_workload_init_timer`
abbrev pub unset_timer : Timer
unset_timer = record {
  prev_clock = 0;
  clock_tick = 0;
  time_stamp = 0;
  start_time_stamp = 1000;
  timeout = 0;
  duration = 0;
}

-- workload_init_timer
pub init_timer : Clock → (timeout : ℕ) → Timer
init_timer clock timeout = set_timer clock timeout unset_timer

-- workload_update_timer
pub update_timer : (timeout : ℕ) → Timer → Timer
update_timer timeout t = record t { timeout = u64 (t.timeout + timeout) }

-- workload_check_timer_ex: whether the timer has expired, and `*s_remain`
pub check_timer : Clock → Timer → Bool × ℕ × Timer
check_timer clock t =
    let (stamp, s) = time_stamp_msec clock t in
    let duration = u64 (stamp + 18446744073709551616 - s.start_time_stamp) in
    let u = record s { duration = duration } in
    if leb s.timeout duration then (true, 0, u) else (false, s.timeout - duration, u)

-- The clock of Linux, with 100 ticks in a second.
abbrev pub at_tick : ℕ → Clock
at_tick now = record { now = some now; rate = 100 }

-- A timer that is set at tick `a` has expired at tick `b` exactly if its timeout in milliseconds has
-- passed, ten for each tick, and else the time left is what is missing, if the ticks stay below the
-- bound at which the milliseconds wrap.
pub check_timer-init_timer :
    (a b timeout : ℕ)
    → a ≤ b
    → b < 18446744073709551
    → ((check_timer (at_tick b) (init_timer (at_tick a) timeout)).0 ≡ leb timeout ((b - a) * 10))
      × ((check_timer (at_tick b) (init_timer (at_tick a) timeout)).1 ≡ timeout - (b - a) * 10)
unfolding check_timer init_timer set_timer time_stamp_msec stamped
check_timer-init_timer a b timeout later small = ground arith
