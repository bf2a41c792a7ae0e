-- ===== src/Math.antt =====
-- source/math.c: the greatest common divisor and the reduction of the access ratio.
pub mod Gcd
use mathlib.Core.WellFounded.{Acc}
use workload.Prelude.{ℕ, ◌/◌, ◌%◌, ◌<◌, Bool, ◌||◌, dec_lt, ltb, ◌==◌, if◌then◌else◌, arith}
use workload.Prelude.Order.{lt_wf}
use mathlib.Core.Logic.{dite}

-- The `for(;;)` of workload_gcm_uint: `s_temp = s_value1 % s_value2`, until it is 0.
gcm_loop : (value1 value2 : ℕ) → Acc ◌<◌ value2 → ℕ
gcm_loop value1 value2 (Acc.intro _ smaller) =
    dite (dec_lt 0 value2)
      (λ h.
        let temp = value1 % value2 in
        let rest = gcm_loop value2 temp (smaller temp (omega arith)) in
        if temp == 0 then value2 else rest)
      (λ _. value2)

-- The test for an invalid argument, and the loop, on the two values in order.
gcm_from : ℕ → ℕ → ℕ
gcm_from value1 value2 = if value2 == 0 then 0 else gcm_loop value1 value2 (lt_wf.apply value2)

-- The smaller value goes second.
pub gcm_uint : ℕ → ℕ → ℕ
gcm_uint value1 value2 =
    if ltb value1 value2 then gcm_from value2 value1 else gcm_from value1 value2

-- The result, and what is written through the two ratio pointers.
pub record Ratio : Type 0 where
  pub result : ℕ
  pub ratio1 : ℕ
  pub ratio2 : ℕ

unfoldable pub aspect_ratio_uint : ℕ → ℕ → Ratio
aspect_ratio_uint value1 value2 =
    if value1 == 0 || value2 == 0
    then record { result = 0; ratio1 = 1; ratio2 = 1 }
    else (let gcm = gcm_uint value1 value2 in
        if gcm == 0
        then record { result = 0; ratio1 = 1; ratio2 = 1 }
        else record { result = gcm; ratio1 = value1 / gcm; ratio2 = value2 / gcm })
