-- ===== src/Setup/Config/Stopped.antt =====
-- source/workload_config.c: a loading that a break or a failure may stop.
use workload.Prelude.{ℕ, suc, ◌≡◌, refl, arith, ap, subst, sym, Bool, true, false}
use workload.Store.Types.{Workload}
use workload.Control.System.{IsSound}
use workload.Setup.{Round, update_file_array, assign_all, lay_places}
use workload.Setup.Arrays.{reallocated}
use workload.Setup.Load.{assigned-IsSound, laid-IsSound}
use workload.Setup.Config.{◌then_do◌}
use workload.Setup.Config.Total.{Ready, then_true}

then_laid :
    (places : Bool) (r : Bool × Workload)
    → IsSound 0 r.1
    → IsSound 0 (lay_places places r.1)
    → IsSound 0 (r then_do (λ v. (true, lay_places places v))).1
then_laid places (true, v) stopped laid = laid
then_laid places (false, v) stopped laid = stopped

-- New files, at least one, numbered from 1 and no more than the configuration has, and at least one
-- disk, fewer than 2 ^ 32 of each, are put into the arrays, for which memory is given, the files are
-- assigned, and the places are laid down unless the assignment returns -1. Whatever the method of
-- assignment, the numbers drawn, a break and failures of the moves: what is left is sound. The places
-- stay within the files, the list of each disk holds exactly the files assigned to it, and the order
-- and the totals are right.
pub load-IsSound :
    (n : ℕ) (w : Workload) (rounds : ℕ → Round) (places : Bool)
    → Ready (suc n) w
    → IsSound 0
        (update_file_array true w
          then_do assign_all rounds
          then_do (λ v. (true, lay_places places v))).1
load-IsSound n w rounds places r =
    let filled = update_file_array true w in
    let all : filled.0 ≡ true = rw (reallocated n w r.fresh.head r.cleared r.none_yet) refl in
    let next = λ (q : Bool × Workload). q then_do (λ v. (true, lay_places places v)) in
    let stopped = assigned-IsSound n w rounds r.fresh r.cleared r.none_yet r.distinct in
    let laid =
      laid-IsSound (suc n) w rounds places r.fresh (omega arith) (omega (arith, r.few_files))
        r.cleared r.none_yet r.distinct in
    subst (λ q. IsSound 0 q.1) (sym (ap next (then_true filled (assign_all rounds) all)))
      (then_laid places (assign_all rounds filled.1) stopped laid)
