-- ===== src/Control/System/Reach.antt =====
-- The steps of the threads keep the workload sound.
use workload.Prelude.{ℕ, suc, ◌+◌, ◌<◌, ◌≡◌, subst, sym, arith, true, contains, inl, inr}
use workload.Store.Types.{Workload}
use workload.Store.Access.{AccessIo, file_access, transfer}
use workload.Store.Access.Steps.{transfer-IsOne, file_access_note}
use workload.Control.System.{
  Step, noted, unlinked, marked, linked, stamped, arrived, zeroed, ticked, flagged, restarted,
  commanded, Run, start, then_step, IsSound,
}
use workload.Control.System.Access.{note_access-IsSound}
use workload.Control.System.Move.{
  unlinked-IsSound, marked-IsSound, linked-IsSound, stamped-IsSound, arrived-IsSound,
}
use workload.Control.System.Command.{
  cmd-IsSound, reset-IsSound, tick-IsSound, with_flags-IsSound, restart_disk-IsSound,
}

more_steps : (n : ℕ) (w : Workload) → IsSound n w → IsSound (suc n) w
more_steps n w s = record {
  known = s.known;
  bounded = λ x. omega (arith, s.bounded x);
  conserved = s.conserved;
  ranked = s.ranked;
  linked = s.linked;
}

Step-IsSound :
    (n : ℕ) (w v : Workload)
    → n + 2 < 18446744073709551616
    → Step w v
    → IsSound n w
    → IsSound (suc n) v
Step-IsSound n w _ room (noted delta f d inside at one) s =
    note_access-IsSound n delta f d w s inside one room
Step-IsSound n w v room (unlinked a f d at) s = more_steps n v (unlinked-IsSound n a f d w at s)
Step-IsSound n w v room (marked f created) s = more_steps n v (marked-IsSound n f created w s)
Step-IsSound n w v room (linked f d free) s = more_steps n v (linked-IsSound n f d w free s)
Step-IsSound n w v room (stamped f d old) s = more_steps n v (stamped-IsSound n f d old w s)
Step-IsSound n w v room (arrived f) s = more_steps n v (arrived-IsSound n f w s)
Step-IsSound n w v room zeroed s = more_steps n v (reset-IsSound n w s)
Step-IsSound n w v room (ticked now) s = more_steps n v (tick-IsSound n now w s)
Step-IsSound n w v room (flagged break reload cfg pause relocate now) s =
    more_steps n v (with_flags-IsSound n break reload cfg pause relocate now w s)
Step-IsSound n w v room (restarted d) s = more_steps n v (restart_disk-IsSound n d w s)
Step-IsSound n w v room (commanded io line) s = more_steps n v (cmd-IsSound n io line w s)

-- From a sound workload with at most `m` accesses counted for each file, any `n` steps of the threads
-- lead to a sound workload. A step is what runs under one lock: the counting of an access, the restart
-- of a disk, the reset of all counters, the stamps at the end of a move, a change of flags, ratios or
-- the clock; or a whole command. A move of a file is taken in its parts, and steps of other threads
-- may come between them, but it is assumed that a file is taken out of the list of its disk in one
-- step, and put into the list of another in one step. What is sound: `m_file_sorted` and `m_index` are
-- inverse to one another and in the order of falling access counts, the totals are the sums over the
-- files, and the list of each disk holds exactly the files assigned to it, with its length in the
-- counter. The counters of 64 bits have room if `m + n + 2` does.
pub Run-IsSound :
    (m : ℕ) (w : Workload) (n : ℕ) (v : Workload)
    → IsSound m w
    → Run w n v
    → m + n + 2 < 18446744073709551616
    → IsSound (m + n) v
Run-IsSound m w _ _ s start room =
    let same : m ≡ m + 0 = omega arith in subst (λ (k : ℕ). IsSound k w) same s
Run-IsSound m w _ _ s (then_step n v u run step) room =
    let next : suc (m + n) ≡ m + suc n = omega arith in
    subst (λ (k : ℕ). IsSound k u) next
      (Step-IsSound (m + n) v u (omega arith) step (Run-IsSound m w n v s run (omega arith)))

-- A whole access to a file of the list keeps the workload sound, whatever the calls answer: it counts at
-- most one access more to each file, and the counters of 64 bits have room if `n + 2` does.
pub file_access-IsSound :
    (io : AccessIo) (f n : ℕ) (w : Workload)
    → contains f w.file_head ≡ true
    → IsSound n w
    → n + 2 < 18446744073709551616
    → IsSound (suc n) (file_access io f w).1
file_access-IsSound io f n w inside s room = elim (file_access_note io f w) [
  | inl same ↦ subst (IsSound (suc n)) (sym same) (more_steps n w s)
  | inr (d, at, noted_here) ↦
      subst (IsSound (suc n)) (sym noted_here)
        (note_access-IsSound n (transfer io d w) f d w s inside (transfer-IsOne io d w) room)
]
