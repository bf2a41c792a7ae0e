-- ===== src/Control/System/Packet.antt =====
-- source/workload.c: a packet of commands is a run of steps, so that it keeps the workload sound.
use workload.Prelude.{
  ℕ, suc, ◌+◌, ◌<◌, ◌≤◌, sym, subst, arith, Bool-cases, inl, inr, List, [], ◌∷◌, length,
}
use workload.Store.Types.{Bytes, Workload}
use workload.Store.Assign.{MoveIo}
use workload.Control.Udp.{Session, obey, packet, copied, is_header}
use workload.Control.Udp.Lines.{lines, obey_all, answer_lines, packet-lines}
use workload.Control.System.{Run, start, then_step, commanded, IsSound}
use workload.Control.System.Reach.{Run-IsSound}

obey-Run :
    (io : ℕ → MoveIo) (l : Bytes) (w : Workload) (n : ℕ) (s : Session)
    → Run w n s.workload
    → Run w (suc n) (obey io l s).workload
unfolding obey
obey-Run io l w n s run = then_step n s.workload _ run (commanded io l)

obey_all-Run :
    (io : ℕ → MoveIo) (ls : List Bytes) (w : Workload) (n : ℕ) (s : Session)
    → Run w n s.workload
    → Run w (n + length ls) (obey_all io ls s).workload
obey_all-Run io [] w n s run = subst (λ k. Run w k s.workload) (omega arith) run
obey_all-Run io (l ∷ ls) w n s run =
    let t = obey io (copied l) s in
    subst (λ k. Run w k (obey_all io ls t).workload) (omega arith)
      (obey_all-Run io ls w (suc n) t (obey-Run io (copied l) w n s run))

-- Each line behind a header is a step.
answer_lines-Run :
    (io : ℕ → MoveIo) (ls : List Bytes) (s : Session)
    → (n : ℕ) × (n ≤ length ls) × Run s.workload n (answer_lines io ls s).workload
answer_lines-Run io [] s = (0, omega arith, start)
answer_lines-Run io (h ∷ ls) s = elim (Bool-cases (is_header (copied h))) [
  | inl header ↦
      let run : Run s.workload (length ls) (obey_all io ls s).workload =
        subst (λ k. Run s.workload k (obey_all io ls s).workload) (omega arith)
          (obey_all-Run io ls s.workload 0 s start) in
      rw header (length ls, omega arith, run)
  | inr other ↦ rw other (0, omega arith, start)
]

-- A packet of any bytes, received while the workload is sound with at most `m` accesses counted for each
-- file, is obeyed in at most as many steps as it has lines, and leaves the workload sound, if the counters
-- of 64 bits have room for one access more to a file in each of them.
pub packet-IsSound :
    (io : ℕ → MoveIo) (bytes : Bytes) (m : ℕ) (s : Session)
    → IsSound m s.workload
    → m + length (lines bytes) + 2 < 18446744073709551616
    → (n : ℕ) × (n ≤ length (lines bytes))
      × Run s.workload n (packet io bytes s).workload
      × IsSound (m + n) (packet io bytes s).workload
packet-IsSound io bytes m s sound room =
    let (n, few, run) = answer_lines-Run io (lines bytes) s in
    let u = (answer_lines io (lines bytes) s).workload in
    subst
      (λ (t : Session).
        (k : ℕ) × (k ≤ length (lines bytes))
        × Run s.workload k t.workload
        × IsSound (m + k) t.workload)
      (sym (packet-lines io bytes s))
      (n, few, run, Run-IsSound m s.workload n u sound run (omega (arith, few)))
