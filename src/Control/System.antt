-- ===== src/Control/System.antt =====
-- source/workload.c, source/workload_access.c and source/workload_relocate.c: the threads together, as a
-- sequence of steps. What runs under one lock is one step: the counting part of an access, the restart of
-- the disks one by one, the reset of all counters, and the stamps at the end of a move. The move of a
-- file, which runs under the lock of that file only, is taken in its parts, and steps of other threads
-- may come between them; but to take a file out of the list of its disk, and to put it into another, is
-- one step each. The code does not ensure this: two moves that change the lists of the same disk at once
-- are not modelled.
pub mod Same
pub mod Access
pub mod Move
pub mod Command
pub mod Reach
pub mod Packet
pub mod Parts
pub mod Obeyed
use workload.Prelude.{
  ℕ, suc, ◌+◌, ◌<◌, ◌≤◌, ◌≡◌, true, some, none, Option, contains, List, ltb, Bool, ◌&&◌, false,
}
use workload.Store.Types.{Bytes, Cfg, Workload, update}
use workload.Store.Access.{Delta, note_access, reset_file_access_count}
use workload.Store.Access.Counts.{IsConserved}
use workload.Store.Access.Ranked.{IsRankedStore}
use workload.Store.Assign.{
  MoveIo, relocate_file, deassign_from, set_created, link, stamp_disk, stamp_file,
}
use workload.Store.Db.{update_db}
use workload.Store.Assign.Chains.{IsLinked}
use workload.Control.{update_main_time_stamp, restart_disk, cmd}

-- The flags, the ratios and the time stamp, which only the main thread sets.
abbrev pub with_flags : Bool → Bool → Cfg → Bool → Bool → ℕ → Workload → Workload
with_flags break reload cfg pause relocate now w = record w {
  break = break;
  reload = reload;
  cfg = cfg;
  pause = pause;
  relocate = relocate;
  time_stamp = now;
}

-- `m_reassign_disk = NULL`
abbrev pub clear_target : ℕ → Workload → Workload
clear_target f w = record w { file = update w.file f (record (w.file f) { reassign_disk = none }) }

-- One access counts a read or a write, not both.
abbrev pub IsOne : Delta → Type 0
IsOne delta = (delta.read && delta.write) ≡ false

pub data Step (w : Workload) : Workload → Type 0 where
  -- an access thread counts what it has transferred to or from the file's disk
  noted :
      (delta : Delta) (f d : ℕ)
      → contains f w.file_head ≡ true
      → (w.file f).assign_disk ≡ some d
      → IsOne delta
      → Step w (note_access delta f d w)
  -- a part of a move: the file is taken out of the list of its disk
  unlinked :
      (allocated : Bool) (f d : ℕ)
      → (w.file f).assign_disk ≡ some d
      → Step w (deassign_from allocated f d w)
  -- a part of a move: the flag of the file tells whether the new one was created
  marked : (f : ℕ) (created : Bool) → Step w (set_created f created w)
  -- a part of a move: the file is put into the list of a disk
  linked : (f d : ℕ) → (w.file f).assign_disk ≡ none → Step w (link f d w)
  -- a part of a move, under the reassign lock: the time stamps and the row of the file
  stamped :
      (f d : ℕ) (old : Option ℕ)
      → Step w (update_db f none (stamp_disk (some d) (stamp_file f (stamp_disk old w)))).1
  -- the end of a move: the file is to move no more
  arrived : (f : ℕ) → Step w (clear_target f w)
  -- the main thread reads the clock
  ticked : (now : ℕ) → Step w (update_main_time_stamp now w)
  -- a part of a command: the main thread sets flags, ratios or the time stamp
  flagged :
      (break reload : Bool) (cfg : Cfg) (pause relocate : Bool) (now : ℕ)
      → Step w (with_flags break reload cfg pause relocate now w)
  -- a part of a command: the main thread takes the reassign lock, and restarts a disk
  restarted : (d : ℕ) → Step w (restart_disk d w)
  -- a part of a command: the main thread takes the reassign lock, and resets all counters
  zeroed : Step w (reset_file_access_count w)
  -- the main thread obeys a command from its beginning to its end
  commanded : (io : ℕ → MoveIo) (line : Bytes) → Step w (cmd io line w).0

-- `n` steps lead from `w` to the workload.
pub data Run (w : Workload) : ℕ → Workload → Type 0 where
  start : Run w 0 w
  then_step : (n : ℕ) (v u : Workload) → Run w n v → Step v u → Run w (suc n) u

-- What holds of the workload after `n` steps.
pub record IsSound (n : ℕ) (w : Workload) : Type 0 where
  pub known : (x : ℕ) → contains x w.file_head ≡ ltb x w.file_count
  pub bounded : (x : ℕ) → (w.file x).read_count + (w.file x).write_count ≤ n
  pub conserved : IsConserved w
  pub ranked : IsRankedStore w
  pub linked : (members : ℕ → List ℕ) × IsLinked w members
