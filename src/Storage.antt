-- ===== src/Storage.antt =====
-- source/workload_storage.c: the thread of a disk lays down the files that are assigned to it, and
-- counts a write for each; and the loop of source/workload_config.c that waits for the threads.
pub mod Counted
pub mod Laid
pub mod Walk
pub mod Start
pub mod Errors
use workload.Prelude.{
  ℕ, zero, suc, ◌+◌, Bool, true, false, not, ◌&&◌, Option, none, some, List, [], ◌∷◌, ltb, leb,
  ◌==◌, if◌then◌else◌, u64,
}
use workload.Store.Types.{File, Disk, Workload, update}
use workload.Store.Db.{update_db}

-- The write is counted for the file, its disk and the workload, without sorting the file in.
count_laid : (f d : ℕ) → Workload → Workload
count_laid f d w = record w {
  file = update w.file f (record (w.file f) {
    write_count = u64 ((w.file f).write_count + 1);
    time_stamp = w.time_stamp;
  });
  disk = update w.disk d (record (w.disk d) {
    write_count = u64 ((w.disk d).write_count + 1);
    time_stamp = w.time_stamp;
  });
  write_count = u64 (w.write_count + 1);
}

-- What a thread does under `m_reassign_lock` for one file.
pub lay_file : (f d : ℕ) → Workload → Workload
unfolding count_laid
lay_file f d w = (update_db f (some d) (count_laid f d w)).1

-- The files of a sequence of such steps, each with its disk, and the steps one after the other.
abbrev pub Steps : Type 0
Steps = List (ℕ × ℕ)

abbrev pub files_of : Steps → List ℕ
files_of [] = []
files_of ((f, d) ∷ steps) = f ∷ files_of steps

pub lay_files : Steps → Workload → Workload
lay_files [] w = w
lay_files ((f, d) ∷ steps) w = lay_files steps (lay_file f d w)

pub count_error : Workload → Workload
count_error w = record w { disk_error_count = w.disk_error_count + 1 }

pub count_ready : Workload → Workload
count_ready w = record w { disk_ready_count = u64 (w.disk_ready_count + 1) }

-- What the calls of a thread answer: whether the path of the disk is a directory or could be made; and
-- for each file, whether the thread is to stop before it, whether its pathname could be made, and
-- whether it could be opened. What is written into a file does not matter for the counters.
pub record LayIo : Type 0 where
  pub path : Bool
  pub broken : ℕ → Bool
  pub pathname : ℕ → Bool
  pub opened : ℕ → Bool

-- The loop over the files of the disk, along `m_assign_next`, on fuel.
pub lay_loop : ℕ → LayIo → (d : ℕ) → Option ℕ → Workload → Workload
lay_loop zero io d at w = w
lay_loop (suc fuel) io d none w = w
lay_loop (suc fuel) io d (some f) w =
    let v = lay_file f d w in
    let rest = lay_loop fuel io d (v.file f).assign_next v in
    if io.broken f then w else if io.pathname f && io.opened f then rest else count_error w

-- workload_disk_service up to the loop that waits for the end of the service. A thread that fails at a
-- file is counted as ready too.
pub disk_service : LayIo → (d : ℕ) → Workload → Workload
unfolding count_error count_ready
disk_service io d w =
    if io.path
    then count_ready (lay_loop w.file_count io d (w.disk d).assign_file w)
    else count_error w

-- The threads of the disks, one after the other.
pub disk_services : (ℕ → LayIo) → List ℕ → Workload → Workload
disk_services io [] w = w
disk_services io (d ∷ ds) w = disk_services io ds (disk_service (io d) d w)

-- What the waiting loop makes of the counters: an error ends the loading, and otherwise all disks have
-- to be ready.
pub data Waiting : Type 0 where
  failed : Waiting
  waiting : Waiting
  started : Waiting

wait_round : Workload → Waiting
wait_round w =
    if ltb 0 w.disk_error_count
    then failed
    else if leb w.disk_count w.disk_ready_count
    then started
    else waiting

-- The counters are reset, the threads run, and the loop looks at the counters.
pub start_disks : (ℕ → LayIo) → Workload → Waiting × Workload
unfolding wait_round
start_disks io w =
    let v =
      disk_services io w.disk_array (record w { disk_ready_count = 0; disk_error_count = 0 }) in
    (wait_round v, v)
