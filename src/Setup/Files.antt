-- ===== src/Setup/Files.antt =====
-- source/workload_file.c and source/workload_config.c: the files are made, and listed. The file with
-- `m_id` n stands at the address n - 1.
pub mod Made
use workload.Prelude.{
  ℕ, zero, suc, ◌+◌, ◌-◌, ◌*◌, ◌/◌, ◌%◌, Bool, true, false, Option, none, some, List, [], ◌∷◌, ◌++◌,
  ltb, not, length, ◌==◌, if◌then◌else◌,
}
use workload.Store.Types.{Bytes, File, Workload, update}
use workload.Store.Assign.{deassign_file}
use workload.Setup.{free_file_array}
use workload.Setup.Disks.{DiskIo}

-- The digits that `%u` prints, at most `fuel` of them.
pub decimal : (fuel n : ℕ) → Bytes
decimal zero n = []
decimal (suc fuel) n =
    let front = decimal fuel (n / 10) in
    if ltb n 10 then (48 + n) ∷ [] else front ++ (48 + n % 10) ∷ []

-- What `%s` prints; `null_text` is what the C library prints for NULL.
printed : (null_text : Bytes) → Option Bytes → Bytes
printed null_text none = null_text
printed null_text (some s) = s

-- `strlen(workload_check_string(...))`
abbrev pub string_size : Option Bytes → ℕ
string_size none = 0
string_size (some s) = length s

abbrev pub file_named : (name : Bytes) → (s_id : ℕ) → Workload → File
file_named name s_id w = record {
  assign_prev = none;
  assign_next = none;
  assign_disk = none;
  reassign_disk = none;
  created = false;
  inserted_db = false;
  index = 0;
  id = s_id;
  filename = name;
  read_count = 0;
  write_count = 0;
  time_stamp = w.time_stamp;
}

-- workload_new_file, where malloc succeeds. The id is an unsigned int, which has ten digits. None is a
-- filename that does not fit into what was allocated, for which C defines nothing.
pub new_file : (null_text : Bytes) → (s_id : ℕ) → Workload → Option File
unfolding decimal printed
new_file null_text s_id w =
    let name =
      printed null_text w.cfg.prefix ++ decimal 10 s_id ++ printed null_text w.cfg.suffix in
    let room = string_size w.cfg.prefix + 10 + string_size w.cfg.suffix in
    if ltb room (length name) then none else some (file_named name s_id w)

-- workload_free_file of the head of the list. The files behind it are lost.
pub free_file : (allocated : Bool) → List ℕ → Workload → Workload
free_file allocated [] w = w
free_file allocated (f ∷ fs) w = record (deassign_file allocated f w) { file_head = [] }

-- A file at the end of the list. Where C defines nothing, the model stops as at a break.
pub add_file : Option File → (s_id : ℕ) → Workload → Bool × Workload
add_file none s_id w = (false, w)
add_file (some f) s_id w = (
  true,
  record w { file = update w.file (s_id - 1) f; file_head = w.file_head ++ (s_id - 1) ∷ [] },
)

-- The loop from `s_id` on, for `n` more rounds: a break is a return of -1, and memory that is not given
-- only ends the loop.
pub add_files : (null_text : Bytes) → (ℕ → DiskIo) → (n s_id : ℕ) → Workload → Bool × Workload
unfolding new_file add_file
add_files null_text rounds zero s_id w = (true, w)
add_files null_text rounds (suc n) s_id w =
    let (fits, v) = add_file (new_file null_text s_id w) s_id w in
    let rest = add_files null_text rounds n (suc s_id) v in
    if (rounds s_id).broken
    then (false, w)
    else if not (rounds s_id).allocated
    then (true, w)
    else if fits
    then rest
    else (false, w)

-- The number of files, if none was given.
abbrev pub with_files : Workload → Workload
with_files w = record w {
  cfg = record w.cfg { filecount = if w.cfg.filecount == 0 then 1000 else w.cfg.filecount };
}

-- The section `file` up to the array.
pub list_files : (null_text : Bytes) → (delete : Bool) → (ℕ → DiskIo) → Workload → Bool × Workload
list_files null_text delete rounds w =
    let v = free_file_array w in
    let u = with_files (free_file delete v.file_head v) in
    add_files null_text rounds u.cfg.filecount 1 u
