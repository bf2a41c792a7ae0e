-- ===== src/Setup.antt =====
-- source/workload_file.c and source/workload_config.c: once the files and the disks are listed, the
-- arrays are filled, each file is assigned to a disk, and the places of the disks are laid down.
pub mod Options
pub mod Values
pub mod Disks
pub mod Files
pub mod Arrays
pub mod Seats
pub mod Chosen
pub mod Complete
pub mod Meta
pub mod Config
pub mod Loaded
pub mod Load
pub mod Places
use workload.Prelude.{
  ℕ, zero, suc, ◌+◌, ◌-◌, ◌*◌, ◌/◌, ◌%◌, Bool, true, false, not, ◌&&◌, Option, none, some, List, [],
  ◌∷◌, ◌==◌, if◌then◌else◌, u32, u64, get_elem?, length, get_or, set,
}
use workload.Store.Types.{File, Workload}
use workload.Store.Ranking.{set_index}
use workload.Store.Assign.{MoveIo, assign_file_to_disk}

abbrev pub is_empty : List ℕ → Bool
is_empty [] = true
is_empty (x ∷ xs) = false

-- workload_free_file_array, where an array that is NULL is empty
pub free_file_array : Workload → Workload
free_file_array w =
    if is_empty w.file_ordered
    then w
    else record w { file_ordered = []; file_sorted = []; file_count = 0 }

-- `m_file_sorted[s_index]->m_index = s_index`, from `s_index` on
abbrev pub number_files : ℕ → List ℕ → (ℕ → File) → ℕ → File
number_files i [] file = file
number_files i (x ∷ xs) file = number_files (suc i) xs (set_index file x i)

-- The loop that fills the arrays, which have as many places as there are files in the list.
pub fill_file_array : Workload → Workload
fill_file_array w = record w {
  file = number_files 0 w.file_head w.file;
  file_ordered = w.file_head;
  file_sorted = w.file_head;
}

-- workload_update_file_array: `false` is -1, `allocated` what malloc answers.
pub update_file_array : (allocated : Bool) → Workload → Bool × Workload
unfolding free_file_array fill_file_array
update_file_array allocated w =
    if is_empty w.file_head
    then (true, free_file_array w)
    else if w.file_count == length w.file_head
    then (true, fill_file_array w)
    else if allocated
    then (true, fill_file_array (record (free_file_array w) { file_count = length w.file_head }))
    else (false, free_file_array w)

-- The unsigned division of a product, of which the bits of an unsigned int are kept. None is a division
-- by 0, for which C defines nothing.
abbrev pub scaled : (a b c : ℕ) → Option ℕ
scaled a b c = if c == 0 then none else some (u32 (u64 (a * b) / c))

-- The remainder of a number of an unsigned int, likewise
abbrev pub drawn : (draw count : ℕ) → Option ℕ
drawn draw count = if u32 count == 0 then none else some (u32 draw % u32 count)

-- `m_id - 1` of an id of an unsigned int, as a size_t
abbrev pub before : ℕ → ℕ
before id = if id == 0 then 18446744073709551615 else id - 1

-- `m_file_even`, and the file and the index of the disk chosen in one round.
pub record Choice : Type 0 where
  pub even : List ℕ
  pub file : ℕ
  pub disk_index : Option ℕ

-- What the round for `s_id` chooses, by m_files_assign_method, for the number drawn.
pub choose : (s_id draw : ℕ) → List ℕ → Workload → Choice
choose s_id draw even w =
    let count = w.file_count in
    let at = draw % (count - (s_id - 1)) in
    let x = get_or w.file_ordered (s_id - 1) 0 in
    let y = get_or even at 0 in
    if w.cfg.files_assign_method == 1
    then record {
      even = even;
      file = x;
      disk_index = scaled (before (w.file x).id) w.disk_count w.cfg.filecount;
    }
    else if w.cfg.files_assign_method == 2
    then record {
      even = set (set even at (get_or even (count - s_id) 0)) (count - s_id) y;
      file = y;
      disk_index = scaled (s_id - 1) w.disk_count w.cfg.filecount;
    }
    else record { even = even; file = x; disk_index = drawn draw w.disk_count }

-- What the calls and the break flag answer in the round for `s_id`.
pub record Round : Type 0 where
  pub broken : Bool
  pub draw : ℕ
  pub move : MoveIo

-- `m_disk[s_assign_disk_id]`: none is read past the end of the array, or in one that is NULL.
abbrev pub disk_at : List ℕ → Option ℕ → Option ℕ
disk_at ds none = none
disk_at ds (some i) = get_elem? ds i

-- The call of workload_assign_file_to_disk. Where C defines nothing, the model stops as at a failure.
pub assign_to : MoveIo → (f : ℕ) → (disk : Option ℕ) → Workload → Bool × Workload
assign_to io f none w = (false, w)
assign_to io f (some d) w = assign_file_to_disk io f d w

-- The loop from `s_id` on, for `n` more rounds.
pub assign_files : ℕ → (s_id : ℕ) → (ℕ → Round) → List ℕ → Workload → Bool × Workload
unfolding choose assign_to
assign_files zero s_id rounds even w = (true, w)
assign_files (suc n) s_id rounds even w =
    let c = choose s_id (rounds s_id).draw even w in
    let (done, v) = assign_to (rounds s_id).move c.file (disk_at w.disk_array c.disk_index) w in
    let rest = assign_files n (suc s_id) rounds c.even v in
    if (rounds s_id).broken then (false, w) else if done then rest else (false, v)

pub assign_all : (ℕ → Round) → Workload → Bool × Workload
unfolding assign_files
assign_all rounds w = assign_files w.file_count 1 rounds w.file_ordered w

-- `m_next_file_index`: the sums of `m_assign_file_count`, from `from` on.
abbrev pub sums_from : ℕ → List ℕ → Workload → List ℕ
sums_from from [] w = []
sums_from from (d ∷ ds) w =
    let next = u64 (from + (w.disk d).assign_file_count) in next ∷ sums_from next ds w

pub lay_places : (allocated : Bool) → Workload → Workload
lay_places allocated w = record w {
  next_file_index = if allocated then some (sums_from 0 w.disk_array w) else none;
}
