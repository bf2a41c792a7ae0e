-- ===== src/Store/Ranking.antt =====
-- source/workload_access.c, "sort index": `m_file_sorted` keeps the files by falling access count, and
-- `m_index` is each file's place in it. The loops work on the heap of files and on the array.
pub mod Places
pub mod Order
pub mod Targets
use workload.Prelude.{
  ℕ, zero, suc, ◌+◌, ◌-◌, Bool, Option, none, some, List, [], ◌∷◌, leb, if◌then◌else◌, points_to,
  get_or, set,
}
use workload.Store.Types.{File, update, access_count}

-- `->m_index = i`
abbrev pub set_index : (ℕ → File) → ℕ → ℕ → ℕ → File
set_index file x i = update file x (record (file x) { index = i })

-- What the loop changes.
pub record Ranked : Type 0 where
  pub file : ℕ → File
  pub sorted : List ℕ

-- One round: `file` goes from place `suc i` to place `i`, past the file that stands there.
pub rise : ℕ → ℕ → Ranked → Ranked
rise f i r =
    let passed = get_or r.sorted i 0 in
    record {
      file = set_index (set_index r.file passed (suc i)) f i;
      sorted = set (set r.sorted (suc i) passed) i f;
    }

-- The `while` from place `i`: `count` is the access count of `f`.
pub sort_index : ℕ → ℕ → ℕ → Ranked → Ranked
sort_index f count zero r = r
sort_index f count (suc i) r =
    let rest = sort_index f count i (rise f i r) in
    if leb count (access_count (r.file (get_or r.sorted i 0))) then r else rest

-- `->m_reassign_disk`, for a file whose place belongs to disk `d`: NULL if it is there already.
pub target : ℕ → File → Option ℕ
target d f = if points_to f.assign_disk d then none else some d

set_target : List ℕ → ℕ → ℕ → (ℕ → File) → ℕ → File
set_target sorted d i file =
    let x = get_or sorted i 0 in
    update file x (record (file x) { reassign_disk = target d (file x) })

-- The inner `for`: `rounds` places from `i`.
pub mark_places : List ℕ → ℕ → ℕ → ℕ → (ℕ → File) → ℕ → File
unfolding set_target
mark_places sorted d i zero file = file
mark_places sorted d i (suc rounds) file =
    mark_places sorted d (suc i) rounds (set_target sorted d i file)

-- The outer `for`, over the disks with their entries of `m_next_file_index`.
pub mark_disks : List ℕ → List ℕ → List ℕ → ℕ → (ℕ → File) → ℕ → File
mark_disks sorted [] nexts i file = file
mark_disks sorted (d ∷ ds) [] i file = file
mark_disks sorted (d ∷ ds) (n ∷ nexts) i file =
    mark_disks sorted ds nexts (i + (n - i)) (mark_places sorted d i (n - i) file)
