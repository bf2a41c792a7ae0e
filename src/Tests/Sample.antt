-- ===== src/Tests/Sample.antt =====
-- A small workload: two files on the first of two disks, the first one read once.
use workload.Prelude.{
  ℕ, zero, suc, ◌+◌, ◌<◌, ◌≤◌, get_or, ◌≡◌, refl, arith, true, false, none, some, List, [], ◌∷◌,
  contains, Option, u64, length,
}
use workload.Prelude.Sums.{IsDistinct}
use workload.Store.Assign.Lists.{Chain}
use workload.Prelude.Int.{minus_one, pos}
use workload.Store.Types.{File, Disk, Workload}
use workload.Store.Access.{AccessIo}
use workload.Store.Access.Counts.{IsConserved}
use workload.Store.Access.Ranked.{IsRankedStore, ranking}
use workload.Store.Ranking.Order.{key}
use workload.Store.Assign.{MoveIo}
use workload.Store.Assign.Chains.{IsLinked}
use workload.Control.System.{IsSound}

abbrev pub file_of : (id index reads : ℕ) → (prev next assigned target : Option ℕ) → File
file_of id index reads prev next assigned target = record {
  assign_prev = prev;
  assign_next = next;
  assign_disk = assigned;
  reassign_disk = target;
  created = true;
  inserted_db = false;
  index = index;
  id = id;
  filename = b'f' ∷ [];
  read_count = reads;
  write_count = 0;
  time_stamp = 0;
}

abbrev pub files : ℕ → File
files zero = file_of 1 0 1 none (some 1) (some 0) none
files (suc zero) = file_of 2 1 0 (some 0) none (some 0) (some 1)
files (suc (suc x)) = file_of 0 0 0 none none none none

abbrev pub disk_of : (id count : ℕ) → Option ℕ → Disk
disk_of id count head = record {
  create_path = false;
  inserted_db = false;
  id = id;
  name = [];
  path = b'd' ∷ [];
  fakeoff_delay = minus_one;
  read_count = 0;
  write_count = 0;
  time_stamp = 0;
  fakeoff_time_stamp = 0;
  assign_file_count = count;
  assign_file = head;
}

abbrev disks : ℕ → Disk
disks zero = disk_of 1 2 (some 0)
disks (suc d) = disk_of 2 0 none

abbrev pub sample : Workload
sample = record {
  break = false;
  reload = false;
  cfg = record {
    left_ratio = 8;
    right_ratio = 2;
    duration = 0;
    access_interval = 10;
    files_remove = true;
    files_assign_method = 1;
    prefix = none;
    suffix = none;
    filecount = 2;
    filesize = 4096;
    access_method = 1;
    access_sync = false;
    access_sendfile = false;
    access_threads = pos 2;
  };
  db = some (record { answer = λ sent q. true; sent = [] });
  time_stamp = 7;
  time_stamp_start = 0;
  pause = false;
  relocate = false;
  disk_ready_count = 0;
  disk_error_count = 0;
  read_count = 1;
  write_count = 0;
  file = files;
  disk = disks;
  disk_head = 0 ∷ 1 ∷ [];
  disk_count = 2;
  disk_array = 0 ∷ 1 ∷ [];
  max_name_size = 0;
  file_head = 0 ∷ 1 ∷ [];
  file_count = 2;
  file_ordered = 0 ∷ 1 ∷ [];
  file_sorted = 0 ∷ 1 ∷ [];
  next_file_index = some (1 ∷ 2 ∷ []);
  deleted = [];
}

-- The file is opened and read twice.
abbrev pub access_io : AccessIo
access_io = record {
  pathname = true;
  rand = 0;
  opened = true;
  rounds = (false, pos 4096) ∷ (false, pos 0) ∷ [];
}

-- Every call that a move needs succeeds.
abbrev pub move_io : MoveIo
move_io = record {
  from_pathname = true;
  from_opened = true;
  to_pathname = true;
  created = true;
  truncated = false;
  delete_pathname = true;
}

-- The file on the old disk cannot be opened.
abbrev pub broken_io : MoveIo
broken_io = record move_io { from_opened = false }

abbrev pub members : ℕ → List ℕ
members zero = 0 ∷ 1 ∷ []
members (suc d) = []

chain : (d : ℕ) → Chain files none (disks d).assign_file (members d)
chain zero = (refl, refl, (refl, refl, refl))
chain (suc d) = refl

count : (d : ℕ) → (disks d).assign_file_count ≡ u64 (length (members d))
count zero = refl
count (suc d) = refl

distinct : (d : ℕ) → IsDistinct (members d)
distinct zero = (refl, (refl, tt))
distinct (suc d) = tt

owned : (d x : ℕ) → contains x (members d) ≡ true → (files x).assign_disk ≡ some d
owned zero zero h = refl
owned zero (suc zero) h = refl
owned zero (suc (suc x)) h = absurd (ground arith)
owned (suc d) x h = absurd (cc)

listed : (d x : ℕ) → (files x).assign_disk ≡ some d → contains x (members d) ≡ true
listed zero zero h = refl
listed zero (suc zero) h = refl
listed zero (suc (suc x)) h = absurd (cc)
listed (suc d) zero h = absurd (ground arith)
listed (suc d) (suc zero) h = absurd (ground arith)
listed (suc d) (suc (suc x)) h = absurd (cc)

pub sample-IsLinked : IsLinked sample members
sample-IsLinked = record {
  chain = chain;
  count = count;
  distinct = distinct;
  owned = owned;
  listed = listed;
}

pub sample-IsConserved : IsConserved sample
sample-IsConserved = record { distinct = (refl, (refl, tt)); reads = refl; writes = refl }

place : (i : ℕ) → i < 2 → (files (get_or sample.file_sorted i 0)).index ≡ i
place zero h = refl
place (suc zero) h = refl
place (suc (suc i)) h = absurd (omega arith)

known : (i : ℕ) → i < 2 → get_or sample.file_sorted i 0 < 2
known zero h = omega arith
known (suc zero) h = omega arith
known (suc (suc i)) h = absurd (omega arith)

stands : (x : ℕ) → x < 2 → get_or sample.file_sorted (files x).index 0 ≡ x
stands zero h = refl
stands (suc zero) h = refl
stands (suc (suc x)) h = absurd (omega arith)

inside : (x : ℕ) → x < 2 → (files x).index < 2
inside zero h = omega arith
inside (suc zero) h = omega arith
inside (suc (suc x)) h = absurd (omega arith)

falling : (j : ℕ) → suc j < 2 → key (ranking sample) (suc j) ≤ key (ranking sample) j
falling zero h = omega arith
falling (suc j) h = absurd (omega arith)

pub sample-IsRankedStore : IsRankedStore sample
sample-IsRankedStore = record {
  indexed = record { size = refl; place = place; known = known; stands = stands; inside = inside };
  ranked = falling;
  nexts = (omega arith, (omega arith, tt));
}

bounded : (x : ℕ) → (files x).read_count + (files x).write_count ≤ 1
bounded zero = omega arith
bounded (suc zero) = omega arith
bounded (suc (suc x)) = omega arith

pub sample-IsSound : IsSound 1 sample
sample-IsSound = record {
  known = λ x. ground arith;
  bounded = bounded;
  conserved = sample-IsConserved;
  ranked = sample-IsRankedStore;
  linked = (members, sample-IsLinked);
}
