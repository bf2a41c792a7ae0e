-- ===== src/Store/Assign/Rest.antt =====
-- source/workload_file.c: what a move leaves alone: the counters, the places and the list of files.
use workload.Prelude.{
  ℕ, ◌≡◌, refl, ◌∙◌, ap, arith, Bool, false, Bool-cases, inl, inr, Option, none, some, points_to,
}
use workload.Store.Types.{File, Workload}
use workload.Store.Db.{update_db}
use workload.Store.Db.Frame.{SameButDb, update_db-Keeps}
use workload.Store.Assign.{
  MoveIo, delete_created, unlink_files, deassign_from, set_created, move_from, move_assign_file,
  link_files, link, stamp_disk, stamp_file, assign_file_to_disk, relocate_to, relocate_file,
}

pub record SameCounts (w v : Workload) : Type 0 where
  pub reads : (x : ℕ) → (v.file x).read_count ≡ (w.file x).read_count
  pub writes : (x : ℕ) → (v.file x).write_count ≡ (w.file x).write_count
  pub index : (x : ℕ) → (v.file x).index ≡ (w.file x).index
  pub total_reads : v.read_count ≡ w.read_count
  pub total_writes : v.write_count ≡ w.write_count
  pub files : v.file_head ≡ w.file_head
  pub size : v.file_count ≡ w.file_count
  pub array : v.disk_array ≡ w.disk_array
  pub sorted : v.file_sorted ≡ w.file_sorted
  pub ordered : v.file_ordered ≡ w.file_ordered
  pub nexts : v.next_file_index ≡ w.next_file_index

pub SameCounts-trans : {u v w : Workload} → SameCounts u v → SameCounts v w → SameCounts u w
SameCounts-trans p q = record {
  reads = λ x. q.reads x ∙ p.reads x;
  writes = λ x. q.writes x ∙ p.writes x;
  index = λ x. q.index x ∙ p.index x;
  total_reads = q.total_reads ∙ p.total_reads;
  total_writes = q.total_writes ∙ p.total_writes;
  files = q.files ∙ p.files;
  size = q.size ∙ p.size;
  array = q.array ∙ p.array;
  sorted = q.sorted ∙ p.sorted;
  ordered = q.ordered ∙ p.ordered;
  nexts = q.nexts ∙ p.nexts;
}

pub SameButDb-SameCounts : {w v : Workload} → SameButDb w v → SameCounts w v
SameButDb-SameCounts s = record {
  reads = λ x. ap (λ (f : File). f.read_count) (s.file x);
  writes = λ x. ap (λ (f : File). f.write_count) (s.file x);
  index = λ x. ap (λ (f : File). f.index) (s.file x);
  total_reads = ap (λ (u : Workload). u.read_count) s.rest;
  total_writes = ap (λ (u : Workload). u.write_count) s.rest;
  files = ap (λ (u : Workload). u.file_head) s.rest;
  size = ap (λ (u : Workload). u.file_count) s.rest;
  array = ap (λ (u : Workload). u.disk_array) s.rest;
  sorted = ap (λ (u : Workload). u.file_sorted) s.rest;
  ordered = ap (λ (u : Workload). u.file_ordered) s.rest;
  nexts = ap (λ (u : Workload). u.next_file_index) s.rest;
}

-- A state with another heap of files that keeps counters and places, and other disks and deletions.
pub of_heaps :
    (w v : Workload) (file : ℕ → File)
    → SameCounts w v
    → ((x : ℕ) → (file x).read_count ≡ (v.file x).read_count)
    → ((x : ℕ) → (file x).write_count ≡ (v.file x).write_count)
    → ((x : ℕ) → (file x).index ≡ (v.file x).index)
    → SameCounts w (record v { file = file })
of_heaps w v file s r k i = record {
  reads = λ x. r x ∙ s.reads x;
  writes = λ x. k x ∙ s.writes x;
  index = λ x. i x ∙ s.index x;
  total_reads = s.total_reads;
  total_writes = s.total_writes;
  files = s.files;
  size = s.size;
  array = s.array;
  sorted = s.sorted;
  ordered = s.ordered;
  nexts = s.nexts;
}

pub same_refl : (w : Workload) → SameCounts w w
same_refl w = record {
  reads = λ x. refl;
  writes = λ x. refl;
  index = λ x. refl;
  total_reads = refl;
  total_writes = refl;
  files = refl;
  size = refl;
  array = refl;
  sorted = refl;
  ordered = refl;
  nexts = refl;
}

pub deassign_from-SameCounts :
    (a : Bool) (f d : ℕ) (w : Workload) → SameCounts w (deassign_from a f d w)
unfolding deassign_from delete_created unlink_files
deassign_from-SameCounts a f d w = record {
  reads = λ x. ground arith;
  writes = λ x. ground arith;
  index = λ x. ground arith;
  total_reads = ground arith;
  total_writes = ground arith;
  files = ground arith;
  size = ground arith;
  array = ground arith;
  sorted = ground arith;
  ordered = ground arith;
  nexts = ground arith;
}

pub set_created-SameCounts :
    (f : ℕ) (flag : Bool) (w v : Workload) → SameCounts w v → SameCounts w (set_created f flag v)
set_created-SameCounts f flag w v s =
    of_heaps w v (set_created f flag v).file s (λ x. ground arith) (λ x. ground arith)
      (λ x. ground arith)

move_from-SameCounts :
    (old : Option ℕ) (io : MoveIo) (f : ℕ) (w : Workload) → SameCounts w (move_from old io f w).1
unfolding move_from
move_from-SameCounts none io f w = set_created-SameCounts f false w w (same_refl w)
move_from-SameCounts (some old) io f w = ground (
  arith,
  same_refl w,
  set_created-SameCounts f io.created w (deassign_from io.delete_pathname f old w)
      (deassign_from-SameCounts io.delete_pathname f old w),
)

link_files_rest :
    (f d : ℕ) (head : Option ℕ) (file : ℕ → File) (x : ℕ)
    → ((link_files f d head file x).read_count ≡ (file x).read_count)
      × ((link_files f d head file x).write_count ≡ (file x).write_count)
      × ((link_files f d head file x).index ≡ (file x).index)
unfolding link_files
link_files_rest f d none file x = ground arith
link_files_rest f d (some y) file x = ground arith

stamp_disk-SameCounts : (o : Option ℕ) (w : Workload) → SameCounts w (stamp_disk o w)
unfolding stamp_disk
stamp_disk-SameCounts none w = same_refl w
stamp_disk-SameCounts (some d) w =
    let s = same_refl w in
    record {
      reads = s.reads;
      writes = s.writes;
      index = s.index;
      total_reads = refl;
      total_writes = refl;
      files = refl;
      size = refl;
      array = refl;
      sorted = refl;
      ordered = refl;
      nexts = refl;
    }

pub link-SameCounts : (f d : ℕ) (w : Workload) → SameCounts w (link f d w)
unfolding link
link-SameCounts f d w =
    let head = (w.disk d).assign_file in
    let s =
      of_heaps w w (link_files f d head w.file) (same_refl w)
        (λ x. (link_files_rest f d head w.file x).0) (λ x. (link_files_rest f d head w.file x).1)
        (λ x. (link_files_rest f d head w.file x).2) in
    record {
      reads = s.reads;
      writes = s.writes;
      index = s.index;
      total_reads = refl;
      total_writes = refl;
      files = refl;
      size = refl;
      array = refl;
      sorted = refl;
      ordered = refl;
      nexts = refl;
    }

pub stamps-SameCounts :
    (f d : ℕ) (old : Option ℕ) (a : Workload)
    → SameCounts a (update_db f none (stamp_disk (some d) (stamp_file f (stamp_disk old a)))).1
unfolding stamp_file
stamps-SameCounts f d old a =
    let b = stamp_disk old a in
    let c = stamp_file f b in
    let e = stamp_disk (some d) c in
    let file_stamped : SameCounts b c =
      of_heaps b b c.file (same_refl b) (λ x. ground arith) (λ x. ground arith)
        (λ x. ground arith) in
    SameCounts-trans
      (SameCounts-trans (stamp_disk-SameCounts old a)
        (SameCounts-trans file_stamped (stamp_disk-SameCounts (some d) c)))
      (SameButDb-SameCounts (update_db-Keeps f none e))

settle-SameCounts :
    (f d : ℕ) (old : Option ℕ) (w : Workload)
    → SameCounts w
        (update_db f none (stamp_disk (some d) (stamp_file f (stamp_disk old (link f d w))))).1
settle-SameCounts f d old w =
    SameCounts-trans (link-SameCounts f d w) (stamps-SameCounts f d old (link f d w))

pub assign_file_to_disk-SameCounts :
    (io : MoveIo) (f d : ℕ) (w : Workload) → SameCounts w (assign_file_to_disk io f d w).1
unfolding assign_file_to_disk move_assign_file
assign_file_to_disk-SameCounts io f d w =
    let old = (w.file f).assign_disk in
    let step = move_from old io f w in
    let moved = move_from-SameCounts old io f w in
    elim (Bool-cases (points_to old d)) [
      | inl here ↦ rw here (same_refl w)
      | inr elsewhere ↦ elim (Bool-cases step.0) [
        | inl done ↦
            rw (elsewhere, done) (SameCounts-trans moved (settle-SameCounts f d old step.1))
        | inr failed ↦ rw (elsewhere, failed) moved
      ]
    ]

relocate_to-SameCounts :
    (r : Option ℕ) (io : MoveIo) (f : ℕ) (w : Workload) → SameCounts w (relocate_to r io f w)
unfolding relocate_to
relocate_to-SameCounts none io f w = same_refl w
relocate_to-SameCounts (some d) io f w =
    let v = (assign_file_to_disk io f d w).1 in
    of_heaps w v (relocate_to (some d) io f w).file (assign_file_to_disk-SameCounts io f d w)
      (λ x. ground arith) (λ x. ground arith) (λ x. ground arith)

pub relocate_file-SameCounts :
    (io : MoveIo) (f : ℕ) (w : Workload) → SameCounts w (relocate_file io f w)
unfolding relocate_file
relocate_file-SameCounts io f w = relocate_to-SameCounts (w.file f).reassign_disk io f w
