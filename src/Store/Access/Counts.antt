-- ===== src/Store/Access/Counts.antt =====
-- source/workload_access.c: the counters of an access.
use workload.Prelude.{
  ℕ, ◌≡◌, refl, ◌∙◌, ap, arith, true, Option, none, some, List, u64, contains, if◌then◌else◌, ◌==◌,
  ◌+◌,
}
use workload.Prelude.Sums.{sum_map, IsDistinct, sum_map_same, sum_map_count}
use workload.Store.Types.{File, Disk, Workload, access_count}
use workload.Store.Db.Frame.{SameButDb, update_db-Keeps}
use workload.Store.Ranking.{Ranked, sort_index, mark_disks}
use workload.Store.Ranking.Order.{sort_index_file}
use workload.Store.Ranking.Targets.{mark_disks_rest}
use workload.Store.Access.{
  AccessIo, Delta, bit, count_access, sort_files, retarget_by, retarget_files, note_access,
  access_on, file_access, transfer,
}

-- `v` is `w` but for the places, the disks to move to, the order and the connection.
pub record SameCounters (w v : Workload) : Type 0 where
  pub reads : (x : ℕ) → (v.file x).read_count ≡ (w.file x).read_count
  pub writes : (x : ℕ) → (v.file x).write_count ≡ (w.file x).write_count
  pub assigned : (x : ℕ) → (v.file x).assign_disk ≡ (w.file x).assign_disk
  pub disk_reads : (d : ℕ) → (v.disk d).read_count ≡ (w.disk d).read_count
  pub disk_writes : (d : ℕ) → (v.disk d).write_count ≡ (w.disk d).write_count
  pub total_reads : v.read_count ≡ w.read_count
  pub total_writes : v.write_count ≡ w.write_count
  pub files : v.file_head ≡ w.file_head
  pub disks : v.disk_head ≡ w.disk_head

SameCounters-trans : {u v w : Workload} → SameCounters u v → SameCounters v w → SameCounters u w
SameCounters-trans p q = record {
  reads = λ x. q.reads x ∙ p.reads x;
  writes = λ x. q.writes x ∙ p.writes x;
  assigned = λ x. q.assigned x ∙ p.assigned x;
  disk_reads = λ d. q.disk_reads d ∙ p.disk_reads d;
  disk_writes = λ d. q.disk_writes d ∙ p.disk_writes d;
  total_reads = q.total_reads ∙ p.total_reads;
  total_writes = q.total_writes ∙ p.total_writes;
  files = q.files ∙ p.files;
  disks = q.disks ∙ p.disks;
}

pub SameButDb-SameCounters : {w v : Workload} → SameButDb w v → SameCounters w v
SameButDb-SameCounters s = record {
  reads = λ x. ap (λ (f : File). f.read_count) (s.file x);
  writes = λ x. ap (λ (f : File). f.write_count) (s.file x);
  assigned = λ x. ap (λ (f : File). f.assign_disk) (s.file x);
  disk_reads = λ x. ap (λ (f : Disk). f.read_count) (s.disk x);
  disk_writes = λ x. ap (λ (f : Disk). f.write_count) (s.disk x);
  total_reads = ap (λ (u : Workload). u.read_count) s.rest;
  total_writes = ap (λ (u : Workload). u.write_count) s.rest;
  files = ap (λ (u : Workload). u.file_head) s.rest;
  disks = ap (λ (u : Workload). u.disk_head) s.rest;
}

-- A change of the heap of files alone, that keeps the counters and the disks.
of_files :
    (w : Workload) (file : ℕ → File) (sorted : List ℕ)
    → ((x : ℕ)
        → file x
          ≡ record (w.file x) { index = (file x).index; reassign_disk = (file x).reassign_disk })
    → SameCounters w (record w { file = file; file_sorted = sorted })
of_files w file sorted same = record {
  reads = λ x. ap (λ (f : File). f.read_count) (same x);
  writes = λ x. ap (λ (f : File). f.write_count) (same x);
  assigned = λ x. ap (λ (f : File). f.assign_disk) (same x);
  disk_reads = λ d. refl;
  disk_writes = λ d. refl;
  total_reads = refl;
  total_writes = refl;
  files = refl;
  disks = refl;
}

sort_files-SameCounters : (f : ℕ) (w : Workload) → SameCounters w (sort_files f w)
unfolding sort_files
sort_files-SameCounters f w =
    let r : Ranked = record { file = w.file; sorted = w.file_sorted } in
    let s = sort_index f (access_count (w.file f)) (w.file f).index r in
    of_files w s.file s.sorted
      (λ x. ground (arith, sort_index_file f (access_count (w.file f)) (w.file f).index r x))

retarget_by-SameCounters : (n : Option (List ℕ)) (w : Workload) → SameCounters w (retarget_by n w)
unfolding retarget_by
retarget_by-SameCounters none w = of_files w w.file w.file_sorted (λ x. refl)
retarget_by-SameCounters (some nexts) w =
    of_files w (mark_disks w.file_sorted w.disk_array nexts 0 w.file) w.file_sorted
      (λ x. ground (arith, mark_disks_rest w.file_sorted w.disk_array nexts 0 w.file x))

note_access-SameCounters :
    (delta : Delta) (f d : ℕ) (w : Workload)
    → SameCounters (count_access delta f d w) (note_access delta f d w)
unfolding note_access retarget_files
note_access-SameCounters delta f d w =
    let c = count_access delta f d w in
    let s = sort_files f c in
    let t = retarget_by s.next_file_index s in
    SameCounters-trans
      (SameCounters-trans (sort_files-SameCounters f c)
        (retarget_by-SameCounters s.next_file_index s))
      (SameButDb-SameCounters (update_db-Keeps f (some d) t))

-- The totals of the workload are the sums of the counters of its files, modulo 2 ^ 64, and no file is
-- in the list of files twice.
pub record IsConserved (w : Workload) : Type 0 where
  pub distinct : IsDistinct w.file_head
  pub reads : w.read_count ≡ u64 (sum_map (λ x. (w.file x).read_count) w.file_head)
  pub writes : w.write_count ≡ u64 (sum_map (λ x. (w.file x).write_count) w.file_head)

pub SameCounters-IsConserved : (w v : Workload) → SameCounters w v → IsConserved w → IsConserved v
SameCounters-IsConserved w v s c = record {
  distinct = rw s.files c.distinct;
  reads = rw (s.files, s.total_reads, sum_map_same _ _ w.file_head s.reads) c.reads;
  writes = rw (s.files, s.total_writes, sum_map_same _ _ w.file_head s.writes) c.writes;
}

count_access-IsConserved :
    (delta : Delta) (f d : ℕ) (w : Workload)
    → IsConserved w
    → contains f w.file_head ≡ true
    → IsConserved (count_access delta f d w)
unfolding count_access
count_access-IsConserved delta f d w c h =
    let v = count_access delta f d w in
    record {
      distinct = c.distinct;
      reads =
          sum_map_count (λ x. (v.file x).read_count) (λ x. (w.file x).read_count) f w.read_count
            (bit delta.read) w.file_head (λ x ne. ground arith) c.distinct h (ground arith) c.reads;
      writes =
          sum_map_count (λ x. (v.file x).write_count) (λ x. (w.file x).write_count) f w.write_count
            (bit delta.write) w.file_head (λ x ne. ground arith) c.distinct h (ground arith)
            c.writes;
    }

pub note_access-IsConserved :
    (delta : Delta) (f d : ℕ) (w : Workload)
    → IsConserved w
    → contains f w.file_head ≡ true
    → IsConserved (note_access delta f d w)
note_access-IsConserved delta f d w c h =
    SameCounters-IsConserved (count_access delta f d w) (note_access delta f d w)
      (note_access-SameCounters delta f d w) (count_access-IsConserved delta f d w c h)

-- The counters of the file go up by what was transferred, those of the others stay.
pub note_access_counts :
    (delta : Delta) (f d : ℕ) (w : Workload) (x : ℕ)
    → ((note_access delta f d w).file x).read_count
        ≡ (if f == x then u64 ((w.file f).read_count + bit delta.read) else (w.file x).read_count)
      × ((note_access delta f d w).file x).write_count ≡ (
          if f == x then u64 ((w.file f).write_count + bit delta.write) else (w.file x).write_count)
unfolding count_access
note_access_counts delta f d w x =
    let s = note_access-SameCounters delta f d w in
    (s.reads x ∙ ground arith, s.writes x ∙ ground arith)

pub note_access_lists :
    (delta : Delta) (f d : ℕ) (w : Workload)
    → ((note_access delta f d w).file_head ≡ w.file_head)
      × ((note_access delta f d w).file_count ≡ w.file_count)
unfolding count_access note_access sort_files retarget_by retarget_files
note_access_lists delta f d w =
    let t = retarget_files (sort_files f (count_access delta f d w)) in
    (
      (note_access-SameCounters delta f d w).files,
      ap (λ (u : Workload). u.file_count) (update_db-Keeps f (some d) t).rest
          ∙ size (sort_files f (count_access delta f d w)).next_file_index,
    )
  where
    size :
        (n : Option (List ℕ))
        → (retarget_by n (sort_files f (count_access delta f d w))).file_count ≡ w.file_count
    size none = refl
    size (some nexts) = refl

access_on-IsConserved :
    (a : Option ℕ) (io : AccessIo) (f : ℕ) (w : Workload)
    → IsConserved w
    → contains f w.file_head ≡ true
    → IsConserved (access_on a io f w).1
unfolding access_on
access_on-IsConserved none io f w c h = c
access_on-IsConserved (some d) io f w c h =
    ground (arith, note_access-IsConserved (transfer io d w) f d w c h)

-- An access keeps the totals equal to the sums over the files, if the file is in the list of files.
pub file_access-IsConserved :
    (io : AccessIo) (f : ℕ) (w : Workload)
    → IsConserved w
    → contains f w.file_head ≡ true
    → IsConserved (file_access io f w).1
unfolding file_access
file_access-IsConserved io f w c h = access_on-IsConserved (w.file f).assign_disk io f w c h
