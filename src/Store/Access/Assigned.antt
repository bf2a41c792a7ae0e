-- ===== src/Store/Access/Assigned.antt =====
-- source/workload_access.c: an access leaves the assignments and the lists of the disks alone.
use workload.Prelude.{ℕ, ◌≡◌, refl, ◌∙◌, ap, arith, Option, none, some, List}
use workload.Store.Types.{File, Workload, access_count}
use workload.Store.Db.Frame.{update_db-Keeps}
use workload.Store.Ranking.{Ranked, sort_index, mark_disks}
use workload.Store.Ranking.Order.{sort_index_file}
use workload.Store.Ranking.Targets.{mark_disks_rest}
use workload.Store.Access.{
  Delta, count_access, sort_files, retarget_by, retarget_files, note_access,
}
use workload.Store.Assign.Chains.{SameAssign}
use workload.Store.Assign.Chains.Move.{SameButDb-SameAssign}

pub SameAssign-trans : {u v w : Workload} → SameAssign u v → SameAssign v w → SameAssign u w
SameAssign-trans p q = record {
  prev = λ x. q.prev x ∙ p.prev x;
  next = λ x. q.next x ∙ p.next x;
  assigned = λ x. q.assigned x ∙ p.assigned x;
  head = λ d. q.head d ∙ p.head d;
  count = λ d. q.count d ∙ p.count d;
}

-- A change of the heap of files alone that keeps the pointers.
of_files :
    (w : Workload) (file : ℕ → File) (sorted : List ℕ)
    → ((x : ℕ)
        → file x
          ≡ record (w.file x) { index = (file x).index; reassign_disk = (file x).reassign_disk })
    → SameAssign w (record w { file = file; file_sorted = sorted })
of_files w file sorted same = record {
  prev = λ x. ap (λ (f : File). f.assign_prev) (same x);
  next = λ x. ap (λ (f : File). f.assign_next) (same x);
  assigned = λ x. ap (λ (f : File). f.assign_disk) (same x);
  head = λ d. refl;
  count = λ d. refl;
}

count_access-SameAssign :
    (delta : Delta) (f d : ℕ) (w : Workload) → SameAssign w (count_access delta f d w)
unfolding count_access
count_access-SameAssign delta f d w = record {
  prev = λ x. ground arith;
  next = λ x. ground arith;
  assigned = λ x. ground arith;
  head = λ e. ground arith;
  count = λ e. ground arith;
}

sort_files-SameAssign : (f : ℕ) (w : Workload) → SameAssign w (sort_files f w)
unfolding sort_files
sort_files-SameAssign f w =
    let r : Ranked = record { file = w.file; sorted = w.file_sorted } in
    let s = sort_index f (access_count (w.file f)) (w.file f).index r in
    of_files w s.file s.sorted
      (λ x. ground (arith, sort_index_file f (access_count (w.file f)) (w.file f).index r x))

retarget_by-SameAssign : (n : Option (List ℕ)) (w : Workload) → SameAssign w (retarget_by n w)
unfolding retarget_by
retarget_by-SameAssign none w = of_files w w.file w.file_sorted (λ x. refl)
retarget_by-SameAssign (some nexts) w =
    of_files w (mark_disks w.file_sorted w.disk_array nexts 0 w.file) w.file_sorted
      (λ x. ground (arith, mark_disks_rest w.file_sorted w.disk_array nexts 0 w.file x))

pub note_access-SameAssign :
    (delta : Delta) (f d : ℕ) (w : Workload) → SameAssign w (note_access delta f d w)
unfolding note_access retarget_files
note_access-SameAssign delta f d w =
    let c = count_access delta f d w in
    let s = sort_files f c in
    let t = retarget_by s.next_file_index s in
    SameAssign-trans
      (SameAssign-trans (count_access-SameAssign delta f d w)
        (SameAssign-trans (sort_files-SameAssign f c) (retarget_by-SameAssign s.next_file_index s)))
      (SameButDb-SameAssign (update_db-Keeps f (some d) t))
