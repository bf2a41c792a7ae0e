-- ===== src/Setup/Load.antt =====
-- source/workload_config.c: from new files and disks to a workload that the threads can work on.
use workload.Prelude.{
  ℕ, zero, suc, ◌+◌, ◌<◌, ◌≤◌, ◌≡◌, sym, subst, arith, true, some, [], range_from, Bool,
}
use workload.Prelude.Sums.{IsDistinct}
use workload.Store.Types.{Workload}
use workload.Control.System.{IsSound}
use workload.Setup.{Round, fill_file_array, update_file_array, assign_all, lay_places}
use workload.Setup.Arrays.{
  IsFresh, sized, sized-IsFresh, sized_count, reallocated, filled_free, filled_ordered,
  filled_disks, filled_count, filled-IsSound,
}
use workload.Setup.Loaded.{Entries, IsLoading, assign_files-Loads, assign_all-IsSound}

range-Entries : (i n m : ℕ) → i + n ≤ m → 1 ≤ m → Entries m (range_from i n)
range-Entries i zero m fits some_left j = omega arith
range-Entries i (suc n) m fits some_left zero = omega arith
range-Entries i (suc n) m fits some_left (suc j) =
    range-Entries (suc i) n m (omega arith) some_left j

filled-IsLoading :
    (m : ℕ) (w : Workload)
    → IsFresh (suc m) w
    → IsDistinct w.disk_array
    → IsLoading (suc m) (fill_file_array (sized w)).file_ordered (fill_file_array (sized w))
filled-IsLoading m w s dist =
    let n = suc m in
    let fresh = sized-IsFresh n w s in
    let count = sized_count n w s in
    let in_order = filled_ordered n (sized w) fresh count in
    let entries = range-Entries 0 n n (omega arith) (omega arith) in
    record {
      sound = filled-IsSound n (sized w) fresh count;
      size = filled_count n (sized w) fresh count;
      disks = rw (filled_disks n (sized w) fresh count) dist;
      ordered = rw in_order entries;
      shuffled = rw in_order entries;
      assigned = λ x d h. ground (arith, filled_free n (sized w) fresh count x);
    }

-- Only files of the workload are on disks.
pub assigned_known :
    (n : ℕ) (w : Workload) (rounds : ℕ → Round)
    → IsFresh (suc n) w
    → w.file_ordered ≡ []
    → w.file_count ≡ 0
    → IsDistinct w.disk_array
    → (x d : ℕ)
    → let v = (assign_all rounds (update_file_array true w).1).1 in
      (v.file x).assign_disk ≡ some d → x < v.file_count
unfolding assign_all
assigned_known n w rounds s cleared none_yet dist =
    let v = fill_file_array (sized w) in
    let l = filled-IsLoading n w s dist in
    let (even, k) = assign_files-Loads (suc n) v.file_count 1 rounds v.file_ordered v l in
    rw (reallocated n w s.head cleared none_yet)
      (λ x d h. subst (λ m. x < m) (sym k.size) (k.assigned x d h))

-- The workload is sound where the loop of the assignment ends.
pub assigned-IsSound :
    (n : ℕ) (w : Workload) (rounds : ℕ → Round)
    → IsFresh (suc n) w
    → w.file_ordered ≡ []
    → w.file_count ≡ 0
    → IsDistinct w.disk_array
    → IsSound 0 (assign_all rounds (update_file_array true w).1).1
unfolding assign_all
assigned-IsSound n w rounds s cleared none_yet dist =
    let v = fill_file_array (sized w) in
    let (even, k) =
      assign_files-Loads (suc n) v.file_count 1 rounds v.file_ordered v
        (filled-IsLoading n w s dist) in
    rw (reallocated n w s.head cleared none_yet) k.sound

-- The workload is sound if the places are laid down where the loop ends.
pub laid-IsSound :
    (n : ℕ) (w : Workload) (rounds : ℕ → Round) (allocated : Bool)
    → IsFresh n w
    → 1 ≤ n
    → n < 18446744073709551616
    → w.file_ordered ≡ []
    → w.file_count ≡ 0
    → IsDistinct w.disk_array
    → IsSound 0 (lay_places allocated (assign_all rounds (update_file_array true w).1).1)
laid-IsSound zero w rounds allocated s many small cleared none_yet dist = absurd (omega arith)
laid-IsSound (suc m) w rounds allocated s many small cleared none_yet dist =
    rw (reallocated m w s.head cleared none_yet) (
      assign_all-IsSound (suc m) rounds allocated (fill_file_array (sized w))
        (filled-IsLoading m w s dist) small)
