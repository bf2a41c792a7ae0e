-- ===== src/Setup/Arrays.antt =====
-- source/workload_file.c: after workload_update_file_array a workload of new files is sound.
use workload.Prelude.{
  ℕ, zero, suc, ◌+◌, ◌<◌, ◌≤◌, ◌≡◌, ◌∙◌, refl, sym, ap, arith, Bool, true, false, ◌&&◌, Option,
  none, some, List, [], ◌∷◌, ◌==◌, if◌then◌else◌, ltb, leb, length, get_or, contains, range_from,
  u64,
}
use workload.Prelude.Sums.{IsDistinct, sum_map}
use workload.Store.Types.{File, Workload, access_count}
use workload.Store.Ranking.{set_index}
use workload.Store.Access.Ranked.{IsRankedStore, NextsBelow}
use workload.Store.Assign.Chains.{IsLinked}
use workload.Control.System.{IsSound}
use workload.Setup.{is_empty, number_files, fill_file_array, free_file_array, update_file_array}

pub length-range_from : (i n : ℕ) → length (range_from i n) ≡ n
length-range_from i zero = refl
length-range_from i (suc n) = ap suc (length-range_from (suc i) n)

pub get_or-range_from : (i n j : ℕ) → j < n → get_or (range_from i n) j 0 ≡ i + j
get_or-range_from i zero j h = absurd (omega arith)
get_or-range_from i (suc n) zero h = omega arith
get_or-range_from i (suc n) (suc j) h = omega (arith, get_or-range_from (suc i) n j (omega arith))

pub contains-range_from : (i n x : ℕ) → contains x (range_from i n) ≡ (leb i x && ltb x (i + n))
contains-range_from i zero x = ground arith
contains-range_from i (suc n) x = ground (arith, contains-range_from (suc i) n x)

pub IsDistinct-range_from : (i n : ℕ) → IsDistinct (range_from i n)
IsDistinct-range_from i zero = tt
IsDistinct-range_from i (suc n) =
    (ground (arith, contains-range_from (suc i) n i), IsDistinct-range_from (suc i) n)

number_files-range_from :
    (i n : ℕ) (file : ℕ → File) (x : ℕ)
    → number_files i (range_from i n) file x
      ≡ (if leb i x && ltb x (i + n) then record (file x) { index = x } else file x)
number_files-range_from i zero file x = ground arith
number_files-range_from i (suc n) file x =
    ground (arith, number_files-range_from (suc i) n (set_index file i i) x)

-- The files are new, stand at the first addresses, and no disk has a file.
pub record IsFresh (n : ℕ) (w : Workload) : Type 0 where
  pub head : w.file_head ≡ range_from 0 n
  pub reads : (x : ℕ) → (w.file x).read_count ≡ 0
  pub writes : (x : ℕ) → (w.file x).write_count ≡ 0
  pub free : (x : ℕ) → (w.file x).assign_disk ≡ none
  pub no_list : (d : ℕ) → (w.disk d).assign_file ≡ none
  pub no_count : (d : ℕ) → (w.disk d).assign_file_count ≡ 0
  pub total_reads : w.read_count ≡ 0
  pub total_writes : w.write_count ≡ 0
  pub no_places : w.next_file_index ≡ none

sum_zero : (g : ℕ → ℕ) (xs : List ℕ) → ((x : ℕ) → g x ≡ 0) → sum_map g xs ≡ 0
sum_zero g [] z = refl
sum_zero g (x ∷ xs) z = omega (arith, z x, sum_zero g xs z)

module _ (n : ℕ) (w : Workload) (s : IsFresh n w) (count : w.file_count ≡ n) where
  abbrev pub v : Workload
  v = fill_file_array w

  pub file_at : (x : ℕ) → v.file x ≡ (if ltb x n then record (w.file x) { index = x } else w.file x)
  unfolding fill_file_array
  file_at x = rw s.head (number_files-range_from 0 n w.file x ∙ ground arith)

  sorted_at : (i : ℕ) → i < n → get_or v.file_sorted i 0 ≡ i
  unfolding fill_file_array
  sorted_at i h = rw s.head (get_or-range_from 0 n i h ∙ omega arith)

  index_at : (x : ℕ) → x < n → (v.file x).index ≡ x
  index_at x h = ground (arith, file_at x)

  no_access : (x : ℕ) → ((v.file x).read_count ≡ 0) × ((v.file x).write_count ≡ 0)
  no_access x = ground (arith, file_at x, s.reads x, s.writes x)

  key_at : (x : ℕ) → access_count (v.file x) ≡ 0
  key_at x = omega (arith, (no_access x).0, (no_access x).1)

  no_nexts : (o : Option (List ℕ)) → o ≡ none → NextsBelow n o
  no_nexts none e = tt
  no_nexts (some nexts) e = absurd (cc)

  filled_size : length v.file_sorted ≡ n
  unfolding fill_file_array
  filled_size = rw s.head (length-range_from 0 n)

  filled_nexts : NextsBelow n v.next_file_index
  unfolding fill_file_array
  filled_nexts = no_nexts w.next_file_index s.no_places

  pub filled_count : v.file_count ≡ n
  unfolding fill_file_array
  filled_count = count

  pub filled_free : (x : ℕ) → (v.file x).assign_disk ≡ none
  filled_free x = ground (arith, file_at x, s.free x)

  pub filled_ordered : v.file_ordered ≡ range_from 0 n
  unfolding fill_file_array
  filled_ordered = s.head

  pub filled_disks : v.disk_array ≡ w.disk_array
  unfolding fill_file_array
  filled_disks = refl

  filled_none : v.next_file_index ≡ none
  unfolding fill_file_array
  filled_none = s.no_places

  filled-IsRankedStore : IsRankedStore v
  filled-IsRankedStore = record {
    indexed = record {
      size = filled_size ∙ sym filled_count;
      place = λ i hi. let h : i < n = rw filled_count at hi in rw (sorted_at i h) (index_at i h);
      known = λ i hi. let h : i < n = rw filled_count at hi in rw (sorted_at i h, filled_count) h;
      stands = λ x hx. let h : x < n = rw filled_count at hx in rw (index_at x h) (sorted_at x h);
      inside = λ x hx. let h : x < n = rw filled_count at hx in rw (index_at x h, filled_count) h;
    };
    ranked = λ j hj. omega (arith, key_at (get_or v.file_sorted (suc j) 0));
    nexts = rw filled_count filled_nexts;
  }

  no_members : ℕ → List ℕ
  no_members d = []

  filled-IsLinked : IsLinked v no_members
  unfolding fill_file_array no_members
  filled-IsLinked = record {
    chain = λ d. s.no_list d;
    count = λ d. s.no_count d;
    distinct = λ d. tt;
    owned = λ d x h. absurd (cc);
    listed = λ d x h. ground (arith, file_at x, s.free x);
  }

  pub filled-IsSound : IsSound 0 v
  unfolding fill_file_array
  filled-IsSound = record {
    known = λ x. rw (s.head, count) (contains-range_from 0 n x ∙ ground arith);
    bounded = λ x. omega (arith, (no_access x).0, (no_access x).1);
    conserved = record {
      distinct = rw s.head (IsDistinct-range_from 0 n);
      reads =
          s.total_reads
          ∙ ap u64 (sym (sum_zero (λ x. (v.file x).read_count) w.file_head (λ x. (no_access x).0)));
      writes =
          s.total_writes
          ∙ ap u64
              (sym (sum_zero (λ x. (v.file x).write_count) w.file_head (λ x. (no_access x).1)));
    };
    ranked = filled-IsRankedStore;
    linked = (no_members, filled-IsLinked);
  }

third :
    (e q : Bool) (x y z : Bool × Workload)
    → e ≡ false
    → q ≡ false
    → (if e then x else if q then y else z) ≡ z
third true q x y z p r = absurd (cc)
third false true x y z p r = absurd (cc)
third false false x y z p r = refl

first : (e : Bool) (x y : Workload) → e ≡ true → (if e then x else y) ≡ x
first true x y p = refl
first false x y p = absurd (cc)

abbrev pub sized : Workload → Workload
sized w = record w { file_count = length w.file_head }

pub sized-IsFresh : (n : ℕ) (w : Workload) → IsFresh n w → IsFresh n (sized w)
sized-IsFresh n w s = record {
  head = s.head;
  reads = s.reads;
  writes = s.writes;
  free = s.free;
  no_list = s.no_list;
  no_count = s.no_count;
  total_reads = s.total_reads;
  total_writes = s.total_writes;
  no_places = s.no_places;
}

pub sized_count : (n : ℕ) (w : Workload) → IsFresh n w → length w.file_head ≡ n
sized_count n w s = rw s.head (length-range_from 0 n)

-- With malloc succeeding, the arrays are filled for all files of the list.
pub reallocated :
    (m : ℕ) (w : Workload)
    → w.file_head ≡ range_from 0 (suc m)
    → w.file_ordered ≡ []
    → w.file_count ≡ 0
    → update_file_array true w ≡ (true, fill_file_array (sized w))
unfolding update_file_array free_file_array
reallocated m w head cleared none_yet =
    third (is_empty w.file_head) (w.file_count == length w.file_head) _ _ _ (rw head refl)
      (rw (none_yet, head) (ground arith))
    ∙ ap (λ (u : Workload). (true, fill_file_array (record u { file_count = length w.file_head })))
        (first (is_empty w.file_ordered) w _ (rw cleared refl))

-- workload_update_file_array on new files, with the arrays freed before, returns 0 if malloc succeeds,
-- and leaves a sound workload: places and `m_index` inverse to one another, in the order of access
-- counts, with totals that are the sums, and with empty lists.
pub update_file_array-IsSound :
    (n : ℕ) (w : Workload)
    → IsFresh n w
    → 1 ≤ n
    → w.file_ordered ≡ []
    → w.file_count ≡ 0
    → ((update_file_array true w).0 ≡ true)
      × ((update_file_array true w).1.file_count ≡ n)
      × ((update_file_array true w).1.next_file_index ≡ none)
      × IsSound 0 (update_file_array true w).1
update_file_array-IsSound zero w s many cleared none_yet = absurd (omega arith)
update_file_array-IsSound (suc m) w s many cleared none_yet =
    let count = sized_count (suc m) w s in
    let fresh = sized-IsFresh (suc m) w s in
    rw (reallocated m w s.head cleared none_yet) (
      refl,
      filled_count (suc m) (sized w) fresh count,
      filled_none (suc m) (sized w) fresh count,
      filled-IsSound (suc m) (sized w) fresh count,
    )
