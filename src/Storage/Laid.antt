-- ===== src/Storage/Laid.antt =====
-- source/workload_storage.c: the counters once the threads of the disks have laid down every file, in
-- whatever order they came to it.
use workload.Prelude.{
  ℕ, suc, ◌<◌, ◌≡◌, ◌∙◌, refl, subst, arith, Bool, true, false, ◌||◌, List, [], ◌∷◌, Bool-cases,
  inl, inr, ◌==◌, ==_iff, if◌then◌else◌, contains, ltb, get_or,
}
use workload.Prelude.Sums.{IsDistinct, sum_map_count, sum_map_same}
use workload.Store.Types.{Workload, access_count}
use workload.Store.Access.Counts.{IsConserved}
use workload.Store.Ranking.Places.{IsIndexed}
use workload.Store.Ranking.Order.{key}
use workload.Store.Access.Ranked.{ranking}
use workload.Store.Assign.Lists.{ne_of_contains}
use workload.Store.Assign.Chains.{SameAssign, SameAssign-IsLinked}
use workload.Store.Access.Assigned.{SameAssign-trans}
use workload.Control.System.{IsSound}
use workload.Storage.{lay_file, Steps, files_of, lay_files}
use workload.Storage.Counted.{Counted, lay_file-Counted}

-- From a workload `w` without accesses, exactly the files with `p` are laid down in `v`.
pub record Laid (p : ℕ → Bool) (w v : Workload) : Type 0 where
  pub writes : (x : ℕ) → (v.file x).write_count ≡ (if p x then 1 else 0)
  pub reads : (x : ℕ) → (v.file x).read_count ≡ 0
  pub conserved : IsConserved v
  pub index : (x : ℕ) → (v.file x).index ≡ (w.file x).index
  pub files : v.file_head ≡ w.file_head
  pub size : v.file_count ≡ w.file_count
  pub sorted : v.file_sorted ≡ w.file_sorted
  pub nexts : v.next_file_index ≡ w.next_file_index
  pub array : v.disk_array ≡ w.disk_array
  pub assign : SameAssign w v

abbrev pub and_file : ℕ → (ℕ → Bool) → ℕ → Bool
and_file f p x = (f == x) || p x

module _ (p : ℕ → Bool) (w v u : Workload) (f : ℕ) (l : Laid p w v) (c : Counted f v u)
    (new : p f ≡ false) (inside : contains f w.file_head ≡ true) where
  writes_after : (x : ℕ) → (u.file x).write_count ≡ (if and_file f p x then 1 else 0)
  writes_after x = elim (Bool-cases (f == x)) [
    | inl here ↦
        let old : p x ≡ false = subst (λ y. p y ≡ false) ((==_iff f x).0 here) new in
        ground (arith, c.writes x, l.writes x)
    | inr other ↦ ground (arith, c.writes x, l.writes x)
  ]

  Counted-IsConserved : IsConserved u
  Counted-IsConserved = record {
    distinct = rw c.files l.conserved.distinct;
    reads = rw (c.total_reads, c.files, sum_map_same _ _ v.file_head c.reads) l.conserved.reads;
    writes =
        rw (c.total_writes, c.files)
          (sum_map_count (λ x. (u.file x).write_count) (λ x. (v.file x).write_count) f v.write_count
            1 v.file_head (λ x ne. ground (arith, c.writes x)) l.conserved.distinct
            (rw l.files inside) (ground (arith, c.writes f)) l.conserved.writes);
  }

  pub Counted-Laid : Laid (and_file f p) w u
  Counted-Laid = record {
    writes = writes_after;
    reads = λ x. c.reads x ∙ l.reads x;
    conserved = Counted-IsConserved;
    index = λ x. c.index x ∙ l.index x;
    files = c.files ∙ l.files;
    size = c.size ∙ l.size;
    sorted = c.sorted ∙ l.sorted;
    nexts = c.nexts ∙ l.nexts;
    array = c.array ∙ l.array;
    assign = SameAssign-trans l.assign c.assign;
  }

abbrev pub and_files : List ℕ → (ℕ → Bool) → ℕ → Bool
and_files xs p x = contains x xs || p x

pub same-Laid : (p q : ℕ → Bool) (w v : Workload) → ((x : ℕ) → p x ≡ q x) → Laid p w v → Laid q w v
same-Laid p q w v same l = record {
  writes = λ x. rw (← same x) (l.writes x);
  reads = l.reads;
  conserved = l.conserved;
  index = l.index;
  files = l.files;
  size = l.size;
  sorted = l.sorted;
  nexts = l.nexts;
  array = l.array;
  assign = l.assign;
}

-- No file of the list comes twice, none was laid down before, and all are files of the workload.
abbrev pub Fresh : (ℕ → Bool) → Workload → List ℕ → Type 0
Fresh p w [] = Unit {0}
Fresh p w (f ∷ fs) = (p f ≡ false) × (contains f w.file_head ≡ true) × Fresh (and_file f p) w fs

pub lay_files-Laid :
    (steps : Steps) (p : ℕ → Bool) (w v : Workload)
    → Fresh p w (files_of steps)
    → Laid p w v
    → Laid (and_files (files_of steps) p) w (lay_files steps v)
unfolding lay_files
lay_files-Laid [] p w v fresh l = l
lay_files-Laid ((f, d) ∷ steps) p w v fresh l =
    let c = lay_file-Counted f d v in
    let next = Counted-Laid p w v (lay_file f d v) f l c fresh.0 fresh.1 in
    same-Laid _ _ w _ (λ x. ground arith)
      (lay_files-Laid steps (and_file f p) w (lay_file f d v) fresh.2 next)

-- At the start nothing is laid down.
pub start-Laid : (w : Workload) → IsSound 0 w → Laid (λ x. false) w w
start-Laid w s = record {
  writes = λ x. omega (arith, s.bounded x);
  reads = λ x. omega (arith, s.bounded x);
  conserved = s.conserved;
  index = λ x. refl;
  files = refl;
  size = refl;
  sorted = refl;
  nexts = refl;
  array = refl;
  assign = record {
    prev = λ x. refl;
    next = λ x. refl;
    assigned = λ x. refl;
    head = λ d. refl;
    count = λ d. refl;
  };
}

-- With every file laid down, all have the same count, and the order is right.
module _ (p : ℕ → Bool) (w v : Workload) (s : IsSound 0 w) (l : Laid p w v)
    (all : (x : ℕ) → p x ≡ ltb x w.file_count) where
  counted : (x : ℕ) → x < w.file_count → access_count (v.file x) ≡ 1
  counted x h = ground (arith, l.reads x, l.writes x, all x)

  laid-IsIndexed : IsIndexed v.file_count (ranking v)
  laid-IsIndexed =
      let r = s.ranked.indexed in
      record {
        size = rw (l.sorted, l.size) r.size;
        place = λ i hi.
            let at : i < w.file_count = rw l.size at hi in
            rw l.sorted (l.index (get_or w.file_sorted i 0) ∙ r.place i at);
        known = λ i hi. rw (l.sorted, l.size) (r.known i (rw l.size at hi));
        stands = λ x hx. rw (l.sorted, l.index x) (r.stands x (rw l.size at hx));
        inside = λ x hx. rw (l.index x, l.size) (r.inside x (rw l.size at hx));
      }

  key_one : (j : ℕ) → j < w.file_count → key (ranking v) j ≡ 1
  key_one j h = rw l.sorted (counted (get_or w.file_sorted j 0) (s.ranked.indexed.known j h))

  pub laid-IsSound : IsSound 1 v
  laid-IsSound = record {
    known = λ x. rw (l.files, l.size) (s.known x);
    bounded = λ x. ground (arith, l.reads x, l.writes x);
    conserved = l.conserved;
    ranked = record {
      indexed = laid-IsIndexed;
      ranked = λ j hj.
          let last : suc j < w.file_count = rw l.size at hj in
          omega (arith, key_one j (omega arith), key_one (suc j) last);
      nexts = rw (l.nexts, l.size) s.ranked.nexts;
    };
    linked = let (members, k) = s.linked in (members, SameAssign-IsLinked w v members l.assign k);
  }

pub contains-Fresh :
    (w : Workload) (xs : List ℕ) (p : ℕ → Bool)
    → IsDistinct xs
    → ((x : ℕ) → contains x xs ≡ true → (p x ≡ false) × (contains x w.file_head ≡ true))
    → Fresh p w xs
contains-Fresh w [] p d inside = tt
contains-Fresh w (f ∷ fs) p d inside =
    let (old, known) = inside f (ground arith) in
    (
      old,
      known,
      contains-Fresh w fs (and_file f p) d.1 (λ x h.
          let (fresh, inside_x) = inside x (ground arith) in
          let other = ne_of_contains x f fs h d.0 in
          let apart : (f == x) ≡ false = ground arith in (ground arith, inside_x)),
    )
