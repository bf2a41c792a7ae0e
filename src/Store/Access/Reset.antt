-- ===== src/Store/Access/Reset.antt =====
-- source/workload_access.c: `workload_reset_file_access_count`.
use workload.Prelude.{ℕ, ◌≡◌, refl, ◌∙◌, ap, arith, none, List, [], ◌∷◌, contains, if◌then◌else◌}
use workload.Store.Types.{File, Workload}
use workload.Store.Db.Frame.{update_db-Keeps, update_db_only_disk-Keeps}
use workload.Store.Access.{for_each, reset_file, reset_disk, reset_file_access_count}
use workload.Store.Assign.Chains.{SameAssign}
use workload.Store.Assign.Chains.Move.{SameButDb-SameAssign}
use workload.Store.Access.Assigned.{SameAssign-trans}

-- The counters of the files `xs` are 0 in `v`, and all else that ranks the files is as in `w`.
pub record Zeroed (xs : List ℕ) (w v : Workload) : Type 0 where
  pub reads : (x : ℕ) → (v.file x).read_count ≡ (if contains x xs then 0 else (w.file x).read_count)
  pub writes :
      (x : ℕ) → (v.file x).write_count ≡ (if contains x xs then 0 else (w.file x).write_count)
  pub index : (x : ℕ) → (v.file x).index ≡ (w.file x).index
  pub files : v.file_head ≡ w.file_head
  pub size : v.file_count ≡ w.file_count
  pub sorted : v.file_sorted ≡ w.file_sorted
  pub nexts : v.next_file_index ≡ w.next_file_index
  pub assign : SameAssign w v

reset_file-Zeroed : (f : ℕ) (w : Workload) → Zeroed (f ∷ []) w (reset_file f w)
unfolding reset_file
reset_file-Zeroed f w =
    let s = update_db-Keeps f none _ in
    record {
      reads = λ x. ap (λ (g : File). g.read_count) (s.file x) ∙ ground arith;
      writes = λ x. ap (λ (g : File). g.write_count) (s.file x) ∙ ground arith;
      index = λ x. ap (λ (g : File). g.index) (s.file x) ∙ ground arith;
      files = ap (λ (u : Workload). u.file_head) s.rest;
      size = ap (λ (u : Workload). u.file_count) s.rest;
      sorted = ap (λ (u : Workload). u.file_sorted) s.rest;
      nexts = ap (λ (u : Workload). u.next_file_index) s.rest;
      assign =
          SameAssign-trans
            (record {
              prev = λ x. ground arith;
              next = λ x. ground arith;
              assigned = λ x. ground arith;
              head = λ d. refl;
              count = λ d. refl;
            })
            (SameButDb-SameAssign s);
    }

Zeroed-cons :
    (f : ℕ) (xs : List ℕ) (u v w : Workload)
    → Zeroed (f ∷ []) u v
    → Zeroed xs v w
    → Zeroed (f ∷ xs) u w
Zeroed-cons f xs u v w p q = record {
  reads = λ x. ground (arith, p.reads x, q.reads x);
  writes = λ x. ground (arith, p.writes x, q.writes x);
  index = λ x. q.index x ∙ p.index x;
  files = q.files ∙ p.files;
  size = q.size ∙ p.size;
  sorted = q.sorted ∙ p.sorted;
  nexts = q.nexts ∙ p.nexts;
  assign = SameAssign-trans p.assign q.assign;
}

reset_disk-Zeroed : (d : ℕ) (w : Workload) → Zeroed [] w (reset_disk d w)
unfolding reset_disk
reset_disk-Zeroed d w =
    let s = update_db_only_disk-Keeps d _ in
    record {
      reads = λ x. ap (λ (g : File). g.read_count) (s.file x);
      writes = λ x. ap (λ (g : File). g.write_count) (s.file x);
      index = λ x. ap (λ (g : File). g.index) (s.file x);
      files = ap (λ (u : Workload). u.file_head) s.rest;
      size = ap (λ (u : Workload). u.file_count) s.rest;
      sorted = ap (λ (u : Workload). u.file_sorted) s.rest;
      nexts = ap (λ (u : Workload). u.next_file_index) s.rest;
      assign =
          SameAssign-trans
            (record {
              prev = λ x. refl;
              next = λ x. refl;
              assigned = λ x. refl;
              head = λ e. ground arith;
              count = λ e. ground arith;
            })
            (SameButDb-SameAssign s);
    }

Zeroed-refl : (w : Workload) → Zeroed [] w w
Zeroed-refl w = record {
  reads = λ x. refl;
  writes = λ x. refl;
  index = λ x. refl;
  files = refl;
  size = refl;
  sorted = refl;
  nexts = refl;
  assign = record {
    prev = λ x. refl;
    next = λ x. refl;
    assigned = λ x. refl;
    head = λ e. refl;
    count = λ e. refl;
  };
}

reset_files-Zeroed : (xs : List ℕ) (w : Workload) → Zeroed xs w (for_each reset_file xs w)
reset_files-Zeroed [] w = Zeroed-refl w
reset_files-Zeroed (f ∷ xs) w =
    Zeroed-cons f xs w (reset_file f w) (for_each reset_file xs (reset_file f w))
      (reset_file-Zeroed f w) (reset_files-Zeroed xs (reset_file f w))

Zeroed-then : (xs : List ℕ) (u v w : Workload) → Zeroed xs u v → Zeroed [] v w → Zeroed xs u w
Zeroed-then xs u v w p q = record {
  reads = λ x. q.reads x ∙ p.reads x;
  writes = λ x. q.writes x ∙ p.writes x;
  index = λ x. q.index x ∙ p.index x;
  files = q.files ∙ p.files;
  size = q.size ∙ p.size;
  sorted = q.sorted ∙ p.sorted;
  nexts = q.nexts ∙ p.nexts;
  assign = SameAssign-trans p.assign q.assign;
}

pub each_disk-Zeroed :
    (body : ℕ → Workload → Workload)
    → ((d : ℕ) (w : Workload) → Zeroed [] w (body d w))
    → (ds : List ℕ) (w : Workload) → Zeroed [] w (for_each body ds w)
each_disk-Zeroed body each [] w = Zeroed-refl w
each_disk-Zeroed body each (d ∷ ds) w =
    Zeroed-then [] w (body d w) (for_each body ds (body d w)) (each d w)
      (each_disk-Zeroed body each ds (body d w))

-- A reset sets the counters of every file in the list, and the totals, to 0, and leaves the places, the
-- order and the lists of the disks as they are.
pub reset-Zeroed :
    (w : Workload)
    → Zeroed w.file_head w (reset_file_access_count w)
      × ((reset_file_access_count w).read_count ≡ 0)
      × ((reset_file_access_count w).write_count ≡ 0)
unfolding reset_file_access_count
reset-Zeroed w =
    let v = for_each reset_file w.file_head w in
    let z =
      Zeroed-then w.file_head w v (for_each reset_disk v.disk_head v)
        (reset_files-Zeroed w.file_head w)
        (each_disk-Zeroed reset_disk reset_disk-Zeroed v.disk_head v) in
    (
      record {
        reads = z.reads;
        writes = z.writes;
        index = z.index;
        files = z.files;
        size = z.size;
        sorted = z.sorted;
        nexts = z.nexts;
        assign = record {
          prev = z.assign.prev;
          next = z.assign.next;
          assigned = z.assign.assigned;
          head = z.assign.head;
          count = z.assign.count;
        };
      },
      refl,
      refl,
    )
