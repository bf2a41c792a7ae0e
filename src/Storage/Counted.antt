-- ===== src/Storage/Counted.antt =====
-- source/workload_storage.c: what one file laid down changes in the workload.
use workload.Prelude.{ℕ, ◌+◌, ◌≡◌, ◌∙◌, ap, arith, some, ◌==◌, if◌then◌else◌, u64}
use workload.Store.Types.{File, Workload}
use workload.Store.Db.Frame.{update_db-Keeps}
use workload.Store.Assign.Chains.{SameAssign}
use workload.Store.Assign.Chains.Move.{SameButDb-SameAssign}
use workload.Store.Access.Assigned.{SameAssign-trans}
use workload.Storage.{count_laid, lay_file}

-- `v` is `w` with one write more for the file `f`.
pub record Counted (f : ℕ) (w v : Workload) : Type 0 where
  pub writes :
      (x : ℕ)
      → (v.file x).write_count
        ≡ (if f == x then u64 ((w.file x).write_count + 1) else (w.file x).write_count)
  pub reads : (x : ℕ) → (v.file x).read_count ≡ (w.file x).read_count
  pub total_writes : v.write_count ≡ u64 (w.write_count + 1)
  pub total_reads : v.read_count ≡ w.read_count
  pub index : (x : ℕ) → (v.file x).index ≡ (w.file x).index
  pub files : v.file_head ≡ w.file_head
  pub size : v.file_count ≡ w.file_count
  pub sorted : v.file_sorted ≡ w.file_sorted
  pub nexts : v.next_file_index ≡ w.next_file_index
  pub array : v.disk_array ≡ w.disk_array
  pub disks : v.disk_count ≡ w.disk_count
  pub ready : v.disk_ready_count ≡ w.disk_ready_count
  pub errors : v.disk_error_count ≡ w.disk_error_count
  pub assign : SameAssign w v

count_laid-SameAssign : (f d : ℕ) (w : Workload) → SameAssign w (count_laid f d w)
unfolding count_laid
count_laid-SameAssign f d w = record {
  prev = λ x. ground arith;
  next = λ x. ground arith;
  assigned = λ x. ground arith;
  head = λ e. ground arith;
  count = λ e. ground arith;
}

pub lay_file-Counted : (f d : ℕ) (w : Workload) → Counted f w (lay_file f d w)
unfolding lay_file count_laid
lay_file-Counted f d w =
    let s = update_db-Keeps f (some d) (count_laid f d w) in
    record {
      writes = λ x. ap (λ (g : File). g.write_count) (s.file x) ∙ ground arith;
      reads = λ x. ap (λ (g : File). g.read_count) (s.file x) ∙ ground arith;
      total_writes = ap (λ (u : Workload). u.write_count) s.rest;
      total_reads = ap (λ (u : Workload). u.read_count) s.rest;
      index = λ x. ap (λ (g : File). g.index) (s.file x) ∙ ground arith;
      files = ap (λ (u : Workload). u.file_head) s.rest;
      size = ap (λ (u : Workload). u.file_count) s.rest;
      sorted = ap (λ (u : Workload). u.file_sorted) s.rest;
      nexts = ap (λ (u : Workload). u.next_file_index) s.rest;
      array = ap (λ (u : Workload). u.disk_array) s.rest;
      disks = ap (λ (u : Workload). u.disk_count) s.rest;
      ready = ap (λ (u : Workload). u.disk_ready_count) s.rest;
      errors = ap (λ (u : Workload). u.disk_error_count) s.rest;
      assign = SameAssign-trans (count_laid-SameAssign f d w) (SameButDb-SameAssign s);
    }
