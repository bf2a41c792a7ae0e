-- ===== src/Store/Assign/Chains.antt =====
-- source/workload_file.c: the lists of all disks together. Each disk has the list of exactly the files
-- assigned to it, with its length in `m_assign_file_count`.
pub mod Link
pub mod Unlink
pub mod Move
use workload.Prelude.{
  ℕ, zero, suc, ◌+◌, ◌≡◌, ◌≢◌, refl, sym, ◌∙◌, ap, arith, Bool, true, false, Bool-cases, inl, inr,
  Option, none, some, List, [], ◌∷◌, ◌==◌, if◌then◌else◌, contains, points_to, is_null, length, u64,
  ℕ_discrete,
}
use workload.Prelude.Sums.{IsDistinct}
use workload.Store.Types.{File, Disk, Workload, update}
use workload.Store.Assign.{unlink_files, link_files, deassign_from, delete_created, link}
use workload.Store.Assign.Lists.{
  Chain, remove, Chain_frame, contains-remove, ne_of_contains, remove-IsDistinct, length-remove,
}

pub record IsLinked (w : Workload) (members : ℕ → List ℕ) : Type 0 where
  pub chain : (d : ℕ) → Chain w.file none (w.disk d).assign_file (members d)
  pub count : (d : ℕ) → (w.disk d).assign_file_count ≡ u64 (length (members d))
  pub distinct : (d : ℕ) → IsDistinct (members d)
  pub owned : (d x : ℕ) → contains x (members d) ≡ true → (w.file x).assign_disk ≡ some d
  pub listed : (d x : ℕ) → (w.file x).assign_disk ≡ some d → contains x (members d) ≡ true

-- The lists and the assignments are the same in `v`.
pub record SameAssign (w v : Workload) : Type 0 where
  pub prev : (x : ℕ) → (v.file x).assign_prev ≡ (w.file x).assign_prev
  pub next : (x : ℕ) → (v.file x).assign_next ≡ (w.file x).assign_next
  pub assigned : (x : ℕ) → (v.file x).assign_disk ≡ (w.file x).assign_disk
  pub head : (d : ℕ) → (v.disk d).assign_file ≡ (w.disk d).assign_file
  pub count : (d : ℕ) → (v.disk d).assign_file_count ≡ (w.disk d).assign_file_count

module _ (w v : Workload) (members : ℕ → List ℕ) where
  pub SameAssign-IsLinked : SameAssign w v → IsLinked w members → IsLinked v members
  SameAssign-IsLinked s l = record {
    chain = λ d. rw (s.head d) (
        Chain_frame w.file v.file none (w.disk d).assign_file (members d)
          (λ y h. (s.prev y, s.next y)) (l.chain d));
    count = λ d. s.count d ∙ l.count d;
    distinct = l.distinct;
    owned = λ d x h. s.assigned x ∙ l.owned d x h;
    listed = λ d x h. l.listed d x (sym (s.assigned x) ∙ h);
  }

module _ (w : Workload) (members : ℕ → List ℕ) (l : IsLinked w members) where
  -- A file is in no list but its own disk's.
  pub outside : (d x : ℕ) → (w.file x).assign_disk ≢ some d → contains x (members d) ≡ false
  outside d x ne = elim (Bool-cases (contains x (members d))) [
    | inl h ↦ absurd (ne (l.owned d x h))
    | inr h ↦ h
  ]

  -- The lists of two disks have no file in common.
  pub elsewhere :
      (d e x : ℕ) → e ≢ d → contains x (members e) ≡ true → contains x (members d) ≡ false
  elsewhere d e x ne h = outside d x (λ k. ne (other k))
    where
      other : (w.file x).assign_disk ≡ some d → e ≡ d
      other k = ground (arith, l.owned e x h)

-- What holds of the disk written and its new list, and of the other disks, holds of all disks.
pub at_update :
    (P : Disk → List ℕ → Type 0) (d : ℕ) (v : Disk) (ms : List ℕ) (disk : ℕ → Disk)
    (members : ℕ → List ℕ)
    → P v ms
    → ((e : ℕ) → e ≢ d → P (disk e) (members e))
    → (e : ℕ) → P (update disk d v e) (update members d ms e)
at_update P d v ms disk members own others e = elim (Bool-cases (d == e)) [
  | inl same ↦ rw same own
  | inr other ↦ rw other (others e (ground arith))
]

-- `f` leaves its disk: what becomes of the lists.
abbrev pub without : (ℕ → List ℕ) → ℕ → ℕ → ℕ → List ℕ
without members f d = update members d (remove f (members d))

abbrev pub with_file : (ℕ → List ℕ) → ℕ → ℕ → ℕ → List ℕ
with_file members f d = update members d (f ∷ members d)
