-- ===== src/Store/Assign/Chains/Move.antt =====
-- source/workload_file.c: `workload_assign_file_to_disk`, by what it does to the lists of all disks.
use workload.Prelude.{
  ℕ, ◌≡◌, refl, ◌∙◌, ap, arith, Bool, true, false, Bool-cases, inl, inr, Option, none, some, List,
  if◌then◌else◌, points_to,
}
use workload.Store.Types.{File, Disk, Workload}
use workload.Store.Db.{update_db}
use workload.Store.Db.Frame.{SameButDb, update_db-Keeps}
use workload.Store.Assign.{
  MoveIo, delete_created, deassign_from, set_created, move_from, move_assign_file, link, stamp_disk,
  stamp_file, assign_file_to_disk,
}
use workload.Store.Assign.Chains.{IsLinked, SameAssign, SameAssign-IsLinked, without, with_file}
use workload.Store.Assign.Chains.Unlink.{unlink_assigned, unlinked-IsLinked}
use workload.Store.Assign.Chains.Link.{link-IsLinked}

-- The lists once the file has left its disk, and once workload_assign_file_to_disk has returned.
abbrev pub left : (ℕ → List ℕ) → ℕ → Option ℕ → ℕ → List ℕ
left members f none = members
left members f (some old) = without members f old

abbrev pub lists_after : Bool → (ℕ → List ℕ) → ℕ → Option ℕ → ℕ → ℕ → List ℕ
lists_after done members f old d =
    if points_to old d
    then members
    else if done
    then with_file (left members f old) f d
    else members

pub SameButDb-SameAssign : {w v : Workload} → SameButDb w v → SameAssign w v
SameButDb-SameAssign s = record {
  prev = λ x. ap (λ (f : File). f.assign_prev) (s.file x);
  next = λ x. ap (λ (f : File). f.assign_next) (s.file x);
  assigned = λ x. ap (λ (f : File). f.assign_disk) (s.file x);
  head = λ d. ap (λ (p : Disk). p.assign_file) (s.disk d);
  count = λ d. ap (λ (p : Disk). p.assign_file_count) (s.disk d);
}

pub set_created-SameAssign :
    (f : ℕ) (flag : Bool) (w : Workload) → SameAssign w (set_created f flag w)
set_created-SameAssign f flag w = record {
  prev = λ x. ground arith;
  next = λ x. ground arith;
  assigned = λ x. ground arith;
  head = λ d. refl;
  count = λ d. refl;
}

pub delete_created-SameAssign :
    (a : Bool) (f d : ℕ) (w : Workload) → SameAssign w (delete_created a f d w)
unfolding delete_created
delete_created-SameAssign a f d w = record {
  prev = λ x. ground arith;
  next = λ x. ground arith;
  assigned = λ x. ground arith;
  head = λ e. ground arith;
  count = λ e. ground arith;
}

stamp_disk-SameAssign : (o : Option ℕ) (w : Workload) → SameAssign w (stamp_disk o w)
unfolding stamp_disk
stamp_disk-SameAssign none w = record {
  prev = λ x. refl;
  next = λ x. refl;
  assigned = λ x. refl;
  head = λ e. refl;
  count = λ e. refl;
}
stamp_disk-SameAssign (some d) w = record {
  prev = λ x. refl;
  next = λ x. refl;
  assigned = λ x. refl;
  head = λ e. ground arith;
  count = λ e. ground arith;
}

stamp_file-SameAssign : (f : ℕ) (w : Workload) → SameAssign w (stamp_file f w)
unfolding stamp_file
stamp_file-SameAssign f w = record {
  prev = λ x. ground arith;
  next = λ x. ground arith;
  assigned = λ x. ground arith;
  head = λ d. refl;
  count = λ d. refl;
}

-- What a move that succeeds leaves: the file in no list, and the other files where they were.
pub record Left (v : Workload) (lists : ℕ → List ℕ) (f : ℕ) : Type 0 where
  pub linked : IsLinked v lists
  pub free : (v.file f).assign_disk ≡ none

module _ (io : MoveIo) (f : ℕ) (w : Workload) (members : ℕ → List ℕ) (l : IsLinked w members) where
  pub deassign_from-Left :
      (d : ℕ) (a : Bool)
      → (w.file f).assign_disk ≡ some d
      → Left (deassign_from a f d w) (without members f d) f
  unfolding deassign_from
  deassign_from-Left d a at =
      let v = delete_created a f d w in
      let same = delete_created-SameAssign a f d w in
      record {
        linked =
            unlinked-IsLinked f d v members (SameAssign-IsLinked w v members same l)
              (same.assigned f ∙ at);
        free = unlink_assigned f f v.file ∙ ground arith;
      }

  set_created-Left :
      (v : Workload) (lists : ℕ → List ℕ) (flag : Bool)
      → Left v lists f
      → Left (set_created f flag v) lists f
  set_created-Left v lists flag k =
      let same = set_created-SameAssign f flag v in
      record {
        linked = SameAssign-IsLinked v (set_created f flag v) lists same k.linked;
        free = same.assigned f ∙ k.free;
      }

  move_from-Left :
      (old : Option ℕ)
      → (w.file f).assign_disk ≡ old
      → (move_from old io f w).0 ≡ true
      → Left (move_from old io f w).1 (left members f old) f
  unfolding move_from
  move_from-Left none at done = set_created-Left w members false (record { linked = l; free = at })
  move_from-Left (some old) at done = ground (
    arith,
    set_created-Left (deassign_from io.delete_pathname f old w) (without members f old) io.created
        (deassign_from-Left old io.delete_pathname at),
  )

pub move_from_failed :
    (old : Option ℕ) (io : MoveIo) (f : ℕ) (w : Workload)
    → (move_from old io f w).0 ≡ false
    → (move_from old io f w).1 ≡ w
unfolding move_from
move_from_failed none io f w failed = absurd (cc)
move_from_failed (some old) io f w failed = ground arith

-- The file is linked, three time stamps are set, and the rows are written to the database.
abbrev settle : ℕ → ℕ → Option ℕ → Workload → Workload
settle f d old v =
    (update_db f none (stamp_disk (some d) (stamp_file f (stamp_disk old (link f d v))))).1

pub stamps-IsLinked :
    (f d : ℕ) (old : Option ℕ) (a : Workload) (lists : ℕ → List ℕ)
    → IsLinked a lists
    → IsLinked (update_db f none (stamp_disk (some d) (stamp_file f (stamp_disk old a)))).1 lists
stamps-IsLinked f d old a lists l =
    let b = stamp_disk old a in
    let c = stamp_file f b in
    let e = stamp_disk (some d) c in
    SameAssign-IsLinked e (update_db f none e).1 lists
      (SameButDb-SameAssign (update_db-Keeps f none e))
      (SameAssign-IsLinked c e lists (stamp_disk-SameAssign (some d) c) (
        SameAssign-IsLinked b c lists (stamp_file-SameAssign f b)
          (SameAssign-IsLinked a b lists (stamp_disk-SameAssign old a) l)))

settle-IsLinked :
    (f d : ℕ) (old : Option ℕ) (v : Workload) (lists : ℕ → List ℕ)
    → Left v lists f
    → IsLinked (settle f d old v) (with_file lists f d)
settle-IsLinked f d old v lists k =
    stamps-IsLinked f d old (link f d v) (with_file lists f d)
      (link-IsLinked f d v lists k.linked k.free)

-- The lists stay lists of exactly the files assigned to each disk, with their lengths: a move that
-- returns 0 takes the file out of the list of its old disk and puts it first in the list of `d`, and a
-- move that returns -1, or one to the disk that the file is on, changes no list.
pub assign_file_to_disk-IsLinked :
    (io : MoveIo) (f d : ℕ) (w : Workload) (members : ℕ → List ℕ)
    → IsLinked w members
    → IsLinked
        (assign_file_to_disk io f d w).1
        (lists_after (assign_file_to_disk io f d w).0 members f (w.file f).assign_disk d)
unfolding assign_file_to_disk move_assign_file
assign_file_to_disk-IsLinked io f d w members l =
    let old = (w.file f).assign_disk in
    let step = move_from old io f w in
    elim (Bool-cases (points_to old d)) [
      | inl here ↦ rw here l
      | inr elsewhere ↦ elim (Bool-cases step.0) [
        | inl done ↦
            rw (elsewhere, done)
              (settle-IsLinked f d old step.1 (left members f old)
                (move_from-Left io f w members l old refl done))
        | inr failed ↦ rw (elsewhere, failed, move_from_failed old io f w failed) l
      ]
    ]
