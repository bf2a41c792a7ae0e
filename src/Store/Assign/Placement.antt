-- ===== src/Store/Assign/Placement.antt =====
-- source/workload_file.c and source/workload_relocate.c: which disk each file is assigned to, and which
-- one it is to move to.
use workload.Prelude.{
  ℕ, ◌≡◌, refl, ◌∙◌, ap, arith, Bool, true, false, Bool-cases, inl, inr, Option, none, some, ◌&&◌,
  ◌||◌, not, if◌then◌else◌, points_to, ◌==◌,
}
use workload.Store.Types.{File, Workload}
use workload.Store.Db.{update_db}
use workload.Store.Db.Frame.{update_db-Keeps}
use workload.Store.Assign.{
  MoveIo, delete_created, unlink_files, deassign_from, set_created, move_from, move_assign_file,
  link_files, link, stamp_disk, stamp_file, assign_file_to_disk,
}

-- In `v` the file is assigned to `o`, and all else about assignments and moves is as in `w`.
pub record Placed (f : ℕ) (o : Option ℕ) (w v : Workload) : Type 0 where
  pub assigned : (x : ℕ) → (v.file x).assign_disk ≡ (if f == x then o else (w.file x).assign_disk)
  pub target : (x : ℕ) → (v.file x).reassign_disk ≡ (w.file x).reassign_disk

Placed-trans :
    {f : ℕ} {a b : Option ℕ} {u v w : Workload} → Placed f a u v → Placed f b v w → Placed f b u w
Placed-trans {f} p q = record {
  assigned = λ x. ground (arith, p.assigned x, q.assigned x);
  target = λ x. q.target x ∙ p.target x;
}

Placed-kept :
    {f : ℕ} {o : Option ℕ} {u v w : Workload}
    → Placed f o u v
    → ((x : ℕ) → (w.file x).assign_disk ≡ (v.file x).assign_disk)
    → ((x : ℕ) → (w.file x).reassign_disk ≡ (v.file x).reassign_disk)
    → Placed f o u w
Placed-kept p a t = record { assigned = λ x. a x ∙ p.assigned x; target = λ x. t x ∙ p.target x }

same_heap :
    {f : ℕ} {o : Option ℕ} {u v w : Workload}
    → Placed f o u v
    → ((x : ℕ) → w.file x ≡ v.file x)
    → Placed f o u w
same_heap p e =
    Placed-kept p (λ x. ap (λ (g : File). g.assign_disk) (e x))
      (λ x. ap (λ (g : File). g.reassign_disk) (e x))

Placed-refl : (f : ℕ) (w : Workload) → Placed f (w.file f).assign_disk w w
Placed-refl f w = record { assigned = λ x. ground arith; target = λ x. refl }

deassign_from-Placed : (a : Bool) (f d : ℕ) (w : Workload) → Placed f none w (deassign_from a f d w)
unfolding deassign_from delete_created unlink_files
deassign_from-Placed a f d w = record { assigned = λ x. ground arith; target = λ x. ground arith }

set_created-Placed :
    (f : ℕ) (flag : Bool) (o : Option ℕ) (w v : Workload)
    → Placed f o w v
    → Placed f o w (set_created f flag v)
set_created-Placed f flag o w v p = Placed-kept p (λ x. ground arith) (λ x. ground arith)

link_files-Placed :
    (f d : ℕ) (head : Option ℕ) (w : Workload)
    → Placed f (some d) w (record w { file = link_files f d head w.file })
unfolding link_files
link_files-Placed f d none w = record { assigned = λ x. ground arith; target = λ x. ground arith }
link_files-Placed f d (some y) w = record {
  assigned = λ x. ground arith;
  target = λ x. ground arith;
}

stamp_disk_file : (o : Option ℕ) (w : Workload) (x : ℕ) → (stamp_disk o w).file x ≡ w.file x
unfolding stamp_disk
stamp_disk_file none w x = refl
stamp_disk_file (some d) w x = refl

link-Placed : (f d : ℕ) (w : Workload) → Placed f (some d) w (link f d w)
unfolding link
link-Placed f d w =
    let p = link_files-Placed f d (w.disk d).assign_file w in
    record { assigned = p.assigned; target = p.target }

-- The calls that a move needs all succeed: none, for a file without a disk; and the disk that the file
-- is assigned to once the move to `d` has returned.
abbrev pub can_move : Option ℕ → MoveIo → Bool
can_move none io = true
can_move (some old) io =
    io.from_pathname && io.from_opened && io.to_pathname && (io.created || io.truncated)

abbrev pub place_after : MoveIo → ℕ → Option ℕ → Option ℕ
place_after io d a = if points_to a d || not (can_move a io) then a else some d

settle-Placed :
    (f d : ℕ) (old : Option ℕ) (w : Workload)
    → Placed f
        (some d)
        w
        (update_db f none (stamp_disk (some d) (stamp_file f (stamp_disk old (link f d w))))).1
unfolding stamp_file
settle-Placed f d old w =
    let a = link f d w in
    let b = stamp_disk old a in
    let c = stamp_file f b in
    let e = stamp_disk (some d) c in
    let db = update_db-Keeps f none e in
    let after_old : Placed f (some d) w b = same_heap (link-Placed f d w) (stamp_disk_file old a) in
    let after_file : Placed f (some d) w c =
      Placed-kept after_old (λ x. ground arith) (λ x. ground arith) in
    let after_new : Placed f (some d) w e = same_heap after_file (stamp_disk_file (some d) c) in
    Placed-kept after_new (λ x. ap (λ (g : File). g.assign_disk) (db.file x))
      (λ x. ap (λ (g : File). g.reassign_disk) (db.file x))

move_from-Placed :
    (old : Option ℕ) (io : MoveIo) (f d : ℕ) (w : Workload)
    → (w.file f).assign_disk ≡ old
    → ((move_from old io f w).0 ≡ can_move old io)
      × (can_move old io ≡ true → Placed f none w (move_from old io f w).1)
      × (can_move old io ≡ false → (move_from old io f w).1 ≡ w)
unfolding move_from
move_from-Placed none io f d w at = (
  refl,
  λ h.
      set_created-Placed f false none w w
        (record { assigned = λ x. ground arith; target = λ x. refl }),
  λ h. absurd (cc),
)
move_from-Placed (some old) io f d w at = (
  ground arith,
  λ h. rw h (
      set_created-Placed f io.created none w (deassign_from io.delete_pathname f old w)
        (deassign_from-Placed io.delete_pathname f old w)),
  λ h. rw h refl,
)

pub assign_file_to_disk-Placed :
    (io : MoveIo) (f d : ℕ) (w : Workload)
    → Placed f (place_after io d (w.file f).assign_disk) w (assign_file_to_disk io f d w).1
unfolding assign_file_to_disk move_assign_file
assign_file_to_disk-Placed io f d w =
    let old = (w.file f).assign_disk in
    let step = move_from old io f w in
    let (moved, gone, kept) = move_from-Placed old io f d w refl in
    elim (Bool-cases (points_to old d)) [
      | inl here ↦ rw here (Placed-refl f w)
      | inr elsewhere ↦ elim (Bool-cases (can_move old io)) [
        | inl can ↦
            rw (elsewhere, moved, can) (Placed-trans (gone can) (settle-Placed f d old step.1))
        | inr cannot ↦ rw (elsewhere, moved, cannot, kept cannot) (Placed-refl f w)
      ]
    ]
