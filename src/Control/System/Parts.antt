-- ===== src/Control/System/Parts.antt =====
-- source/workload_relocate.c: the move of a file is a run of its parts.
use workload.Prelude.{
  ℕ, suc, ◌≡◌, ◌∙◌, refl, arith, Bool, true, false, ◌&&◌, ◌||◌, Bool-cases, inl, inr, Option, none,
  some, points_to,
}
use workload.Store.Types.{Workload}
use workload.Store.Assign.{
  MoveIo, delete_created, deassign_from, set_created, move_from, move_assign_file,
  assign_file_to_disk, relocate_to, relocate_file,
}
use workload.Store.Assign.Chains.Unlink.{unlink_assigned}
use workload.Store.Assign.Chains.Move.{set_created-SameAssign, move_from_failed}
use workload.Control.System.{
  Step, unlinked, marked, linked, stamped, arrived, Run, start, then_step,
}

abbrev pub Reaches : Workload → Workload → Type 0
Reaches w v = (k : ℕ) × Run w k v

pub further : {w v u : Workload} → Reaches w v → Step v u → Reaches w u
further (k, run) step = (suc k, then_step k _ _ run step)

-- A file that has left its disk
record Free (f : ℕ) (w v : Workload) : Type 0 where
  run : Reaches w v
  free : (v.file f).assign_disk ≡ none

marked-Free :
    (f : ℕ) (created : Bool) (w v : Workload) → Free f w v → Free f w (set_created f created v)
marked-Free f created w v p = record {
  run = further p.run (marked f created);
  free = (set_created-SameAssign f created v).assigned f ∙ p.free;
}

deassign_from-Free :
    (a : Bool) (f d : ℕ) (w : Workload)
    → (w.file f).assign_disk ≡ some d
    → Free f w (deassign_from a f d w)
unfolding deassign_from
deassign_from-Free a f d w at = record {
  run = further (0, start) (unlinked a f d at);
  free = unlink_assigned f f (delete_created a f d w).file ∙ ground arith;
}

move_from-Free :
    (old : Option ℕ) (io : MoveIo) (f : ℕ) (w : Workload)
    → (w.file f).assign_disk ≡ old
    → (move_from old io f w).0 ≡ true
    → Free f w (move_from old io f w).1
unfolding move_from
move_from-Free none io f w at done =
    marked-Free f false w w (record { run = (0, start); free = at })
move_from-Free (some old) io f w at done =
    elim (Bool-cases
      (io.from_pathname && io.from_opened && io.to_pathname && (io.created || io.truncated))) [
        | inl good ↦ rw good (
            marked-Free f io.created w (deassign_from io.delete_pathname f old w)
              (deassign_from-Free io.delete_pathname f old w at))
        | inr bad ↦ absurd (let wrong : false ≡ true = rw bad at done in cc)
      ]

assign_file_to_disk-Reaches :
    (io : MoveIo) (f d : ℕ) (w : Workload) → Reaches w (assign_file_to_disk io f d w).1
unfolding assign_file_to_disk move_assign_file
assign_file_to_disk-Reaches io f d w =
    let old = (w.file f).assign_disk in
    let step = move_from old io f w in
    elim (Bool-cases (points_to old d)) [
      | inl here ↦ rw here (0, start)
      | inr elsewhere ↦ elim (Bool-cases step.0) [
        | inl done ↦
            let p = move_from-Free old io f w refl done in
            rw (elsewhere, done) (further (further p.run (linked f d p.free)) (stamped f d old))
        | inr failed ↦ rw (elsewhere, failed, move_from_failed old io f w failed) (0, start)
      ]
    ]

relocate_to-Reaches :
    (target : Option ℕ) (io : MoveIo) (f : ℕ) (w : Workload) → Reaches w (relocate_to target io f w)
unfolding relocate_to
relocate_to-Reaches none io f w = (0, start)
relocate_to-Reaches (some d) io f w = further (assign_file_to_disk-Reaches io f d w) (arrived f)

-- A move is a run of the parts that the threads may take one by one.
pub relocate_file-Reaches : (io : MoveIo) (f : ℕ) (w : Workload) → Reaches w (relocate_file io f w)
unfolding relocate_file
relocate_file-Reaches io f w = relocate_to-Reaches (w.file f).reassign_disk io f w
