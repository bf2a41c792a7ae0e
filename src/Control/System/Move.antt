-- ===== src/Control/System/Move.antt =====
-- The moves of files keep the workload sound.
use workload.Prelude.{ℕ, List, [], ◌∷◌, ◌≡◌, refl, arith, Bool, true, Option, none, some}
use workload.Store.Db.{update_db}
use workload.Store.Types.{Workload}
use workload.Store.Access.{for_each}
use workload.Store.Assign.{
  MoveIo, assign_file_to_disk, relocate_file, file_relocate, deassign_from, set_created, link,
  stamp_disk, stamp_file,
}
use workload.Store.Assign.Relocation.{relocate_file-IsLinked}
use workload.Store.Assign.Rest.{
  assign_file_to_disk-SameCounts, relocate_file-SameCounts, deassign_from-SameCounts,
  link-SameCounts, set_created-SameCounts, stamps-SameCounts, same_refl, of_heaps,
}
use workload.Store.Assign.Chains.{without, with_file}
use workload.Store.Assign.Chains.Link.{link-IsLinked}
use workload.Store.Assign.Chains.Move.{
  lists_after, assign_file_to_disk-IsLinked, deassign_from-Left, set_created-SameAssign,
  stamps-IsLinked,
}
use workload.Control.System.{IsSound, clear_target}
use workload.Control.System.Same.{SameCounts-IsSound, Same-IsSound}

pub relocate_file-IsSound :
    (n : ℕ) (io : MoveIo) (f : ℕ) (w : Workload) → IsSound n w → IsSound n (relocate_file io f w)
relocate_file-IsSound n io f w s =
    let (members, l) = s.linked in
    let (after, k) = relocate_file-IsLinked io f w members l in
    SameCounts-IsSound n w (relocate_file io f w) (relocate_file-SameCounts io f w) s after k

pub assign_file_to_disk-IsSound :
    (n : ℕ) (io : MoveIo) (f d : ℕ) (w : Workload)
    → IsSound n w
    → IsSound n (assign_file_to_disk io f d w).1
assign_file_to_disk-IsSound n io f d w s =
    let (members, l) = s.linked in
    let r = assign_file_to_disk io f d w in
    SameCounts-IsSound n w r.1 (assign_file_to_disk-SameCounts io f d w) s
      (lists_after r.0 members f (w.file f).assign_disk d)
      (assign_file_to_disk-IsLinked io f d w members l)

relocate_all-IsSound :
    (n : ℕ) (io : ℕ → MoveIo) (xs : List ℕ) (w : Workload)
    → IsSound n w
    → IsSound n (for_each (λ f. relocate_file (io f) f) xs w)
relocate_all-IsSound n io [] w s = s
relocate_all-IsSound n io (f ∷ xs) w s =
    relocate_all-IsSound n io xs (relocate_file (io f) f w) (relocate_file-IsSound n (io f) f w s)

pub file_relocate-IsSound :
    (n : ℕ) (io : ℕ → MoveIo) (w : Workload) → IsSound n w → IsSound n (file_relocate io w)
unfolding file_relocate
file_relocate-IsSound n io w s = relocate_all-IsSound n io w.file_head w s

-- The parts of a move.
pub unlinked-IsSound :
    (n : ℕ) (a : Bool) (f d : ℕ) (w : Workload)
    → (w.file f).assign_disk ≡ some d
    → IsSound n w
    → IsSound n (deassign_from a f d w)
unlinked-IsSound n a f d w at s =
    let (members, l) = s.linked in
    let io : MoveIo = record {
      from_pathname = true;
      from_opened = true;
      to_pathname = true;
      created = true;
      truncated = true;
      delete_pathname = a;
    } in
    SameCounts-IsSound n w (deassign_from a f d w) (deassign_from-SameCounts a f d w) s
      (without members f d) (deassign_from-Left io f w members l d a at).linked

pub linked-IsSound :
    (n f d : ℕ) (w : Workload)
    → (w.file f).assign_disk ≡ none
    → IsSound n w
    → IsSound n (link f d w)
linked-IsSound n f d w free s =
    let (members, l) = s.linked in
    SameCounts-IsSound n w (link f d w) (link-SameCounts f d w) s (with_file members f d)
      (link-IsLinked f d w members l free)

pub marked-IsSound :
    (n f : ℕ) (created : Bool) (w : Workload) → IsSound n w → IsSound n (set_created f created w)
marked-IsSound n f created w s =
    Same-IsSound n w (set_created f created w) (set_created-SameCounts f created w w (same_refl w))
      s (set_created-SameAssign f created w)

pub stamped-IsSound :
    (n f d : ℕ) (old : Option ℕ) (w : Workload)
    → IsSound n w
    → IsSound n (update_db f none (stamp_disk (some d) (stamp_file f (stamp_disk old w)))).1
stamped-IsSound n f d old w s =
    let (members, l) = s.linked in
    SameCounts-IsSound n w _ (stamps-SameCounts f d old w) s members
      (stamps-IsLinked f d old w members l)

pub arrived-IsSound : (n f : ℕ) (w : Workload) → IsSound n w → IsSound n (clear_target f w)
arrived-IsSound n f w s =
    Same-IsSound n w (clear_target f w)
      (of_heaps w w (clear_target f w).file (same_refl w) (λ x. ground arith) (λ x. ground arith)
        (λ x. ground arith))
      s
      (record {
        prev = λ x. ground arith;
        next = λ x. ground arith;
        assigned = λ x. ground arith;
        head = λ e. refl;
        count = λ e. refl;
      })
