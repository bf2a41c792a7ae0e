-- ===== src/Control/System/Access.antt =====
-- The counting part of an access keeps the workload sound.
use workload.Prelude.{ℕ, suc, ◌+◌, ◌<◌, ◌≤◌, ◌≡◌, arith, true, contains}
use workload.Store.Types.{Workload}
use workload.Store.Access.{Delta, bit, note_access}
use workload.Store.Access.Counts.{note_access-IsConserved, note_access_counts, note_access_lists}
use workload.Store.Access.Ranked.{note_access-IsRankedStore}
use workload.Store.Access.Assigned.{note_access-SameAssign}
use workload.Store.Assign.Chains.{SameAssign-IsLinked}
use workload.Control.System.{IsOne, IsSound}

one_bit : (delta : Delta) → IsOne delta → bit delta.read + bit delta.write ≤ 1
one_bit delta one = ground arith

module _ (n : ℕ) (delta : Delta) (f d : ℕ) (w : Workload) (s : IsSound n w)
    (inside : contains f w.file_head ≡ true) (one : IsOne delta)
    (room : n + 2 < 18446744073709551616) where
  abbrev v : Workload
  v = note_access delta f d w

  known_file : f < w.file_count
  known_file = ground (arith, s.known f)

  bounded_after : (x : ℕ) → (v.file x).read_count + (v.file x).write_count ≤ suc n
  bounded_after x =
      let (reads, writes) = note_access_counts delta f d w x in
      rw (reads, writes) (ground (arith, s.bounded f, s.bounded x, one_bit delta one))

  pub note_access-IsSound : IsSound (suc n) v
  note_access-IsSound =
      let (files, size) = note_access_lists delta f d w in
      let (members, l) = s.linked in
      record {
        known = λ x. rw (files, size) (s.known x);
        bounded = bounded_after;
        conserved = note_access-IsConserved delta f d w s.conserved inside;
        ranked =
            note_access-IsRankedStore delta f d w s.ranked known_file (omega (arith, s.bounded f));
        linked = (members, SameAssign-IsLinked w v members (note_access-SameAssign delta f d w) l);
      }
