-- ===== src/Store/Assign/Relocation.antt =====
-- source/workload_relocate.c: `workload_file_relocate` moves every file to the disk it is to move to.
use workload.Prelude.{
  ℕ, ◌≡◌, refl, ◌∙◌, arith, true, false, Option, none, some, List, [], ◌∷◌, if◌then◌else◌, contains,
  ◌==◌, ℕ_discrete,
}
use workload.Prelude.Sums.{IsDistinct}
use workload.Store.Types.{Workload}
use workload.Store.Access.{for_each}
use workload.Store.Assign.{MoveIo, assign_file_to_disk, relocate_to, relocate_file, file_relocate}
use workload.Store.Assign.Chains.{IsLinked, SameAssign-IsLinked}
use workload.Store.Assign.Chains.Move.{lists_after, assign_file_to_disk-IsLinked}
use workload.Store.Assign.Placement.{place_after, assign_file_to_disk-Placed}

-- The disk of a file once the relocation has looked at it.
abbrev pub destination : MoveIo → Option ℕ → Option ℕ → Option ℕ
destination io none a = a
destination io (some d) a = place_after io d a

record Settled (f : ℕ) (o : Option ℕ) (w v : Workload) : Type 0 where
  assigned : (x : ℕ) → (v.file x).assign_disk ≡ (if f == x then o else (w.file x).assign_disk)
  target : (x : ℕ) → (v.file x).reassign_disk ≡ (if f == x then none else (w.file x).reassign_disk)

relocate_to-Settled :
    (r : Option ℕ) (io : MoveIo) (f : ℕ) (w : Workload)
    → (w.file f).reassign_disk ≡ r
    → Settled f (destination io r (w.file f).assign_disk) w (relocate_to r io f w)
unfolding relocate_to
relocate_to-Settled none io f w at = record {
  assigned = λ x. ground arith;
  target = λ x. ground arith;
}
relocate_to-Settled (some d) io f w at =
    let p = assign_file_to_disk-Placed io f d w in
    record {
      assigned = λ x. ground (arith, p.assigned x);
      target = λ x. ground (arith, p.target x);
    }

relocate_file-Settled :
    (io : MoveIo) (f : ℕ) (w : Workload)
    → Settled f
        (destination io (w.file f).reassign_disk (w.file f).assign_disk)
        w
        (relocate_file io f w)
unfolding relocate_file
relocate_file-Settled io f w = relocate_to-Settled (w.file f).reassign_disk io f w refl

-- The files that the loop has yet to come to are as before, and those it has passed are settled.
module _ (io : ℕ → MoveIo) where
  abbrev loop : List ℕ → Workload → Workload
  loop xs w = for_each (λ f. relocate_file (io f) f) xs w

  loop_rest :
      (xs : List ℕ) (w : Workload) (x : ℕ)
      → contains x xs ≡ false
      → ((loop xs w).file x).assign_disk ≡ (w.file x).assign_disk
        × ((loop xs w).file x).reassign_disk ≡ (w.file x).reassign_disk
  loop_rest [] w x out = (refl, refl)
  loop_rest (f ∷ xs) w x out =
      let s = relocate_file-Settled (io f) f w in
      let (a, t) = loop_rest xs (relocate_file (io f) f w) x (ground arith) in
      let other : (f == x) ≡ false = ground arith in
      (a ∙ rw (s.assigned x, other) refl, t ∙ rw (s.target x, other) refl)

  loop_settled :
      (xs : List ℕ) (w : Workload) (x : ℕ)
      → IsDistinct xs
      → contains x xs ≡ true
      → (((loop xs w).file x).assign_disk
          ≡ destination (io x) (w.file x).reassign_disk (w.file x).assign_disk)
        × (((loop xs w).file x).reassign_disk ≡ none)
  loop_settled [] w x dist inside = absurd (cc)
  loop_settled (f ∷ xs) w x (fresh, dist) inside =
      let s = relocate_file-Settled (io f) f w in
      let v = relocate_file (io f) f w in
      elim (ℕ_discrete f x) [
        | yes same ↦ rw (← same) (
            let (a, t) = loop_rest xs v f fresh in
            (a ∙ s.assigned f ∙ ground arith, t ∙ s.target f ∙ ground arith))
        | no other ↦
            let (a, t) = loop_settled xs v x dist (ground arith) in
            let apart : (f == x) ≡ false = ground arith in
            (a ∙ rw (s.target x, s.assigned x, apart) refl, t)
      ]

-- A relocation leaves no file of the list with a disk to move to. A file that had one is on that disk
-- afterwards, unless it was on another disk and a call that its move needs failed; then it is where it
-- was, as is a file that had none.
pub file_relocate-destination :
    (io : ℕ → MoveIo) (w : Workload) (x : ℕ)
    → IsDistinct w.file_head
    → contains x w.file_head ≡ true
    → (((file_relocate io w).file x).assign_disk
        ≡ destination (io x) (w.file x).reassign_disk (w.file x).assign_disk)
      × (((file_relocate io w).file x).reassign_disk ≡ none)
unfolding file_relocate
file_relocate-destination io w x dist inside = loop_settled io w.file_head w x dist inside

relocate_to-IsLinked :
    (r : Option ℕ) (io : MoveIo) (f : ℕ) (w : Workload) (members : ℕ → List ℕ)
    → IsLinked w members
    → (after : ℕ → List ℕ) × IsLinked (relocate_to r io f w) after
unfolding relocate_to
relocate_to-IsLinked none io f w members l = (members, l)
relocate_to-IsLinked (some d) io f w members l =
    let v = (assign_file_to_disk io f d w).1 in
    let after = lists_after (assign_file_to_disk io f d w).0 members f (w.file f).assign_disk d in
    (
      after,
      SameAssign-IsLinked v (relocate_to (some d) io f w) after
          (record {
            prev = λ x. ground arith;
            next = λ x. ground arith;
            assigned = λ x. ground arith;
            head = λ e. refl;
            count = λ e. refl;
          })
          (assign_file_to_disk-IsLinked io f d w members l),
    )

loop-IsLinked :
    (io : ℕ → MoveIo) (xs : List ℕ) (w : Workload) (members : ℕ → List ℕ)
    → IsLinked w members
    → (after : ℕ → List ℕ) × IsLinked (loop io xs w) after
unfolding relocate_file
loop-IsLinked io [] w members l = (members, l)
loop-IsLinked io (f ∷ xs) w members l =
    let (after, k) = relocate_to-IsLinked (w.file f).reassign_disk (io f) f w members l in
    loop-IsLinked io xs (relocate_file (io f) f w) after k

-- A relocation keeps the list of every disk a list of exactly the files assigned to it, with its
-- length in the counter.
pub file_relocate-IsLinked :
    (io : ℕ → MoveIo) (w : Workload) (members : ℕ → List ℕ)
    → IsLinked w members
    → (after : ℕ → List ℕ) × IsLinked (file_relocate io w) after
unfolding file_relocate
file_relocate-IsLinked io w members l = loop-IsLinked io w.file_head w members l

pub relocate_file-IsLinked :
    (io : MoveIo) (f : ℕ) (w : Workload) (members : ℕ → List ℕ)
    → IsLinked w members
    → (after : ℕ → List ℕ) × IsLinked (relocate_file io f w) after
unfolding relocate_file
relocate_file-IsLinked io f w members l =
    relocate_to-IsLinked (w.file f).reassign_disk io f w members l
