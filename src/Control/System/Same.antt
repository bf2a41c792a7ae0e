-- ===== src/Control/System/Same.antt =====
-- What carries the soundness of a workload to another: the counters, the places and the list of files,
-- and the lists of the disks.
use workload.Prelude.{ℕ, refl, List}
use workload.Prelude.Sums.{sum_map_same}
use workload.Store.Types.{Workload}
use workload.Store.Access.Counts.{IsConserved}
use workload.Store.Access.Ranked.{SameRanking, SameRanking-IsRankedStore}
use workload.Store.Assign.Chains.{IsLinked, SameAssign, SameAssign-IsLinked}
use workload.Store.Assign.Rest.{SameCounts}
use workload.Control.System.{IsSound}

module _ (n : ℕ) (w v : Workload) (same : SameCounts w v) (s : IsSound n w) where
  pub SameCounts-IsConserved : IsConserved v
  SameCounts-IsConserved = record {
    distinct = rw same.files s.conserved.distinct;
    reads =
        rw (same.files, same.total_reads, sum_map_same _ _ w.file_head same.reads)
          s.conserved.reads;
    writes =
        rw (same.files, same.total_writes, sum_map_same _ _ w.file_head same.writes)
          s.conserved.writes;
  }

  pub SameCounts-SameRanking : SameRanking w v
  SameCounts-SameRanking = record {
    size = same.size;
    sorted = same.sorted;
    nexts = same.nexts;
    index = λ x hx. same.index x;
    count = λ x hx. rw (same.reads x, same.writes x) refl;
  }

  pub SameCounts-IsSound : (members : ℕ → List ℕ) → IsLinked v members → IsSound n v
  SameCounts-IsSound members l = record {
    known = λ x. rw (same.files, same.size) (s.known x);
    bounded = λ x. rw (same.reads x, same.writes x) (s.bounded x);
    conserved = SameCounts-IsConserved;
    ranked = SameRanking-IsRankedStore w v SameCounts-SameRanking s.ranked;
    linked = (members, l);
  }

  -- Neither the counters nor the lists change.
  pub Same-IsSound : SameAssign w v → IsSound n v
  Same-IsSound a =
      let (members, l) = s.linked in
      SameCounts-IsSound members (SameAssign-IsLinked w v members a l)
