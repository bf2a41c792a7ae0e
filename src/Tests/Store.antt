-- ===== src/Tests/Store.antt =====
-- The theorems on accesses, moves and relocations, on the sample workload.
use workload.Prelude.{ℕ, ◌≡◌, refl, arith, none, some, List, [], ◌∷◌}
use workload.Store.Access.{
  file_access, access_on, transfer, is_fake_access, read_loop, reset_file_access_count,
}
use workload.Store.Access.Counts.{IsConserved, file_access-IsConserved}
use workload.Store.Access.Ranked.{IsRankedStore, file_access-IsRankedStore}
use workload.Store.Access.Planned.{IsPlanned, file_access-IsPlanned}
use workload.Store.Access.Reset.{Zeroed, reset-Zeroed}
use workload.Store.Assign.{assign_file_to_disk, file_relocate}
use workload.Store.Assign.Chains.{IsLinked}
use workload.Store.Assign.Chains.Move.{lists_after, assign_file_to_disk-IsLinked}
use workload.Store.Assign.Relocation.{file_relocate-destination, file_relocate-IsLinked}
use workload.Tests.Sample.{
  sample, access_io, move_io, members, sample-IsLinked, sample-IsConserved, sample-IsRankedStore,
}

file_access-IsRankedStore_example : IsRankedStore (file_access access_io 1 sample).1
file_access-IsRankedStore_example =
    file_access-IsRankedStore access_io 1 sample sample-IsRankedStore (omega arith) (omega arith)

file_access-IsConserved_example : IsConserved (file_access access_io 1 sample).1
file_access-IsConserved_example = file_access-IsConserved access_io 1 sample sample-IsConserved refl

file_access-IsPlanned_example : IsPlanned (file_access access_io 1 sample).1 0
unfolding file_access access_on transfer is_fake_access read_loop
file_access-IsPlanned_example =
    file_access-IsPlanned access_io 1 0 sample sample-IsRankedStore (omega arith) (omega arith)
      (omega arith) refl

assign_file_to_disk-IsLinked_example :
    IsLinked
      (assign_file_to_disk move_io 1 1 sample).1
      (lists_after (assign_file_to_disk move_io 1 1 sample).0 members 1 (some 0) 1)
assign_file_to_disk-IsLinked_example =
    assign_file_to_disk-IsLinked move_io 1 1 sample members sample-IsLinked

file_relocate-destination_example :
    (((file_relocate (λ f. move_io) sample).file 1).assign_disk ≡ some 1)
    × (((file_relocate (λ f. move_io) sample).file 1).reassign_disk ≡ none)
file_relocate-destination_example =
    file_relocate-destination (λ f. move_io) sample 1 (refl, (refl, tt)) refl

file_relocate-IsLinked_example :
    (after : ℕ → List ℕ) × IsLinked (file_relocate (λ f. move_io) sample) after
file_relocate-IsLinked_example =
    file_relocate-IsLinked (λ f. move_io) sample members sample-IsLinked

reset-Zeroed_example :
    Zeroed (0 ∷ 1 ∷ []) sample (reset_file_access_count sample)
    × ((reset_file_access_count sample).read_count ≡ 0)
    × ((reset_file_access_count sample).write_count ≡ 0)
reset-Zeroed_example = reset-Zeroed sample
