-- ===== src/Store/Assign/Chains/Unlink.antt =====
-- source/workload_file.c: a file is taken out of the list of its disk, and the lists of all disks agree
-- again.
use workload.Prelude.{
  ℕ, ◌+◌, ◌≡◌, ◌≢◌, refl, sym, ◌∙◌, arith, true, false, Bool-cases, inl, inr, none, some, List,
  ◌==◌, if◌then◌else◌, contains, is_null, length, u64,
}
use workload.Prelude.Sums.{IsDistinct}
use workload.Store.Types.{File, Disk, Workload, update}
use workload.Store.Assign.{unlink_files}
use workload.Store.Assign.Lists.Unlink.{
  unlink-Chain, unlink_rest, prev_inside, next_inside, first_iff,
}
use workload.Store.Assign.Lists.{
  Chain, remove, Chain_frame, contains-remove, ne_of_contains, remove-IsDistinct, length-remove,
}
use workload.Store.Assign.Chains.{IsLinked, elsewhere, at_update, without}

-- What unlinking changes of the disk, and of the workload.
abbrev pub less : ℕ → ℕ → Workload → Disk
less f d w = record (w.disk d) {
  assign_file =
      if is_null (w.file f).assign_prev then (w.file f).assign_next else (w.disk d).assign_file;
  assign_file_count = u64 ((w.disk d).assign_file_count + 18446744073709551615);
}

abbrev pub unlinked : ℕ → ℕ → Workload → Workload
unlinked f d w = record w { file = unlink_files f w.file; disk = update w.disk d (less f d w) }

pub unlink_assigned :
    (f x : ℕ) (file : ℕ → File)
    → (unlink_files f file x).assign_disk ≡ (if f == x then none else (file x).assign_disk)
unfolding unlink_files
unlink_assigned f x file = ground arith

module _ (f d : ℕ) (w : Workload) (members : ℕ → List ℕ) (l : IsLinked w members)
    (at : (w.file f).assign_disk ≡ some d) where
  inside : contains f (members d) ≡ true
  inside = l.listed d f at

  own_chain :
      Chain
        (unlink_files f w.file)
        none
        (if is_null (w.file f).assign_prev then (w.file f).assign_next else (w.disk d).assign_file)
        (remove f (members d))
  own_chain = rw (first_iff f w.file (w.disk d).assign_file (members d) (l.chain d) inside) (
      unlink-Chain f w.file none (w.disk d).assign_file (members d) (l.chain d) inside
        (l.distinct d) (λ y h. refl))

  other_chain :
      (e : ℕ) → e ≢ d → Chain (unlink_files f w.file) none (w.disk e).assign_file (members e)
  other_chain e ne =
      Chain_frame w.file (unlink_files f w.file) none (w.disk e).assign_file (members e) kept
        (l.chain e)
    where
      apart : (y : ℕ) → contains y (members d) ≡ false → y ≢ f
      apart y out k = ne_of_contains f y (members d) inside out (sym k)

      kept :
          (y : ℕ)
          → contains y (members e) ≡ true
          → ((unlink_files f w.file y).assign_prev ≡ (w.file y).assign_prev)
            × ((unlink_files f w.file y).assign_next ≡ (w.file y).assign_next)
      kept y h =
          let out = elsewhere w members l d e y ne h in
          let (rp, rn) = unlink_rest f w.file y (λ k. apart y out k) in
          (
            rp
                ∙ rw
                    (next_inside f w.file y none (w.disk d).assign_file (members d) (l.chain d)
                      inside out)
                    refl,
            rn
                ∙ rw
                    (prev_inside f w.file y none (w.disk d).assign_file (members d) (l.chain d)
                      inside refl out)
                    refl,
          )

  IsDistinct-unlinked : (e : ℕ) → IsDistinct (without members f d e)
  IsDistinct-unlinked e = elim (Bool-cases (d == e)) [
    | inl same ↦ rw same (remove-IsDistinct f (members d) (l.distinct d))
    | inr other ↦ rw other (l.distinct e)
  ]

  contains-without :
      (e x : ℕ)
      → contains x (without members f d e) ≡ (
          if d == e
          then (if x == f then false else contains x (members d))
          else contains x (members e))
  contains-without e x = ground (arith, contains-remove f x (members d) (l.distinct d))

  pub unlinked-IsLinked : IsLinked (unlinked f d w) (without members f d)
  unlinked-IsLinked = record {
    chain =
        at_update (λ p ms. Chain (unlink_files f w.file) none p.assign_file ms) d (less f d w)
          (remove f (members d)) w.disk members own_chain other_chain;
    count =
        at_update (λ p ms. p.assign_file_count ≡ u64 (length ms)) d (less f d w)
          (remove f (members d)) w.disk members
          (omega (arith, l.count d, length-remove f (members d) inside)) (λ e ne. l.count e);
    distinct = IsDistinct-unlinked;
    owned = λ e x h.
        ground (arith, unlink_assigned f x w.file, contains-without e x, l.owned e x, l.owned d x);
    listed =
        λ e x h. ground (arith, unlink_assigned f x w.file, contains-without e x, l.listed e x);
  }
