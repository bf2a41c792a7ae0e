-- ===== src/Store/Assign/Chains/Link.antt =====
-- source/workload_file.c: a file that no disk has is put in front of the list of a disk, and the lists of
-- all disks agree again.
use workload.Prelude.{
  ℕ, ◌+◌, ◌≡◌, ◌≢◌, arith, true, false, Bool-cases, inl, inr, Option, none, some, List, ◌∷◌, ◌==◌,
  if◌then◌else◌, contains, length, u64,
}
use workload.Store.Types.{File, Disk, Workload}
use workload.Store.Assign.{link_files, link}
use workload.Store.Assign.Lists.Link.{link-Chain, link_rest, first_ne}
use workload.Store.Assign.Lists.{Chain, Chain_frame, ne_of_contains}
use workload.Store.Assign.Chains.{IsLinked, outside, elsewhere, at_update, with_file}

link_assigned :
    (f d x : ℕ) (head : Option ℕ) (file : ℕ → File)
    → (link_files f d head file x).assign_disk ≡ (if f == x then some d else (file x).assign_disk)
unfolding link_files
link_assigned f d x none file = ground arith
link_assigned f d x (some y) file = ground arith

-- What linking changes of the disk.
abbrev more : ℕ → ℕ → Workload → Disk
more f d w = record (w.disk d) {
  assign_file = some f;
  assign_file_count = u64 ((w.disk d).assign_file_count + 1);
}

module _ (f d : ℕ) (w : Workload) (members : ℕ → List ℕ) (l : IsLinked w members)
    (free : (w.file f).assign_disk ≡ none) where
  fresh : (e : ℕ) → contains f (members e) ≡ false
  fresh e = outside w members l e f (λ k. ground arith)

  own_chain : Chain (link_files f d (w.disk d).assign_file w.file) none (some f) (f ∷ members d)
  own_chain =
      link-Chain f d w.file (w.disk d).assign_file (members d) (l.chain d) (fresh d) (l.distinct d)

  other_chain :
      (e : ℕ)
      → e ≢ d
      → Chain (link_files f d (w.disk d).assign_file w.file) none (w.disk e).assign_file (members e)
  other_chain e ne =
      Chain_frame w.file (link_files f d (w.disk d).assign_file w.file) none (w.disk e).assign_file
        (members e)
        (λ y h.
          link_rest f d w.file (w.disk d).assign_file y (ne_of_contains y f (members e) h (fresh e))
            (first_ne y d w.file (w.disk d).assign_file (members d) (l.chain d)
              (elsewhere w members l d e y ne h)))
        (l.chain e)

  contains_with :
      (e x : ℕ)
      → contains x (with_file members f d e) ≡ (
          if d == e
          then (if f == x then true else contains x (members d))
          else contains x (members e))
  contains_with e x = ground arith

  pub link-IsLinked : IsLinked (link f d w) (with_file members f d)
  unfolding link
  link-IsLinked = record {
    chain =
        at_update
          (λ p ms. Chain (link_files f d (w.disk d).assign_file w.file) none p.assign_file ms) d
          (more f d w) (f ∷ members d) w.disk members own_chain other_chain;
    count =
        at_update (λ p ms. p.assign_file_count ≡ u64 (length ms)) d (more f d w) (f ∷ members d)
          w.disk members (omega (arith, l.count d)) (λ e ne. l.count e);
    distinct = λ e. elim (Bool-cases (d == e)) [
      | inl same ↦ rw same (fresh d, l.distinct d)
      | inr other ↦ rw other (l.distinct e)
    ];
    owned = λ e x h. ground (
      arith,
      link_assigned f d x (w.disk d).assign_file w.file,
      contains_with e x,
      l.owned e x,
      l.owned d x,
    );
    listed = λ e x h.
        ground (
          arith,
          link_assigned f d x (w.disk d).assign_file w.file,
          contains_with e x,
          l.listed e x,
        );
  }
