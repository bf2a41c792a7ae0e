-- ===== src/Store/Assign/New.antt =====
-- source/workload_file.c: a file that is on no disk yet can always be assigned.
use workload.Prelude.{ℕ, ◌≡◌, ◌∙◌, refl, ap, arith, true, false, Option, none, some}
use workload.Store.Types.{File, Workload}
use workload.Store.Db.Frame.{update_db-Keeps}
use workload.Store.Assign.{
  MoveIo, set_created, move_from, move_assign_file, link_files, link, stamp_disk, stamp_file,
  assign_file_to_disk,
}

-- Only the heaps and the database change, and no file gets another number.
pub record Heaps (w v : Workload) : Type 0 where
  pub rest : v ≡ record w { db = v.db; file = v.file; disk = v.disk }
  pub ids : (x : ℕ) → (v.file x).id ≡ (w.file x).id

link_files_id :
    (f d : ℕ) (head : Option ℕ) (file : ℕ → File) (x : ℕ)
    → (link_files f d head file x).id ≡ (file x).id
unfolding link_files
link_files_id f d none file x = ground arith
link_files_id f d (some y) file x = ground arith

abbrev settled : (f d : ℕ) → Workload → Workload
unfolding stamp_disk stamp_file
settled f d w =
    stamp_disk (some d) (stamp_file f (stamp_disk none (link f d (set_created f false w))))

settled-Heaps : (f d : ℕ) (w : Workload) → Heaps w (settled f d w)
unfolding stamp_disk stamp_file link settled
settled-Heaps f d w =
    let c = set_created f false w in
    record {
      rest = refl;
      ids = λ x. ground (arith, link_files_id f d (w.disk d).assign_file c.file x);
    }

pub assign_new :
    (io : MoveIo) (f d : ℕ) (w : Workload)
    → (w.file f).assign_disk ≡ none
    → ((assign_file_to_disk io f d w).0 ≡ true) × Heaps w (assign_file_to_disk io f d w).1
unfolding assign_file_to_disk move_assign_file move_from settled link
assign_new io f d w free =
    let e = settled f d w in
    let s = update_db-Keeps f none e in
    let h = settled-Heaps f d w in
    rw free
      (refl, record { rest = s.rest; ids = λ x. ap (λ (g : File). g.id) (s.file x) ∙ h.ids x })
