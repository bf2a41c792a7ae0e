-- ===== src/Store/Access/Planned.antt =====
-- source/workload_access.c: the disks that the files are to move to after an access.
use workload.Prelude.{
  ℕ, ◌<◌, ◌≡◌, refl, sym, ◌∙◌, ap, arith, true, Option, none, some, List, if◌then◌else◌, points_to,
}
use workload.Prelude.Int.{is_pos}
use workload.Store.Types.{File, Workload}
use workload.Store.Db.{update_db}
use workload.Store.Db.Frame.{SameButDb, update_db-Keeps}
use workload.Store.Ranking.Targets.{bucket, retarget, retarget_target, retarget_kept}
use workload.Store.Access.{
  AccessIo, Delta, count_access, sort_files, retarget_by, retarget_files, note_access, access_on,
  file_access, transfer,
}
use workload.Store.Access.Ranked.{
  IsRankedStore, HasRoom, planned, retarget_by_file, retarget_by_rest, sort_files-IsRankedStore,
}

-- A file whose place belongs to a disk is to move there, and nowhere if it is there.
abbrev pub IsPlanned : Workload → ℕ → Type 0
IsPlanned w x =
    (d : ℕ)
    → planned w w.next_file_index (w.file x).index ≡ some d
    → (w.file x).reassign_disk ≡ (if points_to (w.file x).assign_disk d then none else some d)

planned_same :
    (w v : Workload) (n m : Option (List ℕ)) (p q : ℕ)
    → v.disk_array ≡ w.disk_array
    → m ≡ n
    → q ≡ p
    → planned v m q ≡ planned w n p
planned_same w v n m p q d e k = rw (e, k) (same n)
  where
    same : (n : Option (List ℕ)) → planned v n p ≡ planned w n p
    same none = refl
    same (some nexts) = ap (λ (ds : List ℕ). bucket ds nexts p) d

module _ (w : Workload) (x : ℕ) (r : IsRankedStore w) (hx : x < w.file_count) where
  abbrev n : Option (List ℕ)
  n = w.next_file_index

  abbrev o : Option ℕ
  o = planned w n (w.file x).index

  retarget_file : (retarget_by n w).file x ≡ retarget o (w.file x)
  retarget_file = retarget_by_file n w x r.indexed r.nexts hx

  retarget_files-IsPlanned : IsPlanned (retarget_files w) x
  unfolding retarget_files
  retarget_files-IsPlanned d h =
      let e = retarget_by_rest n w in
      let kept = retarget_kept o (w.file x) in
      let at : o ≡ some d =
        sym (
          planned_same w (retarget_by n w) n (retarget_by n w).next_file_index (w.file x).index
            ((retarget_by n w).file x).index (ap (λ (u : Workload). u.disk_array) e)
            (ap (λ (u : Workload). u.next_file_index) e)
            (ap (λ (g : File). g.index) retarget_file ∙ kept.0))
        ∙ h in
      rw retarget_file (rw kept.1 (retarget_target o (w.file x) d at))

-- The database code leaves the plan alone.
SameButDb-IsPlanned : (w v : Workload) (x : ℕ) → SameButDb w v → IsPlanned w x → IsPlanned v x
SameButDb-IsPlanned w v x s p d h =
    let at =
      sym (
        planned_same w v w.next_file_index v.next_file_index (w.file x).index (v.file x).index
          (ap (λ (u : Workload). u.disk_array) s.rest)
          (ap (λ (u : Workload). u.next_file_index) s.rest) (ap (λ (g : File). g.index) (s.file x)))
      ∙ h in
    rw (ap (λ (g : File). g.reassign_disk) (s.file x), ap (λ (g : File). g.assign_disk) (s.file x))
      (p d at)

size :
    (delta : Delta) (f d : ℕ) (w : Workload)
    → (sort_files f (count_access delta f d w)).file_count ≡ w.file_count
unfolding sort_files count_access
size delta f d w = refl

note_access-IsPlanned :
    (delta : Delta) (f d x : ℕ) (w : Workload)
    → IsRankedStore w
    → f < w.file_count
    → HasRoom (w.file f)
    → x < w.file_count
    → IsPlanned (note_access delta f d w) x
unfolding note_access
note_access-IsPlanned delta f d x w r hf room hx =
    let s = sort_files f (count_access delta f d w) in
    let sorted = sort_files-IsRankedStore delta f d w r hf room in
    let t = retarget_files s in
    SameButDb-IsPlanned t (update_db f (some d) t).1 x (update_db-Keeps f (some d) t)
      (retarget_files-IsPlanned s x sorted (rw (size delta f d w) hx))

access_on-IsPlanned :
    (a : Option ℕ) (io : AccessIo) (f x : ℕ) (w : Workload)
    → IsRankedStore w
    → f < w.file_count
    → HasRoom (w.file f)
    → x < w.file_count
    → is_pos (access_on a io f w).0 ≡ true
    → IsPlanned (access_on a io f w).1 x
unfolding access_on
access_on-IsPlanned none io f x w r hf room hx moved = absurd (cc)
access_on-IsPlanned (some d) io f x w r hf room hx moved =
    ground (arith, note_access-IsPlanned (transfer io d w) f d x w r hf room hx)

-- After an access that moved data, each file whose place in the order belongs to a disk is to move to
-- that disk, or to none if it is there; the first disk has the first places, and so on.
pub file_access-IsPlanned :
    (io : AccessIo) (f x : ℕ) (w : Workload)
    → IsRankedStore w
    → f < w.file_count
    → HasRoom (w.file f)
    → x < w.file_count
    → is_pos (file_access io f w).0 ≡ true
    → IsPlanned (file_access io f w).1 x
unfolding file_access
file_access-IsPlanned io f x w r hf room hx moved =
    access_on-IsPlanned (w.file f).assign_disk io f x w r hf room hx moved
