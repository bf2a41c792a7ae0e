-- ===== src/Store/Access/Ranked.antt =====
-- source/workload_access.c: an access keeps `m_file_sorted` in order, and names for each place the disk
-- to move to.
use workload.Prelude.{
  ℕ, suc, ◌+◌, ◌≤◌, ◌<◌, ◌≡◌, refl, ◌∙◌, ap, arith, Bool, true, false, Option, none, some, List,
  get_or,
}
use workload.Store.Types.{File, Workload, access_count}
use workload.Store.Db.{update_db}
use workload.Store.Db.Frame.{SameButDb, update_db-Keeps}
use workload.Store.Ranking.{Ranked}
use workload.Store.Ranking.Places.{IsIndexed}
use workload.Store.Ranking.Order.{
  IsRanked, key, Grown, sort_index-IsRanked, sort_index_grown-IsIndexed,
}
use workload.Store.Ranking.Targets.{bucket, retarget, AllBelow, mark_disks_file}
use workload.Store.Access.{
  AccessIo, Delta, bit, count_access, sort_files, retarget_by, retarget_files, note_access,
  access_on, file_access, transfer,
}

abbrev pub ranking : Workload → Ranked
ranking w = record { file = w.file; sorted = w.file_sorted }

abbrev pub NextsBelow : ℕ → Option (List ℕ) → Type 0
NextsBelow n none = Unit {0}
NextsBelow n (some nexts) = AllBelow n nexts

-- `m_index` and `m_file_sorted` are inverse to one another, the array is in order, and
-- `m_next_file_index` stays within it.
pub record IsRankedStore (w : Workload) : Type 0 where
  pub indexed : IsIndexed w.file_count (ranking w)
  pub ranked : IsRanked w.file_count (ranking w)
  pub nexts : NextsBelow w.file_count w.next_file_index

-- There is room for one more access in the counters of a file.
abbrev pub HasRoom : File → Type 0
HasRoom f = f.read_count + f.write_count + 2 < 18446744073709551616

bit_le : (b : Bool) → bit b ≤ 1
bit_le true = omega arith
bit_le false = omega arith

module _ (delta : Delta) (f d : ℕ) (w : Workload) (room : HasRoom (w.file f)) where
  count_access-Grown : Grown f (ranking w) (ranking (count_access delta f d w))
  unfolding count_access
  count_access-Grown = record {
    sorted = refl;
    index = λ x. ground arith;
    others = λ x ne. ground arith;
    more = ground (arith, bit_le delta.read, bit_le delta.write);
  }

-- What the order depends on is the same in `v`.
pub record SameRanking (w v : Workload) : Type 0 where
  pub size : v.file_count ≡ w.file_count
  pub sorted : v.file_sorted ≡ w.file_sorted
  pub nexts : v.next_file_index ≡ w.next_file_index
  pub index : (x : ℕ) → x < w.file_count → (v.file x).index ≡ (w.file x).index
  pub count : (x : ℕ) → x < w.file_count → access_count (v.file x) ≡ access_count (w.file x)

module _ (w v : Workload) (same : SameRanking w v) (r : IsRankedStore w) where
  same_key : (j : ℕ) → j < w.file_count → key (ranking v) j ≡ key (ranking w) j
  same_key j hj = rw same.sorted (same.count (get_or w.file_sorted j 0) (r.indexed.known j hj))

  pub SameRanking-IsRankedStore : IsRankedStore v
  SameRanking-IsRankedStore = record {
    indexed = record {
      size = rw (same.sorted, same.size) r.indexed.size;
      place = λ i hi.
          let hi' : i < w.file_count = rw same.size at hi in
          rw same.sorted
            (same.index (get_or w.file_sorted i 0) (r.indexed.known i hi') ∙ r.indexed.place i hi');
      known = λ i hi. rw (same.sorted, same.size) (r.indexed.known i (rw same.size at hi));
      stands = λ x hx.
          let hx' : x < w.file_count = rw same.size at hx in
          rw (same.sorted, same.index x hx') (r.indexed.stands x hx');
      inside = λ x hx.
          let hx' : x < w.file_count = rw same.size at hx in
          rw (same.index x hx', same.size) (r.indexed.inside x hx');
    };
    ranked = λ j hj.
        let hj' : suc j < w.file_count = rw same.size at hj in
        rw (same_key j (omega arith), same_key (suc j) hj') (r.ranked j hj');
    nexts = rw (same.size, same.nexts) r.nexts;
  }

module _ (delta : Delta) (f d : ℕ) (w : Workload) (v : IsRankedStore w) (hf : f < w.file_count)
    (room : HasRoom (w.file f)) where
  pub sort_files-IsRankedStore : IsRankedStore (sort_files f (count_access delta f d w))
  unfolding sort_files count_access
  sort_files-IsRankedStore =
      let g = count_access-Grown delta f d w room in
      record {
        indexed =
            sort_index_grown-IsIndexed w.file_count f (ranking w)
              (ranking (count_access delta f d w)) v.indexed hf g;
        ranked =
            sort_index-IsRanked w.file_count f (ranking w) (ranking (count_access delta f d w))
              v.indexed hf g v.ranked;
        nexts = v.nexts;
      }

abbrev pub planned : Workload → Option (List ℕ) → ℕ → Option ℕ
planned w none p = none
planned w (some nexts) p = bucket w.disk_array nexts p

pub retarget_by_file :
    (nexts : Option (List ℕ)) (w : Workload) (x : ℕ)
    → IsIndexed w.file_count (ranking w)
    → NextsBelow w.file_count nexts
    → x < w.file_count
    → (retarget_by nexts w).file x ≡ retarget (planned w nexts (w.file x).index) (w.file x)
unfolding retarget_by
retarget_by_file none w x v b hx = refl
retarget_by_file (some nexts) w x v b hx = ground (
  arith,
  mark_disks_file w.file_count w.file_sorted w.disk_array nexts 0 w.file x v b (omega arith) hx,
)

pub retarget_by_rest :
    (nexts : Option (List ℕ)) (w : Workload)
    → retarget_by nexts w ≡ record w { file = (retarget_by nexts w).file }
unfolding retarget_by
retarget_by_rest none w = refl
retarget_by_rest (some nexts) w = refl

pub retarget_places :
    (o : Option ℕ) (f : File)
    → ((retarget o f).index ≡ f.index) × (access_count (retarget o f) ≡ access_count f)
retarget_places none f = (refl, refl)
retarget_places (some d) f = (refl, refl)

retarget_files-SameRanking : (w : Workload) → IsRankedStore w → SameRanking w (retarget_files w)
unfolding retarget_files
retarget_files-SameRanking w v =
    let e = retarget_by_rest w.next_file_index w in
    record {
      size = ap (λ (u : Workload). u.file_count) e;
      sorted = ap (λ (u : Workload). u.file_sorted) e;
      nexts = ap (λ (u : Workload). u.next_file_index) e;
      index = λ x hx.
          rw (retarget_by_file w.next_file_index w x v.indexed v.nexts hx)
            (retarget_places (planned w w.next_file_index (w.file x).index) (w.file x)).0;
      count = λ x hx.
          rw (retarget_by_file w.next_file_index w x v.indexed v.nexts hx)
            (retarget_places (planned w w.next_file_index (w.file x).index) (w.file x)).1;
    }

-- The database code does not touch the order.
pub SameButDb-SameRanking : (w v : Workload) → SameButDb w v → SameRanking w v
SameButDb-SameRanking w v s = record {
  size = ap (λ (u : Workload). u.file_count) s.rest;
  sorted = ap (λ (u : Workload). u.file_sorted) s.rest;
  nexts = ap (λ (u : Workload). u.next_file_index) s.rest;
  index = λ x hx. ap (λ (f : File). f.index) (s.file x);
  count = λ x hx. ap access_count (s.file x);
}

pub note_access-IsRankedStore :
    (delta : Delta) (f d : ℕ) (w : Workload)
    → IsRankedStore w
    → f < w.file_count
    → HasRoom (w.file f)
    → IsRankedStore (note_access delta f d w)
unfolding note_access
note_access-IsRankedStore delta f d w v hf room =
    let s = sort_files f (count_access delta f d w) in
    let sorted = sort_files-IsRankedStore delta f d w v hf room in
    let t = retarget_files s in
    let marked = SameRanking-IsRankedStore s t (retarget_files-SameRanking s sorted) sorted in
    SameRanking-IsRankedStore t (update_db f (some d) t).1
      (SameButDb-SameRanking t (update_db f (some d) t).1 (update_db-Keeps f (some d) t)) marked

access_on-IsRankedStore :
    (a : Option ℕ) (io : AccessIo) (f : ℕ) (w : Workload)
    → IsRankedStore w
    → f < w.file_count
    → HasRoom (w.file f)
    → IsRankedStore (access_on a io f w).1
unfolding access_on
access_on-IsRankedStore none io f w v hf room = v
access_on-IsRankedStore (some d) io f w v hf room =
    ground (arith, note_access-IsRankedStore (transfer io d w) f d w v hf room)

-- An access keeps the places and `m_index` inverse to one another and the files in the order of
-- falling access counts, whatever the calls out of it answer, if the counters of the file accessed
-- have room for one more access.
pub file_access-IsRankedStore :
    (io : AccessIo) (f : ℕ) (w : Workload)
    → IsRankedStore w
    → f < w.file_count
    → HasRoom (w.file f)
    → IsRankedStore (file_access io f w).1
unfolding file_access
file_access-IsRankedStore io f w v hf room =
    access_on-IsRankedStore (w.file f).assign_disk io f w v hf room
