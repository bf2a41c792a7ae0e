-- ===== src/Setup/Complete.antt =====
-- source/workload_config.c: the loop of the assignment puts every file on a disk.
use workload.Prelude.{
  ℕ, zero, suc, ◌+◌, ◌<◌, ◌≤◌, ◌≡◌, ◌∙◌, refl, ap, subst, arith, true, false, none, some, List,
  ◌==◌, if◌then◌else◌, length,
}
use workload.Store.Types.{Cfg, Workload}
use workload.Store.Assign.{assign_file_to_disk}
use workload.Store.Assign.Placement.{assign_file_to_disk-Placed}
use workload.Store.Assign.New.{assign_new}
use workload.Setup.{choose, Round, disk_at, assign_to, assign_files}
use workload.Setup.Seats.{OnDisk, swap, next-Seats}
use workload.Setup.Chosen.{Filling, get_elem?-contains, choose-Chosen}

module _ (c : Cfg) (ds : List ℕ) (n : ℕ) (some_left : 0 < length ds) (enough : n ≤ c.filecount)
    (few : length ds < 4294967296) (few_files : n < 4294967296) (rounds : ℕ → Round)
    (go : (k : ℕ) → (rounds k).broken ≡ false) where
  -- One round, after which one file less is left.
  assign-Filling :
      (left s_id : ℕ) (even : List ℕ) (w : Workload)
      → Filling c ds n (suc left) even w
      → s_id + left ≡ n
      → 1 ≤ s_id
      → let ch = choose s_id (rounds s_id).draw even w in
        let r = assign_to (rounds s_id).move ch.file (disk_at w.disk_array ch.disk_index) w in
        (r.0 ≡ true) × Filling c ds n left ch.even r.1
  unfolding assign_to
  assign-Filling left s_id even w f round first =
      let (seat, s, agrees) = f.seats in
      let draw = (rounds s_id).draw in
      let io = (rounds s_id).move in
      let ch = choose s_id draw even w in
      let k =
        choose-Chosen c ds n left s_id draw even w seat f round first some_left enough few few_files
          agrees in
      let (d, found, known) = get_elem?-contains ds k.slot k.there in
      let at_disk : disk_at w.disk_array ch.disk_index ≡ some d =
        ap (λ xs. disk_at xs ch.disk_index) f.array ∙ ap (disk_at ds) k.index ∙ found in
      let v = (assign_file_to_disk io ch.file d w).1 in
      let free : (w.file ch.file).assign_disk ≡ none = rw k.file (s.idle k.at k.inside) in
      let (done, h) = assign_new io ch.file d w free in
      let p = assign_file_to_disk-Placed io ch.file d w in
      let spec : (x : ℕ)
          → (v.file x).assign_disk ≡ (if seat k.at == x then some d else (w.file x).assign_disk) =
        λ x. ground (arith, p.assigned x, free, k.file) in
      rw at_disk (
        done,
        record {
          size = ap (λ (u : Workload). u.file_count) h.rest ∙ f.size;
          ordered = ap (λ (u : Workload). u.file_ordered) h.rest ∙ f.ordered;
          config = ap (λ (u : Workload). u.cfg) h.rest ∙ f.config;
          array = ap (λ (u : Workload). u.disk_array) h.rest ∙ f.array;
          count = ap (λ (u : Workload). u.disk_count) h.rest ∙ f.count;
          ids = λ x hx. h.ids x ∙ f.ids x hx;
          seats = (
            λ i. seat (swap k.at left i),
            next-Seats ds n left k.at d seat (λ x. (w.file x).assign_disk)
                (λ x. (v.file x).assign_disk) s (omega arith) k.inside known spec,
            k.agrees,
          );
        },
      )

  pub assign_files-Filled :
      (left s_id : ℕ) (even : List ℕ) (w : Workload)
      → Filling c ds n left even w
      → s_id + left ≡ suc n
      → 1 ≤ s_id
      → ((assign_files left s_id rounds even w).0 ≡ true)
        × ((last : List ℕ) × Filling c ds n 0 last (assign_files left s_id rounds even w).1)
  unfolding assign_files
  assign_files-Filled zero s_id even w f round first = (refl, (even, f))
  assign_files-Filled (suc left) s_id even w f round first =
      let ch = choose s_id (rounds s_id).draw even w in
      let (done, next) = assign-Filling left s_id even w f (omega arith) first in
      let v = (assign_to (rounds s_id).move ch.file (disk_at w.disk_array ch.disk_index) w).1 in
      rw (go s_id, done)
        (assign_files-Filled left (suc s_id) ch.even v next (omega arith) (omega arith))

-- When none is left, every file is on one of the disks.
pub all_placed :
    (c : Cfg) (ds : List ℕ) (n : ℕ) (even : List ℕ) (w : Workload)
    → Filling c ds n 0 even w
    → (x : ℕ) → x < n
    → OnDisk ds (w.file x).assign_disk
all_placed c ds n even w f x h =
    let (seat, s, agrees) = f.seats in
    let (i, hi, e) = s.seated x h in
    subst (λ y. OnDisk ds (w.file y).assign_disk) e (s.done i (omega arith) hi)
