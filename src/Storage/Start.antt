-- ===== src/Storage/Start.antt =====
-- source/workload_config.c: the start of the disk threads, from the reset of the counters to the end of
-- the loop that waits for them.
use workload.Prelude.{
  ℕ, ◌+◌, ◌<◌, ◌≤◌, ◌≡◌, ◌∙◌, refl, sym, ap, subst, arith, Bool, true, false, ◌||◌, some, List, [],
  ◌∷◌, ◌++◌, Bool-cases, inl, inr, contains, length, ltb, u64,
}
use workload.Prelude.Sums.{IsDistinct}
use workload.Store.Types.{Workload}
use workload.Store.Assign.Chains.{IsLinked, SameAssign-IsLinked}
use workload.Control.System.{IsSound}
use workload.Setup.Places.{
  gather, gather_owner, gather-apart, gather_listed, length_bound, contains-append,
}
use workload.Storage.{
  Steps, files_of, lay_file, lay_files, LayIo, count_ready, disk_service, disk_services, started,
  start_disks, wait_round,
}
use workload.Storage.Counted.{lay_file-Counted}
use workload.Storage.Laid.{
  Laid, same-Laid, and_files, Fresh, contains-Fresh, lay_files-Laid, start-Laid, laid-IsSound,
}
use workload.Storage.Walk.{IsGood, on_disk, disk_service-lay_files}

-- `n` threads more are ready in `v`, and no more have failed.
record Readied (n : ℕ) (w v : Workload) : Type 0 where
  ready : v.disk_ready_count ≡ u64 (w.disk_ready_count + n)
  errors : v.disk_error_count ≡ w.disk_error_count
  disks : v.disk_count ≡ w.disk_count

recount-Laid :
    (p : ℕ → Bool) (w v : Workload) (r e : ℕ)
    → Laid p w v
    → Laid p w (record v { disk_ready_count = r; disk_error_count = e })
recount-Laid p w v r e l = record {
  writes = l.writes;
  reads = l.reads;
  conserved = record {
    distinct = l.conserved.distinct;
    reads = l.conserved.reads;
    writes = l.conserved.writes;
  };
  index = l.index;
  files = l.files;
  size = l.size;
  sorted = l.sorted;
  nexts = l.nexts;
  array = l.array;
  assign = record {
    prev = l.assign.prev;
    next = l.assign.next;
    assigned = l.assign.assigned;
    head = l.assign.head;
    count = l.assign.count;
  };
}

lay_files-counters :
    (steps : Steps) (w : Workload)
    → ((lay_files steps w).disk_ready_count ≡ w.disk_ready_count)
      × ((lay_files steps w).disk_error_count ≡ w.disk_error_count)
      × ((lay_files steps w).disk_count ≡ w.disk_count)
unfolding lay_files
lay_files-counters [] w = (refl, refl, refl)
lay_files-counters ((f, d) ∷ steps) w =
    let c = lay_file-Counted f d w in
    let rest = lay_files-counters steps (lay_file f d w) in
    (rest.0 ∙ c.ready, rest.1 ∙ c.errors, rest.2 ∙ c.disks)

files_of-on_disk : (d : ℕ) (fs : List ℕ) → files_of (on_disk d fs) ≡ fs
files_of-on_disk d [] = refl
files_of-on_disk d (f ∷ fs) = ap (λ xs. f ∷ xs) (files_of-on_disk d fs)

module _ (io : ℕ → LayIo) (good : (d : ℕ) → IsGood (io d)) (w : Workload) (members : ℕ → List ℕ)
    (l : IsLinked w members) (known : (x : ℕ) → contains x w.file_head ≡ ltb x w.file_count)
    (below : (x d : ℕ) → (w.file x).assign_disk ≡ some d → x < w.file_count) where
  service_walks :
      (p : ℕ → Bool) (v : Workload) (d : ℕ)
      → Laid p w v
      → disk_service (io d) d v ≡ count_ready (lay_files (on_disk d (members d)) v)
  service_walks p v d a =
      let bound =
        length_bound w.file_count (members d) (l.distinct d) (λ x h. below x d (l.owned d x h)) in
      disk_service-lay_files (io d) d (members d) v (good d) (omega (arith, bound, a.size))
        ((SameAssign-IsLinked w v members a.assign l).chain d)

  service-Laid :
      (p : ℕ → Bool) (v : Workload) (d : ℕ)
      → Laid p w v
      → ((x : ℕ) → contains x (members d) ≡ true → p x ≡ false)
      → Laid (and_files (members d) p) w (disk_service (io d) d v)
  unfolding count_ready
  service-Laid p v d a new =
      let steps = on_disk d (members d) in
      let u = lay_files steps v in
      let fresh : Fresh p w (members d) =
        contains-Fresh w (members d) p (l.distinct d)
          (λ x h. (new x h, ground (arith, known x, below x d (l.owned d x h)))) in
      let laid = lay_files-Laid steps p w v (rw (files_of-on_disk d (members d)) fresh) a in
      rw (service_walks p v d a) (
        recount-Laid (and_files (members d) p) w u (u64 (u.disk_ready_count + 1)) u.disk_error_count
          (subst (λ xs. Laid (and_files xs p) w u) (files_of-on_disk d (members d)) laid))

  service-Readied :
      (p : ℕ → Bool) (v : Workload) (d : ℕ) → Laid p w v → Readied 1 v (disk_service (io d) d v)
  unfolding count_ready
  service-Readied p v d a =
      let c = lay_files-counters (on_disk d (members d)) v in
      rw (service_walks p v d a)
        (record { ready = ap (λ n. u64 (n + 1)) c.0; errors = c.1; disks = c.2 })

  services-Laid :
      (ds : List ℕ) (p : ℕ → Bool) (v : Workload)
      → IsDistinct ds
      → v.disk_ready_count < 18446744073709551616
      → Laid p w v
      → ((x : ℕ) → contains x (gather members ds) ≡ true → p x ≡ false)
      → Laid (and_files (gather members ds) p) w (disk_services io ds v)
        × Readied (length ds) v (disk_services io ds v)
  unfolding disk_services
  services-Laid [] p v dist small a new =
      (a, record { ready = omega (arith, small); errors = refl; disks = refl })
  services-Laid (d ∷ ds) p v (fresh, dist) small a new =
      let u = disk_service (io d) d v in
      let split : (x : ℕ)
          → contains x (members d ++ gather members ds)
            ≡ (contains x (members d) || contains x (gather members ds)) =
        λ x. contains-append x (members d) (gather members ds) in
      let one = service-Laid p v d a (λ x h. new x (ground (arith, split x))) in
      let r = service-Readied p v d a in
      let apart : (x : ℕ)
          → contains x (gather members ds) ≡ true
          → and_files (members d) p x ≡ false =
        λ x h. elim (Bool-cases (contains x (members d))) [
          | inl inside ↦ absurd (ground (arith, gather-apart w members l ds d fresh x inside))
          | inr outside ↦ ground (arith, new x, split x)
        ] in
      let (rest, rs) =
        services-Laid ds (and_files (members d) p) u dist (omega (arith, r.ready)) one apart in
      (
        same-Laid _ _ w _ (λ x. ground (arith, split x)) rest,
        record {
          ready = omega (arith, rs.ready, r.ready);
          errors = rs.errors ∙ r.errors;
          disks = rs.disks ∙ r.disks;
        },
      )

wait_round-started :
    (v : Workload)
    → v.disk_error_count ≡ 0
    → v.disk_count ≤ v.disk_ready_count
    → wait_round v ≡ started
unfolding wait_round
wait_round-started v errors ready = ground arith

-- The lists of the disks hold every file.
gather_all :
    (w : Workload) (members : ℕ → List ℕ)
    → IsLinked w members
    → ((x d : ℕ) → (w.file x).assign_disk ≡ some d → x < w.file_count)
    → ((x : ℕ)
        → x < w.file_count
        → (d : ℕ) × ((w.file x).assign_disk ≡ some d) × (contains d w.disk_array ≡ true))
    → (x : ℕ) → contains x (gather members w.disk_array) ≡ ltb x w.file_count
gather_all w members l below placed x = elim (Bool-cases (ltb x w.file_count)) [
  | inl known ↦
      let (d, on, stands) = placed x (ground arith) in
      gather_listed w members l w.disk_array d x stands (l.listed d x on) ∙ sym known
  | inr unknown ↦ elim (Bool-cases (contains x (gather members w.disk_array))) [
    | inl inside ↦
        let (d, stands, on) = gather_owner w members l w.disk_array x inside in
        let h = below x d on in absurd (ground arith)
    | inr outside ↦ outside ∙ sym unknown
  ]
]

pub start_disks-IsSound :
    (io : ℕ → LayIo) (w : Workload)
    → ((d : ℕ) → IsGood (io d))
    → IsSound 0 w
    → IsDistinct w.disk_array
    → w.disk_count ≡ length w.disk_array
    → w.disk_count < 18446744073709551616
    → ((x d : ℕ) → (w.file x).assign_disk ≡ some d → x < w.file_count)
    → ((x : ℕ)
        → x < w.file_count
        → (d : ℕ) × ((w.file x).assign_disk ≡ some d) × (contains d w.disk_array ≡ true))
    → ((start_disks io w).0 ≡ started) × IsSound 1 (start_disks io w).1
unfolding start_disks wait_round
start_disks-IsSound io w good s dist size small below placed =
    let (members, l) = s.linked in
    let v0 = record w { disk_ready_count = 0; disk_error_count = 0 } in
    let (laid, r) =
      services-Laid io good w members l s.known below w.disk_array (λ x. false) v0 dist
        (omega arith) (recount-Laid (λ x. false) w w 0 0 (start-Laid w s)) (λ x h. refl) in
    let v = disk_services io w.disk_array v0 in
    (
      wait_round-started v r.errors (omega (arith, r.ready, r.disks)),
      laid-IsSound (and_files (gather members w.disk_array) (λ x. false)) w v s laid
          (λ x. let here = gather_all w members l below placed x in ground (arith, here)),
    )
