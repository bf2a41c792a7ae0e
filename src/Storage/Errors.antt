-- ===== src/Storage/Errors.antt =====
-- source/workload_storage.c: the count of the threads that failed only grows, and the loading sees it.
use workload.Prelude.{
  ℕ, zero, suc, ◌+◌, ◌<◌, ◌≤◌, ◌≡◌, sym, subst, arith, true, false, Option, none, some, List, [],
  ◌∷◌, Bool-cases, inl, inr, ◌==◌, ==_iff, contains,
}
use workload.Store.Types.{Workload}
use workload.Storage.{
  lay_file, LayIo, count_ready, disk_service, disk_services, count_error, lay_loop, failed,
  start_disks, wait_round,
}
use workload.Storage.Counted.{lay_file-Counted}

lay_file-errors : (f d : ℕ) (w : Workload) → (lay_file f d w).disk_error_count ≡ w.disk_error_count
lay_file-errors f d w = (lay_file-Counted f d w).errors

lay_loop-errors :
    (fuel : ℕ) (io : LayIo) (d : ℕ) (at : Option ℕ) (w : Workload)
    → w.disk_error_count ≤ (lay_loop fuel io d at w).disk_error_count
unfolding lay_loop count_error
lay_loop-errors zero io d at w = omega arith
lay_loop-errors (suc fuel) io d none w = omega arith
lay_loop-errors (suc fuel) io d (some f) w =
    let v = lay_file f d w in
    let h = lay_loop-errors fuel io d (v.file f).assign_next v in
    ground (arith, h, lay_file-errors f d w)

disk_service-errors :
    (io : LayIo) (d : ℕ) (w : Workload)
    → w.disk_error_count ≤ (disk_service io d w).disk_error_count
unfolding disk_service count_error count_ready
disk_service-errors io d w =
    let h = lay_loop-errors w.file_count io d (w.disk d).assign_file w in ground (arith, h)

disk_service_lost :
    (io : LayIo) (d : ℕ) (w : Workload)
    → io.path ≡ false
    → (disk_service io d w).disk_error_count ≡ w.disk_error_count + 1
unfolding disk_service count_error count_ready
disk_service_lost io d w bad = ground arith

disk_services-errors :
    (io : ℕ → LayIo) (ds : List ℕ) (w : Workload)
    → w.disk_error_count ≤ (disk_services io ds w).disk_error_count
unfolding disk_services
disk_services-errors io [] w = omega arith
disk_services-errors io (d ∷ ds) w =
    let u = disk_service (io d) d w in
    omega (arith, disk_service-errors (io d) d w, disk_services-errors io ds u)

no_path-errors :
    (io : ℕ → LayIo) (d : ℕ) (ds : List ℕ) (w : Workload)
    → contains d ds ≡ true
    → (io d).path ≡ false
    → 0 < (disk_services io ds w).disk_error_count
unfolding disk_services
no_path-errors io d [] w h bad = absurd (cc)
no_path-errors io d (e ∷ ds) w h bad =
    let u = disk_service (io e) e w in
    elim (Bool-cases (e == d)) [
      | inl here ↦
          let lost = subst (λ c. (io c).path ≡ false) (sym ((==_iff e d).0 here)) bad in
          omega (arith, disk_service_lost (io e) e w lost, disk_services-errors io ds u)
      | inr other ↦ no_path-errors io d ds u (ground arith) bad
    ]

wait_round-failed : (v : Workload) → 0 < v.disk_error_count → wait_round v ≡ failed
unfolding wait_round
wait_round-failed v errors = ground arith

-- If the path of one of the disks is not there and cannot be made, the loading fails, whatever the other
-- threads do.
pub start_disks-failed :
    (io : ℕ → LayIo) (d : ℕ) (w : Workload)
    → contains d w.disk_array ≡ true
    → (io d).path ≡ false
    → (start_disks io w).0 ≡ failed
unfolding start_disks
start_disks-failed io d w h bad =
    let v0 = record w { disk_ready_count = 0; disk_error_count = 0 } in
    wait_round-failed (disk_services io w.disk_array v0) (no_path-errors io d w.disk_array v0 h bad)
