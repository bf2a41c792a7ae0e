-- ===== src/Storage/Walk.antt =====
-- source/workload_storage.c: the loop of a thread goes along the list of its disk.
use workload.Prelude.{
  ℕ, zero, suc, ◌≤◌, ◌≡◌, ◌∙◌, refl, ap, arith, true, false, Option, none, some, List, [], ◌∷◌,
  if◌then◌else◌, length,
}
use workload.Store.Types.{Workload}
use workload.Store.Assign.Lists.{Chain, Chain_frame}
use workload.Storage.{
  Steps, lay_files, LayIo, lay_file, lay_loop, count_ready, count_error, disk_service,
}
use workload.Storage.Counted.{lay_file-Counted}

-- No call of the thread fails, and it is not stopped.
pub record IsGood (io : LayIo) : Type 0 where
  pub path : io.path ≡ true
  pub unbroken : (f : ℕ) → io.broken f ≡ false
  pub pathname : (f : ℕ) → io.pathname f ≡ true
  pub opened : (f : ℕ) → io.opened f ≡ true

-- The steps of one thread.
abbrev pub on_disk : ℕ → List ℕ → Steps
on_disk d [] = []
on_disk d (f ∷ fs) = (f, d) ∷ on_disk d fs

module _ (io : LayIo) (good : IsGood io) (d : ℕ) where
  loop_step :
      (fuel f : ℕ) (w : Workload)
      → lay_loop (suc fuel) io d (some f) w
        ≡ lay_loop fuel io d ((lay_file f d w).file f).assign_next (lay_file f d w)
  unfolding lay_loop
  loop_step fuel f w = rw (good.unbroken f, good.pathname f, good.opened f) refl

  loop_end : (fuel : ℕ) (w : Workload) → lay_loop fuel io d none w ≡ w
  unfolding lay_loop
  loop_end zero w = refl
  loop_end (suc fuel) w = refl

  lay_loop-Chain :
      (fs : List ℕ) (fuel : ℕ) (prev head : Option ℕ) (w : Workload)
      → length fs ≤ fuel
      → Chain w.file prev head fs
      → lay_loop fuel io d head w ≡ lay_files (on_disk d fs) w
  unfolding lay_files
  lay_loop-Chain [] fuel prev head w enough c = ap (λ p. lay_loop fuel io d p w) c ∙ loop_end fuel w
  lay_loop-Chain (f ∷ fs) zero prev head w enough c = absurd (omega arith)
  lay_loop-Chain (f ∷ fs) (suc fuel) prev head w enough c =
      let v = lay_file f d w in
      let k = lay_file-Counted f d w in
      let rest : Chain v.file (some f) (v.file f).assign_next fs = rw (k.assign.next f) (
        Chain_frame w.file v.file (some f) (w.file f).assign_next fs
          (λ y h. (k.assign.prev y, k.assign.next y)) c.2) in
      ap (λ p. lay_loop (suc fuel) io d p w) c.0
      ∙ loop_step fuel f w
      ∙ lay_loop-Chain fs fuel (some f) (v.file f).assign_next v (omega arith) rest

-- A thread that nothing fails lays down the files of its disk's list, in the order of the list, and is
-- counted as ready. Its loop ends within its fuel.
pub disk_service-lay_files :
    (io : LayIo) (d : ℕ) (fs : List ℕ) (w : Workload)
    → IsGood io
    → length fs ≤ w.file_count
    → Chain w.file none (w.disk d).assign_file fs
    → disk_service io d w ≡ count_ready (lay_files (on_disk d fs) w)
unfolding disk_service
disk_service-lay_files io d fs w good enough c =
    let laid = lay_loop w.file_count io d (w.disk d).assign_file w in
    ap (λ b. if b then count_ready laid else count_error w) good.path
    ∙ ap count_ready
        (lay_loop-Chain io good d fs w.file_count none (w.disk d).assign_file w enough c)
