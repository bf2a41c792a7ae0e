-- ===== src/Setup/Config/Total.antt =====
-- source/workload_config.c: a loading that nothing stops.
use workload.Prelude.{
  ℕ, suc, ◌+◌, ◌-◌, ◌<◌, ◌≤◌, ◌≡◌, ◌∙◌, refl, sym, ap, subst, arith, Bool, true, false, Option,
  none, List, [], if◌then◌else◌, contains, length, range_from,
}
use workload.Prelude.Sums.{IsDistinct}
use workload.Store.Types.{Workload}
use workload.Control.System.{IsSound}
use workload.Setup.{Round, fill_file_array, update_file_array, assign_all, assign_files, lay_places}
use workload.Setup.Arrays.{
  IsFresh, sized, sized-IsFresh, sized_count, reallocated, filled_free, filled_ordered, file_at,
  filled_count, get_or-range_from, length-range_from,
}
use workload.Setup.Seats.{OnDisk, Seats}
use workload.Setup.Chosen.{Agrees, is_even, Filling}
use workload.Setup.Load.{laid-IsSound, assigned_known}
use workload.Setup.Config.{LoadIo, ◌then_do◌, start_service, is_started}
use workload.Storage.{started, start_disks}
use workload.Storage.Walk.{IsGood}
use workload.Storage.Start.{start_disks-IsSound}
use workload.Setup.Complete.{assign_files-Filled, all_placed}

-- New files, numbered from 1, fewer than 2 ^ 32 and no more than the configuration has, and at least one
-- disk and fewer than 2 ^ 32.
pub record Ready (n : ℕ) (w : Workload) : Type 0 where
  pub fresh : IsFresh n w
  pub cleared : w.file_ordered ≡ []
  pub none_yet : w.file_count ≡ 0
  pub ids : (x : ℕ) → x < n → (w.file x).id ≡ suc x
  pub count : w.disk_count ≡ length w.disk_array
  pub some_disk : 0 < length w.disk_array
  pub distinct : IsDistinct w.disk_array
  pub enough : n ≤ w.cfg.filecount
  pub few_files : n < 4294967296
  pub few_disks : length w.disk_array < 4294967296

-- The seats at the start: the array of the even method is in order, and the others begin at the last seat.
seat_of : Bool → ℕ → ℕ → ℕ
seat_of true n i = i
seat_of false n i = n - (i + 1)

module _ (ds : List ℕ) (n : ℕ) where
  first-Seats :
      (b : Bool) (place : ℕ → Option ℕ)
      → ((x : ℕ) → place x ≡ none)
      → Seats ds n n (seat_of b n) place
  unfolding seat_of
  first-Seats true place free = record {
    apart = λ i j hi hj e. e;
    seated = λ x h. (x, h, refl);
    idle = λ i h. free i;
    done = λ i low high. absurd (omega arith);
  }
  first-Seats false place free = record {
    apart = λ i j hi hj e. omega arith;
    seated = λ x h. (n - (x + 1), omega arith, omega arith);
    idle = λ i h. free (n - (i + 1));
    done = λ i low high. absurd (omega arith);
  }

  first-Agrees : (b : Bool) → Agrees b n (range_from 0 n) (seat_of b n)
  unfolding seat_of
  first-Agrees true = (length-range_from 0 n, λ i h. sym (get_or-range_from 0 n i h ∙ omega arith))
  first-Agrees false = λ i h. refl

filled-Filling :
    (n : ℕ) (w : Workload)
    → Ready n w
    → let v = fill_file_array (sized w) in Filling w.cfg w.disk_array n n v.file_ordered v
unfolding fill_file_array
filled-Filling n w r =
    let fresh = sized-IsFresh n w r.fresh in
    let count = sized_count n w r.fresh in
    let b = is_even w.cfg in
    let v = fill_file_array (sized w) in
    let in_order = filled_ordered n (sized w) fresh count in
    record {
      size = filled_count n (sized w) fresh count;
      ordered = in_order;
      config = refl;
      array = refl;
      count = r.count;
      ids = λ x h. ground (arith, file_at n (sized w) fresh count x, r.ids x);
      seats = (
        seat_of b n,
        first-Seats w.disk_array n b (λ x. (v.file x).assign_disk)
            (filled_free n (sized w) fresh count),
        subst (λ xs. Agrees b n xs (seat_of b n)) (sym in_order) (first-Agrees w.disk_array n b),
      );
    }

abbrev Ended : Workload → (n : ℕ) → Bool × Workload → Type 0
Ended w n r = (r.0 ≡ true) × ((even : List ℕ) × Filling w.cfg w.disk_array n 0 even r.1)

-- The assignment goes to its end, and every file gets a disk of the array.
pub assigned_all :
    (n : ℕ) (w : Workload) (rounds : ℕ → Round)
    → ((k : ℕ) → (rounds k).broken ≡ false)
    → Ready (suc n) w
    → Ended w (suc n) (assign_all rounds (update_file_array true w).1)
unfolding assign_all
assigned_all n w rounds go r =
    let v = fill_file_array (sized w) in
    let f = filled-Filling (suc n) w r in
    let end =
      assign_files-Filled w.cfg w.disk_array (suc n) r.some_disk r.enough r.few_disks r.few_files
        rounds go (suc n) 1 v.file_ordered v f (omega arith) (omega arith) in
    rw (reallocated n w r.fresh.head r.cleared r.none_yet)
      (subst (λ k. Ended w (suc n) (assign_files k 1 rounds v.file_ordered v)) (sym f.size) end)

-- From new files, at least one, numbered from 1 and no more than the configuration has, and at least
-- one disk, fewer than 2 ^ 32 of each, with nothing that breaks it off: whatever numbers are drawn and
-- whatever method is configured, the assignment ends, and then each file is on a disk of the array.
pub assign_all-places :
    (n : ℕ) (w : Workload) (rounds : ℕ → Round)
    → ((k : ℕ) → (rounds k).broken ≡ false)
    → Ready (suc n) w
    → ((assign_all rounds (update_file_array true w).1).0 ≡ true)
      × ((x : ℕ)
          → x < suc n
          → OnDisk w.disk_array
              ((assign_all rounds (update_file_array true w).1).1.file x).assign_disk)
assign_all-places n w rounds go r =
    let (done, (even, f)) = assigned_all n w rounds go r in
    (
      done,
      all_placed w.cfg w.disk_array (suc n) even (assign_all rounds (update_file_array true w).1).1
          f,
    )

pub loaded : LoadIo → Workload → Workload
loaded io w = lay_places io.places (assign_all io.rounds (update_file_array true w).1).1

-- From new files and disks, nothing stops the assignment and the threads.
module _ (n : ℕ) (w : Workload) (io : LoadIo) (r : Ready (suc n) w)
    (go : (k : ℕ) → (io.rounds k).broken ≡ false) (good : (d : ℕ) → IsGood (io.threads d)) where
  pub started_all :
      ((start_disks io.threads (loaded io w)).0 ≡ started)
      × IsSound 1 (start_disks io.threads (loaded io w)).1
  unfolding loaded lay_places
  started_all =
      let (done, (even, f)) = assigned_all n w io.rounds go r in
      let u = (assign_all io.rounds (update_file_array true w).1).1 in
      let sound =
        laid-IsSound (suc n) w io.rounds io.places r.fresh (omega arith)
          (omega (arith, r.few_files)) r.cleared r.none_yet r.distinct in
      start_disks-IsSound io.threads (loaded io w) good sound
        (subst IsDistinct (sym f.array) r.distinct) (f.count ∙ ap length (sym f.array))
        (omega (arith, f.count, r.few_disks))
        (λ x d. assigned_known n w io.rounds r.fresh r.cleared r.none_yet r.distinct x d)
        (λ x h.
          let (d, on, known) =
            all_placed w.cfg w.disk_array (suc n) even u f x (subst (λ k. x < k) f.size h) in
          (d, on, subst (λ ds. contains d ds ≡ true) (sym f.array) known))

pub then_true :
    (r : Bool × Workload) (next : Workload → Bool × Workload)
    → r.0 ≡ true
    → (r then_do next) ≡ next r.1
then_true r next done = ap (λ b. if b then next r.1 else r) done

-- What is left of the loading once the files are made.
abbrev pub last_parts : LoadIo → Bool × Workload → Bool × Workload
last_parts io r =
    r then_do assign_all io.rounds then_do (λ v. start_service io (lay_places io.places v))

pub last_parts-IsSound :
    (n : ℕ) (w : Workload) (io : LoadIo)
    → Ready (suc n) w
    → io.file_array ≡ true
    → ((k : ℕ) → (io.rounds k).broken ≡ false)
    → ((d : ℕ) → IsGood (io.threads d))
    → let r = last_parts io (update_file_array io.file_array w) in (r.0 ≡ true) × IsSound 1 r.1
unfolding start_service is_started loaded
last_parts-IsSound n w io r room go good =
    let filled = update_file_array true w in
    let start = λ (v : Workload). start_service io (lay_places io.places v) in
    let array : update_file_array io.file_array w ≡ filled = ap (λ b. update_file_array b w) room in
    let all : filled.0 ≡ true = rw (reallocated n w r.fresh.head r.cleared r.none_yet) refl in
    let (done, rest) = assigned_all n w io.rounds go r in
    let (begun, sound) = started_all n w io r go good in
    let same : last_parts io (update_file_array io.file_array w) ≡ start_service io (loaded io w) =
      ap (last_parts io) array
      ∙ ap (λ q. q then_do start) (then_true filled (assign_all io.rounds) all)
      ∙ then_true (assign_all io.rounds filled.1) start done in
    subst (λ q. (q.0 ≡ true) × IsSound 1 q.1) (sym same) (ap is_started begun, sound)
