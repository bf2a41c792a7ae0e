-- ===== src/Control/System/Command.antt =====
-- A command, and the clock, keep the workload sound.
use workload.Prelude.{
  ℕ, ◌≡◌, refl, sym, ap, arith, Bool, true, false, not, ◌||◌, Option, List, [], ◌∷◌, contains, ◌==◌,
  if◌then◌else◌, u64,
}
use workload.Prelude.Sums.{sum_map}
use workload.Prelude.Int.{ℤ, to_nat}
use workload.Store.Types.{Bytes, Cfg, Workload}
use workload.Store.Db.Frame.{update_db_only_disk-Keeps}
use workload.Store.Access.{for_each, reset_file_access_count}
use workload.Store.Access.Reset.{reset-Zeroed}
use workload.Store.Access.Ranked.{IsRankedStore, SameRanking, SameRanking-IsRankedStore}
use workload.Store.Assign.{MoveIo, file_relocate}
use workload.Store.Assign.Chains.{SameAssign-IsLinked}
use workload.Store.Assign.Chains.Move.{SameButDb-SameAssign}
use workload.Store.Access.Assigned.{SameAssign-trans}
use workload.Store.Assign.Rest.{SameButDb-SameCounts}
use workload.Text.Chars.{atoi}
use workload.Control.{
  Response, Outcome, restart_disk, set_main_relocate, toggle_main_relocate, set_main_pause,
  toggle_main_pause, update_main_time_stamp, key_command, ratio_command, cmd,
}
use workload.Control.System.{with_flags, IsSound}
use workload.Control.System.Same.{Same-IsSound}
use workload.Control.System.Move.{file_relocate-IsSound}

pub with_flags-IsSound :
    (n : ℕ) (break reload : Bool) (cfg : Cfg) (pause relocate : Bool) (now : ℕ) (w : Workload)
    → IsSound n w
    → IsSound n (with_flags break reload cfg pause relocate now w)
with_flags-IsSound n break reload cfg pause relocate now w s =
    Same-IsSound n w (with_flags break reload cfg pause relocate now w)
      (record {
        reads = λ x. refl;
        writes = λ x. refl;
        index = λ x. refl;
        total_reads = refl;
        total_writes = refl;
        files = refl;
        size = refl;
        array = refl;
        sorted = refl;
        ordered = refl;
        nexts = refl;
      })
      s
      (record {
        prev = λ x. refl;
        next = λ x. refl;
        assigned = λ x. refl;
        head = λ d. refl;
        count = λ d. refl;
      })

pub restart_disk-IsSound : (n d : ℕ) (w : Workload) → IsSound n w → IsSound n (restart_disk d w)
unfolding restart_disk
restart_disk-IsSound n d w s =
    let k = update_db_only_disk-Keeps d _ in
    let c = SameButDb-SameCounts k in
    Same-IsSound n w (restart_disk d w)
      (record {
        reads = c.reads;
        writes = c.writes;
        index = c.index;
        total_reads = c.total_reads;
        total_writes = c.total_writes;
        files = c.files;
        size = c.size;
        array = c.array;
        sorted = c.sorted;
        ordered = c.ordered;
        nexts = c.nexts;
      })
      s
      (SameAssign-trans
        (record {
          prev = λ x. refl;
          next = λ x. refl;
          assigned = λ x. refl;
          head = λ e. ground arith;
          count = λ e. ground arith;
        })
        (SameButDb-SameAssign k))

restart_disks-IsSound :
    (n : ℕ) (ds : List ℕ) (w : Workload) → IsSound n w → IsSound n (for_each restart_disk ds w)
restart_disks-IsSound n [] w s = s
restart_disks-IsSound n (d ∷ ds) w s =
    restart_disks-IsSound n ds (restart_disk d w) (restart_disk-IsSound n d w s)

set_main_relocate-IsSound :
    (n : ℕ) (flag : Bool) (w : Workload) → IsSound n w → IsSound n (set_main_relocate flag w)
unfolding set_main_relocate
set_main_relocate-IsSound n flag w s =
    restart_disks-IsSound n w.disk_head (record w { relocate = flag })
      (with_flags-IsSound n w.break w.reload w.cfg w.pause flag w.time_stamp w s)

sum_zero : (g : ℕ → ℕ) (xs : List ℕ) → ((x : ℕ) → contains x xs ≡ true → g x ≡ 0) → sum_map g xs ≡ 0
sum_zero g [] z = refl
sum_zero g (x ∷ xs) z = ground (arith, z x, sum_zero g xs (λ y h. z y (ground arith)))

-- With all counters 0, every order of the files is by falling count.
abbrev flat : Workload → Workload
flat w = record w { file = λ x. record (w.file x) { read_count = 0; write_count = 0 } }

flat-IsRankedStore : (w : Workload) → IsRankedStore w → IsRankedStore (flat w)
flat-IsRankedStore w r = record {
  indexed = record {
    size = r.indexed.size;
    place = r.indexed.place;
    known = r.indexed.known;
    stands = r.indexed.stands;
    inside = r.indexed.inside;
  };
  ranked = λ j hj. omega arith;
  nexts = r.nexts;
}

reset-SameRanking :
    (n : ℕ) (w : Workload) → IsSound n w → SameRanking (flat w) (reset_file_access_count w)
reset-SameRanking n w s =
    let (z, r, k) = reset-Zeroed w in
    record {
      size = z.size;
      sorted = z.sorted;
      nexts = z.nexts;
      index = λ x hx. z.index x;
      count = λ x hx. ground (arith, z.reads x, z.writes x, s.known x);
    }

pub reset-IsSound : (n : ℕ) (w : Workload) → IsSound n w → IsSound n (reset_file_access_count w)
reset-IsSound n w s =
    let (z, r, k) = reset-Zeroed w in
    let v = reset_file_access_count w in
    let (members, l) = s.linked in
    record {
      known = λ x. rw (z.files, z.size) (s.known x);
      bounded = λ x. ground (arith, z.reads x, z.writes x, s.bounded x);
      conserved = record {
        distinct = rw z.files s.conserved.distinct;
        reads =
            rw (z.files, r)
              (ap u64 (
                sym (
                  sum_zero (λ x. (v.file x).read_count) w.file_head
                    (λ x h. ground (arith, z.reads x)))));
        writes =
            rw (z.files, k)
              (ap u64 (
                sym (
                  sum_zero (λ x. (v.file x).write_count) w.file_head
                    (λ x h. ground (arith, z.writes x)))));
      };
      ranked =
          SameRanking-IsRankedStore (flat w) v (reset-SameRanking n w s)
            (flat-IsRankedStore w s.ranked);
      linked = (members, SameAssign-IsLinked w v members z.assign l);
    }

-- A command leaves the workload sound.
record Leaves (n : ℕ) (o : Outcome) : Type 0 where
  sound : IsSound n o.0

choose :
    {n : ℕ} (b : Bool) {x y : Outcome} → Leaves n x → Leaves n y → Leaves n (if b then x else y)
choose true p q = p
choose false p q = q

either :
    {n : ℕ} {x y : Workload} (b : Bool) → IsSound n x → IsSound n y → IsSound n (if b then x else y)
either true p q = p
either false p q = q

answer : {n : ℕ} {w : Workload} {r : Option Response} → IsSound n w → Leaves n (w, r)
answer s = record { sound = s }

key_command-Leaves :
    (n : ℕ) (io : ℕ → MoveIo) (code : ℕ) (w : Workload)
    → IsSound n w
    → Leaves n (key_command io code w)
unfolding key_command toggle_main_relocate toggle_main_pause set_main_pause
key_command-Leaves n io code w s =
    let toggled = set_main_relocate (not w.relocate) w in
    let toggled-IsSound = set_main_relocate-IsSound n (not w.relocate) w s in
    let started = set_main_relocate true w in
    let started-IsSound = set_main_relocate-IsSound n true w s in
    let ended : (r : Bool) → IsSound n (record w { break = true; reload = r }) =
      λ r. with_flags-IsSound n true r w.cfg w.pause w.relocate w.time_stamp w s in
    let paused : (b : Bool) → IsSound n (record w { pause = b }) =
      λ b. with_flags-IsSound n w.break w.reload w.cfg b w.relocate w.time_stamp w s in
    let moved : IsSound n (if toggled.relocate then file_relocate io toggled else toggled) =
      either toggled.relocate (file_relocate-IsSound n io toggled toggled-IsSound)
        toggled-IsSound in
    choose (code == 27 || code == b'q') (answer (ended w.reload)) (
      choose (code == b'Q') (answer (ended true)) (
        choose (code == b'?') (answer s) (
          choose (code == b'r') (answer moved) (
            choose (code == b'o') (answer (file_relocate-IsSound n io w s)) (
              choose (code == b'p') (answer (paused (not w.pause))) (
                choose (code == b'S') (answer (file_relocate-IsSound n io started started-IsSound))
                  (choose (code == b'K') (answer (set_main_relocate-IsSound n false w s)) (
                    choose (code == b'P') (answer (paused true)) (
                      choose (code == b'R') (answer (paused false))
                        (choose (code == b'!') (answer (reset-IsSound n w s)) (answer s)))))))))))

ratio_command-IsSound :
    (n code : ℕ) (value : ℤ) (w : Workload) → IsSound n w → IsSound n (ratio_command code value w).0
unfolding ratio_command
ratio_command-IsSound n code value w s =
    let other : (c : Cfg) → IsSound n (record w { cfg = c }) =
      λ c. with_flags-IsSound n w.break w.reload c w.pause w.relocate w.time_stamp w s in
    ground (
      arith,
      s,
      other (record w.cfg { left_ratio = to_nat value }),
      other (record w.cfg { right_ratio = to_nat value }),
    )

pub cmd-IsSound :
    (n : ℕ) (io : ℕ → MoveIo) (line : Bytes) (w : Workload)
    → IsSound n w
    → IsSound n (cmd io line w).0
unfolding cmd
cmd-IsSound n io [] w s = s
cmd-IsSound n io (code ∷ []) w s = (key_command-Leaves n io code w s).sound
cmd-IsSound n io (code ∷ gap ∷ argument) w s =
    ground (arith, s, ratio_command-IsSound n code (atoi argument) w s)

pub tick-IsSound :
    (n now : ℕ) (w : Workload) → IsSound n w → IsSound n (update_main_time_stamp now w)
unfolding update_main_time_stamp
tick-IsSound n now w s = with_flags-IsSound n w.break w.reload w.cfg w.pause w.relocate now w s
