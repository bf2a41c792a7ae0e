-- ===== src/Tests/Config.antt =====
-- The theorem on the loading of a configuration, on one disk and three files.
use workload.Prelude.{ℕ, ◌≡◌, ◌<◌, refl, arith, true, false, none, some, []}
use workload.Store.Types.{Workload}
use workload.Text.Chars.{codes}
use workload.Control.System.{IsSound}
use workload.Setup.Options.{Opt, init_option}
use workload.Setup.Disks.{DiskIo}
use workload.Setup.Meta.{MetaIo}
use workload.Setup.Config.{LoadIo}
use workload.Setup.{lay_places, update_file_array, assign_all}
use workload.Setup.Seats.{OnDisk}
use workload.Setup.Config.Total.{Ready, assign_all-places}
use workload.Setup.Config.Stopped.{load-IsSound}
use workload.Setup.Config.{◌then_do◌}
use workload.Tests.Setup.{fresh, fresh-IsFresh, rounds, first_child}
use workload.Tests.Storage.{threads}

abbrev blank : Workload
blank = record fresh { db = none; file_head = []; disk_head = []; disk_array = []; disk_count = 0 }

abbrev three_files : Opt
three_files = record init_option {
  filecount = 3;
  prefix = some (codes "file");
  suffix = some (codes ".dat");
}

abbrev no_meta : MetaIo
no_meta = record {
  open_db = λ pathname. none;
  open_db_ex = λ hostname port username password database. none;
}

abbrev given : ℕ → DiskIo
given k = record { broken = false; allocated = true }

abbrev load_io : LoadIo
load_io = record {
  ezxml_child = first_child;
  meta = no_meta;
  disks = given;
  disk_array = true;
  null_text = codes "(null)";
  delete = true;
  files = given;
  file_array = true;
  rounds = rounds;
  places = true;
  threads = threads;
}

fresh-Ready : Ready 2 fresh
fresh-Ready = record {
  fresh = fresh-IsFresh;
  cleared = refl;
  none_yet = refl;
  ids = λ x h. refl;
  count = refl;
  some_disk = omega arith;
  distinct = (refl, (refl, tt));
  enough = omega arith;
  few_files = omega arith;
  few_disks = omega arith;
}

assign_all-places_example :
    ((assign_all rounds (update_file_array true fresh).1).0 ≡ true)
    × ((x : ℕ)
        → x < 2
        → OnDisk fresh.disk_array
            ((assign_all rounds (update_file_array true fresh).1).1.file x).assign_disk)
assign_all-places_example = assign_all-places 1 fresh rounds (λ k. refl) fresh-Ready

load-IsSound_example :
    IsSound 0
      (update_file_array true fresh
        then_do assign_all rounds
        then_do (λ v. (true, lay_places true v))).1
load-IsSound_example = load-IsSound 1 fresh rounds true fresh-Ready
