-- ===== src/Tests/Setup.antt =====
-- The theorems on loading, on two new files and two disks.
use workload.Prelude.{ℕ, suc, ◌≡◌, refl, arith, true, false, none, some, []}
use workload.Store.Types.{Bytes, File, Disk, Workload}
use workload.Setup.{Round}
use workload.Setup.Arrays.{IsFresh}
use workload.Text.Chars.{codes}
use workload.Xml.{Xml, null, tag, find_tag, child_of}
use workload.Setup.Options.{init_option}
use workload.Setup.Values.{Parsing, init_config, parse_values}
use workload.Setup.Values.Bounds.{IsValid, parse_values-IsValid}
use workload.Setup.Disks.{DiskIo, entries, disk_nodes, list_disks}
use workload.Setup.Disks.Listed.{IsListed}
use workload.Setup.Disks.Complete.{AllListed, list_disks-AllListed}
use workload.Tests.Sample.{sample, file_of, disk_of, move_io}

-- The files and disks before they are assigned.
abbrev new_files : ℕ → File
new_files x = file_of (suc x) 0 0 none none none none

abbrev new_disks : ℕ → Disk
new_disks d = disk_of (suc d) 0 none

abbrev pub fresh : Workload
fresh = record sample {
  read_count = 0;
  file = new_files;
  disk = new_disks;
  file_count = 0;
  file_ordered = [];
  file_sorted = [];
  next_file_index = none;
}

pub fresh-IsFresh : IsFresh 2 fresh
fresh-IsFresh = record {
  head = refl;
  reads = λ x. refl;
  writes = λ x. refl;
  free = λ x. refl;
  no_list = λ d. refl;
  no_count = λ d. refl;
  total_reads = refl;
  total_writes = refl;
  no_places = refl;
}

-- Each round draws 5, and every move succeeds.
abbrev pub rounds : ℕ → Round
rounds k = record { broken = false; draw = 5; move = move_io }

-- A file with one disk, `<workload><config><storage><disk><path>/d</path></disk>...`.
abbrev leaf : Bytes → Bytes → Xml → Xml
leaf name txt next = tag (some name) none txt null next

abbrev within : Bytes → Xml → Xml
within name child = tag (some name) none [] child null

abbrev disk_tag : Xml
disk_tag = within (codes "disk") (leaf (codes "path") (codes "/d") null)

abbrev pub root : Xml
root = within (codes "workload") (within (codes "config") (within (codes "storage") disk_tag))

-- The first child with a name.
abbrev pub first_child : Xml → Bytes → Xml
first_child x name = find_tag name (child_of x)

abbrev empty_parsing : Parsing
empty_parsing = record { cfg = init_config; node = null }

parse_values-IsValid_example : IsValid (parse_values init_option root empty_parsing).cfg
parse_values-IsValid_example =
    parse_values-IsValid init_option root empty_parsing (omega arith) (omega arith)

abbrev given : ℕ → DiskIo
given k = record { broken = false; allocated = true }

abbrev no_disks : Workload
no_disks = record fresh { disk_head = []; disk_array = []; disk_count = 0 }

no_disks-IsListed : IsListed 0 no_disks
no_disks-IsListed = record {
  head = refl;
  numbered = λ i h. absurd (omega arith);
  apart = λ i j low high. absurd (omega arith);
  unassigned = λ d. (refl, refl);
}

list_disks-AllListed_example :
    ((list_disks first_child given root no_disks).0 ≡ true)
    × AllListed
        (entries first_child (disk_nodes root))
        (list_disks first_child given root no_disks).1
    × ((m : ℕ) × IsListed m (list_disks first_child given root no_disks).1)
list_disks-AllListed_example =
    list_disks-AllListed first_child given root no_disks (λ k. refl) (λ k. refl) no_disks-IsListed
