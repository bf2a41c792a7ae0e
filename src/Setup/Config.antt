-- ===== src/Setup/Config.antt =====
-- source/workload_config.c: the loading of a configuration as a whole.
pub mod Total
pub mod Stopped
pub mod Whole
pub mod Parse
use workload.Prelude.{ℕ, Bool, true, false, ◌||◌, Option, none, some, List, [], ◌∷◌, if◌then◌else◌}
use workload.Store.Types.{Bytes, Workload}
use workload.Xml.{Xml, null, get_xml_node}
use workload.Text.Chars.{codes}
use workload.Setup.{Round, update_file_array, assign_all, lay_places}
use workload.Setup.Options.{Opt}
use workload.Setup.Values.{parse_values, parse_pause}
use workload.Setup.Disks.{DiskIo, list_disks, free_disk_array, update_disk_array}
use workload.Setup.Files.{list_files}
use workload.Setup.Meta.{MetaIo, open_meta, reset_meta}
use workload.Storage.{LayIo, Waiting, started, failed, waiting, start_disks}

-- What the calls answer in the order of the code: of the library for XML, of the databases, of malloc and
-- the break flag for each disk and each file, of each round of the assignment, and of the threads.
pub record LoadIo : Type 0 where
  pub ezxml_child : Xml → Bytes → Xml
  pub meta : MetaIo
  pub disks : ℕ → DiskIo
  pub disk_array : Bool
  pub null_text : Bytes
  pub delete : Bool
  pub files : ℕ → DiskIo
  pub file_array : Bool
  pub rounds : ℕ → Round
  pub places : Bool
  pub threads : ℕ → LayIo

-- `if(r == -1) return -1`, and then the next part.
infixl 5 ◌then_do◌
abbrev pub ◌then_do◌ : Bool × Workload → (Workload → Bool × Workload) → Bool × Workload
◌then_do◌ r next = if r.0 then next r.1 else r

-- Only a break ends a loop that waits for ever, with -1.
pub is_started : Waiting → Bool
is_started started = true
is_started failed = false
is_started waiting = false

pub start_service : LoadIo → Workload → Bool × Workload
unfolding is_started
start_service io w = let (at, v) = start_disks io.threads w in (is_started at, v)

-- The disks of an earlier configuration are freed, with their threads.
pub clear_disks : Workload → Workload
clear_disks w = record (free_disk_array w) { disk_head = [] }

-- The sections `disk`, `file` and `assign`, and the start of the threads.
pub load_storage : LoadIo → (root : Xml) → Workload → Bool × Workload
unfolding start_service clear_disks
load_storage io root w =
    list_disks io.ezxml_child io.disks root (clear_disks w)
    then_do update_disk_array io.disk_array
    then_do list_files io.null_text io.delete io.files
    then_do update_file_array io.file_array
    then_do assign_all io.rounds
    then_do (λ v. start_service io (lay_places io.places v))

-- The values of the section `operation`, kept in `m_cfg`.
pub load_values : Opt → (root : Xml) → Workload → Workload
load_values opt root w =
    let meta = get_xml_node root (codes "/workload/config/meta") in
    let (node, v) = parse_pause opt root (meta, w) in
    record v { cfg = (parse_values opt root (record { cfg = v.cfg; node = node })).cfg }

-- __workload_parse_config: where a table is to be dumped, the program ends.
pub parse_config : Opt → LoadIo → (root : Xml) → Workload → Bool × Workload
unfolding load_values
parse_config opt io root w = open_meta io.ezxml_child io.meta root w then_do (λ v.
    if opt.dump_disk || opt.dump_file
    then (true, record v { break = true })
    else reset_meta opt.verbose v then_do (λ u. load_storage io root (load_values opt root u)))
