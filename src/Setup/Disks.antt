-- ===== src/Setup/Disks.antt =====
-- source/workload_storage.c and source/workload_config.c: the disks of the configuration are listed, and
-- put into the array `m_disk`. The disk with `m_id` n stands at the address n - 1.
pub mod Listed
pub mod Complete
pub mod Frame
use workload.Prelude.{
  ℕ, suc, ◌+◌, ◌-◌, Bool, true, false, ◌&&◌, ◌||◌, Option, none, some, List, [], ◌∷◌, ◌++◌, ltb,
  leb, ◌==◌, if◌then◌else◌, length,
}
use workload.Prelude.Int.{ℤ, minus_one}
use workload.Store.Types.{Bytes, Disk, Workload, update}
use workload.Text.Base.{basename}
use workload.Text.Chars.{codes, same_bytes, atoll, parse_boolean_string}
use workload.Xml.{
  Xml, is_empty, check_string, get_xml_node, xml_tag_data, xml_tag_attr_value, tags_named,
}

-- The name and the path of a new disk: a disk without a name is named after its path.
named : (name path : Bytes) → Bytes × Bytes
named [] path = let (left, base) = basename path in (base, left)
named (c ∷ cs) path = (c ∷ cs, path)

-- workload_new_disk, where malloc succeeds
pub new_disk : (id : ℕ) → (name path : Bytes) → (is_create_path : Bool) → (time_stamp : ℕ) → Disk
unfolding named
new_disk id name path is_create_path time_stamp =
    let (used, left) = named name path in
    record {
      create_path = is_create_path;
      inserted_db = false;
      id = id;
      name = used;
      path = left;
      fakeoff_delay = minus_one;
      read_count = 0;
      write_count = 0;
      time_stamp = time_stamp;
      fakeoff_time_stamp = time_stamp;
      assign_file_count = 0;
      assign_file = none;
    }

-- The loop that looks for a disk with the same path and name.
abbrev pub is_same : (path name : Bytes) → Disk → Bool
is_same path name d = same_bytes path d.path && same_bytes name d.name

abbrev pub is_duplicate : (path name : Bytes) → List ℕ → (ℕ → Disk) → Bool
is_duplicate path name [] disk = false
is_duplicate path name (d ∷ ds) disk = is_same path name (disk d) || is_duplicate path name ds disk

-- What a node of the configuration says of its disk. `ezxml_child` is the library's: the first child
-- with a name.
pub record Entry : Type 0 where
  pub path : Bytes
  pub name : Bytes
  pub is_create_path : Bool
  pub fakeoff_delay : ℤ

unfoldable pub fakeoff_of : Bytes → ℤ
fakeoff_of [] = minus_one
fakeoff_of (c ∷ cs) = atoll (c ∷ cs)

-- The name is looked for below the node `name`, and the path is cut where the name comes from it.
unfoldable pub entry_of : (ezxml_child : Xml → Bytes → Xml) → Xml → Entry
unfolding fakeoff_of
entry_of ezxml_child node =
    let at = ezxml_child node (codes "path") in
    let given = xml_tag_data (ezxml_child (ezxml_child node (codes "name")) (codes "name")) in
    let (left, base) = basename (xml_tag_data at) in
    record {
      path = if is_empty given then left else xml_tag_data at;
      name = if is_empty given then base else given;
      is_create_path = parse_boolean_string (xml_tag_attr_value at (codes "create")) false;
      fakeoff_delay = fakeoff_of (check_string (xml_tag_attr_value node (codes "fakeoff")));
    }

-- What the break flag and malloc answer in one round.
pub record DiskIo : Type 0 where
  pub broken : Bool
  pub allocated : Bool

-- A disk at the end of the list.
pub add_disk : (id : ℕ) → Entry → Workload → Workload
unfolding new_disk
add_disk id e w = record w {
  disk = update w.disk (id - 1) (record (new_disk id e.name e.path e.is_create_path w.time_stamp) {
    fakeoff_delay = e.fakeoff_delay;
  });
  disk_head = w.disk_head ++ (id - 1) ∷ [];
}

-- The loop over the nodes, with the next id. `false` is a return of -1.
pub add_disks : (rounds : ℕ → DiskIo) → (k id : ℕ) → List Entry → Workload → Bool × Workload
unfolding add_disk
add_disks rounds k id [] w = (true, w)
add_disks rounds k id (e ∷ es) w =
    let is_added =
      if is_empty e.path || is_duplicate e.path e.name w.disk_head w.disk
      then false
      else (rounds k).allocated in
    let rest =
      add_disks rounds (suc k) (if is_added then suc id else id) es
        (if is_added then add_disk id e w else w) in
    if (rounds k).broken then (false, w) else rest

unfoldable pub entries : (Xml → Bytes → Xml) → List Xml → List Entry
entries ezxml_child [] = []
entries ezxml_child (node ∷ nodes) = entry_of ezxml_child node ∷ entries ezxml_child nodes

-- The nodes of the loop.
abbrev pub disk_nodes : Xml → List Xml
disk_nodes root =
    tags_named (codes "disk") (get_xml_node root (codes "/workload/config/storage/disk"))

-- The section `disk` up to the array.
pub list_disks : (ezxml_child : Xml → Bytes → Xml) → (ℕ → DiskIo) → Xml → Workload → Bool × Workload
list_disks ezxml_child rounds root w =
    add_disks rounds 0 1 (entries ezxml_child (disk_nodes root)) w

-- workload_free_disk_array, where an array that is NULL is empty
pub is_nil : List ℕ → Bool
is_nil [] = true
is_nil (x ∷ xs) = false

pub free_disk_array : Workload → Workload
unfolding is_nil
free_disk_array w =
    if is_nil w.disk_array
    then w
    else record w { disk_array = []; disk_count = 0; max_name_size = 0 }

-- The greatest `m_name_size`, or `most`.
abbrev pub max_name : (most : ℕ) → List ℕ → (ℕ → Disk) → ℕ
max_name most [] disk = most
max_name most (d ∷ ds) disk =
    max_name (if ltb most (length (disk d).name) then length (disk d).name else most) ds disk

-- workload_update_disk_array: `false` is -1, `allocated` what malloc answers.
pub update_disk_array : (allocated : Bool) → Workload → Bool × Workload
unfolding free_disk_array
update_disk_array allocated w =
    let v = free_disk_array w in
    let count = v.disk_count + length v.disk_head in
    if count == 0
    then (true, v)
    else if allocated
    then (
      true,
      record v {
        disk_count = count;
        disk_array = v.disk_head;
        max_name_size = max_name v.max_name_size v.disk_head v.disk;
      },
    )
    else (false, record v { disk_count = 0 })
