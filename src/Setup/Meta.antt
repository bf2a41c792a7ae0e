-- ===== src/Setup/Meta.antt =====
-- source/workload_config.c: the section `meta` opens the meta database, and makes its tables anew.
use workload.Prelude.{Bool, true, false, Option, none, some, if◌then◌else◌}
use workload.Prelude.Int.{ℤ}
use workload.Store.Types.{Bytes, Connection, Workload}
use workload.Store.Db.{reset_db}
use workload.Text.Chars.{atoi, codes, same_bytes_nocase}
use workload.Xml.{
  Xml, null, tag, is_empty, check_string, get_xml_node, xml_tag_data, xml_tag_attr_value,
}

-- What workload_open_db and workload_open_db_ex answer.
pub record MetaIo : Type 0 where
  pub open_db : (pathname : Bytes) → Option Connection
  pub open_db_ex :
      (hostname : Bytes) → (port : ℤ) → (username password database : Bytes) → Option Connection

-- A database that is not opened is a return of -1.
unfoldable pub with_db : Option Connection → Workload → Bool × Workload
with_db none w = (false, record w { db = none })
with_db (some c) w = (true, record w { db = some c })

-- `ezxml_child` is the library's: the first child with a name.
sub_text : (ezxml_child : Xml → Bytes → Xml) → Xml → Bytes → Bytes
sub_text ezxml_child node name = xml_tag_data (ezxml_child node name)

unfoldable pub open_at :
    (ezxml_child : Xml → Bytes → Xml) → MetaIo → Xml → Workload → Bool × Workload
unfolding with_db sub_text
open_at ezxml_child io null w = (true, record w { db = none })
open_at ezxml_child io (tag n attr txt child ordered) w =
    let node = tag n attr txt child ordered in
    let db_type = check_string (xml_tag_attr_value node (codes "type")) in
    let pathname = sub_text ezxml_child node (codes "pathname") in
    if same_bytes_nocase db_type (codes "sqlite3")
    then with_db (io.open_db (if is_empty pathname then codes "./workload.db" else pathname)) w
    else if same_bytes_nocase db_type (codes "mysql")
    then with_db
        (io.open_db_ex (sub_text ezxml_child node (codes "hostname"))
          (atoi (sub_text ezxml_child node (codes "port")))
          (sub_text ezxml_child node (codes "username"))
          (sub_text ezxml_child node (codes "password"))
          (sub_text ezxml_child node (codes "database")))
        w
    else (true, record w { db = none })

unfoldable pub open_meta :
    (ezxml_child : Xml → Bytes → Xml) → MetaIo → (root : Xml) → Workload → Bool × Workload
unfolding open_at
open_meta ezxml_child io root w =
    open_at ezxml_child io (get_xml_node root (codes "/workload/config/meta")) w

unfoldable pub reset_open : Option Connection → (verbose : Bool) → Workload → Bool × Workload
reset_open none verbose w = (true, w)
reset_open (some c) verbose w =
    let (done, v) = reset_db w in
    if done then (true, v) else if verbose then (false, v) else (true, record v { db = none })

-- If the tables cannot be made anew, the loading fails only where it is verbose; else it goes on without
-- a database.
unfoldable pub reset_meta : (verbose : Bool) → Workload → Bool × Workload
unfolding reset_open
reset_meta verbose w = reset_open w.db verbose w
