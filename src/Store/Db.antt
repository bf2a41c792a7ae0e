-- ===== src/Store/Db.antt =====
-- source/workload_db.c: the meta database is kept up to date with the counters.
pub mod Frame
use workload.Prelude.{
  ℕ, ◌+◌, Bool, true, false, Option, none, some, ◌∷◌, ◌++◌, if◌then◌else◌, points_to, u64,
}
use workload.Store.Types.{
  Bytes, Query, drop_file_table, drop_disk_table, create_disk_table, create_file_table, insert_file,
  update_file, insert_disk, update_disk, Connection, Workload, update, access_count,
}

-- A function that returns -1 (`false`) or 0, and may have changed the state in both cases.
abbrev pub Command : Type 0
Command = Workload → Bool × Workload

-- `if(m == -1) return -1; k`
infixl 5 ◌>>◌
abbrev pub ◌>>◌ : Command → Command → Command
◌>>◌ m k w = let (done, v) = m w in if done then k v else (false, v)

abbrev pub success : Command
success w = (true, w)

-- A statement that cannot fail.
abbrev pub modify : (Workload → Workload) → Command
modify f w = (true, f w)

send : Query → Option Connection → Bool × Option Connection
send q none = (false, none)
send q (some c) = (c.answer c.sent q, some (record c { sent = q ∷ c.sent }))

-- workload_db_query_set on `m_db`
pub query_set : Query → Command
unfolding send
query_set q w = let (done, c) = send q w.db in (done, record w { db = c })

abbrev pub mark_file_inserted : ℕ → Workload → Workload
mark_file_inserted f w = record w {
  file = update w.file f (record (w.file f) { inserted_db = true });
}

abbrev pub mark_disk_inserted : ℕ → Workload → Workload
mark_disk_inserted d w = record w {
  disk = update w.disk d (record (w.disk d) { inserted_db = true });
}

disk_id_of : Workload → Option ℕ → ℕ
disk_id_of w none = 0
disk_id_of w (some d) = (w.disk d).id

-- `"%s%s%s"` of the disk's path, a slash and the name
pathname_of : Workload → Option ℕ → Bytes → Bytes
pathname_of w none name = name
pathname_of w (some d) name = (w.disk d).path ++ b'/' ∷ name

pub file_row : ℕ → Workload → Query
unfolding disk_id_of pathname_of
file_row f w =
    update_file (w.file f).id (disk_id_of w (w.file f).assign_disk) (w.file f).read_count
      (w.file f).write_count (access_count (w.file f))
      (pathname_of w (w.file f).assign_disk (w.file f).filename)

pub disk_row : ℕ → Workload → Query
disk_row d w =
    update_disk (w.disk d).id (w.disk d).assign_file_count (w.disk d).read_count
      (w.disk d).write_count (u64 ((w.disk d).read_count + (w.disk d).write_count))

-- The INSERT, unless the flag says that the row is there.
first_file_row : Bool → ℕ → ℕ → Command
first_file_row true f id = success
first_file_row false f id = do query_set (insert_file id); modify (mark_file_inserted f)

pub update_db_file : ℕ → Command
unfolding first_file_row
update_db_file f w =
    (do first_file_row (w.file f).inserted_db f (w.file f).id; query_set (file_row f w)) w

first_disk_row : Bool → ℕ → Query → Command
first_disk_row true d q = success
first_disk_row false d q = do query_set q; modify (mark_disk_inserted d)

pub update_db_disk : ℕ → Command
unfolding first_disk_row
update_db_disk d w =
    (do
      first_disk_row (w.disk d).inserted_db d
          (insert_disk (w.disk d).id (w.disk d).name (w.disk d).path)
      query_set (disk_row d w))
      w

-- what workload_update_db does behind the file's own row
after_file : Option ℕ → Option ℕ → Command
after_file none none = success
after_file none (some d) = update_db_disk d
after_file (some a) none = do update_db_disk a; success
after_file (some a) (some d) =
    if points_to (some a) d then update_db_disk a else (do update_db_disk a; update_db_disk d)

on_connection : Option Connection → Command → Command
on_connection none m w = (false, w)
on_connection (some c) m w = m w

-- workload_update_db with `s_file` not NULL
pub update_db : ℕ → Option ℕ → Command
unfolding on_connection after_file
update_db f d w = on_connection w.db (do update_db_file f; after_file (w.file f).assign_disk d) w

-- workload_update_db with `s_file` NULL
pub update_db_only_disk : ℕ → Command
unfolding on_connection
update_db_only_disk d w = on_connection w.db (update_db_disk d) w

pub reset_db : Command
unfolding on_connection
reset_db w =
    on_connection w.db
      (do
        query_set drop_file_table
        query_set drop_disk_table
        query_set create_disk_table
        query_set create_file_table)
      w
