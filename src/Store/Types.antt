-- ===== src/Store/Types.antt =====
-- include/workload.h: `workload_file_t`, `workload_disk_t`, `workload_cfg_t` and `workload_t`.
use workload.Prelude.{ℕ, Bool, List, Option, ◌==◌, if◌then◌else◌, u64, ◌+◌}
use workload.Prelude.Int.{ℤ}

abbrev pub Bytes : Type 0
Bytes = List ℕ

-- `workload_file_t`. The bits of `m_flags` are Booleans; `m_prev` and `m_next` are `file_head` below.
pub record File : Type 0 where
  pub assign_prev : Option ℕ
  pub assign_next : Option ℕ
  pub assign_disk : Option ℕ
  pub reassign_disk : Option ℕ
  pub created : Bool
  pub inserted_db : Bool
  pub index : ℕ
  pub id : ℕ
  pub filename : Bytes
  pub read_count : ℕ
  pub write_count : ℕ
  pub time_stamp : ℕ

-- `workload_disk_t`. `m_service` belongs to the disk threads.
pub record Disk : Type 0 where
  pub create_path : Bool
  pub inserted_db : Bool
  pub id : ℕ
  pub name : Bytes
  pub path : Bytes
  pub fakeoff_delay : ℤ
  pub read_count : ℕ
  pub write_count : ℕ
  pub time_stamp : ℕ
  pub fakeoff_time_stamp : ℕ
  pub assign_file_count : ℕ
  pub assign_file : Option ℕ

-- The queries that source/workload_db.c formats, with their values.
pub data Query : Type 0 where
  drop_file_table drop_disk_table create_disk_table create_file_table : Query
  insert_file : (id : ℕ) → Query
  update_file : (id disk_id read write access : ℕ) (pathname : Bytes) → Query
  insert_disk : (id : ℕ) (name pathname : Bytes) → Query
  update_disk : (id files read write access : ℕ) → Query

-- The database behind `m_db`: what workload_db_query_set answers to a query after those sent before
-- it (`false` is -1), and the queries sent, the last one first.
pub record Connection : Type 0 where
  pub answer : List Query → Query → Bool
  pub sent : List Query

-- `workload_cfg_t`, but for the name of its file. `m_filesize` is never negative once the configuration
-- is parsed.
pub record Cfg : Type 0 where
  pub left_ratio : ℕ
  pub right_ratio : ℕ
  pub duration : ℕ
  pub access_interval : ℕ
  pub files_remove : Bool
  pub files_assign_method : ℕ
  pub prefix : Option Bytes
  pub suffix : Option Bytes
  pub filecount : ℕ
  pub filesize : ℕ
  pub access_method : ℕ
  pub access_sync : Bool
  pub access_sendfile : Bool
  pub access_threads : ℤ

-- `workload_t`. `file_head` and `disk_head` are the addresses met by walking `m_next`. The arrays
-- `m_file_ordered`, `m_file_sorted` and `m_disk` are lists, and the counters stand beside them.
pub record Workload : Type 0 where
  pub break : Bool
  pub reload : Bool
  pub cfg : Cfg
  pub db : Option Connection
  pub time_stamp : ℕ
  pub time_stamp_start : ℕ
  pub pause : Bool
  pub relocate : Bool
  pub disk_ready_count : ℕ
  pub disk_error_count : ℕ
  pub read_count : ℕ
  pub write_count : ℕ
  pub file : ℕ → File
  pub disk : ℕ → Disk
  pub disk_head : List ℕ
  pub disk_count : ℕ
  pub disk_array : List ℕ
  pub max_name_size : ℕ
  pub file_head : List ℕ
  pub file_count : ℕ
  pub file_ordered : List ℕ
  pub file_sorted : List ℕ
  pub next_file_index : Option (List ℕ)
  -- the paths handed to workload_delete, the last one first
  pub deleted : List Bytes

-- A write to one cell of a heap.
abbrev pub update {ℓ} : {A : Type ℓ} → (ℕ → A) → ℕ → A → ℕ → A
update h p v q = if p == q then v else h q

-- `m_read_count + m_write_count`
abbrev pub access_count : File → ℕ
access_count f = u64 (f.read_count + f.write_count)
