-- ===== src/Store/Db/Frame.antt =====
-- What the database code leaves alone: it changes the connection and the two "inserted" flags only.
use workload.Prelude.{
  ℕ, if◌then◌else◌, points_to, Bool, true, false, Option, none, some, ◌≡◌, refl, arith, Bool-cases,
  inl, inr,
}
use workload.Store.Types.{
  Query, insert_file, insert_disk, drop_file_table, drop_disk_table, create_disk_table,
  create_file_table, Connection, Workload,
}
use workload.Store.Db.{
  Command, ◌>>◌, success, modify, query_set, mark_file_inserted, mark_disk_inserted, update_db_file,
  update_db_disk, first_file_row, first_disk_row, file_row, disk_row, after_file, on_connection,
  update_db, update_db_only_disk, reset_db,
}

-- `v` is `w` but for the connection and the flags.
pub record SameButDb (w v : Workload) : Type 0 where
  pub rest : v ≡ record w { db = v.db; file = v.file; disk = v.disk }
  pub file : (x : ℕ) → v.file x ≡ record (w.file x) { inserted_db = (v.file x).inserted_db }
  pub disk : (x : ℕ) → v.disk x ≡ record (w.disk x) { inserted_db = (v.disk x).inserted_db }

same_refl : (w : Workload) → SameButDb w w
same_refl w = record { rest = refl; file = λ x. refl; disk = λ x. refl }

same_trans : {u v w : Workload} → SameButDb u v → SameButDb v w → SameButDb u w
same_trans {u} {v} {w} p q = record {
  rest = ground (arith, p.rest, q.rest);
  file = λ x. ground (arith, p.file x, q.file x);
  disk = λ x. ground (arith, p.disk x, q.disk x);
}

abbrev Keeps : Command → Type 0
Keeps m = (w : Workload) → SameButDb w (m w).1

>>-Keeps : (m k : Command) → Keeps m → Keeps k → Keeps (m >> k)
>>-Keeps m k p q w = elim (Bool-cases (m w).0) [
  | inl done ↦ rw done (same_trans (p w) (q (m w).1))
  | inr stop ↦ rw stop (p w)
]

query_set-Keeps : (q : Query) → Keeps (query_set q)
unfolding query_set
query_set-Keeps q w = record { rest = refl; file = λ x. refl; disk = λ x. refl }

file_inserted-Keeps : (f : ℕ) → Keeps (modify (mark_file_inserted f))
file_inserted-Keeps f w = record { rest = refl; file = λ x. ground arith; disk = λ x. refl }

disk_inserted-Keeps : (d : ℕ) → Keeps (modify (mark_disk_inserted d))
disk_inserted-Keeps d w = record { rest = refl; file = λ x. refl; disk = λ x. ground arith }

first_file_row-Keeps : (b : Bool) (f id : ℕ) → Keeps (first_file_row b f id)
unfolding first_file_row
first_file_row-Keeps true f id = same_refl
first_file_row-Keeps false f id =
    >>-Keeps (query_set (insert_file id)) (modify (mark_file_inserted f))
      (query_set-Keeps (insert_file id)) (file_inserted-Keeps f)

update_db_file-Keeps : (f : ℕ) → Keeps (update_db_file f)
unfolding update_db_file
update_db_file-Keeps f w =
    >>-Keeps (first_file_row (w.file f).inserted_db f (w.file f).id) (query_set (file_row f w))
      (first_file_row-Keeps (w.file f).inserted_db f (w.file f).id) (query_set-Keeps (file_row f w))
      w

first_disk_row-Keeps : (b : Bool) (d : ℕ) (q : Query) → Keeps (first_disk_row b d q)
unfolding first_disk_row
first_disk_row-Keeps true d q = same_refl
first_disk_row-Keeps false d q =
    >>-Keeps (query_set q) (modify (mark_disk_inserted d)) (query_set-Keeps q)
      (disk_inserted-Keeps d)

update_db_disk-Keeps : (d : ℕ) → Keeps (update_db_disk d)
unfolding update_db_disk
update_db_disk-Keeps d w =
    let row = insert_disk (w.disk d).id (w.disk d).name (w.disk d).path in
    >>-Keeps (first_disk_row (w.disk d).inserted_db d row) (query_set (disk_row d w))
      (first_disk_row-Keeps (w.disk d).inserted_db d row) (query_set-Keeps (disk_row d w)) w

both_disks-Keeps :
    (b : Bool) (a d : ℕ)
    → Keeps (if b then update_db_disk a else (do update_db_disk a; update_db_disk d))
both_disks-Keeps true a d = update_db_disk-Keeps a
both_disks-Keeps false a d =
    >>-Keeps (update_db_disk a) (update_db_disk d) (update_db_disk-Keeps a) (update_db_disk-Keeps d)

after_file-Keeps : (a d : Option ℕ) → Keeps (after_file a d)
unfolding after_file
after_file-Keeps none none = same_refl
after_file-Keeps none (some d) = update_db_disk-Keeps d
after_file-Keeps (some a) none =
    >>-Keeps (update_db_disk a) success (update_db_disk-Keeps a) same_refl
after_file-Keeps (some a) (some d) = both_disks-Keeps (points_to (some a) d) a d

on_connection-Keeps : (c : Option Connection) (m : Command) → Keeps m → Keeps (on_connection c m)
unfolding on_connection
on_connection-Keeps none m p = same_refl
on_connection-Keeps (some c) m p = p

pub update_db-Keeps : (f : ℕ) (d : Option ℕ) (w : Workload) → SameButDb w (update_db f d w).1
unfolding update_db
update_db-Keeps f d w =
    on_connection-Keeps w.db (update_db_file f >> after_file (w.file f).assign_disk d)
      (>>-Keeps (update_db_file f) (after_file (w.file f).assign_disk d) (update_db_file-Keeps f)
        (after_file-Keeps (w.file f).assign_disk d))
      w

pub update_db_only_disk-Keeps : (d : ℕ) (w : Workload) → SameButDb w (update_db_only_disk d w).1
unfolding update_db_only_disk
update_db_only_disk-Keeps d w =
    on_connection-Keeps w.db (update_db_disk d) (update_db_disk-Keeps d) w

pub reset_db-Keeps : (w : Workload) → SameButDb w (reset_db w).1
unfolding reset_db
reset_db-Keeps w =
    let tables =
      >>-Keeps (query_set create_disk_table) (query_set create_file_table)
        (query_set-Keeps create_disk_table) (query_set-Keeps create_file_table) in
    let made = query_set create_disk_table >> query_set create_file_table in
    let three =
      >>-Keeps (query_set drop_disk_table) made (query_set-Keeps drop_disk_table) tables in
    on_connection-Keeps w.db (query_set drop_file_table >> (query_set drop_disk_table >> made))
      (>>-Keeps (query_set drop_file_table) (query_set drop_disk_table >> made)
        (query_set-Keeps drop_file_table) three)
      w
