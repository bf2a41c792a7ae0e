-- ===== src/Store/Assign.antt =====
-- source/workload_file.c and source/workload_relocate.c: a file moves from one disk to another. The
-- files of a disk form a doubly linked list through `m_assign_prev` and `m_assign_next`.
pub mod Lists
pub mod Chains
pub mod Placement
pub mod Relocation
pub mod Rest
pub mod New
use workload.Prelude.{
  ℕ, ◌+◌, ◌-◌, Bool, true, false, not, ◌&&◌, ◌||◌, Option, none, some, List, [], ◌∷◌, ◌++◌,
  if◌then◌else◌, ◌==◌, u64, points_to, is_null,
}
use workload.Store.Types.{Bytes, File, Disk, Workload, update}
use workload.Store.Db.{update_db}
use workload.Store.Access.{for_each}

-- What the calls out of one move answer: the pathnames of the old and the new place, the descriptors
-- of the old file, of the new one with O_EXCL and of the new one without, and the pathname that
-- workload_deassign_file asks for. The copied bytes and their number are not looked at by the code.
pub record MoveIo : Type 0 where
  pub from_pathname : Bool
  pub from_opened : Bool
  pub to_pathname : Bool
  pub created : Bool
  pub truncated : Bool
  pub delete_pathname : Bool

-- `"%s/%s"`
pathname : Workload → ℕ → ℕ → Bytes
pathname w f d = (w.disk d).path ++ b'/' ∷ (w.file f).filename

-- `->m_assign_prev = p` and `->m_assign_next = p`, through a pointer that may be NULL
pub set_prev : Option ℕ → Option ℕ → (ℕ → File) → ℕ → File
set_prev none p file = file
set_prev (some x) p file = update file x (record (file x) { assign_prev = p })

pub set_next : Option ℕ → Option ℕ → (ℕ → File) → ℕ → File
set_next none p file = file
set_next (some x) p file = update file x (record (file x) { assign_next = p })

-- The file is taken out of the list: its neighbours are joined, and its own pointers cleared.
pub unlink_files : ℕ → (ℕ → File) → ℕ → File
unfolding set_prev set_next
unlink_files f file =
    let joined =
      set_next (file f).assign_prev (file f).assign_next
        (set_prev (file f).assign_next (file f).assign_prev file) in
    update joined f
      (record (joined f) { assign_disk = none; assign_prev = none; assign_next = none })

-- The created file is deleted from the disk, if its pathname can be allocated.
pub delete_created : Bool → ℕ → ℕ → Workload → Workload
unfolding pathname
delete_created allocated f d w =
    if (w.file f).created && allocated
    then record w {
      file = update w.file f (record (w.file f) { created = false });
      deleted = pathname w f d ∷ w.deleted;
    }
    else w

-- workload_deassign_file of a file assigned to `d`
unfoldable pub deassign_from : Bool → ℕ → ℕ → Workload → Workload
unfolding delete_created unlink_files
deassign_from allocated f d w =
    let v = delete_created allocated f d w in
    record v {
      file = unlink_files f v.file;
      disk = update v.disk d (record (v.disk d) {
        assign_file =
            if is_null (v.file f).assign_prev
            then (v.file f).assign_next
            else (v.disk d).assign_file;
        assign_file_count = u64 ((v.disk d).assign_file_count + 18446744073709551615);
      });
    }

deassign_at : Option ℕ → Bool → ℕ → Workload → Workload
deassign_at none allocated f w = w
deassign_at (some d) allocated f w = deassign_from allocated f d w

-- workload_deassign_file
pub deassign_file : Bool → ℕ → Workload → Workload
unfolding deassign_at
deassign_file allocated f w = deassign_at (w.file f).assign_disk allocated f w

abbrev pub set_created : ℕ → Bool → Workload → Workload
set_created f flag w = record w { file = update w.file f (record (w.file f) { created = flag }) }

-- __workload_move_assign_file: `false` is -1. The flag "created" tells whether O_EXCL succeeded.
unfoldable pub move_from : Option ℕ → MoveIo → ℕ → Workload → Bool × Workload
move_from none io f w = (true, set_created f false w)
move_from (some old) io f w =
    if io.from_pathname && io.from_opened && io.to_pathname && (io.created || io.truncated)
    then (true, set_created f io.created (deassign_from io.delete_pathname f old w))
    else (false, w)

unfoldable pub move_assign_file : MoveIo → ℕ → Workload → Bool × Workload
unfolding move_from
move_assign_file io f w = move_from (w.file f).assign_disk io f w

-- The file becomes the first of the list of `d`.
pub link_files : ℕ → ℕ → Option ℕ → (ℕ → File) → ℕ → File
unfolding set_prev
link_files f d head file =
    let first =
      set_prev head (some f)
        (update file f (record (file f) { assign_prev = none; assign_next = head })) in
    update first f (record (first f) { assign_disk = some d })

pub link : ℕ → ℕ → Workload → Workload
unfolding link_files
link f d w = record w {
  file = link_files f d (w.disk d).assign_file w.file;
  disk = update w.disk d (record (w.disk d) {
    assign_file = some f;
    assign_file_count = u64 ((w.disk d).assign_file_count + 1);
  });
}

pub stamp_disk : Option ℕ → Workload → Workload
stamp_disk none w = w
stamp_disk (some d) w = record w {
  disk = update w.disk d (record (w.disk d) { time_stamp = w.time_stamp });
}

pub stamp_file : ℕ → Workload → Workload
stamp_file f w = record w {
  file = update w.file f (record (w.file f) { time_stamp = w.time_stamp });
}

-- workload_assign_file_to_disk, with no argument NULL
unfoldable pub assign_file_to_disk : MoveIo → ℕ → ℕ → Workload → Bool × Workload
unfolding stamp_disk stamp_file
assign_file_to_disk io f d w =
    let old = (w.file f).assign_disk in
    let (moved, v) = move_assign_file io f w in
    let stamped = stamp_disk (some d) (stamp_file f (stamp_disk old (link f d v))) in
    if points_to old d
    then (true, w)
    else if moved
    then (true, (update_db f none stamped).1)
    else (false, v)

unfoldable pub relocate_to : Option ℕ → MoveIo → ℕ → Workload → Workload
relocate_to none io f w = w
relocate_to (some d) io f w =
    let v = (assign_file_to_disk io f d w).1 in
    record v { file = update v.file f (record (v.file f) { reassign_disk = none }) }

-- The body of the loop of workload_file_relocate: the result of the move is not looked at.
unfoldable pub relocate_file : MoveIo → ℕ → Workload → Workload
unfolding relocate_to
relocate_file io f w = relocate_to (w.file f).reassign_disk io f w

-- workload_file_relocate, with what the calls answer for each file
unfoldable pub file_relocate : (ℕ → MoveIo) → Workload → Workload
file_relocate io w = for_each (λ f. relocate_file (io f) f) w.file_head w
