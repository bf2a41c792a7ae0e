-- ===== src/Store/Access.antt =====
-- source/workload_access.c: one access to a file, the ranking of the files by access count that it
-- keeps, and the disks that the files are to move to.
pub mod Counts
pub mod Ranked
pub mod Planned
pub mod Assigned
pub mod Reset
pub mod Steps
use workload.Prelude.{
  ℕ, zero, suc, ◌+◌, ◌-◌, ◌%◌, Bool, true, false, not, ◌&&◌, ◌||◌, Option, none, some, List, [],
  ◌∷◌, ltb, leb, ◌==◌, if◌then◌else◌, points_to, u64, get_or, set,
}
use workload.Prelude.Int.{ℤ, pos, negsuc, minus_one, is_pos, to_nat, is_minus_one}
use workload.Store.Types.{File, Disk, Workload, update, access_count}
use workload.Store.Ranking.{sort_index, mark_disks}
use workload.Store.Db.{update_db, update_db_only_disk}

-- What the calls out of one access answer: whether the pathname was allocated and the file opened,
-- the number drawn, and for each round of the transfer loop the break flag seen and what read or
-- write returned. Once the list is used up the answer is 0, which ends the loop.
pub record AccessIo : Type 0 where
  pub pathname : Bool
  pub rand : ℕ
  pub opened : Bool
  pub rounds : List (Bool × ℤ)

-- `while((*m_break_ptr == 0) && (workload_read(...) > 0)) s_delta_read = 1;`
unfoldable pub read_loop : List (Bool × ℤ) → Bool → Bool
read_loop [] delta = delta
read_loop ((break, got) ∷ rounds) delta =
    let rest = read_loop rounds true in if not break && is_pos got then rest else delta

-- What a write loop has come to: `s_offset`, and whether anything was written.
pub record Written : Type 0 where
  pub offset : ℕ
  pub delta : Bool

-- `s_want_size`, with a buffer of 4096 bytes
abbrev pub want_size : (filesize offset : ℕ) → ℕ
want_size filesize offset = if leb 4096 (filesize - offset) then 4096 else filesize - offset

unfoldable pub write_loop : ℕ → List (Bool × ℤ) → Written → Written
write_loop filesize [] s = s
write_loop filesize ((break, put) ∷ rounds) s =
    let rest =
      write_loop filesize rounds (record { offset = s.offset + to_nat put; delta = true }) in
    if not break && ltb s.offset filesize && is_pos put then rest else s

-- `(unsigned long long)m_fakeoff_delay`
unsigned_delay : ℤ → ℕ
unsigned_delay (pos n) = n
unsigned_delay (negsuc n) = 18446744073709551615 - n

-- The time stamps wrap at 64 bits, and so does their difference.
abbrev pub elapsed : (now since : ℕ) → ℕ
elapsed now since = u64 (now + 18446744073709551616 - since)

-- The access is only pretended: relocation is on, and the disk has been off for its delay.
unfoldable pub is_fake_access : Workload → ℕ → Bool
unfolding unsigned_delay
is_fake_access w d =
    w.relocate
    && not (is_minus_one (w.disk d).fakeoff_delay)
    && leb (unsigned_delay (w.disk d).fakeoff_delay)
        (elapsed w.time_stamp (w.disk d).fakeoff_time_stamp)

-- `s_access_mode == 0`
abbrev pub is_read_mode : Workload → ℕ → Bool
is_read_mode w rand =
    if w.cfg.access_method == 1
    then true
    else if w.cfg.access_method == 2
    then false
    else rand % 2 == 0

-- `s_delta_read` and `s_delta_write`
pub record Delta : Type 0 where
  pub read : Bool
  pub write : Bool

-- The transfer of one access, on the file's disk `d`.
unfoldable pub transfer : AccessIo → ℕ → Workload → Delta
unfolding read_loop write_loop
transfer io d w =
    if is_fake_access w d
    then record { read = false; write = false }
    else if is_read_mode w io.rand
    then record { read = io.opened && read_loop io.rounds (w.cfg.filesize == 0); write = false }
    else record {
      read = false;
      write =
          io.opened
          && (write_loop w.cfg.filesize io.rounds
              (record { offset = 0; delta = w.cfg.filesize == 0 })).delta;
    }

abbrev pub bit : Bool → ℕ
bit true = 1
bit false = 0

-- The counters of the file, of its disk `d` and of the whole workload.
abbrev count_file : Delta → ℕ → ℕ → Workload → Workload
count_file delta f d w = record w {
  file = update w.file f (record (w.file f) {
    read_count = u64 ((w.file f).read_count + bit delta.read);
    write_count = u64 ((w.file f).write_count + bit delta.write);
    time_stamp = w.time_stamp;
  });
}

abbrev count_disk : Delta → ℕ → Workload → Workload
count_disk delta d w = record w {
  disk = update w.disk d (record (w.disk d) {
    read_count = u64 ((w.disk d).read_count + bit delta.read);
    write_count = u64 ((w.disk d).write_count + bit delta.write);
    time_stamp = w.time_stamp;
  });
}

abbrev count_total : Delta → Workload → Workload
count_total delta w = record w {
  read_count = u64 (w.read_count + bit delta.read);
  write_count = u64 (w.write_count + bit delta.write);
}

pub count_access : Delta → ℕ → ℕ → Workload → Workload
count_access delta f d w = count_total delta (count_disk delta d (count_file delta f d w))

-- "sort index", for a file whose count has grown
pub sort_files : ℕ → Workload → Workload
sort_files f w =
    let r =
      sort_index f (access_count (w.file f)) (w.file f).index
        (record { file = w.file; sorted = w.file_sorted }) in
    record w { file = r.file; file_sorted = r.sorted }

pub retarget_by : Option (List ℕ) → Workload → Workload
retarget_by none w = w
retarget_by (some nexts) w = record w {
  file = mark_disks w.file_sorted w.disk_array nexts 0 w.file;
}

-- `if(m_next_file_index != NULL) ...`
pub retarget_files : Workload → Workload
unfolding retarget_by
retarget_files w = retarget_by w.next_file_index w

-- What follows a transfer that moved data. The result of workload_update_db is not looked at.
pub note_access : Delta → ℕ → ℕ → Workload → Workload
note_access delta f d w =
    (update_db f (some d) (retarget_files (sort_files f (count_access delta f d w)))).1

-- workload_file_access from the test of `m_assign_disk` on
unfoldable pub access_on : Option ℕ → AccessIo → ℕ → Workload → ℤ × Workload
access_on none io f w = (pos 0, w)
access_on (some d) io f w =
    let delta = transfer io d w in
    if not io.pathname
    then (minus_one, w)
    else if delta.read || delta.write
    then (pos (bit delta.read + bit delta.write), note_access delta f d w)
    else (pos 0, w)

unfoldable pub file_access : AccessIo → ℕ → Workload → ℤ × Workload
unfolding access_on
file_access io f w = access_on (w.file f).assign_disk io f w

-- `for(p = head;p != NULL;p = p->m_next) ...`
abbrev pub for_each : (ℕ → Workload → Workload) → List ℕ → Workload → Workload
for_each body [] w = w
for_each body (x ∷ xs) w = for_each body xs (body x w)

pub reset_file : ℕ → Workload → Workload
reset_file f w =
    let v = record w {
      file =
          update w.file f
            (record (w.file f) { read_count = 0; write_count = 0; time_stamp = w.time_stamp });
    } in
    (update_db f none v).1

pub reset_disk : ℕ → Workload → Workload
reset_disk d w =
    let v = record w {
      disk =
          update w.disk d
            (record (w.disk d) { read_count = 0; write_count = 0; time_stamp = w.time_stamp });
    } in
    (update_db_only_disk d v).1

-- workload_reset_file_access_count
pub reset_file_access_count : Workload → Workload
reset_file_access_count w =
    let v = for_each reset_file w.file_head w in
    let u = for_each reset_disk v.disk_head v in record u { read_count = 0; write_count = 0 }
