-- ===== src/Control.antt =====
-- source/workload.c: the commands that a key or a line of a UDP packet gives, and the loop of an access
-- thread.
pub mod Udp
pub mod Client
pub mod System
pub mod Random
use workload.Prelude.{
  ℕ, ◌-◌, Bool, true, false, not, ◌&&◌, ◌||◌, Option, none, some, List, [], ◌∷◌, ltb, leb, ◌==◌,
  if◌then◌else◌, points_to, is_null, u64,
}
use workload.Prelude.Int.{ℤ, pos, is_pos, to_nat}
use workload.Store.Types.{Bytes, Cfg, Disk, Workload, update}
use workload.Store.Db.{update_db_only_disk}
use workload.Store.Access.{elapsed, for_each, reset_file_access_count}
use workload.Store.Assign.{MoveIo, file_relocate}
use workload.Text.Chars.{is_space, atoi}

-- The XML answers, by `<cmd>` and what the others of their fields say.
pub data Response : Type 0 where
  quit : Response
  restart : Response
  status : (relocate pause : Bool) (left right interval read write duration : ℕ) → Response
  relocate : (status : Bool) → Response
  pause : (status : Bool) → Response
  reset : Response
  left : (status : ℕ) (ack : Bool) → Response
  right : (status : ℕ) (ack : Bool) → Response

-- The body of the loops of workload_set_main_relocate and workload_toggle_main_relocate.
unfoldable pub restart_disk : ℕ → Workload → Workload
restart_disk d w =
    let v = record w {
      disk = update w.disk d (record (w.disk d) {
        read_count = 0;
        write_count = 0;
        time_stamp = w.time_stamp;
        fakeoff_time_stamp = w.time_stamp;
      });
    } in
    (update_db_only_disk d v).1

pub set_main_relocate : Bool → Workload → Workload
set_main_relocate flag w =
    let v = record w { relocate = flag } in for_each restart_disk v.disk_head v

pub toggle_main_relocate : Workload → Workload
toggle_main_relocate w = set_main_relocate (not w.relocate) w

unfoldable pub set_main_pause : Bool → Workload → Workload
set_main_pause flag w = record w { pause = flag }

pub toggle_main_pause : Workload → Workload
toggle_main_pause w = set_main_pause (not w.pause) w

pub update_main_time_stamp : (now : ℕ) → Workload → Workload
update_main_time_stamp now w = record w { time_stamp = now }

-- The state after a command, and the answer, which is empty for a command that is not known.
abbrev pub Outcome : Type 0
Outcome = Workload × Option Response

abbrev status_of : Workload → Response
status_of w =
    status w.relocate w.pause w.cfg.left_ratio w.cfg.right_ratio w.cfg.access_interval w.read_count
      w.write_count (elapsed w.time_stamp w.time_stamp_start)

-- A command of one byte. The answers of the calls out of a relocation are `io`.
pub key_command : (ℕ → MoveIo) → ℕ → Workload → Outcome
key_command io code w =
    let toggled = toggle_main_relocate w in
    let toggled_moved = if toggled.relocate then file_relocate io toggled else toggled in
    let moved = file_relocate io w in
    let paused = toggle_main_pause w in
    if code == 27 || code == b'q'
    then (record w { break = true }, some quit)
    else if code == b'Q'
    then (record w { reload = true; break = true }, some restart)
    else if code == b'?'
    then (w, some (status_of w))
    else if code == b'r'
    then (toggled_moved, some (relocate toggled_moved.relocate))
    else if code == b'o'
    then (moved, some (relocate moved.relocate))
    else if code == b'p'
    then (paused, some (pause paused.pause))
    else if code == b'S'
    then (file_relocate io (set_main_relocate true w), some (relocate true))
    else if code == b'K'
    then (set_main_relocate false w, some (relocate false))
    else if code == b'P'
    then (set_main_pause true w, some (pause true))
    else if code == b'R'
    then (set_main_pause false w, some (pause false))
    else if code == b'!'
    then (reset_file_access_count w, some reset)
    else (w, none)

-- `l` and `r` with an argument: the ratio is taken if it is positive.
pub ratio_command : ℕ → ℤ → Workload → Outcome
ratio_command code value w =
    if code == b'l'
    then if is_pos value
      then (
        record w { cfg = record w.cfg { left_ratio = to_nat value } },
        some (left (to_nat value) true),
      )
      else (w, some (left w.cfg.left_ratio false))
    else if code == b'r'
    then if is_pos value
      then (
        record w { cfg = record w.cfg { right_ratio = to_nat value } },
        some (right (to_nat value) true),
      )
      else (w, some (right w.cfg.right_ratio false))
    else (w, none)

-- workload_cmd
pub cmd : (ℕ → MoveIo) → Bytes → Workload → Outcome
unfolding key_command ratio_command
cmd io [] w = (w, none)
cmd io (code ∷ []) w = key_command io code w
cmd io (code ∷ gap ∷ argument) w =
    if is_space gap then ratio_command code (atoi argument) w else (w, none)
