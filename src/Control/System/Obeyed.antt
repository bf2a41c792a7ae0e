-- ===== src/Control/System/Obeyed.antt =====
-- source/workload.c: a command is a run of its parts.
use workload.Prelude.{ℕ, Bool, true, false, not, ◌||◌, Option, List, [], ◌∷◌, ◌==◌, if◌then◌else◌}
use workload.Prelude.Int.{ℤ, to_nat, is_pos}
use workload.Store.Types.{Bytes, Cfg, Workload}
use workload.Store.Access.{for_each}
use workload.Store.Assign.{MoveIo, relocate_file, file_relocate}
use workload.Text.Chars.{atoi, is_space}
use workload.Control.{
  Response, Outcome, restart_disk, set_main_relocate, toggle_main_relocate, set_main_pause,
  toggle_main_pause, key_command, ratio_command, cmd,
}
use workload.Control.System.{flagged, restarted, zeroed, Run, start, then_step}
use workload.Control.System.Parts.{Reaches, further, relocate_file-Reaches}

joined : {w v u : Workload} {k : ℕ} → Reaches w v → Run v k u → Reaches w u
joined p start = p
joined p (then_step n v u run step) = further (joined p run) step

each-Reaches :
    (g : ℕ → Workload → Workload) (xs : List ℕ) (w v : Workload)
    → ((x : ℕ) (u : Workload) → Reaches u (g x u))
    → Reaches w v
    → Reaches w (for_each g xs v)
each-Reaches g [] w v step p = p
each-Reaches g (x ∷ xs) w v step p =
    let (k, run) = step x v in each-Reaches g xs w (g x v) step (joined p run)

file_relocate-Reaches :
    (io : ℕ → MoveIo) (w v : Workload) → Reaches w v → Reaches w (file_relocate io v)
unfolding file_relocate
file_relocate-Reaches io w v p =
    each-Reaches (λ f. relocate_file (io f) f) v.file_head w v
      (λ f u. relocate_file-Reaches (io f) f u) p

set_main_relocate-Reaches : (flag : Bool) (w : Workload) → Reaches w (set_main_relocate flag w)
unfolding set_main_relocate
set_main_relocate-Reaches flag w =
    each-Reaches restart_disk w.disk_head w (record w { relocate = flag })
      (λ d u. further (0, start) (restarted d))
      (further (0, start) (flagged w.break w.reload w.cfg w.pause flag w.time_stamp))

-- The workload that a command leaves is reached by its parts.
record Parted (w : Workload) (o : Outcome) : Type 0 where
  reached : Reaches w o.0

chosen :
    {w : Workload} (b : Bool) {x y : Outcome}
    → Parted w x
    → Parted w y
    → Parted w (if b then x else y)
chosen true p q = p
chosen false p q = q

either : {w x y : Workload} (b : Bool) → Reaches w x → Reaches w y → Reaches w (if b then x else y)
either true p q = p
either false p q = q

answer : {w v : Workload} {r : Option Response} → Reaches w v → Parted w (v, r)
answer p = record { reached = p }

key_command-Parted : (io : ℕ → MoveIo) (code : ℕ) (w : Workload) → Parted w (key_command io code w)
unfolding key_command toggle_main_relocate toggle_main_pause set_main_pause
key_command-Parted io code w =
    let none_done : Reaches w w = (0, start) in
    let toggled = set_main_relocate (not w.relocate) w in
    let toggles = set_main_relocate-Reaches (not w.relocate) w in
    let starts = set_main_relocate-Reaches true w in
    let ends : (r : Bool) → Reaches w (record w { break = true; reload = r }) =
      λ r. further none_done (flagged true r w.cfg w.pause w.relocate w.time_stamp) in
    let pauses : (b : Bool) → Reaches w (record w { pause = b }) =
      λ b. further none_done (flagged w.break w.reload w.cfg b w.relocate w.time_stamp) in
    let moves : Reaches w (if toggled.relocate then file_relocate io toggled else toggled) =
      either toggled.relocate (file_relocate-Reaches io w toggled toggles) toggles in
    chosen (code == 27 || code == b'q') (answer (ends w.reload)) (
      chosen (code == b'Q') (answer (ends true)) (
        chosen (code == b'?') (answer none_done) (
          chosen (code == b'r') (answer moves) (
            chosen (code == b'o') (answer (file_relocate-Reaches io w w none_done)) (
              chosen (code == b'p') (answer (pauses (not w.pause))) (
                chosen (code == b'S')
                  (answer (file_relocate-Reaches io w (set_main_relocate true w) starts))
                  (chosen (code == b'K') (answer (set_main_relocate-Reaches false w)) (
                    chosen (code == b'P') (answer (pauses true)) (
                      chosen (code == b'R') (answer (pauses false)) (
                        chosen (code == b'!') (answer (further none_done zeroed))
                          (answer none_done)))))))))))

ratio_command-Parted : (code : ℕ) (value : ℤ) (w : Workload) → Parted w (ratio_command code value w)
unfolding ratio_command
ratio_command-Parted code value w =
    let none_done : Reaches w w = (0, start) in
    let other : (c : Cfg) → Reaches w (record w { cfg = c }) =
      λ c. further none_done (flagged w.break w.reload c w.pause w.relocate w.time_stamp) in
    chosen (code == b'l')
      (chosen (is_pos value) (answer (other (record w.cfg { left_ratio = to_nat value })))
        (answer none_done))
      (chosen (code == b'r')
        (chosen (is_pos value) (answer (other (record w.cfg { right_ratio = to_nat value })))
          (answer none_done))
        (answer none_done))

-- Every command is a run of the parts that the threads may take one by one.
cmd-Parted : (io : ℕ → MoveIo) (line : Bytes) (w : Workload) → Parted w (cmd io line w)
unfolding cmd
cmd-Parted io [] w = answer (0, start)
cmd-Parted io (code ∷ []) w = key_command-Parted io code w
cmd-Parted io (code ∷ gap ∷ argument) w =
    chosen (is_space gap) (ratio_command-Parted code (atoi argument) w) (answer (0, start))
