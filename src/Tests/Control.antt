-- ===== src/Tests/Control.antt =====
-- The theorems on the commands and the threads, on the sample workload.
use workload.Prelude.{
  ℕ, ◌+◌, ◌≤◌, length, ◌<◌, ◌≡◌, refl, arith, true, false, ◌∙◌, contains, none, some, List, [], ◌∷◌,
}
use workload.Store.Types.{Bytes, Workload}
use workload.Control.{cmd}
use workload.Control.System.{Run, start, then_step, commanded, unlinked, noted, linked, IsSound}
use workload.Control.System.Packet.{packet-IsSound}
use workload.Control.System.Reach.{Run-IsSound, file_access-IsSound}
use workload.Control.Random.{
  Window, final_window, access_random_index, access_random_index_inside, access_random_index_onto,
}
use workload.Control.Udp.{Session, packet}
use workload.Control.Udp.Lines.{lines, answer_lines, packet-lines}
use workload.Control.Client.{Choice, choose_all, new_client, message}
use workload.Control.Client.Message.{commands, packet-choose_all}
use workload.Control.Udp.Lines.{obey_all}
use workload.Store.Access.{file_access}
use workload.Store.Assign.{deassign_from, link}
use workload.Store.Access.{Delta, note_access}
use workload.Store.Access.Assigned.{note_access-SameAssign}
use workload.Tests.Sample.{sample, move_io, access_io, sample-IsSound}

-- A file leaves its disk, another one is read before it reaches the next disk, and then the relocation is
-- switched on.
abbrev off_disk : Workload
off_disk = deassign_from true 1 0 sample

abbrev one_read : Delta
one_read = record { read = true; write = false }

abbrev read_meanwhile : Workload
read_meanwhile = note_access one_read 0 0 off_disk

abbrev on_disk : Workload
on_disk = link 1 1 read_meanwhile

off_disk_linked : ((off_disk.file 0).assign_disk ≡ some 0) × (contains 0 off_disk.file_head ≡ true)
unfolding deassign_from
off_disk_linked = (refl, refl)

read_meanwhile_free : (read_meanwhile.file 1).assign_disk ≡ none
unfolding deassign_from
read_meanwhile_free = (note_access-SameAssign one_read 0 0 off_disk).assigned 1 ∙ refl

Run-IsSound_example : IsSound 5 (cmd (λ f. move_io) (b'r' ∷ []) on_disk).0
Run-IsSound_example =
    Run-IsSound 1 sample 4 (cmd (λ f. move_io) (b'r' ∷ []) on_disk).0 sample-IsSound
      (then_step 3 on_disk _
        (then_step 2 read_meanwhile _
          (then_step 1 off_disk _ (then_step 0 sample _ start (unlinked true 1 0 refl))
            (noted one_read 0 0 off_disk_linked.1 off_disk_linked.0 refl))
          (linked 1 1 read_meanwhile_free))
        (commanded (λ f. move_io) (b'r' ∷ [])))
      (omega arith)

file_access-IsSound_example : IsSound 2 (file_access access_io 0 sample).1
file_access-IsSound_example =
    file_access-IsSound access_io 0 1 sample refl sample-IsSound (omega arith)

access_random_index_inside_example :
    (t : Window) × (final_window (λ k. 9) sample ≡ some t)
    × (t.count ≡ 1)
    × (access_random_index (λ k. 9) sample ≡ some t.entry)
    × (t.entry < 2)
access_random_index_inside_example =
    access_random_index_inside (λ k. 9) sample (omega arith) (omega arith)

access_random_index_onto_example :
    (draw : ℕ → ℕ) × ((k : ℕ) → draw k < 2147483648) × (access_random_index draw sample ≡ some 1)
access_random_index_onto_example =
    access_random_index_onto sample 1 (omega arith) (omega arith) (omega arith) (omega arith)
      (omega arith)

-- "workload", and a command behind it
abbrev bytes : Bytes
bytes = b'w' ∷ b'o' ∷ b'r' ∷ b'k' ∷ b'l' ∷ b'o' ∷ b'a' ∷ b'd' ∷ b'\n' ∷ b'P' ∷ b'\n' ∷ []

abbrev session : Session
session = record { workload = sample; sent = [] }

packet-lines_example :
    packet (λ f. move_io) bytes session ≡ answer_lines (λ f. move_io) (lines bytes) session
packet-lines_example = packet-lines (λ f. move_io) bytes session

-- The client with `--pause --left=7`.
abbrev options : List Choice
options = Choice.pause ∷ Choice.left (some (b'7' ∷ [])) ∷ []

packet-choose_all_example :
    ((choose_all options new_client).is_fault ≡ false)
    × (packet (λ f. move_io) (message (choose_all options new_client).buffer) session
        ≡ obey_all (λ f. move_io) (commands options) session)
packet-choose_all_example = packet-choose_all options (λ f. move_io) session (omega arith) refl

packet-IsSound_example :
    (n : ℕ) × (n ≤ length (lines bytes))
    × Run sample n (packet (λ f. move_io) bytes session).workload
    × IsSound (1 + n) (packet (λ f. move_io) bytes session).workload
packet-IsSound_example = packet-IsSound (λ f. move_io) bytes 1 session sample-IsSound (omega arith)
