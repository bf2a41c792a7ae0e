-- ===== src/Control/Client/Message.antt =====
-- source/workload_control.c and workload_udp of source/workload.c: from the options of the client to the
-- commands of the server.
use workload.Prelude.{
  ℕ, zero, suc, ◌+◌, ◌-◌, ◌≤◌, ◌≡◌, ◌∙◌, sym, ap, refl, arith, Bool, true, false, ◌&&◌, Option,
  none, some, List, [], ◌∷◌, ◌++◌, if◌then◌else◌, length, length-append, take,
}
use mathlib.Core.Path.{ap₂}
use mathlib.Core.List.{append_assoc, append-nil}
use workload.Store.Types.{Bytes}
use workload.Store.Assign.{MoveIo}
use workload.Control.Udp.{is_eol, line, after_line, Session, packet}
use workload.Control.Udp.Lines.{lines, lines-line, obey_all, packet-lines, answer_lines}
use workload.Control.Client.{
  Choice, Client, choose, choose_all, new_client, message, print_line, print_argument, set_ip,
}

-- The command that an option stands for, if it stands for one.
abbrev pub command_of : Choice → Option Bytes
command_of Choice.help = none
command_of Choice.quit = some (b'q' ∷ [])
command_of Choice.restart = some (b'Q' ∷ [])
command_of Choice.pause = some (b'P' ∷ [])
command_of Choice.resume = some (b'R' ∷ [])
command_of Choice.oneshot = some (b'o' ∷ [])
command_of Choice.start = some (b'S' ∷ [])
command_of Choice.stop = some (b'K' ∷ [])
command_of Choice.toggle = some (b'r' ∷ [])
command_of Choice.status = some (b'?' ∷ [])
command_of Choice.reset = some (b'!' ∷ [])
command_of (Choice.ip optarg) = none
command_of (Choice.cmd optarg) = optarg
command_of (Choice.left none) = none
command_of (Choice.left (some s)) = some (b'l' ∷ b' ' ∷ s)
command_of (Choice.right none) = none
command_of (Choice.right (some s)) = some (b'r' ∷ b' ' ∷ s)

-- The commands of the options, in their order, without empty ones.
abbrev add_command : Option Bytes → List Bytes → List Bytes
add_command none ls = ls
add_command (some []) ls = ls
add_command (some (c ∷ cs)) ls = (c ∷ cs) ∷ ls

abbrev pub commands : List Choice → List Bytes
commands [] = []
commands (o ∷ os) = add_command (command_of o) (commands os)

abbrev text_of : Option Bytes → Bytes
text_of none = []
text_of (some l) = l ++ b'\n' ∷ []

abbrev pub text : List Choice → Bytes
text [] = []
text (o ∷ os) = text_of (command_of o) ++ text os

-- The argument of an option has no end of a line.
abbrev no_eol : Bytes → Bool
no_eol [] = true
no_eol (c ∷ cs) = (if is_eol c then false else true) && no_eol cs

abbrev is_line : Option Bytes → Bool
is_line none = true
is_line (some l) = no_eol l

abbrev pub are_lines : List Choice → Bool
are_lines [] = true
are_lines (o ∷ os) = is_line (command_of o) && are_lines os

line-eol : (l rest : Bytes) → no_eol l ≡ true → line (l ++ b'\n' ∷ rest) ≡ l
line-eol [] rest plain = refl
line-eol (c ∷ l) rest plain = ground (arith, line-eol l rest)

after_line-eol : (l rest : Bytes) → no_eol l ≡ true → after_line (l ++ b'\n' ∷ rest) ≡ b'\n' ∷ rest
after_line-eol [] rest plain = refl
after_line-eol (c ∷ l) rest plain = ground (arith, after_line-eol l rest)

lines-eol :
    (c : ℕ) (l rest : Bytes)
    → no_eol (c ∷ l) ≡ true
    → lines ((c ∷ l) ++ b'\n' ∷ rest) ≡ (c ∷ l) ∷ lines rest
lines-eol c l rest plain =
    let other : is_eol c ≡ false = ground arith in
    lines-line c (l ++ b'\n' ∷ rest) other
    ∙ ap₂ (λ x y. x ∷ lines y) (line-eol (c ∷ l) rest plain) (after_line-eol (c ∷ l) rest plain)

take_all : (n : ℕ) (s : Bytes) → length s ≤ n → take n s ≡ s
take_all zero [] h = refl
take_all (suc n) [] h = refl
take_all zero (c ∷ cs) h = absurd (omega arith)
take_all (suc n) (c ∷ cs) h = ap (◌∷◌ c) (take_all n cs (omega arith))

print_line-buffer :
    (s : Bytes) (c : Client)
    → c.offset + length s ≤ 4095
    → print_line s c ≡ record c { buffer = c.buffer ++ s; offset = c.offset + length s }
unfolding print_line
print_line-buffer s c room = ground (arith, take_all (4096 - c.offset - 1) s)

-- The client after options whose text fits: the text is behind what was in the buffer, and there is no
-- fault.
record Printed (s : Bytes) (c d : Client) : Type 0 where
  buffer : d.buffer ≡ c.buffer ++ s
  offset : d.offset ≡ c.offset + length s
  no_fault : d.is_fault ≡ c.is_fault

print_line-Printed :
    (s : Bytes) (c : Client) → c.offset + length s ≤ 4095 → Printed s c (print_line s c)
print_line-Printed s c room =
    rw (print_line-buffer s c room) (record { buffer = refl; offset = refl; no_fault = refl })

Printed-nil :
    (c d : Client)
    → d.buffer ≡ c.buffer
    → d.offset ≡ c.offset
    → d.is_fault ≡ c.is_fault
    → Printed [] c d
Printed-nil c d b o f = record {
  buffer = b ∙ sym (append-nil c.buffer);
  offset = omega (arith, o);
  no_fault = f;
}

print_argument-Printed :
    (prefix : Bytes) (s : Bytes) (c : Client)
    → c.offset + length (prefix ++ s ++ b'\n' ∷ []) ≤ 4095
    → Printed (prefix ++ s ++ b'\n' ∷ []) c (print_argument prefix (some s) c)
unfolding print_argument
print_argument-Printed prefix s c room = print_line-Printed _ c room

choose-Printed :
    (o : Choice) (c : Client)
    → c.offset + length (text_of (command_of o)) ≤ 4095
    → Printed (text_of (command_of o)) c (choose o c)
unfolding choose print_argument set_ip
choose-Printed Choice.help c room = Printed-nil c _ refl refl refl
choose-Printed Choice.quit c room = print_line-Printed _ c room
choose-Printed Choice.restart c room = print_line-Printed _ c room
choose-Printed Choice.pause c room = print_line-Printed _ c room
choose-Printed Choice.resume c room = print_line-Printed _ c room
choose-Printed Choice.oneshot c room = print_line-Printed _ c room
choose-Printed Choice.start c room = print_line-Printed _ c room
choose-Printed Choice.stop c room = print_line-Printed _ c room
choose-Printed Choice.toggle c room = print_line-Printed _ c room
choose-Printed Choice.status c room = print_line-Printed _ c room
choose-Printed Choice.reset c room = print_line-Printed _ c room
choose-Printed (Choice.ip none) c room = Printed-nil c _ refl refl refl
choose-Printed (Choice.ip (some s)) c room = Printed-nil c _ refl refl refl
choose-Printed (Choice.cmd none) c room = Printed-nil c _ refl refl refl
choose-Printed (Choice.cmd (some s)) c room = print_line-Printed _ c room
choose-Printed (Choice.left none) c room = Printed-nil c _ refl refl refl
choose-Printed (Choice.left (some s)) c room = print_line-Printed _ c room
choose-Printed (Choice.right none) c room = Printed-nil c _ refl refl refl
choose-Printed (Choice.right (some s)) c room = print_line-Printed _ c room

choose_all-Printed :
    (os : List Choice) (c : Client)
    → c.offset + length (text os) ≤ 4095
    → Printed (text os) c (choose_all os c)
unfolding choose_all
choose_all-Printed [] c room = Printed-nil c c refl refl refl
choose_all-Printed (o ∷ os) c room =
    let size = length-append {0} (text_of (command_of o)) (text os) in
    let p = choose-Printed o c (omega (arith, size)) in
    let q = choose_all-Printed os (choose o c) (omega (arith, size, p.offset)) in
    record {
      buffer = q.buffer ∙ ap (λ b. b ++ text os) p.buffer ∙ append_assoc c.buffer _ (text os);
      offset = omega (arith, size, p.offset, q.offset);
      no_fault = q.no_fault ∙ p.no_fault;
    }

lines-text_of :
    (command : Option Bytes) (rest : Bytes)
    → is_line command ≡ true
    → lines (text_of command ++ rest) ≡ add_command command (lines rest)
lines-text_of none rest plain = refl
lines-text_of (some []) rest plain = refl
lines-text_of (some (c ∷ l)) rest plain =
    ap lines (append_assoc (c ∷ l) (b'\n' ∷ []) rest) ∙ lines-eol c l rest plain

lines-text : (os : List Choice) → are_lines os ≡ true → lines (text os ++ b'\n' ∷ []) ≡ commands os
lines-text [] plain = refl
lines-text (o ∷ os) plain =
    let first : is_line (command_of o) ≡ true = ground arith in
    let rest : are_lines os ≡ true = ground arith in
    ap lines (append_assoc (text_of (command_of o)) (text os) (b'\n' ∷ []))
    ∙ lines-text_of (command_of o) (text os ++ b'\n' ∷ []) first
    ∙ ap (add_command (command_of o)) (lines-text os rest)

-- If the text of the options fits into the buffers of the client and of the server, and no argument has
-- the end of a line in it, then the client writes into its buffer only, and the server obeys, in a
-- packet with its message, exactly the commands of the options, in their order. `--ip` and an option
-- without its argument are no command.
pub packet-choose_all :
    (os : List Choice) (io : ℕ → MoveIo) (s : Session)
    → length (text os) ≤ 4086
    → are_lines os ≡ true
    → ((choose_all os new_client).is_fault ≡ false)
      × (packet io (message (choose_all os new_client).buffer) s ≡ obey_all io (commands os) s)
packet-choose_all os io s room plain =
    let p = choose_all-Printed os new_client (omega arith) in
    (
      p.no_fault,
      ap (λ b. packet io (message b) s) p.buffer
          ∙ packet-lines io (message (text os)) s
          ∙ ap (λ ls. answer_lines io ls s)
              (lines-eol b'w' (b'o' ∷ b'r' ∷ b'k' ∷ b'l' ∷ b'o' ∷ b'a' ∷ b'd' ∷ [])
                (text os ++ b'\n' ∷ []) refl)
          ∙ ap (λ ls. obey_all io ls s) (lines-text os plain),
    )
