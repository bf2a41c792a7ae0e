-- ===== src/Control/Client.antt =====
-- source/workload_control.c: the client turns its options into the lines of a packet, and sends it to
-- the control socket of the server. What getopt_long finds is the list of the options.
pub mod Message
use workload.Prelude.{
  ℕ, ◌+◌, ◌-◌, Bool, true, false, ◌||◌, Option, none, some, List, [], ◌∷◌, ◌++◌, ltb, leb, ◌==◌,
  if◌then◌else◌, length, take,
}
use workload.Prelude.Int.{ℤ, pos}
use workload.Store.Types.{Bytes}

-- The options of `sg_workload_options`, with `optarg` where the code reads it.
pub data Choice : Type 0 where
  help quit restart pause resume oneshot start stop toggle status reset : Choice
  ip cmd left right : (optarg : Option Bytes) → Choice

-- `s_cmd_buffer` up to its NUL, `s_cmd_offset`, `g_workload_control_ip` and `s_do_help`. A call of
-- snprintf behind the end of the buffer is a fault.
pub record Client : Type 0 where
  pub buffer : Bytes
  pub offset : ℕ
  pub ip : Bytes
  pub do_help : Bool
  pub is_fault : Bool

-- `sizeof(s_cmd_buffer)`
abbrev pub buffer_size : ℕ
buffer_size = 4096

-- `s_cmd_offset += snprintf(&s_cmd_buffer[s_cmd_offset], sizeof(s_cmd_buffer) - s_cmd_offset, ...)`:
-- what does not fit before the NUL is cut off, and the offset grows by the whole length.
print_line : Bytes → Client → Client
print_line s c = if ltb buffer_size c.offset then record c { is_fault = true } else record c {
  buffer = c.buffer ++ take (buffer_size - c.offset - 1) s;
  offset = c.offset + length s;
}

-- The line of an option with an argument, which is left out where `optarg` is NULL.
print_argument : (prefix : Bytes) → Option Bytes → Client → Client
print_argument prefix none c = c
print_argument prefix (some s) c = print_line (prefix ++ s ++ b'\n' ∷ []) c

set_ip : Option Bytes → Client → Client
set_ip none c = c
set_ip (some s) c = record c { ip = s }

-- A command of one byte.
abbrev pub letter : ℕ → Bytes
letter b = b ∷ b'\n' ∷ []

-- The cases of the switch of workload_control_main.
pub choose : Choice → Client → Client
unfolding print_line print_argument set_ip
choose help c = record c { do_help = true }
choose quit c = print_line (letter b'q') c
choose restart c = print_line (letter b'Q') c
choose pause c = print_line (letter b'P') c
choose resume c = print_line (letter b'R') c
choose oneshot c = print_line (letter b'o') c
choose start c = print_line (letter b'S') c
choose stop c = print_line (letter b'K') c
choose toggle c = print_line (letter b'r') c
choose status c = print_line (letter b'?') c
choose reset c = print_line (letter b'!') c
choose (ip optarg) c = set_ip optarg c
choose (cmd optarg) c = print_argument [] optarg c
choose (left optarg) c = print_argument (b'l' ∷ b' ' ∷ []) optarg c
choose (right optarg) c = print_argument (b'r' ∷ b' ' ∷ []) optarg c

pub choose_all : List Choice → Client → Client
choose_all [] c = c
choose_all (o ∷ os) c = choose_all os (choose o c)

-- "127.0.0.1"
abbrev local : Bytes
local = b'1' ∷ b'2' ∷ b'7' ∷ b'.' ∷ b'0' ∷ b'.' ∷ b'0' ∷ b'.' ∷ b'1' ∷ []

abbrev pub new_client : Client
new_client = record { buffer = []; offset = 0; ip = local; do_help = false; is_fault = false }

abbrev pub header : Bytes
header = b'w' ∷ b'o' ∷ b'r' ∷ b'k' ∷ b'l' ∷ b'o' ∷ b'a' ∷ b'd' ∷ []

-- `"workload\n%s\n"`
abbrev pub message : Bytes → Bytes
message buffer = header ++ b'\n' ∷ (buffer ++ b'\n' ∷ [])

-- What the calls of one exchange answer: the memory for the message, socket, bind, the bytes sent, and
-- the bytes received.
pub record Exchange : Type 0 where
  pub allocated : Bool
  pub opened : Bool
  pub bound : Bool
  pub sent : ℤ
  pub received : ℤ

abbrev is_sent : ℤ → ℕ → Bool
is_sent (pos n) size = n == size
is_sent _ size = false

abbrev is_received : ℤ → Bool
is_received (pos n) = ltb 0 n
is_received _ = false

-- workload_control_txrx: `false` is -1.
control_txrx : (noresponse : Bool) → Exchange → Bytes → Bool
control_txrx noresponse io bytes =
    if io.opened
    then if io.bound
      then if is_sent io.sent (length bytes) then noresponse || is_received io.received else false
      else false
    else false

-- workload_control_command
control_command : Exchange → Bytes → Bool
control_command io bytes = if io.allocated then control_txrx false io bytes else false

-- What workload_control_main does behind the options: it prints the help, or sends a message.
pub data Done : Type 0 where
  helped : Done
  exchanged : (ip message : Bytes) → (is_success : Bool) → Done

abbrev is_empty : Bytes → Bool
is_empty [] = true
is_empty (_ ∷ _) = false

finish : Exchange → Client → Done
finish io c =
    if c.do_help || is_empty c.buffer
    then helped
    else exchanged c.ip (message c.buffer) (control_command io (message c.buffer))

-- workload_control_main, for the options found
pub control_main : Exchange → List Choice → Done
unfolding finish
control_main io options = finish io (choose_all options new_client)
