-- ===== src/Control/Udp.antt =====
-- source/workload.c: `workload_udp` reads the lines of a packet. The first line is a header, and the
-- others are commands.
pub mod Lines
use workload.Prelude.{
  ℕ, zero, suc, ◌+◌, ◌-◌, ◌<◌, ◌≤◌, ◌≡◌, ◌∙◌, refl, arith, Bool, true, false, not, ◌&&◌, ◌||◌,
  Bool-cases, inl, inr, Option, none, some, List, [], ◌∷◌, ◌==◌, if◌then◌else◌, length, ap,
}
use workload.Store.Types.{Bytes, Workload}
use workload.Store.Assign.{MoveIo}
use workload.Text.Chars.{same_bytes}
use workload.Control.{Response, Outcome, cmd}

-- `s_line_size <= 0`
abbrev is_empty : Bytes → Bool
is_empty [] = true
is_empty (c ∷ cs) = false

abbrev pub is_eol : ℕ → Bool
is_eol c = c == b'\n' || c == b'\r'

-- `for(;...;s_begin++);`
abbrev pub skip_eols : Bytes → Bytes
skip_eols [] = []
skip_eols (c ∷ cs) = if is_eol c then skip_eols cs else c ∷ cs

-- The line at the front, and what is behind it.
abbrev pub line : Bytes → Bytes
line [] = []
line (c ∷ cs) = if is_eol c then [] else c ∷ line cs

abbrev pub after_line : Bytes → Bytes
after_line [] = []
after_line (c ∷ cs) = if is_eol c then c ∷ cs else after_line cs

-- `strncpy` pads with zeros behind the first one.
abbrev zeros : Bytes → Bytes
zeros [] = []
zeros (c ∷ cs) = 0 ∷ zeros cs

abbrev pub copied : Bytes → Bytes
copied [] = []
copied (c ∷ cs) = if c == 0 then zeros (c ∷ cs) else c ∷ copied cs

-- The C string in the copy.
abbrev c_string : Bytes → Bytes
c_string [] = []
c_string (c ∷ cs) = if c == 0 then [] else c ∷ c_string cs

abbrev pub is_header : Bytes → Bool
is_header l = same_bytes (c_string l) (b'w' ∷ b'o' ∷ b'r' ∷ b'k' ∷ b'l' ∷ b'o' ∷ b'a' ∷ b'd' ∷ [])

-- The state, and the answers sent, the last one first. What the calls out of a relocation answer
-- depends on the number of answers sent before.
pub record Session : Type 0 where
  pub workload : Workload
  pub sent : List Response

abbrev pub replied : Option Response → List Response → List Response
replied none sent = sent
replied (some r) sent = r ∷ sent

-- One command line. An empty answer is not sent.
unfoldable pub obey : (ℕ → MoveIo) → Bytes → Session → Session
obey io l s = let (w, r) = cmd io l s.workload in record { workload = w; sent = replied r s.sent }

-- The loop over the lines, on fuel. `first` is `s_lines == 0`, and the malloc for a line succeeds.
pub packet_loop : ℕ → (ℕ → MoveIo) → (first valid : Bool) → Bytes → Session → Session
packet_loop zero io first valid bytes s = s
packet_loop (suc fuel) io first valid [] s = s
packet_loop (suc fuel) io first valid (b ∷ bs) s =
    let l = copied (line (skip_eols (b ∷ bs))) in
    let rest = after_line (skip_eols (b ∷ bs)) in
    let checked = if first then is_header l else valid in
    let t = if first then s else obey io l s in
    let skipped = packet_loop fuel io false valid rest s in
    let continued = packet_loop fuel io false checked rest t in
    if is_empty (line (skip_eols (b ∷ bs))) then skipped else if checked then continued else t

-- The lines of one packet received by workload_udp.
pub packet : (ℕ → MoveIo) → Bytes → Session → Session
unfolding packet_loop
packet io bytes s = packet_loop (length bytes) io true false bytes s
