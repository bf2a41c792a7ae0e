-- ===== src/Control/Udp/Lines.antt =====
-- source/workload.c: what workload_udp does with a packet, as the list of its lines.
use workload.Prelude.{
  ℕ, zero, suc, ◌≤◌, ◌≡◌, ◌∙◌, sym, refl, arith, Bool, true, false, Bool-cases, inl, inr, ◌⊎◌, List,
  [], ◌∷◌, if◌then◌else◌, length, ap,
}
use workload.Store.Types.{Bytes}
use workload.Store.Assign.{MoveIo}
use workload.Control.Udp.{
  is_eol, skip_eols, line, after_line, copied, is_header, Session, obey, packet_loop, packet,
}

-- A byte in front of a text: it begins a line, or stands in front of the first line.
abbrev glue : ℕ → Bytes → List Bytes → List Bytes
glue c [] ls = (c ∷ []) ∷ ls
glue c (d ∷ ds) [] = (c ∷ []) ∷ []
glue c (d ∷ ds) (l ∷ ls) = if is_eol d then (c ∷ []) ∷ l ∷ ls else (c ∷ l) ∷ ls

-- The lines of a text: the longest runs of bytes that do not end a line.
abbrev pub lines : Bytes → List Bytes
lines [] = []
lines (c ∷ cs) = if is_eol c then lines cs else glue c cs (lines cs)

lines-skip_eols : (bs : Bytes) → lines (skip_eols bs) ≡ lines bs
lines-skip_eols [] = refl
lines-skip_eols (c ∷ cs) = elim (Bool-cases (is_eol c)) [
  | inl eol ↦ rw eol (lines-skip_eols cs)
  | inr other ↦ rw other (rw other refl)
]

lines_eol : (d : ℕ) (ds : Bytes) → is_eol d ≡ true → lines (d ∷ ds) ≡ lines ds
lines_eol d ds eol = rw eol refl

glue_eol :
    (c d : ℕ) (ds : Bytes) (ls : List Bytes) → is_eol d ≡ true → glue c (d ∷ ds) ls ≡ (c ∷ []) ∷ ls
glue_eol c d ds [] eol = refl
glue_eol c d ds (l ∷ ls) eol = rw eol refl

glue_other :
    (c d : ℕ) (ds l : Bytes) (ls : List Bytes)
    → is_eol d ≡ false
    → glue c (d ∷ ds) (l ∷ ls) ≡ (c ∷ l) ∷ ls
glue_other c d ds l ls other = rw other refl

pub lines-line :
    (c : ℕ) (cs : Bytes)
    → is_eol c ≡ false
    → lines (c ∷ cs) ≡ line (c ∷ cs) ∷ lines (after_line (c ∷ cs))
lines-line c [] other = rw other refl
lines-line c (d ∷ ds) other = elim (Bool-cases (is_eol d)) [
  | inl eol ↦
      rw (other, eol)
        (glue_eol c d ds (lines ds) eol ∙ ap (λ t. (c ∷ []) ∷ t) (sym (lines_eol d ds eol)))
  | inr more ↦
      let rest = rw more at (lines-line d ds more) in
      rw (other, more)
        (ap (glue c (d ∷ ds)) rest ∙ glue_other c d ds (d ∷ line ds) (lines (after_line ds)) more)
]

skip_eols-cases :
    (bs : Bytes)
    → (skip_eols bs ≡ []) ⊎ ((c : ℕ) × (cs : Bytes) × (skip_eols bs ≡ c ∷ cs) × (is_eol c ≡ false))
skip_eols-cases [] = inl refl
skip_eols-cases (c ∷ cs) = elim (Bool-cases (is_eol c)) [
  | inl eol ↦ rw eol (skip_eols-cases cs)
  | inr other ↦ inr (c, cs, rw other refl, other)
]

length-skip_eols : (bs : Bytes) → length (skip_eols bs) ≤ length bs
length-skip_eols [] = omega arith
length-skip_eols (c ∷ cs) = ground (arith, length-skip_eols cs)

length-after_line : (bs : Bytes) → length (after_line bs) ≤ length bs
length-after_line [] = omega arith
length-after_line (c ∷ cs) = ground (arith, length-after_line cs)

abbrev pub obey_all : (ℕ → MoveIo) → List Bytes → Session → Session
obey_all io [] s = s
obey_all io (l ∷ ls) s = obey_all io ls (obey io (copied l) s)

blank_lines : (bs : Bytes) → skip_eols bs ≡ [] → lines bs ≡ []
blank_lines bs at = sym (lines-skip_eols bs) ∙ ap lines at

first_line :
    (bs : Bytes) (c : ℕ) (cs : Bytes)
    → skip_eols bs ≡ c ∷ cs
    → is_eol c ≡ false
    → lines bs ≡ (c ∷ line cs) ∷ lines (after_line cs)
first_line bs c cs at other =
    sym (lines-skip_eols bs) ∙ ap lines at ∙ lines-line c cs other ∙ rw other refl

length-suc :
    (bs : Bytes) (c : ℕ) (cs : Bytes)
    → skip_eols bs ≡ c ∷ cs
    → length (skip_eols bs) ≤ length bs
    → suc (length cs) ≤ length bs
length-suc bs c cs at small = rw at at small

module _ (io : ℕ → MoveIo) where
  loop_end :
      (fuel : ℕ) (first valid : Bool) (s : Session) → packet_loop fuel io first valid [] s ≡ s
  unfolding packet_loop
  loop_end zero first valid s = refl
  loop_end (suc fuel) first valid s = refl

  loop_blank :
      (fuel : ℕ) (first valid : Bool) (b : ℕ) (bs : Bytes) (s : Session)
      → skip_eols (b ∷ bs) ≡ []
      → packet_loop (suc fuel) io first valid (b ∷ bs) s ≡ s
  unfolding packet_loop
  loop_blank fuel first valid b bs s at = rw at (loop_end fuel false valid s)

  -- A round of the loop, at the front of a packet that is not used up.
  loop_round :
      (fuel : ℕ) (first valid : Bool) (b : ℕ) (bs : Bytes) (s : Session) (c : ℕ) (cs : Bytes)
      → skip_eols (b ∷ bs) ≡ c ∷ cs
      → is_eol c ≡ false
      → packet_loop (suc fuel) io first valid (b ∷ bs) s ≡ (
          if (if first then is_header (copied (c ∷ line cs)) else valid)
          then packet_loop fuel io false
              (if first then is_header (copied (c ∷ line cs)) else valid)
              (after_line cs)
              (if first then s else obey io (copied (c ∷ line cs)) s)
          else (if first then s else obey io (copied (c ∷ line cs)) s))
  unfolding packet_loop
  loop_round fuel first valid b bs s c cs at other = rw at (rw other refl)

  -- Behind the header, every line is obeyed.
  loop_obey :
      (fuel : ℕ) (bytes : Bytes) (s : Session)
      → length bytes ≤ fuel
      → packet_loop fuel io false true bytes s ≡ obey_all io (lines bytes) s
  loop_obey fuel [] s enough = loop_end fuel false true s
  loop_obey zero (b ∷ bs) s enough = absurd (omega arith)
  loop_obey (suc fuel) (b ∷ bs) s enough = elim (skip_eols-cases (b ∷ bs)) [
    | inl none_left ↦
        loop_blank fuel false true b bs s none_left
        ∙ ap (λ ls. obey_all io ls s) (sym (blank_lines (b ∷ bs) none_left))
    | inr (c, cs, at, other) ↦
        let l = line (c ∷ cs) in
        let small = length-skip_eols (b ∷ bs) in
        let shorter : length (after_line cs) ≤ fuel =
          omega (arith, length-after_line cs, length-suc (b ∷ bs) c cs at small) in
        loop_round fuel false true b bs s c cs at other
        ∙ loop_obey fuel (after_line cs) (obey io (copied (c ∷ line cs)) s) shorter
        ∙ ap (λ ls. obey_all io ls s) (sym (first_line (b ∷ bs) c cs at other))
  ]

header_round :
    (io : ℕ → MoveIo) (fuel : ℕ) (h rest : Bytes) (s : Session)
    → length rest ≤ fuel
    → (if is_header h then packet_loop fuel io false (is_header h) rest s else s)
      ≡ (if is_header h then obey_all io (lines rest) s else s)
header_round io fuel h rest s enough = elim (Bool-cases (is_header h)) [
  | inl header ↦ rw header (loop_obey io fuel rest s enough)
  | inr other ↦ rw other refl
]

-- The lines of a packet, the first one being the header.
abbrev pub answer_lines : (ℕ → MoveIo) → List Bytes → Session → Session
answer_lines io [] s = s
answer_lines io (h ∷ ls) s = if is_header (copied h) then obey_all io ls s else s

-- A packet whose first line is the header is obeyed line by line; any other packet, and one without a
-- line, changes nothing and is not answered beyond what was sent before. The loop ends within its fuel.
pub packet-lines :
    (io : ℕ → MoveIo) (bytes : Bytes) (s : Session)
    → packet io bytes s ≡ answer_lines io (lines bytes) s
unfolding packet
packet-lines io [] s = loop_end io 0 true false s
packet-lines io (b ∷ bs) s = elim (skip_eols-cases (b ∷ bs)) [
  | inl none_left ↦
      loop_blank io (length bs) true false b bs s none_left
      ∙ ap (λ ls. answer_lines io ls s) (sym (blank_lines (b ∷ bs) none_left))
  | inr (c, cs, at, other) ↦
      let small = length-skip_eols (b ∷ bs) in
      let shorter : length (after_line cs) ≤ length bs =
        omega (arith, length-after_line cs, length-suc (b ∷ bs) c cs at small) in
      loop_round io (length bs) true false b bs s c cs at other
      ∙ header_round io (length bs) (copied (c ∷ line cs)) (after_line cs) s shorter
      ∙ ap (λ ls. answer_lines io ls s) (sym (first_line (b ∷ bs) c cs at other))
]
