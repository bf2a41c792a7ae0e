-- ===== src/Text/Comma.antt =====
-- source/string.c: numbers are printed with a comma before every third digit from the right.
use workload.Prelude.{
  ℕ, suc, ◌+◌, ◌-◌, ◌/◌, ◌%◌, ◌≤◌, ◌≡◌, refl, arith, not, ◌&&◌, Option, none, some, [], ◌∷◌, ltb,
  ◌==◌, if◌then◌else◌, length,
}
use workload.Store.Types.{Bytes}
use workload.Text.Chars.{is_digit}

-- The loop that puts a comma where what remains is a multiple of 3 long.
pub grouped : Bytes → Bytes
grouped [] = []
grouped (c ∷ cs) =
    let rest = grouped cs in
    if not (length cs == 0) && length cs % 3 == 0 then c ∷ b',' ∷ rest else c ∷ rest

-- workload_comma_string_private: what is in front of the first digit is copied.
pub comma_string_private : Bytes → Bytes
unfolding grouped
comma_string_private [] = []
comma_string_private (c ∷ cs) =
    let rest = comma_string_private cs in if is_digit c then grouped (c ∷ cs) else c ∷ rest

abbrev pub require_buffer_size : ℕ → ℕ
require_buffer_size size = size + (if ltb 0 size then (size - 1) / 3 else 0) + 1

-- workload_comma_string, with `none` for NULL
pub comma_string : (buffer_size : ℕ) → Bytes → Option Bytes
comma_string buffer_size s =
    if ltb buffer_size (require_buffer_size (length s)) then none else some (comma_string_private s)

length-grouped : (c : ℕ) (cs : Bytes) → length (grouped (c ∷ cs)) ≡ suc (length cs) + length cs / 3
unfolding grouped
length-grouped c [] = omega arith
length-grouped c (d ∷ ds) = ground (arith, length-grouped d ds)

-- What is printed fits the buffer size that is asked for, with the NUL.
pub length-comma_string_private :
    (s : Bytes) → length (comma_string_private s) + 1 ≤ require_buffer_size (length s)
unfolding comma_string_private
length-comma_string_private [] = omega arith
length-comma_string_private (c ∷ cs) =
    ground (arith, length-grouped c cs, length-comma_string_private cs)

-- The text without its commas.
abbrev pub plain : Bytes → Bytes
plain [] = []
plain (c ∷ cs) = if c == b',' then plain cs else c ∷ plain cs

plain-grouped : (s : Bytes) → plain (grouped s) ≡ plain s
unfolding grouped
plain-grouped [] = refl
plain-grouped (c ∷ cs) = ground (arith, plain-grouped cs)

-- Without its commas, what is printed is the text without its commas: no byte is lost or moved.
pub plain-comma_string_private : (s : Bytes) → plain (comma_string_private s) ≡ plain s
unfolding comma_string_private
plain-comma_string_private [] = refl
plain-comma_string_private (c ∷ cs) =
    ground (arith, plain-comma_string_private cs, plain-grouped (c ∷ cs))
