-- ===== src/Text/Chars.antt =====
-- The tests of <ctype.h> and `atoi` that the code uses, in the C locale, and the first helpers of
-- source/string.c.
use Prim.Native.Char.{code}
use Prim.Native.String.{String}
use workload.Prelude.{
  ℕ, ◌+◌, ◌-◌, ◌*◌, Bool, true, false, ◌&&◌, ◌||◌, Option, none, some, List, [], ◌∷◌, ltb, leb,
  ◌==◌, if◌then◌else◌, u32,
}
use workload.Prelude.Int.{ℤ, pos, negsuc}
use workload.Store.Types.{Bytes}

abbrev pub is_digit : ℕ → Bool
is_digit c = leb 48 c && leb c 57

abbrev pub is_space : ℕ → Bool
is_space c = c == 32 || leb 9 c && leb c 13

abbrev pub to_lower : ℕ → ℕ
to_lower c = if leb 65 c && leb c 90 then c + 32 else c

-- workload_is_digit_string
abbrev pub is_digit_string : Bytes → Bool
is_digit_string [] = true
is_digit_string (c ∷ cs) = is_digit c && is_digit_string cs

abbrev pub same_bytes : Bytes → Bytes → Bool
same_bytes [] [] = true
same_bytes [] (_ ∷ _) = false
same_bytes (_ ∷ _) [] = false
same_bytes (a ∷ xs) (b ∷ ys) = a == b && same_bytes xs ys

-- `strcasecmp(...) == 0`
abbrev pub same_bytes_nocase : Bytes → Bytes → Bool
same_bytes_nocase [] [] = true
same_bytes_nocase [] (_ ∷ _) = false
same_bytes_nocase (_ ∷ _) [] = false
same_bytes_nocase (a ∷ xs) (b ∷ ys) = to_lower a == to_lower b && same_bytes_nocase xs ys

abbrev pub skip_spaces : Bytes → Bytes
skip_spaces [] = []
skip_spaces (c ∷ cs) = if is_space c then skip_spaces cs else c ∷ cs

-- The number that the digits at the front write, after `n`.
abbrev pub digits : ℕ → Bytes → ℕ
digits n [] = n
digits n (c ∷ cs) = let rest = digits (n * 10 + (c - 48)) cs in if is_digit c then rest else n

-- A long of 64 bits cut to an int of 32 bits.
abbrev pub to_int : ℕ → ℤ
to_int n = if ltb (u32 n) 2147483648 then pos (u32 n) else negsuc (4294967295 - u32 n)

abbrev saturate : (most n : ℕ) → ℕ
saturate most n = if leb n most then n else most

signed : Bytes → ℤ
signed [] = pos 0
signed (c ∷ cs) =
    if c == b'-'
    then to_int (18446744073709551616 - saturate 9223372036854775808 (digits 0 cs))
    else if c == b'+'
    then to_int (saturate 9223372036854775807 (digits 0 cs))
    else to_int (saturate 9223372036854775807 (digits 0 (c ∷ cs)))

-- `atoi`, as `(int)strtol(s, NULL, 10)`
pub atoi : Bytes → ℤ
unfolding signed
atoi s = signed (skip_spaces s)

-- `atoll`, as `strtoll(s, NULL, 10)`
long : Bytes → ℤ
long [] = pos 0
long (c ∷ cs) =
    let n = saturate 9223372036854775808 (digits 0 cs) in
    if c == b'-'
    then if n == 0 then pos 0 else negsuc (n - 1)
    else if c == b'+'
    then pos (saturate 9223372036854775807 (digits 0 cs))
    else pos (saturate 9223372036854775807 (digits 0 (c ∷ cs)))

pub atoll : Bytes → ℤ
unfolding long
atoll s = long (skip_spaces s)

-- The bytes of a string constant.
abbrev pub codes : String → Bytes
codes String.[] = []
codes (String.◌∷◌ c s) = code c ∷ codes s

-- The table of workload_parse_boolean_string, in its order.
abbrev boolean_table : List (Bool × Bytes)
boolean_table =
    (false, (b'f' ∷ b'a' ∷ b'l' ∷ b's' ∷ b'e' ∷ []))
    ∷ (false, (b'o' ∷ b'f' ∷ b'f' ∷ []))
    ∷ (false, (b'd' ∷ b'i' ∷ b's' ∷ b'a' ∷ b'b' ∷ b'l' ∷ b'e' ∷ []))
    ∷ (false, (b'n' ∷ b'o' ∷ []))
    ∷ (true, (b't' ∷ b'r' ∷ b'u' ∷ b'e' ∷ []))
    ∷ (true, (b'o' ∷ b'n' ∷ []))
    ∷ (true, (b'e' ∷ b'n' ∷ b'a' ∷ b'b' ∷ b'l' ∷ b'e' ∷ []))
    ∷ (true, (b'y' ∷ b'e' ∷ b's' ∷ []))
    ∷ []

look_up : List (Bool × Bytes) → Bytes → Bool → Bool
look_up [] s default = default
look_up ((value, name) ∷ rows) s default =
    if same_bytes_nocase s name then value else look_up rows s default

-- workload_parse_boolean_string, with `none` for NULL
pub parse_boolean_string : Option Bytes → Bool → Bool
unfolding look_up
parse_boolean_string none default = default
parse_boolean_string (some s) default = look_up boolean_table s default
