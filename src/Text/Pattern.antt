-- ===== src/Text/Pattern.antt =====
-- source/string.c: `workload_check_pattern` matches a name against a pattern with `*`, `?` and `\`.
use workload.Prelude.{
  ℕ, ◌≡◌, ◌≢◌, refl, arith, Bool, true, false, not, ◌&&◌, [], ◌∷◌, ◌==◌, if◌then◌else◌,
}
use workload.Store.Types.{Bytes}
use workload.Text.Chars.{to_lower, same_bytes}

-- The bytes are compared as they are if `s_is_case` is 0, and in lower case otherwise.
abbrev pub same_byte : (nocase : Bool) → ℕ → ℕ → Bool
same_byte nocase p c = if nocase then to_lower p == to_lower c else p == c

-- The loop behind `*`: the name from the first byte on that is `p`.
abbrev pub seek : (nocase : Bool) → ℕ → Bytes → Bytes
seek nocase p [] = []
seek nocase p (c ∷ cs) = if same_byte nocase p c then c ∷ cs else seek nocase p cs

-- `if(s_string_byte != 0) ++s_string_offset;`
abbrev pub next : Bytes → Bytes
next [] = []
next (c ∷ cs) = cs

abbrev pub is_end : Bytes → Bool
is_end [] = true
is_end (c ∷ cs) = false

-- A byte of the pattern against the name, where the NUL behind the name is 0.
abbrev fits : (nocase : Bool) → ℕ → Bytes → Bool
fits nocase p [] = same_byte nocase p 0
fits nocase p (c ∷ cs) = same_byte nocase p c

-- workload_check_pattern, as `... == 0`. Behind `*` a backslash is skipped, and a pattern that ends
-- there matches; a backslash at the end of the pattern matches the end of the name.
pub check_pattern : Bytes → Bytes → (nocase : Bool) → Bool
check_pattern [] s nocase = is_end s
check_pattern (b ∷ []) s nocase =
    if b == b'*'
    then true
    else if b == b'?'
    then not (is_end s) && is_end (next s)
    else if b == b'\\'
    then is_end s
    else fits nocase b s && is_end (next s)
check_pattern (b ∷ p ∷ []) s nocase =
    if b == b'*'
    then if p == b'\\' then true else is_end (next (seek nocase p s))
    else if b == b'?'
    then not (is_end s) && check_pattern (p ∷ []) (next s) nocase
    else if b == b'\\'
    then fits nocase p s && is_end (next s)
    else fits nocase b s && check_pattern (p ∷ []) (next s) nocase
check_pattern (b ∷ p ∷ q ∷ ps) s nocase =
    let escaped_star = check_pattern ps (next (seek nocase q s)) nocase in
    let plain_star = check_pattern (q ∷ ps) (next (seek nocase p s)) nocase in
    let one = check_pattern (p ∷ q ∷ ps) (next s) nocase in
    let escaped = check_pattern (q ∷ ps) (next s) nocase in
    if b == b'*'
    then if p == b'\\' then escaped_star else plain_star
    else if b == b'?'
    then not (is_end s) && one
    else if b == b'\\'
    then fits nocase p s && escaped
    else fits nocase b s && one

-- Every byte behind a backslash.
abbrev pub escape : Bytes → Bytes
escape [] = []
escape (c ∷ cs) = b'\\' ∷ c ∷ escape cs

abbrev pub HasNoNul : Bytes → Type 0
HasNoNul [] = Unit {0}
HasNoNul (c ∷ cs) = (c ≢ 0) × HasNoNul cs

-- Where case counts (`s_is_case` is 0), a name escaped byte by byte, if no byte of it is NUL, matches that
-- name and no other.
pub check_pattern-escape :
    (name s : Bytes) → HasNoNul name → check_pattern (escape name) s false ≡ same_bytes name s
unfolding check_pattern
check_pattern-escape [] [] h = refl
check_pattern-escape [] (c ∷ cs) h = refl
check_pattern-escape (c ∷ []) [] h = ground arith
check_pattern-escape (c ∷ []) (d ∷ []) h = ground arith
check_pattern-escape (c ∷ []) (d ∷ e ∷ es) h = ground arith
check_pattern-escape (c ∷ b ∷ bs) [] h = ground arith
check_pattern-escape (c ∷ b ∷ bs) (d ∷ ds) h = ground (arith, check_pattern-escape (b ∷ bs) ds h.1)
