-- ===== src/Text/Base.antt =====
-- source/string.c: `workload_basename` cuts the separators off the end of a path, in place, and gives
-- its last name.
use workload.Prelude.{
  ℕ, Bool, true, false, not, ◌≡◌, refl, arith, ◌||◌, [], ◌∷◌, ◌==◌, if◌then◌else◌,
}
use workload.Store.Types.{Bytes}

abbrev pub is_separator : ℕ → Bool
is_separator c = c == b'/' || c == b'\\'

abbrev pub is_empty : Bytes → Bool
is_empty [] = true
is_empty (_ ∷ _) = false

-- The bytes from the last one back, in front of `acc`.
abbrev backwards : Bytes → (acc : Bytes) → Bytes
backwards [] acc = acc
backwards (c ∷ cs) acc = backwards cs (c ∷ acc)

-- The loop from the end of the path. `has_name` is `s_count > 0`, `front` the bytes before `s_offset`
-- from the last one back, and `name` the string behind it. The result is the path that is left, and
-- its last name.
unfoldable pub base_loop : (has_name : Bool) → (front name : Bytes) → Bytes × Bytes
base_loop has_name [] name = (name, name)
base_loop has_name (c ∷ front) name =
    let stopped : Bytes × Bytes = (backwards (c ∷ front) name, name) in
    let cut = base_loop false front [] in
    let kept = base_loop false front (c ∷ name) in
    let longer = base_loop true front (c ∷ name) in
    if is_separator c
    then if has_name then stopped else if is_empty front then kept else cut
    else longer

-- workload_basename of a path that is not empty: the path as it is left, and the result
unfoldable pub basename : Bytes → Bytes × Bytes
unfolding base_loop
basename path = base_loop false (backwards path []) []

base_loop_named :
    (front : Bytes) (c : ℕ) (name : Bytes) → is_empty (base_loop true front (c ∷ name)).1 ≡ false
unfolding base_loop
base_loop_named [] c name = refl
base_loop_named (d ∷ front) c name = ground (arith, base_loop_named front d (c ∷ name))

base_loop_front :
    (c : ℕ) (front name : Bytes) → is_empty (base_loop false (c ∷ front) name).1 ≡ false
unfolding base_loop
base_loop_front c [] name = ground arith
base_loop_front c (d ∷ front) name =
    ground (arith, base_loop_front d front [], base_loop_named (d ∷ front) c name)

backwards_front :
    (cs : Bytes) (d : ℕ) (acc : Bytes)
    → (e : ℕ) × (front : Bytes) × (backwards cs (d ∷ acc) ≡ e ∷ front)
backwards_front [] d acc = (d, acc, refl)
backwards_front (c ∷ cs) d acc = backwards_front cs c (d ∷ acc)

-- A path that is not empty has a last name.
basename-is_empty : (c : ℕ) (cs : Bytes) → is_empty (basename (c ∷ cs)).1 ≡ false
unfolding basename
basename-is_empty c cs =
    let (e, front, at) = backwards_front cs c [] in rw at (base_loop_front e front [])

pub basename_named :
    (path : Bytes) → (is_empty (basename path).0 || not (is_empty (basename path).1)) ≡ true
unfolding basename base_loop
basename_named [] = refl
basename_named (c ∷ cs) = ground (arith, basename-is_empty c cs)
