-- ===== src/Io/Parent.antt =====
-- source/io.c: the pathname of the directory above is shorter, so that the recursion ends.
use workload.Prelude.{
  ℕ, zero, suc, ◌-◌, ◌<◌, ◌≤◌, ◌≡◌, refl, ap, arith, true, false, Bool-cases, inl, inr, Option,
  none, some, [], ◌∷◌, if◌then◌else◌, length, take,
}
use workload.Store.Types.{Bytes}
use workload.Text.Base.{is_empty}
use workload.Io.{
  System, tail_offset, cut_offset, cut, parent_of, mkdir_recursive, make_parent, by_status,
  then_mkdir, Result,
}

length-take : (k : ℕ) (xs : Bytes) → length (take k xs) ≤ k
length-take zero xs = omega arith
length-take (suc k) [] = omega arith
length-take (suc k) (x ∷ xs) = omega (arith, length-take k xs)

tail_offset_bound : (path : Bytes) (i : ℕ) → tail_offset path i ≤ i
unfolding tail_offset
tail_offset_bound path zero = omega arith
tail_offset_bound path (suc i) = ground (arith, tail_offset_bound path i)

cut_offset_bound : (path : Bytes) (i k : ℕ) → cut_offset path i ≡ some k → k ≤ i
unfolding cut_offset
cut_offset_bound path zero k h = absurd (cc)
cut_offset_bound path (suc i) k h = ground (arith, cut_offset_bound path i k)

abbrev size : Option Bytes → ℕ
size none = 0
size (some p) = length p

length-cut :
    (path p : Bytes) (o : Option ℕ) (n : ℕ)
    → ((k : ℕ) → o ≡ some k → k ≤ n)
    → cut path o ≡ some p
    → length p ≤ n
unfolding cut
length-cut path p none n bound h = absurd (cc)
length-cut path p (some k) n bound h =
    let same : length (take k path) ≡ length p = ap size h in
    omega (arith, same, length-take k path, bound k refl)

pub parent_of_shorter :
    (path p : Bytes) → is_empty path ≡ false → parent_of path ≡ some p → length p < length path
unfolding parent_of
parent_of_shorter [] p some_byte h = absurd (cc)
parent_of_shorter (c ∷ cs) p some_byte h =
    let path = c ∷ cs in
    let last = length path - 1 in
    let at = tail_offset path last in
    let short = length-cut path p (cut_offset path at) at (cut_offset_bound path at) h in
    omega (arith, short, tail_offset_bound path last)

make_parent_same :
    {S : Type 0} (sys : System S) (f g : Bytes → Result sys) (o first : Option Bytes) (s : S)
    → ((p : Bytes) → o ≡ some p → f p ≡ g p)
    → make_parent sys f o first s ≡ make_parent sys g o first s
unfolding make_parent
make_parent_same sys f g none first s same = refl
make_parent_same sys f g (some p) first s same =
    ap (λ r. if sys.strndup p then r else (true, (first, s))) (same p refl)

-- The fuel is enough if it is more than the length of the pathname: with any more, the result, the entry
-- and the state are the same.
pub mkdir_recursive_fuel :
    {S : Type 0} (sys : System S) (more fuel : ℕ) (path : Bytes) (first : Option Bytes) (s : S)
    → length path < fuel
    → fuel ≤ more
    → mkdir_recursive sys more path first s ≡ mkdir_recursive sys fuel path first s
unfolding mkdir_recursive
mkdir_recursive_fuel sys more zero path first s enough h = absurd (omega arith)
mkdir_recursive_fuel sys zero (suc fuel) path first s enough h = absurd (omega arith)
mkdir_recursive_fuel sys (suc more) (suc fuel) path first s enough h =
    elim (Bool-cases (is_empty path)) [
      | inl empty ↦ rw empty refl
      | inr some_byte ↦ rw some_byte (
          ap (λ r. by_status sys (sys.stat path s) first s (then_mkdir sys path r))
            (make_parent_same sys (λ p. mkdir_recursive sys more p first s)
              (λ p. mkdir_recursive sys fuel p first s) (parent_of path) first s
              (λ p at.
                let shorter = parent_of_shorter path p some_byte at in
                mkdir_recursive_fuel sys more fuel p first s (omega (arith, shorter, enough))
                  (omega arith))))
    ]
