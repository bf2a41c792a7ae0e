-- ===== src/Prelude/Sums.antt =====
-- Sums over the addresses of a list, and lists that hold no address twice.
use Prim.Native.Nat.{ℕ, ◌+◌}
use mathlib.Core.Path.{◌≡◌, refl, ap₂}
use mathlib.Core.Logic.{◌≢◌}
use mathlib.Core.Bool.{true, false}
use mathlib.Core.List.{List, [], ◌∷◌}
use native.Mathlib.Omega.{arith}
use native.Mathlib.Decide.{ℕ_discrete}
use workload.Prelude.Tests.{u64}
use workload.Prelude.Lists.{contains}

abbrev pub sum_map : (ℕ → ℕ) → List ℕ → ℕ
sum_map g [] = 0
sum_map g (x ∷ xs) = g x + sum_map g xs

abbrev pub IsDistinct : List ℕ → Type 0
IsDistinct [] = Unit {0}
IsDistinct (x ∷ xs) = (contains x xs ≡ false) × IsDistinct xs

pub sum_map_same : (g h : ℕ → ℕ) (xs : List ℕ) → ((x : ℕ) → g x ≡ h x) → sum_map g xs ≡ sum_map h xs
sum_map_same g h [] same = refl
sum_map_same g h (x ∷ xs) same = ap₂ ◌+◌ (same x) (sum_map_same g h xs same)

sum_map_absent :
    (g h : ℕ → ℕ) (f : ℕ) (xs : List ℕ)
    → ((x : ℕ) → x ≢ f → g x ≡ h x)
    → contains f xs ≡ false
    → sum_map g xs ≡ sum_map h xs
sum_map_absent g h f [] same out = refl
sum_map_absent g h f (x ∷ xs) same out = ground (arith, same x, sum_map_absent g h f xs same)

-- One entry changes, and the list holds it once.
pub sum_map_one :
    (g h : ℕ → ℕ) (f : ℕ) (xs : List ℕ)
    → ((x : ℕ) → x ≢ f → g x ≡ h x)
    → IsDistinct xs
    → contains f xs ≡ true
    → sum_map g xs + h f ≡ sum_map h xs + g f
sum_map_one g h f [] same d out = absurd (cc)
sum_map_one g h f (x ∷ xs) same d out = elim (ℕ_discrete x f) [
  | yes e ↦ ground (arith, sum_map_absent g h f xs same)
  | no ne ↦ ground (arith, same x, sum_map_one g h f xs same d.1)
]

-- A counter that is the sum of other counters, modulo 2 ^ 64, remains so when one of them and the sum
-- go up by the same amount.
pub sum_map_count :
    (g h : ℕ → ℕ) (f total by : ℕ) (xs : List ℕ)
    → ((x : ℕ) → x ≢ f → g x ≡ h x)
    → IsDistinct xs
    → contains f xs ≡ true
    → g f ≡ u64 (h f + by)
    → total ≡ u64 (sum_map h xs)
    → u64 (total + by) ≡ u64 (sum_map g xs)
sum_map_count g h f total by xs same d out e t = omega (arith, sum_map_one g h f xs same d out)
