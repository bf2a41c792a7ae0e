-- ===== src/Math/Gcd.antt =====
-- source/math.c: workload_gcm_uint has exactly the common divisors of its arguments as divisors, and
-- workload_aspect_ratio_uint divides both ratios by it.
use mathlib.Core.WellFounded.{Acc}
use native.Mathlib.Nat.{div-add-mod, mul-div_cancel, mul-le-mul_right}
use workload.Prelude.{
  ℕ, ◌+◌, ◌-◌, ◌*◌, ◌/◌, ◌%◌, ◌≤◌, ◌<◌, ◌≡◌, ◌≢◌, zero, suc, refl, ap, ◌↔◌, ◌⊎◌, inl, inr, arith,
  ltb, ◌==◌, ℕ_discrete, false, Bool-cases,
}
use workload.Prelude.Order.{lt_wf}
use workload.Math.{gcm_loop, gcm_from, gcm_uint, aspect_ratio_uint}

-- `d` divides `n`.
abbrev pub Divides : ℕ → ℕ → Type 0
Divides d n = (k : ℕ) × (k * d ≡ n)

le_or_ge : (a b : ℕ) → (a ≤ b) ⊎ (b ≤ a)
le_or_ge a b = omega arith

module _ (d a b : ℕ) where
  Divides-dividend : Divides d b → Divides d (a % b) → Divides d a
  Divides-dividend (m, e) (n, f) =
      (a / b * m + n, omega (arith, ap (λ (t : ℕ). a / b * t) e, div-add-mod a b))

  -- with `j` what is left of the quotient `k`
  remainder_quotient : (m k j : ℕ) → m * d ≡ b → k * d ≡ a → j + a / b * m ≡ k → j * d ≡ a % b
  remainder_quotient m k j e f g =
      omega (arith, ap (λ (t : ℕ). a / b * t) e, ap (λ (t : ℕ). t * d) g, div-add-mod a b)

  Divides-remainder : Divides d b → Divides d a → Divides d (a % b)
  Divides-remainder (m, e) (k, f) = elim (le_or_ge (a / b * m) k) [
    | inl h ↦ (k - a / b * m, remainder_quotient m k (k - a / b * m) e f (omega arith))
    | inr h ↦ (0, omega (arith, mul-le-mul_right d h, ap (λ (t : ℕ). a / b * t) e, div-add-mod a b))
  ]

gcm_loop_last : (a b : ℕ) (w : Acc ◌<◌ b) → 0 < b → a % b ≡ 0 → gcm_loop a b w ≡ b
unfolding gcm_loop
gcm_loop_last a b (Acc.intro _ smaller) h e = ground arith

gcm_loop_step :
    (a b : ℕ) (w : Acc ◌<◌ b)
    → 0 < b
    → a % b ≢ 0
    → (v : Acc ◌<◌ (a % b)) × (gcm_loop a b w ≡ gcm_loop b (a % b) v)
unfolding gcm_loop
gcm_loop_step a b (Acc.intro _ smaller) h n = (smaller (a % b) (omega arith), ground arith)

Divides-zero : (d n : ℕ) → n ≡ 0 → Divides d n
Divides-zero d n e = (0, omega arith)

-- The loop keeps the common divisors of its two variables.
gcm_loop-Divides :
    (fuel d a b : ℕ) (w : Acc ◌<◌ b)
    → b < fuel
    → 0 < b
    → Divides d (gcm_loop a b w) ↔ (Divides d a × Divides d b)
gcm_loop-Divides zero d a b w f h = absurd (omega arith)
gcm_loop-Divides (suc fuel) d a b w f h = elim (ℕ_discrete (a % b) 0) [
  | yes e ↦
      rw (gcm_loop_last a b w h e)
        (λ q. (Divides-dividend d a b q (Divides-zero d (a % b) e), q), λ p. p.1)
  | no n ↦
      let (v, step) = gcm_loop_step a b w h n in
      let rest = gcm_loop-Divides fuel d b (a % b) v (omega arith) (omega arith) in
      rw step (
        λ q. let (p, r) = rest.0 q in (Divides-dividend d a b p r, p),
        λ p. rest.1 (p.1, Divides-remainder d a b p.1 p.0),
      )
]

gcm_from-Divides : (d a b : ℕ) → 0 < b → Divides d (gcm_from a b) ↔ (Divides d a × Divides d b)
unfolding gcm_from
gcm_from-Divides d a b h =
    let positive : (b == 0) ≡ false = ground arith in
    rw positive (gcm_loop-Divides (suc b) d a b (lt_wf.apply b) (omega arith) h)

-- The divisors of the result are exactly the common divisors of the two values, if neither is 0: so
-- the result divides both of them, and every common divisor divides it.
pub gcm_uint-Divides :
    (d value1 value2 : ℕ)
    → 0 < value1
    → 0 < value2
    → Divides d (gcm_uint value1 value2) ↔ (Divides d value1 × Divides d value2)
unfolding gcm_uint
gcm_uint-Divides d value1 value2 h k = elim (Bool-cases (ltb value1 value2)) [
  | inl lt ↦
      let e = gcm_from-Divides d value2 value1 h in
      rw lt (λ q. ((e.0 q).1, (e.0 q).0), λ p. e.1 (p.1, p.0))
  | inr ge ↦ rw ge (gcm_from-Divides d value1 value2 k)
]

positive_of_Divides : (g n : ℕ) → 0 < n → Divides g n → 0 < g
positive_of_Divides zero n h (k, e) = absurd (omega arith)
positive_of_Divides (suc g) n h p = omega arith

quotient_exact : (g n : ℕ) → 0 < g → Divides g n → n / g * g ≡ n
quotient_exact g n h (k, e) = rw (← e, mul-div_cancel k h) refl

module _ (value1 value2 : ℕ) (h : 0 < value1) (k : 0 < value2) where
  common : Divides (gcm_uint value1 value2) value1 × Divides (gcm_uint value1 value2) value2
  common = (gcm_uint-Divides (gcm_uint value1 value2) value1 value2 h k).0 (1, omega arith)

  gcm_uint_pos : 0 < gcm_uint value1 value2
  gcm_uint_pos = positive_of_Divides (gcm_uint value1 value2) value1 h common.0

  aspect_ratio_uint_lem : aspect_ratio_uint value1 value2 ≡ record {
    result = gcm_uint value1 value2;
    ratio1 = value1 / gcm_uint value1 value2;
    ratio2 = value2 / gcm_uint value1 value2;
  }
  unfolding aspect_ratio_uint
  aspect_ratio_uint_lem = ground (arith, gcm_uint_pos)

-- Both parts of the reduced ratio, times the result, give the values back, if neither is 0, and then
-- the result is not 0.
pub aspect_ratio_uint_exact :
    (value1 value2 : ℕ)
    → 0 < value1
    → 0 < value2
    → let r = aspect_ratio_uint value1 value2 in
      (0 < r.result) × (r.ratio1 * r.result ≡ value1) × (r.ratio2 * r.result ≡ value2)
aspect_ratio_uint_exact value1 value2 h k =
    let positive = gcm_uint_pos value1 value2 h k in
    let divides = common value1 value2 h k in
    rw (aspect_ratio_uint_lem value1 value2 h k)
      (positive, quotient_exact _ _ positive divides.0, quotient_exact _ _ positive divides.1)

times_Divides : (d g n m : ℕ) → m * g ≡ n → Divides d m → Divides (d * g) n
times_Divides d g n m e (k, f) = (k, omega (arith, ap (λ (t : ℕ). t * g) f, e))

one_of_times : (d g : ℕ) → 0 < g → Divides (d * g) g → d ≡ 1
one_of_times zero g h (k, e) = absurd (omega arith)
one_of_times (suc zero) g h p = refl
one_of_times (suc (suc d)) g h (zero, e) = absurd (omega arith)
one_of_times (suc (suc d)) g h (suc k, e) = absurd (grind arith)

-- The reduced ratio is in lowest terms: no number but 1 divides both of its parts, if neither value
-- is 0.
pub aspect_ratio_uint_lowest :
    (value1 value2 d : ℕ)
    → 0 < value1
    → 0 < value2
    → Divides d (aspect_ratio_uint value1 value2).ratio1
    → Divides d (aspect_ratio_uint value1 value2).ratio2
    → d ≡ 1
aspect_ratio_uint_lowest value1 value2 d h k p q =
    let g = gcm_uint value1 value2 in
    let exact =
      rw (aspect_ratio_uint_lem value1 value2 h k) at (aspect_ratio_uint_exact value1 value2 h k) in
    let p' = rw (aspect_ratio_uint_lem value1 value2 h k) at p in
    let q' = rw (aspect_ratio_uint_lem value1 value2 h k) at q in
    one_of_times d g exact.0 (
      (gcm_uint-Divides (d * g) value1 value2 h k).1
        (times_Divides d g value1 _ exact.1 p', times_Divides d g value2 _ exact.2 q'))
