-- ===== src/Random/Step.antt =====
-- source/random.c: the range of the numbers drawn, and the step of the seed.
use workload.Prelude.{
  ℕ, zero, suc, ◌+◌, ◌*◌, ◌/◌, ◌%◌, ◌<◌, ◌≡◌, refl, arith, Option, [], ◌∷◌, u32, length,
  length-append,
}
use workload.Random.{
  Rand, randomize_update, scramble, private_rand, ensure_seed, rand, fill_halves, fill_rand,
}

-- The step of the seed back.
abbrev pub back : ℕ → ℕ
back seed = u32 (690295837 * (seed + 4294967295))

-- The step of a seed of 32 bits can be undone, so that no two seeds lead to the same one.
pub back-randomize_update : (seed : ℕ) → seed < 4294967296 → back (randomize_update seed) ≡ seed
unfolding randomize_update
back-randomize_update seed small = omega arith

scramble_small : (seed : ℕ) → seed < 4294967296 → scramble seed < 2147483648
unfolding scramble
scramble_small seed small = omega arith

-- A number drawn is not negative as an int.
pub rand_bound : (uptime : Option ℕ) (time : ℕ) (r : Rand) → (rand uptime time r).0 < 2147483648
unfolding rand private_rand randomize_update
rand_bound uptime time r = scramble_small _ (omega arith)

length-fill_halves : (n : ℕ) (r : Rand) → length (fill_halves n r).0 ≡ n + n
length-fill_halves zero r = refl
length-fill_halves (suc n) r = omega (arith, length-fill_halves n (private_rand r).1)

-- The buffer is filled to its size, the last byte of an odd size included.
pub length-fill_rand :
    (uptime : Option ℕ) (time size : ℕ) (r : Rand) → length (fill_rand uptime time size r).0 ≡ size
unfolding fill_rand
length-fill_rand uptime time size r =
    let s = ensure_seed uptime time r in
    let half = fill_halves (size / 2) s in
    ground (
      arith,
      length-fill_halves (size / 2) s,
      length-append half.0 ((private_rand half.1).0 % 256 ∷ []),
    )
