-- ===== src/Random.antt =====
-- source/random.c: the generator behind workload_rand and workload_fill_rand. What runs under
-- `g_workload_rand_lock` is one function.
pub mod Step
use workload.Prelude.{
  ℕ, zero, suc, ◌+◌, ◌-◌, ◌*◌, ◌/◌, ◌%◌, Bool, true, false, Option, none, some, List, [], ◌∷◌, ◌++◌,
  ◌==◌, if◌then◌else◌, u32,
}
use workload.Store.Types.{Bytes}

-- `g_workload_rand_seed` and `g_workload_rand_seed_init`
pub record Rand : Type 0 where
  pub seed : ℕ
  pub init : Bool

-- `workload_randomize_update`
pub randomize_update : ℕ → ℕ
randomize_update seed = u32 (seed * 22695477 + 1)

up_seconds : Option ℕ → ℕ
up_seconds none = 0
up_seconds (some uptime) = u32 uptime

-- `__workload_srand`, where `uptime` is what sysinfo tells, or `none` if it fails
pub srand : (uptime : Option ℕ) → (seed : ℕ) → Rand → Rand
unfolding up_seconds
srand uptime seed r = record {
  seed = randomize_update (u32 (u32 (r.seed + up_seconds uptime) + seed));
  init = true;
}

-- `((s >> 16) | (s << 16)) >> 1`. The two halves have no bit in common.
pub scramble : ℕ → ℕ
scramble seed = (seed / 65536 + seed % 65536 * 65536) / 2

-- `__workload_rand`
pub private_rand : Rand → ℕ × Rand
private_rand r = let seed = randomize_update r.seed in (scramble seed, record r { seed = seed })

-- `if(g_workload_rand_seed_init == 0) __workload_srand(time(NULL));`
pub ensure_seed : (uptime : Option ℕ) → (time : ℕ) → Rand → Rand
ensure_seed uptime time r = if r.init then r else srand uptime (u32 time) r

-- workload_rand
pub rand : (uptime : Option ℕ) → (time : ℕ) → Rand → ℕ × Rand
rand uptime time r = private_rand (ensure_seed uptime time r)

-- The loop over the half words, on a little endian machine.
abbrev pub fill_halves : ℕ → Rand → Bytes × Rand
fill_halves zero r = ([], r)
fill_halves (suc n) r =
    let (value, s) = private_rand r in
    let (bytes, t) = fill_halves n s in (value % 256 ∷ value / 256 % 256 ∷ bytes, t)

-- workload_fill_rand, for a pointer that is not NULL
pub fill_rand : (uptime : Option ℕ) → (time size : ℕ) → Rand → Bytes × Rand
fill_rand uptime time size r =
    let (bytes, s) = fill_halves (size / 2) (ensure_seed uptime time r) in
    let (value, t) = private_rand s in
    if size == 0
    then ([], r)
    else if size % 2 == 0
    then (bytes, s)
    else (bytes ++ value % 256 ∷ [], t)
