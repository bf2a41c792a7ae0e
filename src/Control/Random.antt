-- ===== src/Control/Random.antt =====
-- source/workload.c: `__workload_access_random_index`, which draws a file by halving the list.
use native.Mathlib.Nat.{mod-eq_of_lt}
use workload.Prelude.{
  ℕ, zero, suc, ◌+◌, ◌-◌, ◌/◌, ◌%◌, ◌<◌, ◌≤◌, ◌≡◌, ◌∙◌, refl, ap, arith, true, false, Bool-cases,
  inl, inr, Option, none, some, ltb, ◌==◌, if◌then◌else◌, u32,
}
use workload.Store.Types.{Workload}

-- `s_entry` and `s_count`
pub record Window : Type 0 where
  pub entry : ℕ
  pub count : ℕ

-- A round of the loop, for the number drawn, where `s_sum` is not 0.
abbrev halve : (sum right draw : ℕ) → Window → Window
halve sum right draw s = record {
  entry = if ltb (draw % sum) right then s.entry + s.count / 2 else s.entry;
  count = s.count - s.count / 2;
}

-- The loop, on fuel; `draw` are the numbers that workload_rand returns. None is the division by 0.
index_loop : ℕ → (sum right : ℕ) → (ℕ → ℕ) → Window → Option Window
index_loop zero sum right draw s = some s
index_loop (suc fuel) sum right draw s =
    let rest = index_loop fuel sum right (λ k. draw (suc k)) (halve sum right (draw 0) s) in
    if ltb 1 s.count then if sum == 0 then none else rest else some s

abbrev pub ratio_sum : Workload → ℕ
ratio_sum w = u32 (w.cfg.left_ratio + w.cfg.right_ratio)

-- The window that the loop ends with, with `m_file_count` rounds of fuel.
pub final_window : (ℕ → ℕ) → Workload → Option Window
unfolding index_loop
final_window draw w =
    index_loop w.file_count (ratio_sum w) w.cfg.right_ratio draw
      (record { entry = 0; count = w.file_count })

abbrev pub entry_of : Option Window → Option ℕ
entry_of none = none
entry_of (some s) = some s.entry

-- `__workload_access_random_index`: none is the division by a sum of the ratios that is 0.
pub access_random_index : (ℕ → ℕ) → Workload → Option ℕ
access_random_index draw w = entry_of (final_window draw w)

-- The loop ends with a window of one place inside the window that it begins with.
abbrev EndsInside : Window → Option Window → Type 0
EndsInside s r = (t : Window) × (r ≡ some t) × (t.count ≡ 1) × (t.entry < s.entry + s.count)

index_loop_inside :
    (fuel sum right : ℕ) (draw : ℕ → ℕ) (s : Window)
    → 1 ≤ sum
    → s.count ≤ fuel
    → 1 ≤ s.count
    → EndsInside s (index_loop fuel sum right draw s)
unfolding index_loop
index_loop_inside zero sum right draw s positive enough some_left = absurd (omega arith)
index_loop_inside (suc fuel) sum right draw s positive enough some_left =
    elim (Bool-cases (ltb 1 s.count)) [
      | inl more ↦
          let (t, at, one, below) =
            index_loop_inside fuel sum right (λ k. draw (suc k)) (halve sum right (draw 0) s)
              positive (ground arith) (omega arith) in
          let divides : (sum == 0) ≡ false = ground arith in
          rw (more, divides) (t, at, one, ground (arith, below))
      | inr last ↦ rw last (s, refl, ground arith, omega arith)
    ]

-- If the sum of the ratios is not 0 modulo 2 ^ 32, and there is a file: whatever numbers are drawn, the
-- loop divides by no 0, ends within the fuel with one place left, and the index that it draws is below
-- the number of files.
pub access_random_index_inside :
    (draw : ℕ → ℕ) (w : Workload)
    → 1 ≤ ratio_sum w
    → 1 ≤ w.file_count
    → (t : Window) × (final_window draw w ≡ some t)
      × (t.count ≡ 1)
      × (access_random_index draw w ≡ some t.entry)
      × (t.entry < w.file_count)
unfolding access_random_index final_window
access_random_index_inside draw w positive some_file =
    let (t, at, one, below) =
      index_loop_inside w.file_count (ratio_sum w) w.cfg.right_ratio draw
        (record { entry = 0; count = w.file_count }) positive (omega arith) some_file in
    (t, at, one, ap entry_of at, omega (arith, below))

-- The draws that lead to place `i` of a window of `n` places: `hit` stays below the right ratio and
-- `miss` does not.
abbrev steer : ℕ → (hit miss i n : ℕ) → ℕ → ℕ
steer zero hit miss i n k = miss
steer (suc fuel) hit miss i n zero = if ltb i (n / 2) then miss else hit
steer (suc fuel) hit miss i n (suc k) =
    steer fuel hit miss (if ltb i (n / 2) then i else i - n / 2) (n - n / 2) k

steer_bound : (fuel hit miss i n k b : ℕ) → hit < b → miss < b → steer fuel hit miss i n k < b
steer_bound zero hit miss i n k b h m = m
steer_bound (suc fuel) hit miss i n zero b h m = ground arith
steer_bound (suc fuel) hit miss i n (suc k) b h m =
    steer_bound fuel hit miss (if ltb i (n / 2) then i else i - n / 2) (n - n / 2) k b h m

index_loop-steer :
    (fuel sum right hit miss i : ℕ) (s : Window)
    → 1 ≤ sum
    → ltb (hit % sum) right ≡ true
    → ltb (miss % sum) right ≡ false
    → s.count ≤ fuel
    → i < s.count
    → entry_of (index_loop fuel sum right (steer fuel hit miss i s.count) s) ≡ some (s.entry + i)
unfolding index_loop
index_loop-steer zero sum right hit miss i s positive h m enough inside = absurd (omega arith)
index_loop-steer (suc fuel) sum right hit miss i s positive h m enough inside =
    let divides : (sum == 0) ≡ false = ground arith in
    elim (Bool-cases (ltb 1 s.count)) [
      | inl more ↦ elim (Bool-cases (ltb i (s.count / 2))) [
        | inl low ↦
            rw (more, divides, low, m)
              (index_loop-steer fuel sum right hit miss i
                (record { entry = s.entry; count = s.count - s.count / 2 }) positive h m
                (ground arith) (ground arith))
        | inr high ↦
            let same : s.entry + s.count / 2 + (i - s.count / 2) ≡ s.entry + i = ground arith in
            rw (more, divides, high, h)
              (index_loop-steer fuel sum right hit miss (i - s.count / 2)
                  (record { entry = s.entry + s.count / 2; count = s.count - s.count / 2 }) positive
                  h m (ground arith) (ground arith)
                ∙ ap some same)
      ]
      | inr last ↦ let same : s.entry ≡ s.entry + i = ground arith in rw last (ap some same)
    ]

-- No file is out of reach: if both ratios are positive, their sum does not wrap, and the right one is
-- below 2 ^ 31, then for each place there are numbers that lead to it, all of them below 2 ^ 31, as those
-- of workload_rand are.
pub access_random_index_onto :
    (w : Workload) (i : ℕ)
    → i < w.file_count
    → 1 ≤ w.cfg.left_ratio
    → 1 ≤ w.cfg.right_ratio
    → w.cfg.right_ratio < 2147483648
    → w.cfg.left_ratio + w.cfg.right_ratio < 4294967296
    → (draw : ℕ → ℕ) × ((k : ℕ) → draw k < 2147483648) × (access_random_index draw w ≡ some i)
unfolding access_random_index final_window
access_random_index_onto w i inside left right drawn small =
    let same : 0 + i ≡ i = omega arith in
    let no_hit = mod-eq_of_lt {n = 0} {m = ratio_sum w} (ground arith) in
    let no_miss = mod-eq_of_lt {n = w.cfg.right_ratio} {m = ratio_sum w} (ground arith) in
    (
      steer w.file_count 0 w.cfg.right_ratio i w.file_count,
      λ k.
          steer_bound w.file_count 0 w.cfg.right_ratio i w.file_count k 2147483648 (omega arith)
            drawn,
      index_loop-steer w.file_count (ratio_sum w) w.cfg.right_ratio 0 w.cfg.right_ratio i
            (record { entry = 0; count = w.file_count }) (ground arith) (rw no_hit (ground arith))
            (rw no_miss (ground arith)) (omega arith) inside
          ∙ ap some same,
    )
