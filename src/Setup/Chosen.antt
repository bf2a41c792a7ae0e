-- ===== src/Setup/Chosen.antt =====
-- source/workload_config.c: what a round of the assignment chooses.
use native.Mathlib.Nat.{mod-lt, mod-eq_of_lt, div-lt_iff_lt-mul, mul-lt-mul_of_pos_left, mul_comm}
use workload.Prelude.{
  ℕ, zero, suc, ◌+◌, ◌-◌, ◌*◌, ◌/◌, ◌%◌, ◌<◌, ◌≤◌, ◌≡◌, ◌∙◌, sym, ap, subst, arith, Bool, true,
  false, Bool-cases, inl, inr, List, [], ◌∷◌, ◌==◌, if◌then◌else◌, contains, get_or, set, get_elem?,
  u32, u64, refl, Option, some, get_or-set, length, length-set, range_from,
}
use workload.Store.Types.{Cfg, Workload}
use workload.Setup.{Choice, choose, scaled, drawn, before}
use workload.Setup.Arrays.{get_or-range_from}
use workload.Setup.Seats.{Seats, swap}

-- Where the loop finds the seats: the even method keeps them in its array, and the others go through
-- the files in order.
abbrev pub Agrees : Bool → ℕ → List ℕ → (ℕ → ℕ) → Type 0
Agrees true n even seat = (length even ≡ n) × ((i : ℕ) → i < n → seat i ≡ get_or even i 0)
Agrees false n even seat = (i : ℕ) → i < n → seat i ≡ n - (i + 1)

abbrev pub is_even : Cfg → Bool
is_even c = if c.files_assign_method == 1 then false else c.files_assign_method == 2

-- The state of the loop with `left` of `n` files to go, under a configuration that allows them.
pub record Filling (c : Cfg) (ds : List ℕ) (n left : ℕ) (even : List ℕ) (w : Workload)
    : Type 0 where
  pub size : w.file_count ≡ n
  pub ordered : w.file_ordered ≡ range_from 0 n
  pub config : w.cfg ≡ c
  pub array : w.disk_array ≡ ds
  pub count : w.disk_count ≡ length ds
  pub ids : (x : ℕ) → x < n → (w.file x).id ≡ suc x
  pub seats :
      (seat : ℕ → ℕ) × Seats ds n left seat (λ x. (w.file x).assign_disk)
      × Agrees (is_even c) n even seat

scaled_lt : (a b c : ℕ) → a < b → 0 < c → a * c / b < c
scaled_lt a b c h some_left =
    let less : a * c < c * b =
      subst (λ k. k < c * b) (mul_comm c a) (mul-lt-mul_of_pos_left h some_left) in
    (div-lt_iff_lt-mul (omega arith)).1 less

-- With fewer than 2 ^ 32 disks, and a number of an unsigned int, nothing wraps.
scaled-some :
    (a c b : ℕ)
    → a < b
    → a < 4294967296
    → 0 < c
    → c < 4294967296
    → (scaled a c b ≡ some (a * c / b)) × (a * c / b < c)
scaled-some a c b h word some_left few =
    let inside = scaled_lt a b c h some_left in
    let product : a * c < 18446744073709551616 =
      let less : a * c < c * 4294967296 =
        subst (λ k. k < c * 4294967296) (mul_comm c a) (mul-lt-mul_of_pos_left word some_left) in
      omega arith in
    let whole : u64 (a * c) ≡ a * c = mod-eq_of_lt product in
    let kept : u32 (a * c / b) ≡ a * c / b = mod-eq_of_lt (omega (arith, inside)) in
    let positive : (b == 0) ≡ false = ground arith in (rw (positive, whole, kept) refl, inside)

drawn-some :
    (draw c : ℕ)
    → 0 < c
    → c < 4294967296
    → (drawn draw c ≡ some (u32 draw % c)) × (u32 draw % c < c)
drawn-some draw c some_left few =
    let kept : u32 c ≡ c = mod-eq_of_lt few in
    let positive : (c == 0) ≡ false = ground arith in
    (rw (kept, positive) refl, mod-lt (u32 draw) some_left)

pub get_elem?-contains :
    (xs : List ℕ) (i : ℕ)
    → i < length xs
    → (d : ℕ) × (get_elem? xs i ≡ some d) × (contains d xs ≡ true)
get_elem?-contains [] i h = absurd (omega arith)
get_elem?-contains (x ∷ xs) zero h = (x, refl, ground arith)
get_elem?-contains (x ∷ xs) (suc i) h =
    let (d, at, known) = get_elem?-contains xs i (omega arith) in (d, at, ground (arith, known))

-- What a round chooses: the file of some seat that is not done, a disk that there is, and the array that
-- agrees with the seats after it.
pub record Chosen (ds : List ℕ) (b : Bool) (n left : ℕ) (seat : ℕ → ℕ) (ch : Choice) : Type 0 where
  pub at : ℕ
  pub inside : at < suc left
  pub file : ch.file ≡ seat at
  pub slot : ℕ
  pub index : ch.disk_index ≡ some slot
  pub there : slot < length ds
  pub agrees : Agrees b n ch.even (λ i. seat (swap at left i))

even_swapped :
    (n at left : ℕ) (even : List ℕ) (seat : ℕ → ℕ)
    → at < n
    → left < n
    → Agrees true n even seat
    → Agrees true n
        (set (set even at (get_or even left 0)) left (get_or even at 0))
        (λ i. seat (swap at left i))
even_swapped n at left even seat ha hl (size, agrees) =
    let u = get_or even left 0 in
    let v = get_or even at 0 in
    let once = set even at u in
    (
      length-set once left v ∙ length-set even at u ∙ size,
      λ j hj.
          let a = get_or-set even at j u 0 (omega (arith, size)) in
          let b = get_or-set once left j v 0 (omega (arith, size, length-set even at u)) in
          agrees (swap at left j) (ground arith) ∙ ground (arith, a, b),
    )

module _ (c : Cfg) (ds : List ℕ) (n left s_id draw : ℕ) (even : List ℕ) (w : Workload)
    (seat : ℕ → ℕ) (f : Filling c ds n (suc left) even w) (round : s_id + left ≡ n)
    (first : 1 ≤ s_id) (some_left : 0 < length ds) (enough : n ≤ c.filecount)
    (few : length ds < 4294967296) (few_files : n < 4294967296) where
  in_order : get_or w.file_ordered (s_id - 1) 0 ≡ s_id - 1
  in_order =
      ap (λ xs. get_or xs (s_id - 1) 0) f.ordered
      ∙ get_or-range_from 0 n (s_id - 1) (omega arith)
      ∙ (omega arith)

  ordered-Chosen :
      (o : Option ℕ) (i : ℕ)
      → o ≡ some i
      → i < length ds
      → ((j : ℕ) → j < n → seat j ≡ n - (j + 1))
      → Chosen ds false n left seat
          (record { even = even; file = get_or w.file_ordered (s_id - 1) 0; disk_index = o })
  ordered-Chosen o i at hi agrees = record {
    at = left;
    inside = omega arith;
    file = omega (arith, in_order, agrees left (omega arith));
    slot = i;
    index = at;
    there = hi;
    agrees = λ j hj. ground (arith, agrees j hj);
  }

  even-Chosen :
      (length even ≡ n)
      → ((j : ℕ) → j < n → seat j ≡ get_or even j 0)
      → let at = draw % (n - (s_id - 1)) in
        Chosen ds true n left seat (record {
          even = set (set even at (get_or even (n - s_id) 0)) (n - s_id) (get_or even at 0);
          file = get_or even at 0;
          disk_index = scaled (s_id - 1) (length ds) c.filecount;
        })
  even-Chosen size agrees =
      let at = draw % (n - (s_id - 1)) in
      let at_disk =
        scaled-some (s_id - 1) (length ds) c.filecount (omega arith) (omega arith) some_left few in
      let inside : at < suc left = omega (arith, mod-lt draw {m = n - (s_id - 1)} (omega arith)) in
      record {
        at = at;
        inside = inside;
        file = sym (agrees at (omega arith));
        slot = (s_id - 1) * length ds / c.filecount;
        index = at_disk.0;
        there = at_disk.1;
        agrees =
            subst
              (λ k.
                Agrees true n (set (set even at (get_or even k 0)) k (get_or even at 0))
                  (λ i. seat (swap at left i)))
              (omega arith)
              (even_swapped n at left even seat (omega arith) (omega arith) (size, agrees));
      }

  scaled_id :
      (i : ℕ) × (scaled
          (before (w.file (get_or w.file_ordered (s_id - 1) 0)).id)
          (length ds)
          c.filecount
        ≡ some i)
      × (i < length ds)
  scaled_id =
      let x = s_id - 1 in
      let id : before (w.file (get_or w.file_ordered x 0)).id ≡ x =
        rw in_order (ground (arith, f.ids x (omega arith))) in
      let (at, inside) =
        scaled-some x (length ds) c.filecount (omega arith) (omega arith) some_left few in
      (x * length ds / c.filecount, rw id at, inside)

  pub choose-Chosen :
      Agrees (is_even c) n even seat → Chosen ds (is_even c) n left seat (choose s_id draw even w)
  unfolding choose
  choose-Chosen agrees = elim (Bool-cases (c.files_assign_method == 1)) [
    | inl ordered ↦
        let (i, at, inside) = scaled_id in
        rw (f.config, f.count, ordered) (ordered-Chosen _ i at inside (rw ordered at agrees))
    | inr not_ordered ↦ elim (Bool-cases (c.files_assign_method == 2)) [
      | inl even_one ↦
          let (size, seats) : Agrees true n even seat = rw (not_ordered, even_one) at agrees in
          rw (f.config, f.count, f.size, not_ordered, even_one) (even-Chosen size seats)
      | inr random ↦
          let (at, inside) = drawn-some draw (length ds) some_left few in
          rw (f.config, f.count, not_ordered, random)
            (ordered-Chosen _ _ at inside (rw (not_ordered, random) at agrees))
    ]
  ]
