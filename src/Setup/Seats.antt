-- ===== src/Setup/Seats.antt =====
-- source/workload_config.c: which files the loop of the assignment has still to choose. The file of each
-- round stands at a seat; those at the last seats are done, and each round puts its file at the last seat
-- that is not.
use workload.Prelude.{
  ℕ, suc, ◌<◌, ◌≤◌, ◌≡◌, ◌∙◌, sym, ap, subst, arith, true, false, Bool-cases, inl, inr, Option,
  none, some, List, ◌==◌, ==_iff, if◌then◌else◌, contains,
}

-- The file is on a disk of `ds`.
abbrev pub OnDisk : List ℕ → Option ℕ → Type 0
OnDisk ds o = (d : ℕ) × (o ≡ some d) × (contains d ds ≡ true)

-- `n` files at `n` seats, of which `left` are still to be chosen.
pub record Seats (ds : List ℕ) (n left : ℕ) (seat : ℕ → ℕ) (place : ℕ → Option ℕ) : Type 0 where
  pub apart : (i j : ℕ) → i < n → j < n → seat i ≡ seat j → i ≡ j
  pub seated : (x : ℕ) → x < n → (i : ℕ) × (i < n) × (seat i ≡ x)
  pub idle : (i : ℕ) → i < left → place (seat i) ≡ none
  pub done : (i : ℕ) → left ≤ i → i < n → OnDisk ds (place (seat i))

abbrev pub swap : (a b : ℕ) → ℕ → ℕ
swap a b i = if b == i then a else if a == i then b else i

swap_self : (a b i : ℕ) → swap a b (swap a b i) ≡ i
swap_self a b i = ground arith

swap_inside : (a b n i : ℕ) → a < n → b < n → i < n → swap a b i < n
swap_inside a b n i ha hb hi = ground arith

module _ (ds : List ℕ) (n left at d : ℕ) (seat : ℕ → ℕ) (place place' : ℕ → Option ℕ)
    (s : Seats ds n (suc left) seat place) (fits : left < n) (inside : at < suc left)
    (known : contains d ds ≡ true)
    (spec : (x : ℕ) → place' x ≡ (if seat at == x then some d else place x)) where
  swapped : ℕ → ℕ
  swapped i = seat (swap at left i)

  placed_here : place' (seat at) ≡ some d
  placed_here = ground (arith, spec (seat at))

  kept : (i : ℕ) → i < n → (at == i) ≡ false → place' (seat i) ≡ place (seat i)
  kept i hi other = elim (Bool-cases (seat at == seat i)) [
    | inl same ↦
        let e = s.apart at i (omega arith) hi ((==_iff (seat at) (seat i)).0 same) in
        absurd (ground arith)
    | inr apart ↦ ground (arith, spec (seat i))
  ]

  still_done : (i : ℕ) → i < n → OnDisk ds (place (seat i)) → OnDisk ds (place' (seat i))
  still_done i hi (e, on, listed) = elim (Bool-cases (at == i)) [
    | inl here ↦
        let moved = subst (λ j. place' (seat j) ≡ some d) ((==_iff at i).0 here) placed_here in
        (d, moved, known)
    | inr other ↦ (e, kept i hi other ∙ on, listed)
  ]

  idle_after : (i : ℕ) → i < left → place' (seat (swap at left i)) ≡ none
  idle_after i hi =
      let other : (at == swap at left i) ≡ false = ground arith in
      let low : swap at left i < suc left =
        swap_inside at left (suc left) i inside (omega arith) (omega arith) in
      kept (swap at left i) (omega arith) other ∙ s.idle (swap at left i) low

  done_after : (i : ℕ) → left ≤ i → i < n → OnDisk ds (place' (seat (swap at left i)))
  done_after i low high = elim (Bool-cases (left == i)) [
    | inl last ↦
        let e : at ≡ swap at left i = ground arith in
        (d, subst (λ j. place' (seat j) ≡ some d) e placed_here, known)
    | inr older ↦
        let e : i ≡ swap at left i = ground arith in
        let above : suc left ≤ i = ground arith in
        subst (λ j. OnDisk ds (place' (seat j))) e (still_done i high (s.done i above high))
  ]

  pub next-Seats : Seats ds n left (λ i. seat (swap at left i)) place'
  next-Seats = record {
    apart = λ i j hi hj e.
        let same =
          s.apart (swap at left i) (swap at left j) (swap_inside at left n i (omega arith) fits hi)
            (swap_inside at left n j (omega arith) fits hj) e in
        sym (swap_self at left i) ∙ ap (swap at left) same ∙ swap_self at left j;
    seated = λ x hx.
        let (i, hi, e) = s.seated x hx in
        (
          swap at left i,
          swap_inside at left n i (omega arith) fits hi,
          ap seat (swap_self at left i) ∙ e,
        );
    idle = idle_after;
    done = done_after;
  }
