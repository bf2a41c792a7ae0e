-- ===== src/Store/Assign/Lists/Unlink.antt =====
-- source/workload_file.c: a file is taken out of the list of its disk.
use workload.Prelude.{
  ℕ, ◌≡◌, ◌≢◌, refl, sym, subst, arith, true, false, ◌∙◌, Option, none, some, List, [], ◌∷◌, ◌==◌,
  if◌then◌else◌, contains, points_to, is_null, ℕ_discrete,
}
use workload.Prelude.Sums.{IsDistinct}
use workload.Store.Types.{File}
use workload.Store.Assign.{unlink_files}
use workload.Store.Assign.Lists.{
  Chain, remove, SameLinks, ==_refl, contains_tail, contains_head, Chain_frame, ne_of_contains,
}

module _ (f : ℕ) (file : ℕ → File) where
  -- What unlinking does to another file.
  pub unlink_rest :
      (y : ℕ)
      → y ≢ f
      → ((unlink_files f file y).assign_prev ≡ (
          if points_to (file f).assign_next y then (file f).assign_prev else (file y).assign_prev))
        × ((unlink_files f file y).assign_next ≡ (
            if points_to (file f).assign_prev y
            then (file f).assign_next
            else (file y).assign_next))
  unfolding unlink_files
  unlink_rest y ne = ground arith

  unlink_kept :
      (prev : Option ℕ) (xs : List ℕ)
      → Chain file (some f) (file f).assign_next xs
      → (file f).assign_prev ≡ prev
      → contains f xs ≡ false
      → IsDistinct xs
      → ((y : ℕ) → contains y xs ≡ true → points_to prev y ≡ false)
      → Chain (unlink_files f file) prev (file f).assign_next xs
  unlink_kept prev [] c at out dist apart = c
  unlink_kept prev (y ∷ ys) (e, p, c) at out (fresh, dist) apart =
      let (rp, rn) = unlink_rest y (ground arith) in
      let next_kept : (unlink_files f file y).assign_next ≡ (file y).assign_next =
        rn ∙ rw (at, apart y (contains_head y ys)) refl in
      (
        e,
        rp ∙ rw (e, ==_refl y) at,
        rw next_kept
            (Chain_frame file (unlink_files f file) (some y) (file y).assign_next ys kept c),
      )
    where
      kept : (z : ℕ) → contains z ys ≡ true → SameLinks file (unlink_files f file) z
      kept z h =
          let (rp, rn) = unlink_rest z (ne_of_contains z f ys h (ground arith)) in
          let other : (y == z) ≡ false = ground (arith, ne_of_contains z y ys h fresh) in
          (rp ∙ rw (e, other) refl, rn ∙ rw (at, apart z (contains_tail z y ys h)) refl)

  -- The file before `f` in a list is not an address outside it.
  pub prev_inside :
      (x : ℕ) (prev head : Option ℕ) (ys : List ℕ)
      → Chain file prev head ys
      → contains f ys ≡ true
      → points_to prev x ≡ false
      → contains x ys ≡ false
      → points_to (file f).assign_prev x ≡ false
  prev_inside x prev head [] c h ne out = absurd (cc)
  prev_inside x prev head (z ∷ zs) (e, p, c) h ne out = elim (ℕ_discrete z f) [
    | yes same ↦ rw (← same) (rw p ne)
    | no other ↦
        prev_inside x (some z) (file z).assign_next zs c (ground arith) (ground arith)
          (ground arith)
  ]

  pub next_inside :
      (x : ℕ) (prev head : Option ℕ) (ys : List ℕ)
      → Chain file prev head ys
      → contains f ys ≡ true
      → contains x ys ≡ false
      → points_to (file f).assign_next x ≡ false
  next_inside x prev head [] c h out = absurd (cc)
  next_inside x prev head (z ∷ zs) (e, p, c) h out = elim (ℕ_discrete z f) [
    | yes same ↦ rw (← same) (after zs c (ground arith))
    | no other ↦ next_inside x (some z) (file z).assign_next zs c (ground arith) (ground arith)
  ]
    where
      after :
          (ys : List ℕ)
          → Chain file (some z) (file z).assign_next ys
          → contains x ys ≡ false
          → points_to (file z).assign_next x ≡ false
      after [] c out = rw c refl
      after (y ∷ ys) (e, p, c) out = rw e (ground arith)

  -- `f` is the first behind `x` exactly if `x` is the one before `f`.
  neighbours :
      (x : ℕ) (head : Option ℕ) (ys : List ℕ)
      → Chain file (some x) head ys
      → contains f ys ≡ true
      → contains x ys ≡ false
      → points_to (file f).assign_prev x ≡ points_to head f
  neighbours x head [] c h out = absurd (cc)
  neighbours x head (z ∷ zs) (e, p, c) h out = elim (ℕ_discrete z f) [
    | yes same ↦ rw e (rw (← same) (rw (p, ==_refl x, ==_refl z) refl))
    | no other ↦ rw e (
        prev_inside x (some z) (file z).assign_next zs c (ground arith) (ground arith)
          (ground arith)
        ∙ sym (unequal other))
  ]
    where
      unequal : z ≢ f → (z == f) ≡ false
      unequal ne = ground arith

  -- The list without the file unlinked.
  pub unlink-Chain :
      (prev head : Option ℕ) (xs : List ℕ)
      → Chain file prev head xs
      → contains f xs ≡ true
      → IsDistinct xs
      → ((y : ℕ) → contains y xs ≡ true → points_to prev y ≡ false)
      → Chain
          (unlink_files f file)
          prev
          (if points_to head f then (file f).assign_next else head)
          (remove f xs)
  unlink-Chain prev head [] c h dist apart = absurd (cc)
  unlink-Chain prev head (x ∷ xs) (e, p, c) h (fresh, dist) apart = elim (ℕ_discrete x f) [
    | yes same ↦
        let at = subst (λ (t : ℕ). (file t).assign_prev ≡ prev) same p in
        let c' = subst (λ (t : ℕ). Chain file (some t) (file t).assign_next xs) same c in
        let fresh' = subst (λ (t : ℕ). contains t xs ≡ false) same fresh in
        rw (here same, test same)
          (unlink_kept prev xs c' at fresh' dist (λ y k. apart y (contains_tail y x xs k)))
    | no other ↦
        let inside : contains f xs ≡ true = ground arith in
        let (rp, rn) = unlink_rest x other in
        let rest =
          unlink-Chain (some x) (file x).assign_next xs c inside dist
            (λ y k. unequal (ne_of_contains y x xs k fresh)) in
        rw (there other, untest other)
          (
            e,
            rp ∙ rw (next_inside x (some x) (file x).assign_next xs c inside fresh) p,
            rw (rn, neighbours x (file x).assign_next xs c inside fresh) rest,
          )
  ]
    where
      here : x ≡ f → points_to head f ≡ true
      here same = rw (e, same) (==_refl f)

      test : x ≡ f → (x == f) ≡ true
      test same = rw same (==_refl f)

      untest : x ≢ f → (x == f) ≡ false
      untest ne = ground arith

      there : x ≢ f → points_to head f ≡ false
      there ne = rw e (untest ne)

      unequal : {y : ℕ} → y ≢ x → (x == y) ≡ false
      unequal ne = ground arith

  prev_some :
      (y : ℕ) (head : Option ℕ) (ys : List ℕ)
      → Chain file (some y) head ys
      → contains f ys ≡ true
      → is_null (file f).assign_prev ≡ false
  prev_some y head [] c h = absurd (cc)
  prev_some y head (z ∷ zs) (e, p, c) h = elim (ℕ_discrete z f) [
    | yes same ↦ rw (← same) (rw p refl)
    | no other ↦ prev_some z (file z).assign_next zs c (ground arith)
  ]

  -- `f` is the first of the list exactly if nothing stands before it.
  pub first_iff :
      (head : Option ℕ) (ys : List ℕ)
      → Chain file none head ys
      → contains f ys ≡ true
      → is_null (file f).assign_prev ≡ points_to head f
  first_iff head [] c h = absurd (cc)
  first_iff head (z ∷ zs) (e, p, c) h = elim (ℕ_discrete z f) [
    | yes same ↦ rw e (rw (← same) (rw (p, ==_refl z) refl))
    | no other ↦ rw e (prev_some z (file z).assign_next zs c (ground arith) ∙ sym (unequal other))
  ]
    where
      unequal : z ≢ f → (z == f) ≡ false
      unequal ne = ground arith
