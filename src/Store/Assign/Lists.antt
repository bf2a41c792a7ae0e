-- ===== src/Store/Assign/Lists.antt =====
-- source/workload_file.c: the doubly linked list of a disk, as the addresses that it holds.
pub mod Link
pub mod Unlink
use workload.Prelude.{
  ℕ, zero, suc, ◌+◌, ◌≡◌, ◌≢◌, length, Bool-cases, refl, sym, subst, ap, arith, Bool, true, false,
  ◌||◌, ◌∙◌, ◌⊎◌, inl, inr, Option, none, some, List, [], ◌∷◌, ◌==◌, if◌then◌else◌, contains,
  points_to, is_null, ℕ_discrete,
}
use workload.Prelude.Sums.{IsDistinct}
use workload.Store.Types.{File, update}
use workload.Store.Assign.{set_prev, set_next, unlink_files, link_files}

-- From `head`, whose `m_assign_prev` is `prev`, the pointers lead through exactly these addresses.
abbrev pub Chain : (ℕ → File) → Option ℕ → Option ℕ → List ℕ → Type 0
Chain file prev head [] = head ≡ none
Chain file prev head (x ∷ xs) =
    (head ≡ some x) × ((file x).assign_prev ≡ prev) × Chain file (some x) (file x).assign_next xs

-- The list without an address.
abbrev pub remove : ℕ → List ℕ → List ℕ
remove f [] = []
remove f (x ∷ xs) = if x == f then xs else x ∷ remove f xs

abbrev pub SameLinks : (ℕ → File) → (ℕ → File) → ℕ → Type 0
SameLinks file file' y =
    ((file' y).assign_prev ≡ (file y).assign_prev) × ((file' y).assign_next ≡ (file y).assign_next)

pub ==_refl : (n : ℕ) → (n == n) ≡ true
==_refl n = ground arith

pub contains_tail : (y x : ℕ) (xs : List ℕ) → contains y xs ≡ true → contains y (x ∷ xs) ≡ true
contains_tail y x xs h = ground arith

pub contains_head : (x : ℕ) (xs : List ℕ) → contains x (x ∷ xs) ≡ true
contains_head x xs = ground arith

pub Chain_frame :
    (file file' : ℕ → File) (prev head : Option ℕ) (xs : List ℕ)
    → ((y : ℕ) → contains y xs ≡ true → SameLinks file file' y)
    → Chain file prev head xs
    → Chain file' prev head xs
Chain_frame file file' prev head [] same c = c
Chain_frame file file' prev head (x ∷ xs) same (e, p, c) =
    let (sp, sn) = same x (contains_head x xs) in
    (
      e,
      sp ∙ p,
      rw sn (
          Chain_frame file file' (some x) (file x).assign_next xs
            (λ y h. same y (contains_tail y x xs h)) c),
    )

pub ne_of_contains : (a b : ℕ) (xs : List ℕ) → contains a xs ≡ true → contains b xs ≡ false → a ≢ b
ne_of_contains a b xs h k e = cc

pub contains-remove :
    (f x : ℕ) (xs : List ℕ)
    → IsDistinct xs
    → contains x (remove f xs) ≡ (if x == f then false else contains x xs)
contains-remove f x [] d = ground arith
contains-remove f x (y ∷ ys) (fresh, d) = ground (arith, contains-remove f x ys d)

pub remove-IsDistinct : (f : ℕ) (xs : List ℕ) → IsDistinct xs → IsDistinct (remove f xs)
remove-IsDistinct f [] d = d
remove-IsDistinct f (y ∷ ys) (fresh, d) = elim (Bool-cases (y == f)) [
  | inl same ↦ rw same d
  | inr other ↦ rw other (ground (arith, contains-remove f y ys d), remove-IsDistinct f ys d)
]

pub length-remove :
    (f : ℕ) (xs : List ℕ) → contains f xs ≡ true → suc (length (remove f xs)) ≡ length xs
length-remove f [] h = absurd (cc)
length-remove f (y ∷ ys) h = ground (arith, length-remove f ys)
