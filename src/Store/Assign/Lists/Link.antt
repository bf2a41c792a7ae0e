-- ===== src/Store/Assign/Lists/Link.antt =====
-- source/workload_file.c: a file is put in front of the list of a disk.
use workload.Prelude.{
  ℕ, ◌≡◌, ◌≢◌, refl, arith, true, false, Option, none, some, List, [], ◌∷◌, ◌==◌, contains,
  points_to,
}
use workload.Prelude.Sums.{IsDistinct}
use workload.Store.Types.{File}
use workload.Store.Assign.{link_files}
use workload.Store.Assign.Lists.{Chain, SameLinks, Chain_frame, ne_of_contains}

module _ (f d : ℕ) (file : ℕ → File) where
  pub link_rest :
      (head : Option ℕ) (y : ℕ)
      → y ≢ f
      → points_to head y ≡ false
      → SameLinks file (link_files f d head file) y
  unfolding link_files
  link_rest none y nf nh = ground arith
  link_rest (some x) y nf nh = ground arith

  link_head :
      (head : Option ℕ) (x : ℕ)
      → head ≡ some x
      → x ≢ f
      → ((link_files f d head file x).assign_prev ≡ some f)
        × ((link_files f d head file x).assign_next ≡ (file x).assign_next)
  unfolding link_files
  link_head none x e ne = absurd (cc)
  link_head (some y) x e ne = ground arith

  link_self :
      (head : Option ℕ)
      → points_to head f ≡ false
      → ((link_files f d head file f).assign_prev ≡ none)
        × ((link_files f d head file f).assign_next ≡ head)
  unfolding link_files
  link_self none ne = ground arith
  link_self (some x) ne = ground arith

  pub first_ne :
      (head : Option ℕ) (xs : List ℕ)
      → Chain file none head xs
      → contains f xs ≡ false
      → points_to head f ≡ false
  first_ne head [] e out = rw e refl
  first_ne head (x ∷ xs) (e, p, c) out = rw e (ground arith)

  link_tail :
      (head : Option ℕ) (xs : List ℕ)
      → Chain file none head xs
      → contains f xs ≡ false
      → IsDistinct xs
      → Chain (link_files f d head file) (some f) head xs
  link_tail head [] c out dist = c
  link_tail head (x ∷ xs) (e, p, c) out (fresh, dist) =
      let (lp, ln) = link_head head x e (ground arith) in
      (
        e,
        lp,
        rw ln (
            Chain_frame file (link_files f d head file) (some x) (file x).assign_next xs
              (λ y h. link_rest head y (ne_of_contains y f xs h (ground arith)) (rw e (apart y h)))
              c),
      )
    where
      apart : (y : ℕ) → contains y xs ≡ true → (x == y) ≡ false
      apart y h = ground (arith, ne_of_contains y x xs h fresh)

  -- The file linked is the first of the list.
  pub link-Chain :
      (head : Option ℕ) (xs : List ℕ)
      → Chain file none head xs
      → contains f xs ≡ false
      → IsDistinct xs
      → Chain (link_files f d head file) none (some f) (f ∷ xs)
  link-Chain head xs c out dist =
      let tail = link_tail head xs c out dist in
      let (sp, sn) = link_self head (first_ne head xs c out) in (refl, sp, rw sn tail)
