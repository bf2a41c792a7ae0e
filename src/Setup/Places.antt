-- ===== src/Setup/Places.antt =====
-- source/workload_config.c: the places laid down for the disks do not reach past the last file.
use workload.Prelude.{
  ℕ, zero, suc, ◌+◌, ◌<◌, ◌≤◌, ◌≡◌, refl, sym, subst, arith, true, false, ◌||◌, Bool-cases, ◌==◌,
  ==_iff, inl, inr, some, List, [], ◌∷◌, ◌++◌, length, contains, u64, length-append,
}
use workload.Prelude.Sums.{IsDistinct}
use workload.Store.Types.{Workload}
use workload.Store.Ranking.Targets.{AllBelow}
use workload.Store.Assign.Lists.{remove, contains-remove, remove-IsDistinct, length-remove}
use workload.Store.Assign.Chains.{IsLinked}
use workload.Setup.{sums_from}

-- A list of distinct numbers below `n` is not longer than `n`.
pub length_bound :
    (n : ℕ) (xs : List ℕ) → IsDistinct xs → ((x : ℕ) → contains x xs ≡ true → x < n) → length xs ≤ n
length_bound zero [] dist below = omega arith
length_bound zero (x ∷ xs) dist below = absurd (let h = below x (ground arith) in omega arith)
length_bound (suc m) xs dist below = elim (Bool-cases (contains m xs)) [
  | inl inside ↦
      let rest =
        length_bound m (remove m xs) (remove-IsDistinct m xs dist)
          (λ x h. ground (arith, contains-remove m x xs dist, below x)) in
      omega (arith, length-remove m xs inside, rest)
  | inr outside ↦
      let rest = length_bound m xs dist (λ x h. ground (arith, below x)) in omega (arith, rest)
]

pub contains-append :
    (x : ℕ) (xs ys : List ℕ) → contains x (xs ++ ys) ≡ (contains x xs || contains x ys)
contains-append x [] ys = refl
contains-append x (y ∷ zs) ys = ground (arith, contains-append x zs ys)

append-IsDistinct :
    (xs ys : List ℕ)
    → IsDistinct xs
    → IsDistinct ys
    → ((x : ℕ) → contains x xs ≡ true → contains x ys ≡ false)
    → IsDistinct (xs ++ ys)
append-IsDistinct [] ys p q apart = q
append-IsDistinct (x ∷ xs) ys (fresh, p) q apart = (
  ground (arith, contains-append x xs ys, apart x),
  append-IsDistinct xs ys p q (λ y h. apart y (ground arith)),
)

-- The files of the disks `ds`.
abbrev pub gather : (members : ℕ → List ℕ) → List ℕ → List ℕ
gather members [] = []
gather members (d ∷ ds) = members d ++ gather members ds

module _ (w : Workload) (members : ℕ → List ℕ) (l : IsLinked w members) where
  pub gather_owner :
      (ds : List ℕ) (x : ℕ)
      → contains x (gather members ds) ≡ true
      → (d : ℕ) × (contains d ds ≡ true) × ((w.file x).assign_disk ≡ some d)
  gather_owner [] x h = absurd (cc)
  gather_owner (d ∷ ds) x h = elim (Bool-cases (contains x (members d))) [
    | inl here ↦ (d, ground arith, l.owned d x here)
    | inr there ↦
        let (e, inside, at) =
          gather_owner ds x (ground (arith, contains-append x (members d) (gather members ds))) in
        (e, ground arith, at)
  ]

  -- No file is on two disks.
  pub gather-apart :
      (ds : List ℕ) (d : ℕ)
      → contains d ds ≡ false
      → (x : ℕ) → contains x (members d) ≡ true
      → contains x (gather members ds) ≡ false
  gather-apart ds d fresh x h = elim (Bool-cases (contains x (gather members ds))) [
    | inr out ↦ out
    | inl inside ↦
        let (e, there, at) = gather_owner ds x inside in absurd (ground (arith, l.owned d x h))
  ]

  gather-IsDistinct : (ds : List ℕ) → IsDistinct ds → IsDistinct (gather members ds)
  gather-IsDistinct [] dist = tt
  gather-IsDistinct (d ∷ ds) (fresh, dist) =
      append-IsDistinct (members d) (gather members ds) (l.distinct d) (gather-IsDistinct ds dist)
        (gather-apart ds d fresh)

  -- A file of a disk among `ds` is among their files.
  pub gather_listed :
      (ds : List ℕ) (d x : ℕ)
      → contains d ds ≡ true
      → contains x (members d) ≡ true
      → contains x (gather members ds) ≡ true
  gather_listed [] d x h inside = absurd (cc)
  gather_listed (e ∷ ds) d x h inside = elim (Bool-cases (e == d)) [
    | inl here ↦
        let on : contains x (members e) ≡ true =
          subst (λ c. contains x (members c) ≡ true) (sym ((==_iff e d).0 here)) inside in
        ground (arith, contains-append x (members e) (gather members ds), on)
    | inr other ↦
        let rest = gather_listed ds d x (ground arith) inside in
        ground (arith, contains-append x (members e) (gather members ds), rest)
  ]

  sums_from-AllBelow :
      (n from : ℕ) (ds : List ℕ)
      → n < 18446744073709551616
      → from + length (gather members ds) ≤ n
      → AllBelow n (sums_from from ds w)
  sums_from-AllBelow n from [] small fits = tt
  sums_from-AllBelow n from (d ∷ ds) small fits =
      let size = length-append (members d) (gather members ds) in
      (
        omega (arith, size, l.count d),
        sums_from-AllBelow n (u64 (from + (w.disk d).assign_file_count)) ds small
            (omega (arith, size, l.count d)),
      )

  pub places-AllBelow :
      (n : ℕ) (ds : List ℕ)
      → n < 18446744073709551616
      → IsDistinct ds
      → ((x d : ℕ) → (w.file x).assign_disk ≡ some d → x < n)
      → AllBelow n (sums_from 0 ds w)
  places-AllBelow n ds small dist below = sums_from-AllBelow n 0 ds small (
      omega (
        arith,
        length_bound n (gather members ds) (gather-IsDistinct ds dist)
            (λ x h. let (d, inside, at) = gather_owner ds x h in below x d at),
      ))
