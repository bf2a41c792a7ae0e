-- ===== src/Setup/Disks/Listed.antt =====
-- source/workload_config.c: the disks that the loop over the configuration lists.
use workload.Prelude.{
  ℕ, zero, suc, ◌+◌, ◌-◌, ◌<◌, ◌≤◌, ◌≡◌, refl, subst, ap, arith, Bool, true, false, not, ◌&&◌, ◌||◌,
  Bool-cases, inl, inr, none, List, [], ◌∷◌, ◌++◌, ◌==◌, ==_iff, if◌then◌else◌, range_from,
}
use workload.Store.Types.{Bytes, Disk, Workload}
use workload.Xml.{is_empty}
use workload.Setup.Disks.{
  named, new_disk, is_same, is_duplicate, Entry, DiskIo, add_disk, add_disks,
}

-- The first `n` addresses hold the disks of the list: they are numbered from 1, and no two of them have
-- the same path and name.
pub record IsListed (n : ℕ) (w : Workload) : Type 0 where
  pub head : w.disk_head ≡ range_from 0 n
  pub numbered : (i : ℕ) → i < n → (w.disk i).id ≡ suc i
  pub apart : (i j : ℕ) → i < j → j < n → is_same (w.disk j).path (w.disk j).name (w.disk i) ≡ false
  pub unassigned : (d : ℕ) → ((w.disk d).assign_file ≡ none) × ((w.disk d).assign_file_count ≡ 0)

pub range-snoc : (i n : ℕ) → range_from i n ++ (i + n) ∷ [] ≡ range_from i (suc n)
range-snoc i zero = let e : i + 0 ≡ i = omega arith in ap (λ k. k ∷ []) e
range-snoc i (suc n) =
    let e : suc i + n ≡ i + suc n = omega arith in
    ap (◌∷◌ i) (
      subst (λ k. range_from (suc i) n ++ k ∷ [] ≡ range_from (suc i) (suc n)) e
        (range-snoc (suc i) n))

is_duplicate-range :
    (path name : Bytes) (i n : ℕ) (disk : ℕ → Disk)
    → is_duplicate path name (range_from i n) disk ≡ false
    → (k : ℕ) → i ≤ k
    → k < i + n
    → is_same path name (disk k) ≡ false
is_duplicate-range path name i zero disk out k low high = absurd (omega arith)
is_duplicate-range path name i (suc n) disk out k low high =
    let first : is_same path name (disk i) ≡ false = ground arith in
    let rest : is_duplicate path name (range_from (suc i) n) disk ≡ false = ground arith in
    elim (Bool-cases (i == k)) [
      | inl here ↦ subst (λ j. is_same path name (disk j) ≡ false) ((==_iff i k).0 here) first
      | inr other ↦ is_duplicate-range path name (suc i) n disk rest k (ground arith) (omega arith)
    ]

-- An entry with a name, of which the path is kept.
named_lem : (name path : Bytes) → is_empty name ≡ false → named name path ≡ (name, path)
unfolding named
named_lem [] path given = absurd (cc)
named_lem (c ∷ cs) path given = refl

module _ (n : ℕ) (e : Entry) (w : Workload) (l : IsListed n w)
    (given : is_empty e.name ≡ false) where
  abbrev pub v : Workload
  v = add_disk (suc n) e w

  disk_at :
      (i : ℕ)
      → v.disk i ≡ (
          if n == i
          then record (new_disk (suc n) e.name e.path e.is_create_path w.time_stamp) {
            fakeoff_delay = e.fakeoff_delay;
          }
          else w.disk i)
  unfolding add_disk
  disk_at i = ground arith

  pub new_path : (v.disk n).path ≡ e.path
  unfolding new_disk
  new_path = ground (arith, disk_at n, named_lem e.name e.path given)

  pub new_name : (v.disk n).name ≡ e.name
  unfolding new_disk
  new_name = ground (arith, disk_at n, named_lem e.name e.path given)

  new_id : (v.disk n).id ≡ suc n
  unfolding new_disk
  new_id = ground (arith, disk_at n)

  pub old_at : (i : ℕ) → i < n → v.disk i ≡ w.disk i
  old_at i h = ground (arith, disk_at i)

  new_unassigned : (d : ℕ) → ((v.disk d).assign_file ≡ none) × ((v.disk d).assign_file_count ≡ 0)
  unfolding new_disk
  new_unassigned d = ground (arith, disk_at d, l.unassigned d)

  new_head : v.disk_head ≡ range_from 0 (suc n)
  unfolding add_disk
  new_head = rw l.head (let e : suc n - 1 ≡ 0 + n = omega arith in rw e (range-snoc 0 n))

  new_apart :
      is_duplicate e.path e.name w.disk_head w.disk ≡ false
      → (i j : ℕ) → i < j
      → j < suc n
      → is_same (v.disk j).path (v.disk j).name (v.disk i) ≡ false
  new_apart fresh i j low high = elim (Bool-cases (n == j)) [
    | inl here ↦
        let at = (==_iff n j).0 here in
        let first : i < n = omega (arith, at) in
        let apart =
          is_duplicate-range e.path e.name 0 n w.disk (rw l.head at fresh) i (omega arith)
            (omega arith) in
        subst (λ k. is_same (v.disk k).path (v.disk k).name (v.disk i) ≡ false) at
          (rw (new_path, new_name, old_at i first) apart)
    | inr other ↦
        let last : j < n = ground arith in
        rw (old_at j last, old_at i (omega arith)) (l.apart i j low last)
  ]

  pub add_disk-IsListed : is_duplicate e.path e.name w.disk_head w.disk ≡ false → IsListed (suc n) v
  add_disk-IsListed fresh = record {
    head = new_head;
    numbered = λ i h. elim (Bool-cases (n == i)) [
      | inl here ↦ subst (λ k. (v.disk k).id ≡ suc k) ((==_iff n i).0 here) new_id
      | inr other ↦ let last : i < n = ground arith in rw (old_at i last) (l.numbered i last)
    ];
    apart = new_apart fresh;
    unassigned = new_unassigned;
  }

-- Every entry with a path has a name.
abbrev pub are_named : List Entry → Bool
are_named [] = true
are_named (e ∷ es) = (is_empty e.path || not (is_empty e.name)) && are_named es

-- One round that is not a break: the disk is added, or the list stays as it is.
module _ (rounds : ℕ → DiskIo) (k : ℕ) (e : Entry) (es : List Entry) (w : Workload) (n : ℕ) where
  abbrev pub is_added : Bool
  is_added =
      if is_empty e.path || is_duplicate e.path e.name w.disk_head w.disk
      then false
      else (rounds k).allocated

  pub round_broken : (rounds k).broken ≡ true → add_disks rounds k (suc n) (e ∷ es) w ≡ (false, w)
  unfolding add_disks
  round_broken b = rw b refl

  pub round_passed :
      (rounds k).broken ≡ false
      → is_added ≡ false
      → add_disks rounds k (suc n) (e ∷ es) w ≡ add_disks rounds (suc k) (suc n) es w
  unfolding add_disks
  round_passed b a = rw (b, a) refl

  pub round_added :
      (rounds k).broken ≡ false
      → is_added ≡ true
      → add_disks rounds k (suc n) (e ∷ es) w
        ≡ add_disks rounds (suc k) (suc (suc n)) es (add_disk (suc n) e w)
  unfolding add_disks
  round_added b a = rw (b, a) refl

pub add_disks-IsListed :
    (es : List Entry) (rounds : ℕ → DiskIo) (k n : ℕ) (w : Workload)
    → are_named es ≡ true
    → IsListed n w
    → (m : ℕ) × IsListed m (add_disks rounds k (suc n) es w).1
unfolding add_disks
add_disks-IsListed [] rounds k n w given l = (n, l)
add_disks-IsListed (e ∷ es) rounds k n w given l =
    let rest : are_named es ≡ true = ground arith in
    elim (Bool-cases (rounds k).broken) [
      | inl stop ↦ rw (round_broken rounds k e es w n stop) (n, l)
      | inr go ↦ elim (Bool-cases (is_added rounds k e es w n)) [
        | inl new ↦
            let named_e : is_empty e.name ≡ false = ground arith in
            let fresh : is_duplicate e.path e.name w.disk_head w.disk ≡ false = ground arith in
            rw (round_added rounds k e es w n go new) (
              add_disks-IsListed es rounds (suc k) (suc n) (add_disk (suc n) e w) rest
                (add_disk-IsListed n e w l named_e fresh))
        | inr old ↦
            rw (round_passed rounds k e es w n go old)
              (add_disks-IsListed es rounds (suc k) n w rest l)
      ]
    ]
