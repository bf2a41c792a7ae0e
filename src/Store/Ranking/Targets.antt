-- ===== src/Store/Ranking/Targets.antt =====
-- The disks that the files are to move to: the first disk takes the files at the first places, as many
-- as `m_next_file_index` says, and so on.
use workload.Prelude.{
  ℕ, zero, suc, ◌+◌, ◌-◌, ◌≤◌, ◌<◌, ◌≡◌, refl, ◌∙◌, ◌&&◌, Option, none, some, List, [], ◌∷◌, arith,
  leb, ltb, points_to, ◌==◌, if◌then◌else◌, get_or,
}
use workload.Store.Types.{File}
use workload.Store.Ranking.{target, set_target, mark_places, mark_disks}
use workload.Store.Ranking.Places.{IsIndexed}

-- The disk that place `p` belongs to: the first one whose entry lies above `p`.
abbrev pub bucket : List ℕ → List ℕ → ℕ → Option ℕ
bucket [] nexts p = none
bucket (d ∷ ds) [] p = none
bucket (d ∷ ds) (n ∷ nexts) p = if ltb p n then some d else bucket ds nexts p

-- A file whose place belongs to a disk is to move there, any other keeps what it was to do.
abbrev pub retarget : Option ℕ → File → File
retarget none f = f
retarget (some d) f = record f { reassign_disk = target d f }

pub retarget_target :
    (o : Option ℕ) (f : File) (d : ℕ)
    → o ≡ some d
    → (retarget o f).reassign_disk ≡ (if points_to f.assign_disk d then none else some d)
unfolding target
retarget_target none f d e = absurd (cc)
retarget_target (some c) f d e = ground arith

pub retarget_kept :
    (o : Option ℕ) (f : File)
    → ((retarget o f).index ≡ f.index) × ((retarget o f).assign_disk ≡ f.assign_disk)
retarget_kept none f = (refl, refl)
retarget_kept (some d) f = (refl, refl)

abbrev pub AllBelow : ℕ → List ℕ → Type 0
AllBelow n [] = Unit {0}
AllBelow n (x ∷ xs) = (x ≤ n) × AllBelow n xs

module _ (n : ℕ) (sorted : List ℕ) where
  -- `sorted` and the places are inverse to one another.
  abbrev Fits : (ℕ → File) → Type 0
  Fits file = IsIndexed n (record { file = file; sorted = sorted })

  set_target_file :
      (d i : ℕ) (file : ℕ → File) (x : ℕ)
      → Fits file
      → i < n
      → x < n
      → set_target sorted d i file x
        ≡ retarget (if i == (file x).index then some d else none) (file x)
  unfolding set_target
  set_target_file d i file x v hi hx = ground (arith, v.stands x hx, v.place i hi)

  set_target-index :
      (d i : ℕ) (file : ℕ → File) (x : ℕ) → (set_target sorted d i file x).index ≡ (file x).index
  unfolding set_target
  set_target-index d i file x = ground arith

  set_target-Fits : (d i : ℕ) (file : ℕ → File) → Fits file → Fits (set_target sorted d i file)
  set_target-Fits d i file v = record {
    size = v.size;
    place = λ j hj. set_target-index d i file (get_or sorted j 0) ∙ v.place j hj;
    known = v.known;
    stands = λ x hx. rw (set_target-index d i file x) (v.stands x hx);
    inside = λ x hx. rw (set_target-index d i file x) (v.inside x hx);
  }

  mark_places-Fits :
      (d i rounds : ℕ) (file : ℕ → File) → Fits file → Fits (mark_places sorted d i rounds file)
  unfolding mark_places
  mark_places-Fits d i zero file v = v
  mark_places-Fits d i (suc rounds) file v =
      mark_places-Fits d (suc i) rounds (set_target sorted d i file) (set_target-Fits d i file v)

  mark_places_file :
      (d i rounds : ℕ) (file : ℕ → File) (x : ℕ)
      → Fits file
      → i + rounds ≤ n
      → x < n
      → mark_places sorted d i rounds file x
        ≡ retarget
            (if leb i (file x).index && ltb (file x).index (i + rounds) then some d else none)
            (file x)
  unfolding mark_places
  mark_places_file d i zero file x v hi hx = ground arith
  mark_places_file d i (suc rounds) file x v hi hx = ground (
    arith,
    mark_places_file d (suc i) rounds (set_target sorted d i file) x (set_target-Fits d i file v)
        (omega arith) hx,
    set_target_file d i file x v (omega arith) hx,
    set_target-index d i file x,
  )

  mark_places-index :
      (d i rounds : ℕ) (file : ℕ → File) (x : ℕ)
      → (mark_places sorted d i rounds file x).index ≡ (file x).index
  unfolding mark_places
  mark_places-index d i zero file x = refl
  mark_places-index d i (suc rounds) file x =
      mark_places-index d (suc i) rounds (set_target sorted d i file) x
      ∙ set_target-index d i file x

  -- From place `i`, where `m_next_file_index` stays within the array.
  pub mark_disks_file :
      (ds nexts : List ℕ) (i : ℕ) (file : ℕ → File) (x : ℕ)
      → Fits file
      → AllBelow n nexts
      → i ≤ n
      → x < n
      → mark_disks sorted ds nexts i file x
        ≡ retarget (if leb i (file x).index then bucket ds nexts (file x).index else none) (file x)
  unfolding mark_disks
  mark_disks_file [] nexts i file x v b hi hx = ground arith
  mark_disks_file (d ∷ ds) [] i file x v b hi hx = ground arith
  mark_disks_file (d ∷ ds) (m ∷ nexts) i file x v b hi hx = ground (
    arith,
    mark_disks_file ds nexts (i + (m - i)) (mark_places sorted d i (m - i) file) x
        (mark_places-Fits d i (m - i) file v) b.1 (omega arith) hx,
    mark_places_file d i (m - i) file x v (omega arith) hx,
    mark_places-index d i (m - i) file x,
  )

  pub mark_disks-Fits :
      (ds nexts : List ℕ) (i : ℕ) (file : ℕ → File)
      → Fits file
      → Fits (mark_disks sorted ds nexts i file)
  unfolding mark_disks
  mark_disks-Fits [] nexts i file v = v
  mark_disks-Fits (d ∷ ds) [] i file v = v
  mark_disks-Fits (d ∷ ds) (m ∷ nexts) i file v =
      mark_disks-Fits ds nexts (i + (m - i)) (mark_places sorted d i (m - i) file)
        (mark_places-Fits d i (m - i) file v)

set_target_rest :
    (sorted : List ℕ) (d i : ℕ) (file : ℕ → File) (x : ℕ)
    → set_target sorted d i file x
      ≡ record (file x) { reassign_disk = (set_target sorted d i file x).reassign_disk }
unfolding set_target
set_target_rest sorted d i file x = ground arith

mark_places_rest :
    (sorted : List ℕ) (d i rounds : ℕ) (file : ℕ → File) (x : ℕ)
    → mark_places sorted d i rounds file x
      ≡ record (file x) { reassign_disk = (mark_places sorted d i rounds file x).reassign_disk }
unfolding mark_places
mark_places_rest sorted d i zero file x = refl
mark_places_rest sorted d i (suc rounds) file x = ground (
  arith,
  mark_places_rest sorted d (suc i) rounds (set_target sorted d i file) x,
  set_target_rest sorted d i file x,
)

-- What the loops leave of a file, wherever it stands: all but the disk to move to.
pub mark_disks_rest :
    (sorted ds nexts : List ℕ) (i : ℕ) (file : ℕ → File) (x : ℕ)
    → mark_disks sorted ds nexts i file x
      ≡ record (file x) { reassign_disk = (mark_disks sorted ds nexts i file x).reassign_disk }
unfolding mark_disks
mark_disks_rest sorted [] nexts i file x = refl
mark_disks_rest sorted (d ∷ ds) [] i file x = refl
mark_disks_rest sorted (d ∷ ds) (n ∷ nexts) i file x = ground (
  arith,
  mark_disks_rest sorted ds nexts (i + (n - i)) (mark_places sorted d i (n - i) file) x,
  mark_places_rest sorted d i (n - i) file x,
)
