-- ===== src/Setup/Disks/Frame.antt =====
-- source/workload_config.c: what the disks of a configuration change in the workload.
use workload.Prelude.{
  ℕ, suc, ◌+◌, ◌-◌, ◌<◌, ◌≤◌, ◌≡◌, ◌∙◌, refl, ap, arith, Bool, true, false, not, ◌||◌, Bool-cases,
  inl, inr, List, [], ◌∷◌, ◌==◌, if◌then◌else◌, length, length-append,
}
use workload.Store.Types.{Bytes, Workload}
use workload.Xml.{Xml, is_empty}
use workload.Setup.Disks.{
  Entry, DiskIo, is_duplicate, add_disk, add_disks, entries, disk_nodes, list_disks,
  update_disk_array, free_disk_array, is_nil, max_name,
}
use workload.Setup.Disks.Complete.{AllListed}

-- `v` is `w` but for the disks and their list, to which at most `n` came.
pub record Lists (n : ℕ) (w v : Workload) : Type 0 where
  pub rest : v ≡ record w { disk = v.disk; disk_head = v.disk_head }
  pub bound : length v.disk_head ≤ length w.disk_head + n

Lists-trans : {m n k : ℕ} {u v w : Workload} → Lists m u v → Lists n v w → m + n ≤ k → Lists k u w
Lists-trans {w = w} p q h = record {
  rest = q.rest ∙ ap (λ (r : Workload). record r { disk = w.disk; disk_head = w.disk_head }) p.rest;
  bound = omega (arith, p.bound, q.bound);
}

add_disk-Lists : (id : ℕ) (e : Entry) (w : Workload) → Lists 1 w (add_disk id e w)
unfolding add_disk
add_disk-Lists id e w = record {
  rest = refl;
  bound = omega (arith, length-append w.disk_head ((id - 1) ∷ []));
}

none_added : (n : ℕ) (w : Workload) → Lists n w w
none_added n w = record { rest = refl; bound = omega arith }

pub add_disks-Lists :
    (rounds : ℕ → DiskIo) (es : List Entry) (k id : ℕ) (w : Workload)
    → Lists (length es) w (add_disks rounds k id es w).1
unfolding add_disks
add_disks-Lists rounds [] k id w = none_added 0 w
add_disks-Lists rounds (e ∷ es) k id w = elim (Bool-cases (rounds k).broken) [
  | inl stop ↦ rw stop (none_added (suc (length es)) w)
  | inr go ↦
      elim (Bool-cases (
        if is_empty e.path || is_duplicate e.path e.name w.disk_head w.disk
        then false
        else (rounds k).allocated)) [
          | inl added ↦
              let rest = add_disks-Lists rounds es (suc k) (suc id) (add_disk id e w) in
              rw (go, added) (Lists-trans (add_disk-Lists id e w) rest (omega arith))
          | inr left ↦
              let rest = add_disks-Lists rounds es (suc k) id w in
              rw (go, left) (Lists-trans (none_added 0 w) rest (omega arith))
        ]
]

pub list_disks-Lists :
    (ezxml_child : Xml → Bytes → Xml) (rounds : ℕ → DiskIo) (root : Xml) (w : Workload)
    → Lists
        (length (entries ezxml_child (disk_nodes root)))
        w
        (list_disks ezxml_child rounds root w).1
unfolding list_disks
list_disks-Lists ezxml_child rounds root w =
    add_disks-Lists rounds (entries ezxml_child (disk_nodes root)) 0 1 w

-- Some disk has a path.
abbrev pub any_path : List Entry → Bool
any_path [] = false
any_path (e ∷ es) = not (is_empty e.path) || any_path es

-- Then the list is not empty.
pub some_listed :
    (es : List Entry) (w : Workload) → AllListed es w → any_path es ≡ true → 0 < length w.disk_head
some_listed [] w a h = absurd (cc)
some_listed (e ∷ es) w (first, rest) h = elim (Bool-cases (is_empty e.path)) [
  | inl empty ↦ some_listed es w rest (ground arith)
  | inr path ↦ at w.disk_head (ground arith)
]
  where
    at : (ds : List ℕ) → is_duplicate e.path e.name ds w.disk ≡ true → 0 < length ds
    at [] dup = absurd (cc)
    at (d ∷ ds) dup = omega arith

pub nothing_freed : (w : Workload) → w.disk_array ≡ [] → free_disk_array w ≡ w
unfolding free_disk_array is_nil
nothing_freed w no_array =
    ap
      (λ xs.
        if is_nil xs then w else record w { disk_array = []; disk_count = 0; max_name_size = 0 })
      no_array

abbrev pub counted : (n : ℕ) → Workload → Workload
counted n w = record w {
  disk_count = n;
  disk_array = w.disk_head;
  max_name_size = max_name w.max_name_size w.disk_head w.disk;
}

abbrev with_count : Workload → ℕ → Bool × Workload
with_count w n = if n == 0 then (true, w) else (true, counted n w)

array_of :
    (w : Workload)
    → w.disk_count ≡ 0
    → 0 < length w.disk_head
    → with_count w (w.disk_count + length w.disk_head) ≡ (true, counted (length w.disk_head) w)
array_of w none_yet some_disk =
    let size : w.disk_count + length w.disk_head ≡ length w.disk_head = omega (arith, none_yet) in
    let many : (length w.disk_head == 0) ≡ false = ground arith in
    ap (with_count w) size
    ∙ ap (λ b. if b then (true, w) else (true, counted (length w.disk_head) w)) many

-- The array of the disks takes the list over.
pub array_filled :
    (w : Workload)
    → w.disk_array ≡ []
    → w.disk_count ≡ 0
    → 0 < length w.disk_head
    → update_disk_array true w ≡ (true, counted (length w.disk_head) w)
unfolding update_disk_array
array_filled w no_array none_yet some_disk =
    ap (λ v. with_count v (v.disk_count + length v.disk_head)) (nothing_freed w no_array)
    ∙ array_of w none_yet some_disk
