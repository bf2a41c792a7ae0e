-- ===== src/Setup/Disks/Complete.antt =====
-- source/workload_config.c: every entry of the configuration with a path has its disk in the list.
use workload.Prelude.{
  ℕ, zero, suc, ◌+◌, ◌<◌, ◌≤◌, ◌≡◌, refl, sym, subst, arith, Bool, true, false, not, ◌||◌,
  Bool-cases, inl, inr, List, [], ◌∷◌, ◌==◌, ==_iff, range_from,
}
use workload.Store.Types.{Bytes, Disk, Workload}
use workload.Text.Chars.{same_bytes, codes}
use workload.Text.Base.{basename_named}
use workload.Xml.{Xml, is_empty, xml_tag_data}
use workload.Setup.Disks.{
  entry_of, entries, disk_nodes, list_disks, is_same, is_duplicate, Entry, DiskIo, add_disk,
  add_disks,
}
use workload.Setup.Disks.Listed.{
  IsListed, is_added, round_passed, round_added, are_named, new_path, new_name, old_at,
  add_disk-IsListed,
}

pub same_bytes_refl : (s : Bytes) → same_bytes s s ≡ true
same_bytes_refl [] = refl
same_bytes_refl (c ∷ cs) = ground (arith, same_bytes_refl cs)

module _ (path name : Bytes) (disk : ℕ → Disk) where
  is_duplicate-find :
      (i n : ℕ)
      → is_duplicate path name (range_from i n) disk ≡ true
      → (k : ℕ) × (i ≤ k) × (k < i + n) × (is_same path name (disk k) ≡ true)
  is_duplicate-find i zero d = absurd (cc)
  is_duplicate-find i (suc n) d = elim (Bool-cases (is_same path name (disk i))) [
    | inl here ↦ (i, omega arith, omega arith, here)
    | inr other ↦
        let rest : is_duplicate path name (range_from (suc i) n) disk ≡ true = ground arith in
        let (k, low, high, same) = is_duplicate-find (suc i) n rest in
        (k, omega arith, omega arith, same)
  ]

  is_duplicate-at :
      (i n k : ℕ)
      → i ≤ k
      → k < i + n
      → is_same path name (disk k) ≡ true
      → is_duplicate path name (range_from i n) disk ≡ true
  is_duplicate-at i zero k low high same = absurd (omega arith)
  is_duplicate-at i (suc n) k low high same = elim (Bool-cases (i == k)) [
    | inl here ↦
        let at : is_same path name (disk i) ≡ true =
          subst (λ j. is_same path name (disk j) ≡ true) (sym ((==_iff i k).0 here)) same in
        ground arith
    | inr other ↦
        let rest = is_duplicate-at (suc i) n k (ground arith) (omega arith) same in ground arith
  ]

-- What was in the list is in it still.
abbrev Keeps : Workload → Workload → Type 0
Keeps w v =
    (path name : Bytes)
    → is_duplicate path name w.disk_head w.disk ≡ true
    → is_duplicate path name v.disk_head v.disk ≡ true

module _ (n : ℕ) (e : Entry) (w : Workload) (l : IsListed n w)
    (given : is_empty e.name ≡ false) where
  abbrev v : Workload
  v = add_disk (suc n) e w

  add_disk-Keeps : IsListed (suc n) v → Keeps w v
  add_disk-Keeps l' path name d =
      let (k, low, high, same) = is_duplicate-find path name w.disk 0 n (rw l.head at d) in
      let kept : is_same path name (v.disk k) ≡ true =
        rw (old_at n e w l given k (omega arith)) same in
      rw l'.head (is_duplicate-at path name v.disk 0 (suc n) k low (omega arith) kept)

  add_disk-is_duplicate : IsListed (suc n) v → is_duplicate e.path e.name v.disk_head v.disk ≡ true
  add_disk-is_duplicate l' =
      let same : is_same e.path e.name (v.disk n) ≡ true =
        rw (new_path n e w l given, new_name n e w l given)
          (ground (arith, same_bytes_refl e.path, same_bytes_refl e.name)) in
      rw l'.head (is_duplicate-at e.path e.name v.disk 0 (suc n) n (omega arith) (omega arith) same)

-- Each entry without a path, or with a disk in the list that has its path and its name.
abbrev pub AllListed : List Entry → Workload → Type 0
AllListed [] w = Unit {0}
AllListed (e ∷ es) w =
    ((is_empty e.path || is_duplicate e.path e.name w.disk_head w.disk) ≡ true) × AllListed es w

abbrev Outcome : List Entry → Workload → Bool × Workload → Type 0
Outcome es w r = (r.0 ≡ true) × Keeps w r.1 × AllListed es r.1 × ((m : ℕ) × IsListed m r.1)

module _ (rounds : ℕ → DiskIo) (go : (k : ℕ) → (rounds k).broken ≡ false)
    (room : (k : ℕ) → (rounds k).allocated ≡ true) where
  add_disks-Outcome :
      (es : List Entry) (k n : ℕ) (w : Workload)
      → are_named es ≡ true
      → IsListed n w
      → Outcome es w (add_disks rounds k (suc n) es w)
  unfolding add_disks
  add_disks-Outcome [] k n w given l = (refl, λ path name d. d, tt, (n, l))
  add_disks-Outcome (e ∷ es) k n w given l =
      let rest : are_named es ≡ true = ground arith in
      elim (Bool-cases (is_added rounds k e es w n)) [
        | inl new ↦
            let named_e : is_empty e.name ≡ false = ground arith in
            let fresh : is_duplicate e.path e.name w.disk_head w.disk ≡ false = ground arith in
            let l' = add_disk-IsListed n e w l named_e fresh in
            let r = add_disks-Outcome es (suc k) (suc n) (add_disk (suc n) e w) rest l' in
            let mine = r.1 e.path e.name (add_disk-is_duplicate n e w l named_e l') in
            rw (round_added rounds k e es w n (go k) new) (
              r.0,
              λ path name d. r.1 path name (add_disk-Keeps n e w l named_e l' path name d),
              (ground arith, r.2),
              r.3,
            )
        | inr old ↦
            let r = add_disks-Outcome es (suc k) n w rest l in
            rw (round_passed rounds k e es w n (go k) old) (
              r.0,
              r.1,
              (
                elim (Bool-cases (is_empty e.path)) [
                  | inl no_path ↦ rw no_path refl
                  | inr some_path ↦
                      let known : is_duplicate e.path e.name w.disk_head w.disk ≡ true =
                        ground (arith, room k) in
                      let mine = r.1 e.path e.name known in ground arith
                ],
                r.2,
              ),
              r.3,
            )
      ]

entry_of_named :
    (ezxml_child : Xml → Bytes → Xml) (node : Xml)
    → (is_empty (entry_of ezxml_child node).path || not (is_empty (entry_of ezxml_child node).name))
      ≡ true
unfolding entry_of
entry_of_named ezxml_child node =
    ground (arith, basename_named (xml_tag_data (ezxml_child node (codes "path"))))

pub entries-are_named :
    (ezxml_child : Xml → Bytes → Xml) (nodes : List Xml)
    → are_named (entries ezxml_child nodes) ≡ true
unfolding entries
entries-are_named ezxml_child [] = refl
entries-are_named ezxml_child (node ∷ nodes) =
    ground (arith, entry_of_named ezxml_child node, entries-are_named ezxml_child nodes)

-- If there is no break and memory is given, the loop over the disks of the configuration, from an empty
-- list on, ends, and lists each disk once: they are numbered from 1 in the order of the list, no two of
-- them have the same path and name, and every node with a path has its disk. This holds for any tree of
-- nodes, and whatever the library finds in it.
pub list_disks-AllListed :
    (ezxml_child : Xml → Bytes → Xml) (rounds : ℕ → DiskIo) (root : Xml) (w : Workload)
    → ((k : ℕ) → (rounds k).broken ≡ false)
    → ((k : ℕ) → (rounds k).allocated ≡ true)
    → IsListed 0 w
    → ((list_disks ezxml_child rounds root w).0 ≡ true)
      × AllListed (entries ezxml_child (disk_nodes root)) (list_disks ezxml_child rounds root w).1
      × ((m : ℕ) × IsListed m (list_disks ezxml_child rounds root w).1)
unfolding list_disks
list_disks-AllListed ezxml_child rounds root w go room l =
    let es = entries ezxml_child (disk_nodes root) in
    let given = entries-are_named ezxml_child (disk_nodes root) in
    let r = add_disks-Outcome rounds go room es 0 0 w given l in (r.0, r.2, r.3)
