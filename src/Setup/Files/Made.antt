-- ===== src/Setup/Files/Made.antt =====
-- source/workload_config.c: the files that the loop makes are new, and stand at the first addresses.
use workload.Prelude.{
  ℕ, zero, suc, ◌+◌, ◌-◌, ◌<◌, ◌≡◌, ◌∙◌, refl, sym, ap, subst, arith, Bool, true, false, none, [],
  ◌∷◌, ◌++◌, if◌then◌else◌, range_from, length, length-append, ltb, ◌≤◌, ◌/◌, ◌%◌, some,
}
use workload.Store.Types.{Bytes, Workload}
use workload.Setup.Disks.{DiskIo}
use workload.Setup.Disks.Listed.{range-snoc}
use workload.Setup.Files.{
  printed, decimal, file_named, new_file, add_file, add_files, free_file, with_files, list_files,
}
use workload.Setup.{is_empty, free_file_array}

-- `v` is `w` but for the files, of which `n` stand at the first addresses, and are new.
pub record Made (n : ℕ) (w v : Workload) : Type 0 where
  pub rest : v ≡ record w { file = v.file; file_head = range_from 0 n }
  pub reads : (x : ℕ) → (v.file x).read_count ≡ 0
  pub writes : (x : ℕ) → (v.file x).write_count ≡ 0
  pub free : (x : ℕ) → (v.file x).assign_disk ≡ none
  pub numbered : (x : ℕ) → x < n → (v.file x).id ≡ suc x

range_end : (n : ℕ) → range_from 0 n ++ n ∷ [] ≡ range_from 0 (suc n)
range_end n =
    let e : 0 + n ≡ n = omega arith in
    subst (λ k. range_from 0 n ++ k ∷ [] ≡ range_from 0 (suc n)) e (range-snoc 0 n)

add_file-Made :
    (name : Bytes) (n : ℕ) (w v : Workload)
    → Made n w v
    → Made (suc n) w (add_file (some (file_named name (suc n) v)) (suc n) v).1
unfolding add_file
add_file-Made name n w v m =
    let at : suc n - 1 ≡ n = omega arith in
    let u = (add_file (some (file_named name (suc n) v)) (suc n) v).1 in
    let head = ap (λ (r : Workload). r.file_head ++ n ∷ []) m.rest ∙ range_end n in
    record {
      rest =
          ap (λ k. record u { file_head = v.file_head ++ k ∷ [] }) at
          ∙ ap (λ (r : Workload). record r { file = u.file; file_head = v.file_head ++ n ∷ [] })
              m.rest
          ∙ ap (λ xs. record w { file = u.file; file_head = xs }) head;
      reads = λ x. ground (arith, m.reads x);
      writes = λ x. ground (arith, m.writes x);
      free = λ x. ground (arith, m.free x);
      numbered = λ x h. ground (arith, m.numbered x);
    }

none-Made :
    (w : Workload)
    → w.file_head ≡ []
    → ((x : ℕ)
        → ((w.file x).read_count ≡ 0)
          × ((w.file x).write_count ≡ 0)
          × ((w.file x).assign_disk ≡ none))
    → Made 0 (with_files w) (with_files w)
none-Made w no_head blank = record {
  rest = ap (λ xs. record (with_files w) { file_head = xs }) no_head;
  reads = λ x. (blank x).0;
  writes = λ x. (blank x).1;
  free = λ x. (blank x).2;
  numbered = λ x h. absurd (omega arith);
}

nothing_kept : (w : Workload) → w.file_ordered ≡ [] → free_file_array w ≡ w
unfolding free_file_array
nothing_kept w cleared =
    ap
      (λ xs.
        if is_empty xs then w else record w { file_ordered = []; file_sorted = []; file_count = 0 })
      cleared

length-decimal : (fuel n : ℕ) → length (decimal fuel n) ≤ fuel
unfolding decimal
length-decimal zero n = omega arith
length-decimal (suc fuel) n = ground (
  arith,
  length-decimal fuel (n / 10),
  length-append (decimal fuel (n / 10)) ((48 + n % 10) ∷ []),
)

not_above : {m n : ℕ} → n ≤ m → ltb m n ≡ false
not_above h = ground arith

-- With a prefix and a suffix, the name fits.
new_file_fits :
    (null_text p q : Bytes) (s_id : ℕ) (w : Workload)
    → w.cfg.prefix ≡ some p
    → w.cfg.suffix ≡ some q
    → new_file null_text s_id w ≡ some (file_named (p ++ decimal 10 s_id ++ q) s_id w)
unfolding new_file printed
new_file_fits null_text p q s_id w prefix suffix =
    let digits = length-decimal 10 s_id in
    let front = length-append p (decimal 10 s_id) in
    let all = length-append (p ++ decimal 10 s_id) q in
    let size : length (p ++ decimal 10 s_id ++ q) ≤ length p + 10 + length q =
      omega (arith, digits, front, all) in
    let fits : ltb (length p + 10 + length q) (length (p ++ decimal 10 s_id ++ q)) ≡ false =
      not_above size in
    rw (prefix, suffix, fits) refl

-- Nothing stops the loop.
module _ (null_text p q : Bytes) (rounds : ℕ → DiskIo) (go : (k : ℕ) → (rounds k).broken ≡ false)
    (room : (k : ℕ) → (rounds k).allocated ≡ true) where
  pub add_files-Made :
      (left n : ℕ) (w v : Workload)
      → Made n w v
      → w.cfg.prefix ≡ some p
      → w.cfg.suffix ≡ some q
      → ((add_files null_text rounds left (suc n) v).0 ≡ true)
        × Made (n + left) w (add_files null_text rounds left (suc n) v).1
  unfolding add_files add_file
  add_files-Made zero n w v m prefix suffix = (refl, subst (λ k. Made k w v) (omega arith) m)
  add_files-Made (suc left) n w v m prefix suffix =
      let u = (add_file (some (file_named (p ++ decimal 10 (suc n) ++ q) (suc n) v)) (suc n) v).1 in
      let fits =
        new_file_fits null_text p q (suc n) v (ap (λ (z : Workload). z.cfg.prefix) m.rest ∙ prefix)
          (ap (λ (z : Workload). z.cfg.suffix) m.rest ∙ suffix) in
      let after = add_files null_text rounds left (suc (suc n)) u in
      let r =
        add_files-Made left (suc n) w u (add_file-Made (p ++ decimal 10 (suc n) ++ q) n w v m)
          prefix suffix in
      let all : Made (n + suc left) w after.1 = subst (λ k. Made k w after.1) (omega arith) r.1 in
      rw (go (suc n), room (suc n), fits) (r.0, all)

  -- From a workload without files, all files of the configuration are made.
  pub list_files-Made :
      (delete : Bool) (w : Workload)
      → w.file_ordered ≡ []
      → w.file_head ≡ []
      → ((x : ℕ)
          → ((w.file x).read_count ≡ 0)
            × ((w.file x).write_count ≡ 0)
            × ((w.file x).assign_disk ≡ none))
      → w.cfg.prefix ≡ some p
      → w.cfg.suffix ≡ some q
      → let r = list_files null_text delete rounds w in
        (r.0 ≡ true) × Made (with_files w).cfg.filecount (with_files w) r.1
  unfolding list_files free_file
  list_files-Made delete w cleared no_head blank prefix suffix =
      let u = with_files w in
      let all = add_files null_text rounds u.cfg.filecount 1 u in
      let same : with_files (free_file delete (free_file_array w).file_head (free_file_array w))
          ≡ u =
        ap (λ v. with_files (free_file delete v.file_head v)) (nothing_kept w cleared)
        ∙ ap (λ xs. with_files (free_file delete xs w)) no_head in
      subst
        (λ v.
          let r = add_files null_text rounds v.cfg.filecount 1 v in
          (r.0 ≡ true) × Made u.cfg.filecount u r.1)
        (sym same)
        (subst (λ k. (all.0 ≡ true) × Made k u all.1) (omega arith)
          (add_files-Made u.cfg.filecount 0 u u (none-Made w no_head blank) prefix suffix))
