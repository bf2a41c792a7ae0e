-- ===== src/Setup/Config/Whole.antt =====
-- source/workload_config.c: from an empty workload and any configuration to the running threads.
use workload.Prelude.{
  ℕ, suc, ◌-◌, ◌<◌, ◌≡◌, ◌∙◌, refl, sym, ap, subst, arith, Bool, true, false, none, some, List, [],
  length, range_from,
}
use workload.Prelude.Sums.{IsDistinct}
use workload.Store.Types.{Bytes, Workload}
use workload.Xml.{Xml}
use workload.Control.System.{IsSound}
use workload.Setup.{update_file_array}
use workload.Setup.Arrays.{IsDistinct-range_from, length-range_from}
use workload.Setup.Disks.{list_disks, update_disk_array, entries, disk_nodes}
use workload.Setup.Disks.Listed.{IsListed}
use workload.Setup.Disks.Complete.{list_disks-AllListed}
use workload.Setup.Disks.Frame.{
  any_path, some_listed, list_disks-Lists, counted, array_filled, nothing_freed,
}
use workload.Setup.Files.{list_files, with_files}
use workload.Setup.Files.Made.{Made, list_files-Made}
use workload.Setup.Config.{LoadIo, ◌then_do◌, clear_disks, load_storage}
use workload.Setup.Config.Total.{Ready, last_parts, last_parts-IsSound}
use workload.Storage.Walk.{IsGood}

-- No file and no disk is listed, and no address holds one.
pub record IsBlank (w : Workload) : Type 0 where
  pub no_files : w.file_head ≡ []
  pub cleared : w.file_ordered ≡ []
  pub no_count : w.file_count ≡ 0
  pub no_array : w.disk_array ≡ []
  pub no_disks : w.disk_count ≡ 0
  pub file :
      (x : ℕ)
      → ((w.file x).read_count ≡ 0) × ((w.file x).write_count ≡ 0) × ((w.file x).assign_disk ≡ none)
  pub disk : (d : ℕ) → ((w.disk d).assign_file ≡ none) × ((w.disk d).assign_file_count ≡ 0)
  pub total_reads : w.read_count ≡ 0
  pub total_writes : w.write_count ≡ 0
  pub no_places : w.next_file_index ≡ none

-- No call fails, and nothing breaks the loading off.
pub record Succeeds (io : LoadIo) : Type 0 where
  pub disks : (k : ℕ) → (io.disks k).broken ≡ false
  pub disk : (k : ℕ) → (io.disks k).allocated ≡ true
  pub disk_array : io.disk_array ≡ true
  pub files : (k : ℕ) → (io.files k).broken ≡ false
  pub file : (k : ℕ) → (io.files k).allocated ≡ true
  pub file_array : io.file_array ≡ true
  pub rounds : (k : ℕ) → (io.rounds k).broken ≡ false
  pub threads : (d : ℕ) → IsGood (io.threads d)

-- `m` disks and no files.
abbrev with_disks : (m : ℕ) → (w u : Workload) → Workload
with_disks m w u = record w {
  disk = u.disk;
  disk_head = range_from 0 m;
  disk_array = range_from 0 m;
  disk_count = m;
  max_name_size = (counted m u).max_name_size;
}

module _ (io : LoadIo) (g : Succeeds io) (root : Xml) (w : Workload) (b : IsBlank w)
    (usable : any_path (entries io.ezxml_child (disk_nodes root)) ≡ true)
    (few : length (entries io.ezxml_child (disk_nodes root)) < 4294967296)
    (small : w.cfg.filecount < 4294967296) (p q : Bytes) (prefix : w.cfg.prefix ≡ some p)
    (suffix : w.cfg.suffix ≡ some q) where
  start : Workload
  start = record w { disk_head = [] }

  clears : clear_disks w ≡ start
  unfolding clear_disks start
  clears = ap (λ (v : Workload). record v { disk_head = [] }) (nothing_freed w b.no_array)

  start-IsListed : IsListed 0 start
  unfolding start
  start-IsListed = record {
    head = refl;
    numbered = λ i h. absurd (omega arith);
    apart = λ i j h k. absurd (omega arith);
    unassigned = b.disk;
  }

  disks-IsListed :
      let u = (list_disks io.ezxml_child io.disks root start).1 in
      (list_disks io.ezxml_child io.disks root start ≡ (true, u))
      × ((m : ℕ) × (0 < m)
          × (m < 4294967296)
          × IsListed m u
          × (update_disk_array true u ≡ (true, with_disks m w u)))
  unfolding start
  disks-IsListed =
      let es = entries io.ezxml_child (disk_nodes root) in
      let r = list_disks io.ezxml_child io.disks root start in
      let (done, all, (m, l)) =
        list_disks-AllListed io.ezxml_child io.disks root start g.disks g.disk start-IsListed in
      let frame = list_disks-Lists io.ezxml_child io.disks root start in
      let size : length r.1.disk_head ≡ m = ap length l.head ∙ length-range_from 0 m in
      let many = some_listed es r.1 all usable in
      let no_array = ap (λ (v : Workload). v.disk_array) frame.rest ∙ b.no_array in
      let no_disks = ap (λ (v : Workload). v.disk_count) frame.rest ∙ b.no_disks in
      let arrays : ℕ → List ℕ → Workload → Bool × Workload = λ n ds v. (
        true,
        record v {
          disk_head = ds;
          disk_array = ds;
          disk_count = n;
          max_name_size = (counted n r.1).max_name_size;
        },
      ) in
      let filled =
        array_filled r.1 no_array no_disks many
        ∙ ap (arrays (length r.1.disk_head) r.1.disk_head) frame.rest
        ∙ ap (λ n. arrays n r.1.disk_head (record start { disk = r.1.disk })) size
        ∙ ap (λ ds. arrays m ds (record start { disk = r.1.disk })) l.head in
      (
        ap (λ c. (c, r.1)) done,
        (m, omega (arith, size, many), omega (arith, size, frame.bound, few), l, filled),
      )

  files_listed :
      (m : ℕ) (u : Workload)
      → 0 < m
      → m < 4294967296
      → IsListed m u
      → let v = with_disks m w u in
        let r = list_files io.null_text io.delete io.files v in
        (r ≡ (true, r.1)) × ((n : ℕ) × Ready (suc n) r.1)
  files_listed m u many bound l =
      let v = with_disks m w u in
      let r = list_files io.null_text io.delete io.files v in
      let (done, made) =
        list_files-Made io.null_text p q io.files g.files g.file io.delete v b.cleared b.no_files
          b.file prefix suffix in
      let count = (with_files v).cfg.filecount in
      let n = count - 1 in
      let e : count ≡ suc n = ground arith in
      let x = r.1 in
      let k : Made (suc n) (with_files v) x = subst (λ j. Made j (with_files v) x) e made in
      let array : x.disk_array ≡ range_from 0 m = ap (λ (z : Workload). z.disk_array) k.rest in
      let size : length x.disk_array ≡ m = ap length array ∙ length-range_from 0 m in
      let config : x.cfg.filecount ≡ count = ap (λ (z : Workload). z.cfg.filecount) k.rest in
      (
        ap (λ c. (c, x)) done,
        (
          n,
          record {
            fresh = record {
              head = ap (λ (z : Workload). z.file_head) k.rest;
              reads = k.reads;
              writes = k.writes;
              free = k.free;
              no_list =
                  λ d. ap (λ (z : Workload). (z.disk d).assign_file) k.rest ∙ (l.unassigned d).0;
              no_count = λ d.
                  ap (λ (z : Workload). (z.disk d).assign_file_count) k.rest ∙ (l.unassigned d).1;
              total_reads = ap (λ (z : Workload). z.read_count) k.rest ∙ b.total_reads;
              total_writes = ap (λ (z : Workload). z.write_count) k.rest ∙ b.total_writes;
              no_places = ap (λ (z : Workload). z.next_file_index) k.rest ∙ b.no_places;
            };
            cleared = ap (λ (z : Workload). z.file_ordered) k.rest ∙ b.cleared;
            none_yet = ap (λ (z : Workload). z.file_count) k.rest ∙ b.no_count;
            ids = k.numbered;
            count = ap (λ (z : Workload). z.disk_count) k.rest ∙ sym size;
            some_disk = omega (arith, size);
            distinct = subst IsDistinct (sym array) (IsDistinct-range_from 0 m);
            enough = omega (arith, config, e);
            few_files = ground (arith, e, small);
            few_disks = omega (arith, size, bound);
          },
        ),
      )

  pub load_storage-IsSound :
      ((load_storage io root w).0 ≡ true) × IsSound 1 (load_storage io root w).1
  unfolding load_storage
  load_storage-IsSound =
      let (listed, (m, many, bound, l, arrays)) = disks-IsListed in
      let u = (list_disks io.ezxml_child io.disks root start).1 in
      let (made, (n, ready)) = files_listed m u many bound l in
      let x = (list_files io.null_text io.delete io.files (with_disks m w u)).1 in
      let end =
        λ (r : Bool × Workload). last_parts io (r then_do update_file_array io.file_array) in
      let files =
        λ (r : Bool × Workload). end (r then_do list_files io.null_text io.delete io.files) in
      let disks = λ (r : Bool × Workload). files (r then_do update_disk_array io.disk_array) in
      let same : load_storage io root w ≡ last_parts io (update_file_array io.file_array x) =
        ap disks (ap (list_disks io.ezxml_child io.disks root) clears ∙ listed)
        ∙ ap files (ap (λ b. update_disk_array b u) g.disk_array ∙ arrays)
        ∙ ap end made in
      subst (λ q. (q.0 ≡ true) × IsSound 1 q.1) (sym same)
        (last_parts-IsSound n x io ready g.file_array g.rounds g.threads)
