-- ===== src/Setup/Loaded.antt =====
-- source/workload_config.c: assigning the files to the disks keeps the workload sound, and so does
-- laying down the places of the disks.
use workload.Prelude.{
  ℕ, zero, suc, ◌-◌, ◌%◌, ◌<◌, ◌≡◌, ◌∙◌, sym, subst, arith, Bool, Option, true, false, none, some,
  List, [], ◌∷◌, ◌==◌, if◌then◌else◌, get_or, set,
}
use workload.Prelude.Sums.{IsDistinct}
use workload.Store.Types.{Workload}
use workload.Store.Access.Ranked.{NextsBelow}
use workload.Store.Assign.{MoveIo, assign_file_to_disk}
use workload.Store.Assign.Placement.{assign_file_to_disk-Placed}
use workload.Store.Assign.Rest.{assign_file_to_disk-SameCounts}
use workload.Control.System.{IsSound}
use workload.Control.System.Move.{assign_file_to_disk-IsSound}
use workload.Setup.{
  Choice, choose, Round, disk_at, assign_to, assign_files, assign_all, sums_from, lay_places,
}
use workload.Store.Ranking.Targets.{AllBelow}
use workload.Setup.Places.{places-AllBelow}

-- Every entry of an array of files is the address of a file.
abbrev pub Entries : ℕ → List ℕ → Type 0
Entries n xs = (i : ℕ) → get_or xs i 0 < n

Entries-set : (n i v : ℕ) (xs : List ℕ) → Entries n xs → v < n → Entries n (set xs i v)
Entries-set n i v [] e h j = e j
Entries-set n zero v (x ∷ xs) e h zero = h
Entries-set n zero v (x ∷ xs) e h (suc j) = e (suc j)
Entries-set n (suc i) v (x ∷ xs) e h zero = e zero
Entries-set n (suc i) v (x ∷ xs) e h (suc j) = Entries-set n i v xs (λ k. e (suc k)) h j

-- The state of the loop: a sound workload whose assigned files are files of the list.
pub record IsLoading (n : ℕ) (even : List ℕ) (w : Workload) : Type 0 where
  pub sound : IsSound 0 w
  pub size : w.file_count ≡ n
  pub disks : IsDistinct w.disk_array
  pub ordered : Entries n w.file_ordered
  pub shuffled : Entries n even
  pub assigned : (x d : ℕ) → (w.file x).assign_disk ≡ some d → x < n

one_of_three :
    {A : Type 0} (P : A → Type 0) (b c : Bool) {x y z : A}
    → P x
    → P y
    → P z
    → P (if b then x else if c then y else z)
one_of_three P true c p q r = p
one_of_three P false true p q r = q
one_of_three P false false p q r = r

choose_inside :
    (n s_id draw : ℕ) (even : List ℕ) (w : Workload)
    → IsLoading n even w
    → ((choose s_id draw even w).file < n) × Entries n (choose s_id draw even w).even
unfolding choose
choose_inside n s_id draw even w l =
    let at = draw % (w.file_count - (s_id - 1)) in
    let swapped =
      Entries-set n at (get_or even (w.file_count - s_id) 0) even l.shuffled
        (l.shuffled (w.file_count - s_id)) in
    one_of_three (λ (c : Choice). (c.file < n) × Entries n c.even) (w.cfg.files_assign_method == 1)
      (w.cfg.files_assign_method == 2) (l.ordered (s_id - 1), l.shuffled)
      (
        l.shuffled at,
        Entries-set n (w.file_count - s_id) (get_or even at 0) _ swapped (l.shuffled at),
      )
      (l.ordered (s_id - 1), l.shuffled)

assign-IsLoading :
    (n : ℕ) (even even' : List ℕ) (io : MoveIo) (f d : ℕ) (w : Workload)
    → IsLoading n even w
    → f < n
    → Entries n even'
    → IsLoading n even' (assign_file_to_disk io f d w).1
assign-IsLoading n even even' io f d w l hf e =
    let same = assign_file_to_disk-SameCounts io f d w in
    let placed = assign_file_to_disk-Placed io f d w in
    record {
      sound = assign_file_to_disk-IsSound 0 io f d w l.sound;
      size = same.size ∙ l.size;
      disks = rw same.array l.disks;
      ordered = rw same.ordered l.ordered;
      shuffled = e;
      assigned = λ x c h. ground (arith, placed.assigned x, l.assigned x c);
    }

assign_to-IsLoading :
    (n : ℕ) (even even' : List ℕ) (io : MoveIo) (f : ℕ) (o : Option ℕ) (w : Workload)
    → IsLoading n even w
    → f < n
    → Entries n even'
    → IsLoading n even' (assign_to io f o w).1
unfolding assign_to
assign_to-IsLoading n even even' io f none w l hf e = record {
  sound = l.sound;
  size = l.size;
  disks = l.disks;
  ordered = l.ordered;
  shuffled = e;
  assigned = l.assigned;
}
assign_to-IsLoading n even even' io f (some d) w l hf e =
    assign-IsLoading n even even' io f d w l hf e

-- A workload that the loop has come to, with some state of the array of the even method.
abbrev pub Loads : ℕ → Bool × Workload → Type 0
Loads n r = (even : List ℕ) × IsLoading n even r.1

pub assign_files-Loads :
    (n rounds_left s_id : ℕ) (rounds : ℕ → Round) (even : List ℕ) (w : Workload)
    → IsLoading n even w
    → Loads n (assign_files rounds_left s_id rounds even w)
unfolding assign_files
assign_files-Loads n zero s_id rounds even w l = (even, l)
assign_files-Loads n (suc left) s_id rounds even w l =
    let c = choose s_id (rounds s_id).draw even w in
    let (inside, entries) = choose_inside n s_id (rounds s_id).draw even w l in
    let d = disk_at w.disk_array c.disk_index in
    let step = assign_to (rounds s_id).move c.file d w in
    let next = assign_to-IsLoading n even c.even (rounds s_id).move c.file d w l inside entries in
    one_of_three (Loads n) (rounds s_id).broken step.0 (even, l)
      (assign_files-Loads n left (suc s_id) rounds c.even step.1 next) (c.even, next)

-- The places of the disks are laid down after the files are assigned.
lay_places-IsSound :
    (n : ℕ) (even : List ℕ) (allocated : Bool) (w : Workload)
    → IsLoading n even w
    → n < 18446744073709551616
    → IsSound 0 (lay_places allocated w)
unfolding lay_places
lay_places-IsSound n even allocated w l small =
    let (members, k) = l.sound.linked in
    let r = l.sound.ranked in
    record {
      known = l.sound.known;
      bounded = l.sound.bounded;
      conserved = record {
        distinct = l.sound.conserved.distinct;
        reads = l.sound.conserved.reads;
        writes = l.sound.conserved.writes;
      };
      ranked = record {
        indexed = record {
          size = r.indexed.size;
          place = r.indexed.place;
          known = r.indexed.known;
          stands = r.indexed.stands;
          inside = r.indexed.inside;
        };
        ranked = r.ranked;
        nexts = nexts allocated;
      };
      linked = (
        members,
        record {
          chain = k.chain;
          count = k.count;
          distinct = k.distinct;
          owned = k.owned;
          listed = k.listed;
        },
      );
    }
  where
    nexts :
        (b : Bool) → NextsBelow w.file_count (if b then some (sums_from 0 w.disk_array w) else none)
    nexts false = tt
    nexts true =
        let (members, k) = l.sound.linked in
        subst (λ (m : ℕ). AllBelow m (sums_from 0 w.disk_array w)) (sym l.size)
          (places-AllBelow w members k n w.disk_array small l.disks l.assigned)

-- Whatever state the loop has come to, laying down the places of the disks keeps it sound, if no disk
-- stands twice in the array.
pub assign_all-IsSound :
    (n : ℕ) (rounds : ℕ → Round) (allocated : Bool) (w : Workload)
    → IsLoading n w.file_ordered w
    → n < 18446744073709551616
    → IsSound 0 (lay_places allocated (assign_all rounds w).1)
unfolding assign_all
assign_all-IsSound n rounds allocated w l small =
    let (even, k) = assign_files-Loads n w.file_count 1 rounds w.file_ordered w l in
    lay_places-IsSound n even allocated (assign_files w.file_count 1 rounds w.file_ordered w).1 k
      small
