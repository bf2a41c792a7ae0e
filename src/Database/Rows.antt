-- ===== src/Database/Rows.antt =====
-- source/db.c: what is fetched from the result of a query is what sqlite3 handed over.
use workload.Prelude.{
  ℕ, zero, suc, ◌+◌, ◌≡◌, sym, ◌∙◌, subst, refl, ap, arith, true, false, Option, none, some, List,
  [], ◌∷◌, ◌++◌, map, ◌==◌, u64, length, length-append, contains, take,
}
use workload.Prelude.Sums.{IsDistinct}
use workload.Store.Types.{Bytes, update}
use mathlib.Core.List.{append_assoc}
use mathlib.Core.Path.{ap₂}
use workload.Database.{
  Row, Node, Result, null, result, State, ok, new_sqlite3_result, new_sqlite3_node, append_at,
  append_node, Malloc, add_row, callback_at, sqlite3_callback, deliver, fetch_at, fetch_from,
  db_fetch_row, db_row_count,
}

abbrev pub Cell : Type 0
Cell = ℕ × Row

-- The nodes along `m_next` from `p` to `q`.
abbrev Segment : (ℕ → Node) → Option ℕ → List Cell → Option ℕ → Type 0
Segment node p [] q = p ≡ q
Segment node p ((a, row) ∷ cells) q =
    (p ≡ some a) × ((node a).row ≡ row) × Segment node (node a).next cells q

abbrev pub addresses : List Cell → List ℕ
addresses [] = []
addresses ((a, row) ∷ cells) = a ∷ addresses cells

Segment-update :
    (node : ℕ → Node) (p q : Option ℕ) (cells : List Cell) (b : ℕ) (n : Node)
    → contains b (addresses cells) ≡ false
    → Segment node p cells q
    → Segment (update node b n) p cells q
Segment-update node p q [] b n out s = s
Segment-update node p q ((a, row) ∷ cells) b n out s =
    let other : (b == a) ≡ false = ground arith in
    let rest : contains b (addresses cells) ≡ false = ground arith in
    rw other (s.0, s.1, Segment-update node (node a).next q cells b n rest s.2)

Segment-snoc :
    (node : ℕ → Node) (p q : Option ℕ) (cells : List Cell) (t : ℕ) (row : Row)
    → Segment node p cells (some t)
    → (node t).row ≡ row
    → (node t).next ≡ q
    → Segment node p (cells ++ (t, row) ∷ []) q
Segment-snoc node p q [] t row s at next = (s, at, next)
Segment-snoc node p q ((a, r) ∷ cells) t row s at next =
    (s.0, s.1, Segment-snoc node _ q cells t row s.2 at next)

contains-middle :
    (x t : ℕ) (row : Row) (cells rest : List Cell)
    → contains x (addresses (cells ++ (t, row) ∷ rest)) ≡ false
    → (contains x (addresses cells) ≡ false) × ((t == x) ≡ false)
contains-middle x t row [] rest out = ground arith
contains-middle x t row ((a, r) ∷ cells) rest out =
    ground (arith, contains-middle x t row cells rest)

-- In a list without repetition an address does not stand before itself.
IsDistinct-middle :
    (cells : List Cell) (t : ℕ) (row : Row) (rest : List Cell)
    → IsDistinct (addresses (cells ++ (t, row) ∷ rest))
    → contains t (addresses cells) ≡ false
IsDistinct-middle [] t row rest d = refl
IsDistinct-middle ((a, r) ∷ cells) t row rest d =
    ground (arith, contains-middle a t row cells rest, IsDistinct-middle cells t row rest d.1)

-- The result `r` holds the rows of `cells`, and `row` at `t` as the last one.
record Holds (s : State) (r : Result) (cells : List Cell) (t : ℕ) (row : Row) : Type 0 where
  context : s.context ≡ result r
  tail : r.tail ≡ some t
  front : Segment s.node r.head cells (some t)
  last : (s.node t).row ≡ row
  end : (s.node t).next ≡ none
  fetch : r.fetch ≡ r.head
  count : r.node_count ≡ u64 (length cells + 1)

-- The call of the callback for a row whose node is put at `a`.
abbrev pub call : Cell → Malloc × Option Row
call (a, row) = (record { result_given = true; node_at = some a }, some row)

abbrev pub calls : List Cell → List (Malloc × Option Row)
calls cells = map call cells

first-Holds :
    (node : ℕ → Node) (t : ℕ) (row : Row)
    → Holds
        (append_node t row node new_sqlite3_result)
        (record { node_count = 1; head = some t; tail = some t; fetch = some t })
        []
        t
        row
unfolding append_node append_at
first-Holds node t row = record {
  context = refl;
  tail = refl;
  front = refl;
  last = ground arith;
  end = ground arith;
  fetch = refl;
  count = refl;
}

module _ (s : State) (r : Result) (cells : List Cell) (t : ℕ) (row : Row)
    (h : Holds s r cells t row) where
  next-Holds :
      (b : ℕ) (next : Row)
      → contains t (addresses cells) ≡ false
      → contains b (addresses cells) ≡ false
      → (t == b) ≡ false
      → Holds
          (append_at (some t) b next s.node r)
          (record r { node_count = u64 (r.node_count + 1); tail = some b })
          (cells ++ (t, row) ∷ [])
          b
          next
  unfolding append_at
  next-Holds b next apart fresh other =
      let added = update s.node b (new_sqlite3_node next) in
      let linked = update added t (record (added t) { next = some b }) in
      let front =
        Segment-update added r.head (some t) cells t (record (added t) { next = some b }) apart
          (Segment-update s.node r.head (some t) cells b (new_sqlite3_node next) fresh h.front) in
      record {
        context = refl;
        tail = refl;
        front = Segment-snoc linked r.head (some b) cells t row front (ground arith) (ground arith);
        last = ground arith;
        end = ground arith;
        fetch = h.fetch;
        count = omega (arith, h.count, length-append {0} cells ((t, row) ∷ []));
      }

-- All rows of `cells` are in the result that the caller holds, the last one being the end of the list.
record Complete (s : State) (cells : List Cell) : Type 0 where
  r : Result
  context : s.context ≡ result r
  all : Segment s.node r.head cells none
  fetch : r.fetch ≡ r.head
  count : r.node_count ≡ u64 (length cells)

Holds-Complete :
    (s : State) (r : Result) (cells : List Cell) (t : ℕ) (row : Row)
    → Holds s r cells t row
    → Complete s (cells ++ (t, row) ∷ [])
Holds-Complete s r cells t row h = record {
  r = r;
  context = h.context;
  all = Segment-snoc s.node r.head none cells t row h.front h.last h.end;
  fetch = h.fetch;
  count = omega (arith, h.count, length-append {0} cells ((t, row) ∷ []));
}

-- A callback at a result that the caller holds.
callback_held :
    (a : ℕ) (row : Row) (s : State) (r : Result) (t : ℕ)
    → s.context ≡ result r
    → r.tail ≡ some t
    → sqlite3_callback (call (a, row)).0 (some row) s ≡ (ok, append_at (some t) a row s.node r)
unfolding sqlite3_callback callback_at add_row append_node
callback_held a row s r t at tail = rw (at, callback_at) (rw tail refl)

deliver-Holds :
    (rest : List Cell) (s : State) (r : Result) (cells : List Cell) (t : ℕ) (row : Row)
    → Holds s r cells t row
    → IsDistinct (addresses (cells ++ (t, row) ∷ rest))
    → ((deliver (calls rest) s).0 ≡ true)
      × Complete (deliver (calls rest) s).1 (cells ++ (t, row) ∷ rest)
unfolding deliver
deliver-Holds [] s r cells t row h d = (refl, Holds-Complete s r cells t row h)
deliver-Holds ((b, next) ∷ rest) s r cells t row h d =
    let again : IsDistinct (addresses ((cells ++ (t, row) ∷ []) ++ (b, next) ∷ rest)) =
      rw (append_assoc cells ((t, row) ∷ []) ((b, next) ∷ rest)) d in
    let fresh =
      contains-middle b t row cells []
        (IsDistinct-middle (cells ++ (t, row) ∷ []) b next rest again) in
    let h' =
      next-Holds s r cells t row h b next (IsDistinct-middle cells t row ((b, next) ∷ rest) d)
        fresh.0 fresh.1 in
    let all =
      deliver-Holds rest (append_at (some t) b next s.node r)
        (record r { node_count = u64 (r.node_count + 1); tail = some b }) (cells ++ (t, row) ∷ []) b
        next h' again in
    rw (callback_held b next s r t h.context h.tail)
      (all.0, subst (Complete _) (append_assoc cells ((t, row) ∷ []) ((b, next) ∷ rest)) all.1)

abbrev listed :
    (State → List (List (Option Bytes)))
    → Option (List (Option Bytes)) × State
    → List (List (Option Bytes))
listed more (none, s) = []
listed more (some argv, s) = argv ∷ more s

-- The rows that `n` calls of workload_db_fetch_row give, up to the first that gives NULL.
pub fetch_rows : ℕ → State → List (List (Option Bytes))
fetch_rows zero s = []
fetch_rows (suc n) s = listed (fetch_rows n) (db_fetch_row s)

abbrev pub argvs : List Cell → List (List (Option Bytes))
argvs [] = []
argvs ((a, row) ∷ cells) = row.argv ∷ argvs cells

db_fetch_row-none :
    (s : State) (r : Result) → s.context ≡ result r → r.fetch ≡ none → db_fetch_row s ≡ (none, s)
unfolding db_fetch_row fetch_from fetch_at
db_fetch_row-none s r at end = subst (λ p. fetch_from p s ≡ (none, s)) (sym at) (rw end refl)

db_fetch_row-some :
    (s : State) (r : Result) (a : ℕ)
    → s.context ≡ result r
    → r.fetch ≡ some a
    → db_fetch_row s ≡ (
      some (s.node a).row.argv,
      record s { context = result (record r { fetch = (s.node a).next }) },
    )
unfolding db_fetch_row fetch_from fetch_at
db_fetch_row-some s r a at here = ap (λ p. fetch_from p s) at ∙ ap (λ p. fetch_at p r s) here

fetch_rows-Segment :
    (n : ℕ) (cells : List Cell) (s : State) (r : Result)
    → s.context ≡ result r
    → Segment s.node r.fetch cells none
    → fetch_rows n s ≡ take n (argvs cells)
unfolding fetch_rows
fetch_rows-Segment zero cells s r at all = refl
fetch_rows-Segment (suc n) [] s r at all = ap (listed (fetch_rows n)) (db_fetch_row-none s r at all)
fetch_rows-Segment (suc n) ((a, row) ∷ cells) s r at all =
    let rest =
      fetch_rows-Segment n cells
        (record s { context = result (record r { fetch = (s.node a).next }) })
        (record r { fetch = (s.node a).next }) refl all.2 in
    ap (listed (fetch_rows n)) (db_fetch_row-some s r a at all.0)
    ∙ ap₂ ◌∷◌ (ap (λ (q : Row). q.argv) all.1) rest

-- Before the query: the caller's pointer is NULL.
abbrev pub unasked : (ℕ → Node) → State
unasked node = record { node = node; context = null }

Complete-fetch_rows :
    (s : State) (cells : List Cell) (n : ℕ)
    → Complete s cells
    → fetch_rows n s ≡ take n (argvs cells)
Complete-fetch_rows s cells n c =
    fetch_rows-Segment n cells s c.r c.context
      (subst (λ p. Segment s.node p cells none) (sym c.fetch) c.all)

Complete-row_count :
    (s : State) (cells : List Cell) → Complete s cells → db_row_count s.context ≡ u64 (length cells)
unfolding db_row_count
Complete-row_count s cells c = ap db_row_count c.context ∙ c.count

deliver_first :
    (node : ℕ → Node) (t : ℕ) (row : Row) (rest : List Cell)
    → deliver (calls ((t, row) ∷ rest)) (unasked node)
      ≡ deliver (calls rest) (append_node t row node new_sqlite3_result)
unfolding deliver sqlite3_callback callback_at add_row
deliver_first node t row rest = refl

-- Whatever rows sqlite3 hands over in a query, if the memory for them is given at addresses that are
-- not in use: the query is not stopped, fetching gives these rows, in their order, and NULL behind the
-- last one, and the number of rows is their number.
pub fetch_rows-deliver :
    (node : ℕ → Node) (cells : List Cell) (n : ℕ)
    → IsDistinct (addresses cells)
    → ((deliver (calls cells) (unasked node)).0 ≡ true)
      × (fetch_rows n (deliver (calls cells) (unasked node)).1 ≡ take n (argvs cells))
      × (db_row_count (deliver (calls cells) (unasked node)).1.context ≡ u64 (length cells))
unfolding deliver fetch_rows db_fetch_row fetch_from db_row_count
fetch_rows-deliver node [] zero d = (refl, refl, refl)
fetch_rows-deliver node [] (suc n) d = (refl, refl, refl)
fetch_rows-deliver node ((t, row) ∷ rest) n d =
    let all =
      deliver-Holds rest (append_node t row node new_sqlite3_result)
        (record { node_count = 1; head = some t; tail = some t; fetch = some t }) [] t row
        (first-Holds node t row) d in
    let cells : List Cell = (t, row) ∷ rest in
    rw (deliver_first node t row rest)
      (all.0, Complete-fetch_rows _ cells n all.1, Complete-row_count _ cells all.1)
