-- ===== src/Database.antt =====
-- source/db.c: the rows that sqlite3 hands to the callback of a query, kept in a list of nodes, and
-- fetched from it. What sqlite3 does is a parameter: the rows, and the code with which sqlite3_exec
-- ends. The branches of MySQL only call its library.
pub mod Rows
pub mod Fields
mod Tests
use workload.Prelude.{
  ℕ, suc, zero, ◌+◌, Bool, true, false, ◌||◌, Option, none, some, List, [], ◌∷◌, ◌==◌,
  if◌then◌else◌, u64, length,
}
use workload.Store.Types.{Bytes, update}
use workload.Text.Pattern.{check_pattern}
use workload.Text.Path.{word, after_word, skip_one}

-- A row as sqlite3 hands it over, where an entry may be NULL. `none` stands for arguments that the
-- callback refuses: a negative count or an array that is NULL.
pub record Row : Type 0 where
  pub argv : List (Option Bytes)
  pub field_name : List (Option Bytes)

-- `workload_sqlite3_node_t`, whose `m_argc` is the length of the row
pub record Node : Type 0 where
  pub row : Row
  pub next : Option ℕ

-- `workload_sqlite3_result_t`
pub record Result : Type 0 where
  pub node_count : ℕ
  pub head : Option ℕ
  pub tail : Option ℕ
  pub fetch : Option ℕ

-- The pointer to the result: NULL, a result, or one that is freed.
pub data Pointer : Type 0 where
  null : Pointer
  result : Result → Pointer
  dangling : Pointer

pub record State : Type 0 where
  pub node : ℕ → Node
  pub context : Pointer

-- SQLITE_OK, SQLITE_ERROR, SQLITE_NOMEM, SQLITE_BUSY and SQLITE_LOCKED are 0, 1, 7, 5 and 6.
abbrev pub ok : ℕ
ok = 0

-- workload_new_sqlite3_result
abbrev pub new_sqlite3_result : Result
new_sqlite3_result = record { node_count = 0; head = none; tail = none; fetch = none }

-- workload_new_sqlite3_node, where strdup copies the row
abbrev pub new_sqlite3_node : Row → Node
new_sqlite3_node row = record { row = row; next = none }

-- The node of `row` is put behind the tail, at the address `a`.
append_at : (tail : Option ℕ) → ℕ → Row → (ℕ → Node) → Result → State
append_at none a row node r = record {
  node = update node a (new_sqlite3_node row);
  context = result (record {
    node_count = u64 (r.node_count + 1);
    head = some a;
    tail = some a;
    fetch = some a;
  });
}
append_at (some t) a row node r =
    let added = update node a (new_sqlite3_node row) in
    record {
      node = update added t (record (added t) { next = some a });
      context = result (record r { node_count = u64 (r.node_count + 1); tail = some a });
    }

append_node : ℕ → Row → (ℕ → Node) → Result → State
append_node a row node r = append_at r.tail a row node r

-- What malloc answers in a call of the callback: for the result, and for the node.
pub record Malloc : Type 0 where
  pub result_given : Bool
  pub node_at : Option ℕ

-- The second half of workload_sqlite3_callback, with the result found or made. `s` keeps the pointer
-- that the caller has, which is not changed where the node cannot be made.
add_row : Option ℕ → Row → Result → (failed : Pointer) → State → ℕ × State
add_row none row r failed s = (7, record s { context = failed })
add_row (some a) row r failed s = (ok, append_node a row s.node r)

-- The result that the caller holds is freed with the row that fails; the one that was new is not
-- handed over.
callback_at : Malloc → Row → Pointer → State → ℕ × State
callback_at m row null s =
    if m.result_given then add_row m.node_at row new_sqlite3_result null s else (7, s)
callback_at m row (result r) s = add_row m.node_at row r dangling s
callback_at m row dangling s = (7, s)

-- workload_sqlite3_callback
pub sqlite3_callback : Malloc → Option Row → State → ℕ × State
sqlite3_callback m none s = (1, s)
sqlite3_callback m (some row) s = callback_at m row s.context s

-- sqlite3_exec hands the rows over, and stops with SQLITE_ABORT, 4, at a callback that does not
-- answer 0.
pub deliver : List (Malloc × Option Row) → State → Bool × State
deliver [] s = (true, s)
deliver ((m, row) ∷ rows) s =
    let (code, t) = sqlite3_callback m row s in
    let rest = deliver rows t in if code == 0 then rest else (false, t)

-- One call of sqlite3_exec: the rows of it, and the code it ends with if no callback fails.
pub record Attempt : Type 0 where
  pub rows : List (Malloc × Option Row)
  pub code : ℕ

abbrev is_retried : ℕ → Bool
is_retried code = code == 5 || code == 6

attempt : Attempt → State → ℕ × State
attempt a s = let (done, t) = deliver a.rows s in (if done then a.code else 4, t)

-- workload_sqlite3_query: the calls are made until one is not answered by SQLITE_BUSY or
-- SQLITE_LOCKED. `none` says that the list of calls is used up.
pub sqlite3_query : List Attempt → State → Option (ℕ × State)
sqlite3_query [] s = none
sqlite3_query (a ∷ as') s =
    let (code, t) = attempt a s in
    let again = sqlite3_query as' t in if is_retried code then again else some (code, t)

-- workload_db_fetch_row
fetch_at : Option ℕ → Result → State → Option (List (Option Bytes)) × State
fetch_at none r s = (none, s)
fetch_at (some a) r s =
    (some (s.node a).row.argv, record s { context = result (record r { fetch = (s.node a).next }) })

fetch_from : Pointer → State → Option (List (Option Bytes)) × State
fetch_from null s = (none, s)
fetch_from (result r) s = fetch_at r.fetch r s
fetch_from dangling s = (none, s)

pub db_fetch_row : State → Option (List (Option Bytes)) × State
db_fetch_row s = fetch_from s.context s

-- workload_db_row_count
pub db_row_count : Pointer → ℕ
db_row_count null = 0
db_row_count (result r) = r.node_count
db_row_count dangling = 0

-- The row at the head of the result, if there is one.
abbrev head_row : (ℕ → Node) → Option ℕ → Option Row
head_row node none = none
head_row node (some a) = some (node a).row

pub first_row : (ℕ → Node) → Pointer → Option Row
first_row node null = none
first_row node (result r) = head_row node r.head
first_row node dangling = none

-- workload_db_field_count
count_fields : Option Row → ℕ
count_fields none = 0
count_fields (some row) = length row.argv

pub db_field_count : State → ℕ
db_field_count s = count_fields (first_row s.node s.context)

-- The first field whose name fits the pattern; a name that is NULL is an empty string.
abbrev string_of : Option Bytes → Bytes
string_of none = []
string_of (some s) = s

abbrev pub fitting_field : Bytes → (is_case : Bool) → ℕ → List (Option Bytes) → Option ℕ
fitting_field pattern is_case i [] = none
fitting_field pattern is_case i (name ∷ names) =
    if check_pattern pattern (string_of name) is_case
    then some i
    else fitting_field pattern is_case (suc i) names

abbrev pub or_else : Option ℕ → Option ℕ → Option ℕ
or_else (some i) rest = some i
or_else none rest = rest

-- The loop of workload_db_field_index over the patterns between `|`, on fuel.
abbrev bar : Bytes
bar = b'|' ∷ []

field_loop : ℕ → (hint : Bytes) → (is_case : Bool) → List (Option Bytes) → Option ℕ
field_loop zero hint is_case names = none
field_loop (suc fuel) [] is_case names = none
field_loop (suc fuel) (c ∷ cs) is_case names =
    or_else (fitting_field (word bar (c ∷ cs)) is_case 0 names)
      (field_loop fuel (skip_one (after_word bar (c ∷ cs))) is_case names)

field_index_in : Option Row → Bytes → Bool → Option ℕ
field_index_in none hint is_case = none
field_index_in (some row) hint is_case = field_loop (length hint) hint is_case row.field_name

-- workload_db_field_index, with `none` for -1
pub db_field_index : State → (name_hint : Bytes) → (is_case : Bool) → Option ℕ
unfolding first_row field_index_in
db_field_index s hint is_case = field_index_in (first_row s.node s.context) hint is_case
