-- ===== src/Database/Tests.antt =====
-- The theorems on the rows of a query, for two rows with the fields `id` and `access`.
use workload.Prelude.{
  ℕ, ◌≡◌, refl, true, false, Option, none, some, List, [], ◌∷◌, u64, length, take,
}
use workload.Store.Types.{Bytes}
use workload.Text.Path.Walk.{words}
use workload.Database.{Row, Node, State, deliver, db_row_count, db_field_index, first_row, result}
use workload.Database.Rows.{Cell, calls, argvs, unasked, fetch_rows, fetch_rows-deliver}
use workload.Database.Fields.{FirstFit, db_field_index-words}

abbrev fields : List (Option Bytes)
fields = some (b'i' ∷ b'd' ∷ []) ∷ some (b'a' ∷ b'c' ∷ []) ∷ []

abbrev row_of : ℕ → Row
row_of id = record { argv = some (id ∷ []) ∷ none ∷ []; field_name = fields }

abbrev empty_node : ℕ → Node
empty_node a = record { row = row_of 0; next = none }

abbrev two_cells : List Cell
two_cells = (7, row_of b'1') ∷ (3, row_of b'2') ∷ []

fetch_rows-deliver_example :
    ((deliver (calls two_cells) (unasked empty_node)).0 ≡ true)
    × (fetch_rows 3 (deliver (calls two_cells) (unasked empty_node)).1 ≡ take 3 (argvs two_cells))
    × (db_row_count (deliver (calls two_cells) (unasked empty_node)).1.context
        ≡ u64 (length two_cells))
fetch_rows-deliver_example = fetch_rows-deliver empty_node two_cells 3 (refl, (refl, tt))

abbrev one_row : State
one_row = record {
  node = empty_node;
  context = result (record { node_count = 1; head = some 5; tail = some 5; fetch = none });
}

abbrev hint : Bytes
hint = b'n' ∷ b'o' ∷ b'|' ∷ b'a' ∷ b'*' ∷ []

one_row-first_row : first_row one_row.node one_row.context ≡ some (row_of 0)
unfolding first_row
one_row-first_row = refl

db_field_index-words_example :
    FirstFit false fields (words (b'|' ∷ []) hint) (db_field_index one_row hint false)
db_field_index-words_example = db_field_index-words one_row (row_of 0) hint false one_row-first_row
