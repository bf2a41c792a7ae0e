-- ===== src/Tests/Text.antt =====
-- The theorems on strings, paths and patterns.
use workload.Prelude.{arith, ◌+◌, ◌≤◌, ◌≡◌, true, false, Bool, List, [], ◌∷◌, length, if◌then◌else◌}
use workload.Store.Types.{Bytes}
use workload.Text.Comma.{
  comma_string_private, require_buffer_size, plain, length-comma_string_private,
  plain-comma_string_private,
}
use workload.Text.Pattern.{check_pattern, escape, check_pattern-escape}
use workload.Text.Path.{Node, path_to_node, append_string_node}
use workload.Text.Path.Walk.{kept, names, walk, path_to_node-walk}
use workload.Text.Path.Append.{joined_names, append_string_node-walk}
use workload.Text.Path.Print.{measure, print, is_last, measure-print, print-join}

-- "/a/../b"
abbrev path : Bytes
path = b'/' ∷ b'a' ∷ b'/' ∷ b'.' ∷ b'.' ∷ b'/' ∷ b'b' ∷ []

path_to_node-walk_example :
    (names (path_to_node path) ≡ (b'b' ∷ []) ∷ (b'.' ∷ b'.' ∷ []) ∷ (b'a' ∷ []) ∷ [] ∷ [])
    × (kept (path_to_node path) ≡ (b'b' ∷ []) ∷ [] ∷ [])
path_to_node-walk_example = path_to_node-walk path

abbrev node : Bytes → Bool → Node
node string ignore = record { string = string; ignore = ignore }

abbrev head : List Node
head = node (b'a' ∷ []) false ∷ node [] false ∷ []

abbrev parent : List Node
parent = node (b'.' ∷ b'.' ∷ []) false ∷ []

append_string_node-walk_example :
    (names (append_string_node head parent true true)
      ≡ joined_names true (names head) (names parent))
    × (kept (append_string_node head parent true true)
        ≡ walk (joined_names true (names head) (names parent)))
append_string_node-walk_example = append_string_node-walk head parent true true

abbrev chain : List Node
chain = node [] false ∷ node (b'a' ∷ []) true ∷ node (b'b' ∷ []) false ∷ []

measure-print_example :
    measure (b'/' ∷ []) true chain
    ≡ length (print (b'/' ∷ []) true chain) + (if is_last true chain then 0 else 1)
measure-print_example = measure-print (b'/' ∷ []) true chain

print-join_example : print (b'/' ∷ []) true chain ≡ b'/' ∷ b'b' ∷ []
print-join_example = print-join (b'/' ∷ []) true chain

-- "-1234567"
abbrev number : Bytes
number = b'-' ∷ b'1' ∷ b'2' ∷ b'3' ∷ b'4' ∷ b'5' ∷ b'6' ∷ b'7' ∷ []

length-comma_string_private_example :
    length (comma_string_private number) + 1 ≤ require_buffer_size (length number)
length-comma_string_private_example = length-comma_string_private number

plain-comma_string_private_example : plain (comma_string_private number) ≡ number
plain-comma_string_private_example = plain-comma_string_private number

check_pattern-escape_example : check_pattern (escape (b'*' ∷ [])) (b'x' ∷ []) false ≡ false
check_pattern-escape_example = check_pattern-escape (b'*' ∷ []) (b'x' ∷ []) ((λ e. omega arith), tt)
