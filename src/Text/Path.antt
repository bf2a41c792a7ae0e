-- ===== src/Text/Path.antt =====
-- source/string.c: a path is split into nodes, which are marked where "." and ".." take them away, and
-- put together again. The nodes are listed from the last one back along `m_prev`; every `malloc`
-- succeeds, and `m_string` is never NULL.
pub mod Walk
pub mod Append
pub mod Print
use workload.Prelude.{
  ℕ, zero, suc, ◌+◌, Bool, true, false, not, ◌&&◌, ◌||◌, List, [], ◌∷◌, ◌++◌, ◌==◌, if◌then◌else◌,
  contains, length,
}
use workload.Store.Types.{Bytes}
use workload.Text.Chars.{same_bytes}

-- `workload_string_node_t`
pub record Node : Type 0 where
  pub string : Bytes
  pub ignore : Bool

abbrev pub is_empty {ℓ} : {A : Type ℓ} → List A → Bool
is_empty [] = true
is_empty (_ ∷ _) = false

abbrev pub hidden : Node → Node
hidden n = record n { ignore = true }

-- The loop of workload_check_ignore_path_node for "..": the last node that is not ignored is ignored,
-- unless it has no name.
abbrev pub hide_last : List Node → List Node
hide_last [] = []
hide_last (n ∷ ns) =
    if n.ignore then n ∷ hide_last ns else (if is_empty n.string then n else hidden n) ∷ ns

abbrev pub is_parent : Bytes → Bool
is_parent s = same_bytes s (b'.' ∷ b'.' ∷ [])

abbrev pub is_self : Bytes → Bool
is_self s = same_bytes s (b'.' ∷ [])

-- workload_check_ignore_path_node, for a node and the nodes before it
unfoldable pub check_ignore : Node → List Node → List Node
check_ignore n prevs =
    if is_empty n.string
    then (if is_empty prevs then n else hidden n) ∷ prevs
    else if is_parent n.string
    then hidden n ∷ hide_last prevs
    else if is_self n.string
    then hidden n ∷ prevs
    else n ∷ prevs

-- workload_get_word_sep_alloc_c without skipping of spaces: the word, and what is behind it.
abbrev pub word : (sep : Bytes) → Bytes → Bytes
word sep [] = []
word sep (c ∷ cs) = if contains c sep then [] else c ∷ word sep cs

abbrev pub after_word : (sep : Bytes) → Bytes → Bytes
after_word sep [] = []
after_word sep (c ∷ cs) = if contains c sep then c ∷ cs else after_word sep cs

-- `if(s_string[0] != '\0') s_string = &s_string[1];`
abbrev pub skip_one : Bytes → Bytes
skip_one [] = []
skip_one (c ∷ cs) = cs

abbrev pub add_node : (tag : Bool) → Bytes → List Node → List Node
add_node tag name nodes =
    let n : Node = record { string = name; ignore = false } in
    if tag then check_ignore n nodes else n ∷ nodes

-- The loop of workload_string_to_node_ex, on fuel.
unfoldable pub node_loop : ℕ → (sep : Bytes) → (tag : Bool) → List Node → Bytes → List Node
node_loop zero sep tag nodes s = nodes
node_loop (suc fuel) sep tag nodes [] = nodes
node_loop (suc fuel) sep tag nodes (c ∷ cs) =
    node_loop fuel sep tag (add_node tag (word sep (c ∷ cs)) nodes)
      (skip_one (after_word sep (c ∷ cs)))

-- workload_string_to_node_ex with a separator
unfoldable pub string_to_node : (sep : Bytes) → (tag : Bool) → Bytes → List Node
unfolding node_loop
string_to_node sep tag s = node_loop (length s) sep tag [] s

-- workload_path_to_node
unfoldable pub path_to_node : Bytes → List Node
path_to_node s = string_to_node (b'/' ∷ b'\\' ∷ []) true s

-- "clear ignore" and "restrip"
pub restrip : List Node → List Node
restrip [] = []
restrip (n ∷ ns) = check_ignore (record n { ignore = false }) (restrip ns)

-- The name of the node that `m_prev` leads to in the end.
abbrev pub first_name : Bytes → List Node → Bytes
first_name name [] = name
first_name name (n ∷ ns) = first_name n.string ns

abbrev pub overrides : Bool → List Node → Bool
overrides override [] = false
overrides override (n ∷ ns) = override && is_empty (first_name n.string ns)

-- workload_append_string_node_ex
pub append_string_node : List Node → List Node → (override tag : Bool) → List Node
append_string_node head node override tag =
    let joined = node ++ (if overrides override node then [] else head) in
    if tag then restrip joined else joined
