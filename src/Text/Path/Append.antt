-- ===== src/Text/Path/Append.antt =====
-- source/string.c: workload_append_string_node_ex puts the nodes of two paths together.
use workload.Prelude.{
  ◌≡◌, ◌∙◌, refl, ap, Bool, true, false, Bool-cases, inl, inr, List, [], ◌∷◌, ◌++◌, ◌&&◌,
  if◌then◌else◌,
}
use workload.Store.Types.{Bytes}
use workload.Text.Path.{Node, is_empty, restrip, append_string_node, first_name, overrides}
use workload.Text.Path.Walk.{kept, walk, names, kept-restrip, names-check_ignore}

names-restrip : (ns : List Node) → names (restrip ns) ≡ names ns
unfolding restrip
names-restrip [] = refl
names-restrip (n ∷ ns) =
    names-check_ignore (record n { ignore = false }) (restrip ns)
    ∙ ap (λ xs. n.string ∷ xs) (names-restrip ns)

names-append : (ms ns : List Node) → names (ms ++ ns) ≡ names ms ++ names ns
names-append [] ns = refl
names-append (m ∷ ms) ns = ap (λ xs. m.string ∷ xs) (names-append ms ns)

-- A path that starts with an empty name, which stands last in the list.
abbrev pub is_absolute : List Bytes → Bool
is_absolute [] = false
is_absolute (name ∷ []) = is_empty name
is_absolute (name ∷ other ∷ others) = is_absolute (other ∷ others)

is_absolute-first_name :
    (name : Bytes) (ns : List Node) → is_empty (first_name name ns) ≡ is_absolute (name ∷ names ns)
is_absolute-first_name name [] = refl
is_absolute-first_name name (n ∷ ns) = is_absolute-first_name n.string ns

overrides-is_absolute :
    (override : Bool) (ns : List Node)
    → overrides override ns ≡ (override && is_absolute (names ns))
overrides-is_absolute true [] = refl
overrides-is_absolute false [] = refl
overrides-is_absolute override (n ∷ ns) =
    ap (λ b. override && b) (is_absolute-first_name n.string ns)

-- The names of two paths put together, the last one first.
abbrev pub joined_names : (override : Bool) → (head node : List Bytes) → List Bytes
joined_names override head node = if override && is_absolute node then node else node ++ head

pub append_nil : {A : Type 0} (xs : List A) → xs ++ [] ≡ xs
append_nil [] = refl
append_nil (x ∷ xs) = ap (λ ys. x ∷ ys) (append_nil xs)

names-rest :
    (override : Bool) (head node : List Node)
    → names node ++ names (if overrides override node then [] else head)
      ≡ joined_names override (names head) (names node)
names-rest override head node = elim (Bool-cases (override && is_absolute (names node))) [
  | inl alone ↦ rw (overrides-is_absolute override node, alone) (append_nil (names node))
  | inr both ↦ rw (overrides-is_absolute override node, both) refl
]

tagged :
    (tag : Bool) (joined : List Node) {xs : List Bytes}
    → names joined ≡ xs
    → names (if tag then restrip joined else joined) ≡ xs
tagged true joined e = names-restrip joined ∙ e
tagged false joined e = e

-- Appending nodes leaves the names of the two paths, or of the second alone if it starts with an empty
-- name and overrides. With the tag, those that are not ignored are what a walk along these names goes
-- through, whatever was ignored before.
pub append_string_node-walk :
    (head node : List Node) (override tag : Bool)
    → (names (append_string_node head node override tag)
        ≡ joined_names override (names head) (names node))
      × (kept (append_string_node head node override true)
          ≡ walk (joined_names override (names head) (names node)))
unfolding append_string_node
append_string_node-walk head node override tag =
    let joined = node ++ (if overrides override node then [] else head) in
    let all : names joined ≡ joined_names override (names head) (names node) =
      names-append node (if overrides override node then [] else head)
      ∙ names-rest override head node in
    (tagged tag joined all, kept-restrip joined ∙ ap walk all)
