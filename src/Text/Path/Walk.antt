-- ===== src/Text/Path/Walk.antt =====
-- source/string.c: the nodes of a path that are not ignored are the directories that a walk along the
-- path goes through.
use workload.Prelude.{
  ℕ, zero, suc, ◌≤◌, ◌≡◌, ◌∙◌, refl, sym, ap, arith, Bool, true, false, Bool-cases, inl, inr, List,
  [], ◌∷◌, if◌then◌else◌, contains, length,
}
use workload.Store.Types.{Bytes}
use workload.Text.Path.{
  Node, is_empty, hide_last, is_parent, is_self, check_ignore, word, after_word, skip_one, add_node,
  string_to_node, node_loop, path_to_node, restrip,
}

-- The names of the nodes that are not ignored, the last one first.
abbrev pub kept : List Node → List Bytes
kept [] = []
kept (n ∷ ns) = if n.ignore then kept ns else n.string ∷ kept ns

-- Where ".." leads: out of the last directory, but not out of the root.
abbrev pub up : List Bytes → List Bytes
up [] = []
up (name ∷ names) = if is_empty name then name ∷ names else names

-- A step of the walk. An empty name counts as the root at the start of the path only.
abbrev pub enter : (start : Bool) → Bytes → List Bytes → List Bytes
enter start name names =
    if is_empty name
    then if start then name ∷ names else names
    else if is_parent name
    then up names
    else if is_self name
    then names
    else name ∷ names

-- The walk along names listed from the last one back.
abbrev pub walk : List Bytes → List Bytes
walk [] = []
walk (name ∷ names) = enter (is_empty names) name (walk names)

abbrev pub names : List Node → List Bytes
names [] = []
names (n ∷ ns) = n.string ∷ names ns

kept-hide_last : (ns : List Node) → kept (hide_last ns) ≡ up (kept ns)
kept-hide_last [] = refl
kept-hide_last (n ∷ ns) = ground (arith, kept-hide_last ns)

kept-check_ignore :
    (name : Bytes) (ns : List Node)
    → kept (check_ignore (record { string = name; ignore = false }) ns)
      ≡ enter (is_empty ns) name (kept ns)
unfolding check_ignore
kept-check_ignore name ns = ground (arith, kept-hide_last ns)

is_empty-check_ignore : (n : Node) (ns : List Node) → is_empty (check_ignore n ns) ≡ false
unfolding check_ignore
is_empty-check_ignore n ns = ground arith

is_empty-restrip : (ns : List Node) → is_empty (restrip ns) ≡ is_empty ns
unfolding restrip
is_empty-restrip [] = refl
is_empty-restrip (n ∷ ns) = is_empty-check_ignore _ (restrip ns)

is_empty-names : (ns : List Node) → is_empty (names ns) ≡ is_empty ns
is_empty-names [] = refl
is_empty-names (n ∷ ns) = refl

pub kept-restrip : (ns : List Node) → kept (restrip ns) ≡ walk (names ns)
unfolding restrip
kept-restrip [] = refl
kept-restrip (n ∷ ns) =
    kept-check_ignore n.string (restrip ns)
    ∙ rw (is_empty-restrip ns, is_empty-names ns, kept-restrip ns) refl

names-hide_last : (ns : List Node) → names (hide_last ns) ≡ names ns
names-hide_last [] = refl
names-hide_last (n ∷ ns) = ground (arith, names-hide_last ns)

pub names-check_ignore :
    (n : Node) (ns : List Node) → names (check_ignore n ns) ≡ n.string ∷ names ns
unfolding check_ignore
names-check_ignore n ns = ground (arith, names-hide_last ns)

names-add_node :
    (tag : Bool) (name : Bytes) (ns : List Node) → names (add_node tag name ns) ≡ name ∷ names ns
names-add_node true name ns = names-check_ignore (record { string = name; ignore = false }) ns
names-add_node false name ns = refl

kept-add_node :
    (name : Bytes) (ns : List Node)
    → kept ns ≡ walk (names ns)
    → kept (add_node true name ns) ≡ walk (names (add_node true name ns))
kept-add_node name ns e =
    kept-check_ignore name ns
    ∙ rw (names-check_ignore (record { string = name; ignore = false }) ns, is_empty-names ns, e)
        refl

-- The words between the separators. One separator at the end is not followed by an empty word.
abbrev first_word : ℕ → Bytes → List Bytes → List Bytes
first_word c [] ws = (c ∷ []) ∷ []
first_word c (d ∷ ds) [] = (c ∷ []) ∷ []
first_word c (d ∷ ds) (v ∷ vs) = (c ∷ v) ∷ vs

abbrev pub words : (sep : Bytes) → Bytes → List Bytes
words sep [] = []
words sep (c ∷ cs) = if contains c sep then [] ∷ words sep cs else first_word c cs (words sep cs)

abbrev pub onto : List Bytes → List Bytes → List Bytes
onto names [] = names
onto names (v ∷ vs) = onto (v ∷ names) vs

pub words-word :
    (sep : Bytes) (c : ℕ) (cs : Bytes)
    → words sep (c ∷ cs) ≡ word sep (c ∷ cs) ∷ words sep (skip_one (after_word sep (c ∷ cs)))
words-word sep c [] = elim (Bool-cases (contains c sep)) [
  | inl at ↦ rw at refl
  | inr other ↦ rw other refl
]
words-word sep c (d ∷ ds) = elim (Bool-cases (contains c sep)) [
  | inl at ↦ rw at refl
  | inr other ↦ rw other (ap (first_word c (d ∷ ds)) (words-word sep d ds))
]

length-after_word : (sep : Bytes) (cs : Bytes) → length (after_word sep cs) ≤ length cs
length-after_word sep [] = omega arith
length-after_word sep (c ∷ cs) = ground (arith, length-after_word sep cs)

length-skip_one : (cs : Bytes) → length (skip_one cs) ≤ length cs
length-skip_one [] = omega arith
length-skip_one (c ∷ cs) = omega arith

pub shorter :
    (sep : Bytes) (c : ℕ) (cs : Bytes) → length (skip_one (after_word sep (c ∷ cs))) ≤ length cs
shorter sep c cs = elim (Bool-cases (contains c sep)) [
  | inl at ↦ rw at (omega arith)
  | inr other ↦
      rw other (omega (arith, length-skip_one (after_word sep cs), length-after_word sep cs))
]

module _ (sep : Bytes) (tag : Bool) where
  names-node_loop :
      (fuel : ℕ) (nodes : List Node) (s : Bytes)
      → length s ≤ fuel
      → names (node_loop fuel sep tag nodes s) ≡ onto (names nodes) (words sep s)
  unfolding node_loop
  names-node_loop zero nodes [] enough = refl
  names-node_loop zero nodes (c ∷ cs) enough = absurd (omega arith)
  names-node_loop (suc fuel) nodes [] enough = refl
  names-node_loop (suc fuel) nodes (c ∷ cs) enough =
      names-node_loop fuel (add_node tag (word sep (c ∷ cs)) nodes)
        (skip_one (after_word sep (c ∷ cs))) (omega (arith, shorter sep c cs))
      ∙ ap (λ ns. onto ns (words sep (skip_one (after_word sep (c ∷ cs)))))
          (names-add_node tag (word sep (c ∷ cs)) nodes)
      ∙ ap (onto (names nodes)) (sym (words-word sep c cs))

kept-node_loop :
    (fuel : ℕ) (sep : Bytes) (nodes : List Node) (s : Bytes)
    → kept nodes ≡ walk (names nodes)
    → kept (node_loop fuel sep true nodes s) ≡ walk (names (node_loop fuel sep true nodes s))
unfolding node_loop
kept-node_loop zero sep nodes s e = e
kept-node_loop (suc fuel) sep nodes [] e = e
kept-node_loop (suc fuel) sep nodes (c ∷ cs) e =
    kept-node_loop fuel sep (add_node true (word sep (c ∷ cs)) nodes)
      (skip_one (after_word sep (c ∷ cs))) (kept-add_node (word sep (c ∷ cs)) nodes e)

-- The nodes of a parsed path are its words between slashes and backslashes, and those that are not
-- ignored are the directories that a walk along the words goes through: "." stays, ".." leads out of
-- the last directory but not out of the root, and an empty word is the root at the start of the path
-- and nothing behind it. The loop ends within its fuel.
pub path_to_node-walk :
    (s : Bytes)
    → (names (path_to_node s) ≡ onto [] (words (b'/' ∷ b'\\' ∷ []) s))
      × (kept (path_to_node s) ≡ walk (onto [] (words (b'/' ∷ b'\\' ∷ []) s)))
unfolding path_to_node string_to_node
path_to_node-walk s =
    let sep : Bytes = b'/' ∷ b'\\' ∷ [] in
    let e = names-node_loop sep true (length s) [] s (omega arith) in
    (e, kept-node_loop (length s) sep [] s refl ∙ ap walk e)
