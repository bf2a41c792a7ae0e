-- ===== src/Text/Path/Print.antt =====
-- source/string.c: `workload_node_to_string` prints the nodes into a buffer that it has measured before.
-- The nodes are listed from the first one on along `m_next`.
use workload.Prelude.{
  ℕ, ◌+◌, ◌≡◌, ◌∙◌, refl, sym, ap, arith, Bool, true, false, ◌&&◌, Bool-cases, inl, inr, List, [],
  ◌∷◌, ◌++◌, if◌then◌else◌, length, length-append,
}
use workload.Store.Types.{Bytes}
use workload.Text.Path.Append.{append_nil}
use workload.Text.Path.{Node, is_empty}

-- A node that the loops pass over.
abbrev passed : (strip : Bool) → Node → Bool
passed strip n = strip && n.ignore

-- `s_trace2 == NULL`: no node behind is printed.
abbrev pub is_last : (strip : Bool) → List Node → Bool
is_last strip [] = true
is_last strip (n ∷ ns) = passed strip n && is_last strip ns

-- `s_alloc_size` after the first loop
pub measure : (insert : Bytes) → (strip : Bool) → List Node → ℕ
measure insert strip [] = 0
measure insert strip (n ∷ ns) =
    let rest = measure insert strip ns in
    if passed strip n
    then rest
    else if is_last strip ns
    then (if is_empty n.string then length insert else length n.string) + 1 + rest
    else length n.string + length insert + rest

-- What the second loop writes, without the NUL behind it.
pub print : (insert : Bytes) → (strip : Bool) → List Node → Bytes
print insert strip [] = []
print insert strip (n ∷ ns) =
    let rest = print insert strip ns in
    if passed strip n
    then rest
    else if is_last strip ns
    then (if is_empty n.string then insert else n.string) ++ rest
    else n.string ++ insert ++ rest

last_size :
    (insert name rest : Bytes) (size : ℕ)
    → size ≡ length rest + 0
    → (if is_empty name then length insert else length name) + 1 + size
      ≡ length ((if is_empty name then insert else name) ++ rest) + 1
last_size insert [] rest size e = omega (arith, length-append insert rest)
last_size insert (c ∷ cs) rest size e = omega (arith, length-append cs rest)

more_size :
    (insert name rest : Bytes) (size : ℕ)
    → size ≡ length rest + 1
    → length name + length insert + size ≡ length (name ++ insert ++ rest) + 1
more_size insert name rest size e =
    omega (arith, length-append name insert, length-append (name ++ insert) rest)

-- The buffer has exactly one byte more than is printed, for the NUL, if a node is printed at all; if
-- there is none, the buffer has no byte and nothing is written.
pub measure-print :
    (insert : Bytes) (strip : Bool) (ns : List Node)
    → measure insert strip ns ≡ length (print insert strip ns) + (if is_last strip ns then 0 else 1)
unfolding measure print
measure-print insert strip [] = omega arith
measure-print insert strip (n ∷ ns) =
    let ih = measure-print insert strip ns in
    elim (Bool-cases (passed strip n)) [
      | inl over ↦ rw over ih
      | inr here ↦ elim (Bool-cases (is_last strip ns)) [
        | inl last ↦ rw (here, last) (last_size insert n.string _ _ (rw last at ih))
        | inr more ↦ rw (here, more) (more_size insert n.string _ _ (rw more at ih))
      ]
    ]

-- The names between which the separator stands; an empty last name is a separator.
abbrev pub join : (insert : Bytes) → List Bytes → Bytes
join insert [] = []
join insert (name ∷ []) = if is_empty name then insert else name
join insert (name ∷ other ∷ more) = name ++ insert ++ join insert (other ∷ more)

abbrev pub shown : (strip : Bool) → List Node → List Bytes
shown strip [] = []
shown strip (n ∷ ns) = if passed strip n then shown strip ns else n.string ∷ shown strip ns

shown_last : (strip : Bool) (ns : List Node) → is_last strip ns ≡ true → shown strip ns ≡ []
shown_last strip [] last = refl
shown_last strip (n ∷ ns) last = ground (arith, shown_last strip ns)

shown_more :
    (strip : Bool) (ns : List Node) → is_last strip ns ≡ false → is_empty (shown strip ns) ≡ false
shown_more strip [] more = absurd (cc)
shown_more strip (n ∷ ns) more = ground (arith, shown_more strip ns)

print_last :
    (insert : Bytes) (strip : Bool) (ns : List Node)
    → is_last strip ns ≡ true
    → print insert strip ns ≡ []
unfolding print
print_last insert strip [] last = refl
print_last insert strip (n ∷ ns) last = ground (arith, print_last insert strip ns)

join_more :
    (insert name : Bytes) (names : List Bytes)
    → is_empty names ≡ false
    → join insert (name ∷ names) ≡ name ++ insert ++ join insert names
join_more insert name [] more = absurd (cc)
join_more insert name (other ∷ names) more = refl

-- The nodes that are not ignored are printed with the separator between them.
pub print-join :
    (insert : Bytes) (strip : Bool) (ns : List Node)
    → print insert strip ns ≡ join insert (shown strip ns)
unfolding print
print-join insert strip [] = refl
print-join insert strip (n ∷ ns) = elim (Bool-cases (passed strip n)) [
  | inl over ↦ rw over (print-join insert strip ns)
  | inr here ↦ elim (Bool-cases (is_last strip ns)) [
    | inl last ↦
        rw (here, last, print_last insert strip ns last, shown_last strip ns last)
          (append_nil (if is_empty n.string then insert else n.string))
    | inr more ↦
        rw (here, more)
          (ap (λ (t : Bytes). n.string ++ insert ++ t) (print-join insert strip ns)
            ∙ sym (join_more insert n.string (shown strip ns) (shown_more strip ns more)))
  ]
]
