-- ===== src/Xml.antt =====
-- source/xml.c: the nodes of the configuration, in the tree that ezxml makes of it.
use workload.Prelude.{
  ◌≡◌, refl, sym, ap, Bool, Bool-cases, inl, inr, true, false, Option, none, some, List, [], ◌∷◌,
  if◌then◌else◌,
}
use workload.Store.Types.{Bytes}
use workload.Text.Chars.{same_bytes}
use workload.Text.Path.{path_to_node, Node}

-- `ezxml_t`: NULL, or a node with its `name`, `attr` (pairs of a name and a value, or NULL), `txt`, and
-- the nodes that its `child` and its `ordered` point to.
pub data Xml : Type 0 where
  null : Xml
  tag :
      (name : Option Bytes) (attr : Option (List (Bytes × Bytes))) (txt : Bytes)
      (child ordered : Xml)
      → Xml

-- workload_check_string
abbrev pub check_string : Option Bytes → Bytes
check_string none = []
check_string (some s) = s

abbrev pub is_empty : Bytes → Bool
is_empty [] = true
is_empty (_ ∷ _) = false

abbrev is_named : Bytes → Option Bytes → Bool
is_named name n = same_bytes (check_string n) name

-- The first node with this name, from a node on along `ordered`.
unfoldable pub find_tag : Bytes → Xml → Xml
find_tag name null = null
find_tag name (tag n attr txt child ordered) =
    if is_named name n then tag n attr txt child ordered else find_tag name ordered

abbrev pub child_of : Xml → Xml
child_of null = null
child_of (tag n attr txt child ordered) = child

abbrev pub ordered_of : Xml → Xml
ordered_of null = null
ordered_of (tag n attr txt child ordered) = ordered

-- A name of the path, with what the names behind it find from the children of the node found. The
-- last name gives the node itself.
unfoldable pub descend_to : Xml → List Bytes → (below : Xml) → Xml
descend_to null names below = null
descend_to (tag n attr txt child ordered) [] below = tag n attr txt child ordered
descend_to (tag n attr txt child ordered) (_ ∷ _) below = below

-- The loop of workload_get_xml_node over the names of the path. An empty name is passed over.
unfoldable pub descend : List Bytes → Xml → Xml
descend [] root = null
descend (name ∷ names) null = null
descend (name ∷ names) (tag n attr txt child ordered) =
    let root = tag n attr txt child ordered in
    let found = find_tag name root in
    let below = descend names (child_of found) in
    let passed = descend names root in
    if is_empty name then passed else descend_to found names below

-- The names of the nodes of a path, whether they are ignored or not, the first one first.
abbrev names_onto : List Node → List Bytes → List Bytes
names_onto [] names = names
names_onto (n ∷ ns) names = names_onto ns (n.string ∷ names)

unfoldable pub get_from : List Bytes → Xml → Xml
get_from [] root = root
get_from (name ∷ names) root = descend (name ∷ names) root

-- workload_get_xml_node, for the root of an open file
unfoldable pub get_xml_node : (root : Xml) → (path : Bytes) → Xml
unfolding get_from descend
get_xml_node root path = get_from (names_onto (path_to_node path) []) root

-- workload_xml_next_node_ex with a name
pub xml_next_node : Xml → Bytes → Xml
xml_next_node node name = find_tag name (ordered_of node)

-- workload_xml_tag_data: `ezxml_txt` is empty for NULL.
abbrev pub xml_tag_data : Xml → Bytes
xml_tag_data null = []
xml_tag_data (tag n attr txt child ordered) = txt

look_up : Bytes → List (Bytes × Bytes) → Option Bytes
look_up name [] = none
look_up name ((key, value) ∷ rest) = if same_bytes key name then some value else look_up name rest

look_up_in : Bytes → Option (List (Bytes × Bytes)) → Option Bytes
look_up_in name none = none
look_up_in name (some attr) = look_up name attr

-- workload_xml_tag_attr_value
pub xml_tag_attr_value : Xml → Bytes → Option Bytes
unfolding look_up look_up_in
xml_tag_attr_value null name = none
xml_tag_attr_value (tag n attr txt child ordered) name = look_up_in name attr

-- The nodes that the loop over workload_xml_next_node_ex goes through, from a node on.
unfoldable pub tags_named : Bytes → Xml → List Xml
tags_named name null = []
tags_named name (tag n attr txt child ordered) =
    let rest = tags_named name ordered in
    if is_named name n then tag n attr txt child ordered ∷ rest else rest

abbrev and_next : Bytes → Xml → List Xml
and_next name null = []
and_next name (tag n attr txt child ordered) =
    tag n attr txt child ordered ∷ tags_named name (find_tag name ordered)

tags_named-find_tag :
    (name : Bytes) (x : Xml) → tags_named name (find_tag name x) ≡ tags_named name x
unfolding find_tag tags_named
tags_named-find_tag name null = refl
tags_named-find_tag name (tag n attr txt child ordered) = elim (Bool-cases (is_named name n)) [
  | inl here ↦ rw here (rw here refl)
  | inr other ↦ rw other (tags_named-find_tag name ordered)
]

-- One node after the other: the first with the name, and from each one the next.
pub tags_named_next : (name : Bytes) (x : Xml) → tags_named name x ≡ and_next name (find_tag name x)
unfolding find_tag tags_named
tags_named_next name null = refl
tags_named_next name (tag n attr txt child ordered) = elim (Bool-cases (is_named name n)) [
  | inl here ↦
      rw here (ap (◌∷◌ (tag n attr txt child ordered)) (sym (tags_named-find_tag name ordered)))
  | inr other ↦ rw other (tags_named_next name ordered)
]
