-- ===== src/Setup/Values/Names.antt =====
-- source/workload_config.c: where the prefix and the suffix of the names of the files come from.
use workload.Prelude.{◌≡◌, refl, Option, none, some}
use workload.Store.Types.{Bytes}
use workload.Xml.{Xml, null, tag, get_xml_node}
use workload.Text.Chars.{codes}
use workload.Setup.Options.{Opt}
use workload.Setup.Values.{
  Parsing, parse_values, parse_prefix, parse_suffix, parse_filesize, parse_duration, parse_access,
  string_for, node_for, is_given,
}

-- The text of a node, if there is one.
abbrev pub text_at : Xml → Option Bytes
text_at null = none
text_at (tag n attr txt child ordered) = some txt

-- The text that the command line gives, or that of the node behind the path.
abbrev pub given_or_node : Option Bytes → (path : Bytes) → (root : Xml) → Option Bytes
given_or_node (some s) path root = some s
given_or_node none path root = text_at (get_xml_node root path)

abbrev pub prefix_path : Bytes
prefix_path = codes "/workload/config/operation/prefix"

abbrev pub suffix_path : Bytes
suffix_path = codes "/workload/config/operation/suffix"

string_for_text : (node : Xml) → string_for none node ≡ text_at node
unfolding string_for
string_for_text null = refl
string_for_text (tag n attr txt child ordered) = refl

string_for_node :
    (o : Option Bytes) (path : Bytes) (root node : Xml)
    → string_for o (node_for (is_given o) path root node) ≡ given_or_node o path root
unfolding string_for node_for
string_for_node none path root node = string_for_text (get_xml_node root path)
string_for_node (some s) path root node = refl

-- Parsing keeps the prefix and the suffix that the options or the nodes give.
pub parse_values-given_or_node :
    (opt : Opt) (root : Xml) (p : Parsing)
    → let c = (parse_values opt root p).cfg in
      (c.prefix ≡ given_or_node opt.prefix prefix_path root)
      × (c.suffix ≡ given_or_node opt.suffix suffix_path root)
unfolding parse_values parse_prefix parse_suffix parse_filesize parse_duration parse_access
parse_values-given_or_node opt root p =
    (string_for_node opt.prefix prefix_path root _, string_for_node opt.suffix suffix_path root _)
