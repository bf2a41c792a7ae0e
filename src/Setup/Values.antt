-- ===== src/Setup/Values.antt =====
-- source/workload_config.c: the values of the section `operation`, from the options of the command line
-- or from the configuration. `s_node` is kept between the sections, since two of them read attributes of
-- whatever node was found last.
pub mod Bounds
pub mod Names
use workload.Prelude.{
  ℕ, Bool, true, false, ◌||◌, Option, none, some, List, [], ◌∷◌, ltb, ◌==◌, if◌then◌else◌,
}
use workload.Prelude.Int.{ℤ, pos, negsuc, is_pos, is_minus_one, to_nat}
use workload.Math.{Ratio, aspect_ratio_uint}
use workload.Store.Types.{Bytes, Cfg, Workload}
use workload.Text.Chars.{atoi, atoll, codes, same_bytes_nocase, parse_boolean_string}
use workload.Control.{set_main_pause}
use workload.Xml.{Xml, null, tag, is_empty, get_xml_node, xml_tag_data, xml_tag_attr_value}
use workload.Setup.Options.{Opt, unset, to_u32, to_u64}

-- workload_init_config
abbrev pub init_config : Cfg
init_config = record {
  left_ratio = 1;
  right_ratio = 1;
  duration = 0;
  access_interval = 0;
  files_remove = true;
  files_assign_method = 0;
  prefix = none;
  suffix = none;
  filecount = 0;
  filesize = 0;
  access_method = 3;
  access_sync = false;
  access_sendfile = false;
  access_threads = pos 0;
}

-- `m_cfg` and `s_node`
pub record Parsing : Type 0 where
  pub cfg : Cfg
  pub node : Xml

-- The text of the node, if there is a node and the text is not empty.
text_of : Xml → Option Bytes
text_of null = none
text_of (tag n attr txt child ordered) = if is_empty txt then none else some txt

-- A value read by `read`, or the default.
value_or : {A : Type 0} → A → (Bytes → A) → Option Bytes → A
value_or default read none = default
value_or default read (some s) = read s

-- A ratio is 1 where none is given, and where it is 0.
ratio : Bytes → ℕ
ratio s = let n = to_u32 (atoi s) in if n == 0 then 1 else n

-- The node for a value that the command line gives is not looked up.
node_for : Bool → Bytes → Xml → Xml → Xml
node_for given path root node = if given then node else get_xml_node root path

-- operation/left
pub parse_left : Opt → Xml → Parsing → Parsing
unfolding text_of value_or ratio node_for
parse_left opt root p =
    let given = ltb 0 opt.left_ratio in
    let node = node_for given (codes "/workload/config/operation/left") root p.node in
    record {
      cfg = record p.cfg {
        left_ratio = if given then opt.left_ratio else value_or 1 ratio (text_of node);
      };
      node = node;
    }

-- operation/right, and the reduction of the ratio
pub parse_right : Opt → Xml → Parsing → Parsing
unfolding text_of value_or ratio node_for
parse_right opt root p =
    let given = ltb 0 opt.right_ratio in
    let node = node_for given (codes "/workload/config/operation/right") root p.node in
    let right = if given then opt.right_ratio else value_or 1 ratio (text_of node) in
    let reduced = aspect_ratio_uint p.cfg.left_ratio right in
    record {
      cfg = record p.cfg { left_ratio = reduced.ratio1; right_ratio = reduced.ratio2 };
      node = node;
    }

-- operation/interval
pub parse_interval : Opt → Xml → Parsing → Parsing
unfolding text_of value_or node_for
parse_interval opt root p =
    let unset_here = opt.access_interval == unset in
    let given = if unset_here then false else true in
    let node = node_for given (codes "/workload/config/operation/interval") root p.node in
    record {
      cfg = record p.cfg {
        access_interval =
            if given
            then opt.access_interval
            else value_or 0 (λ s. to_u64 (atoll s)) (text_of node);
      };
      node = node;
    }

-- `(size_t)def_workload_config_max_files`
abbrev pub max_files : ℕ
max_files = 1000000

method_of : Option Bytes → ℕ
method_of none = 0
method_of (some s) =
    if same_bytes_nocase s (codes "ordered")
    then 1
    else if same_bytes_nocase s (codes "even")
    then 2
    else 0

abbrev or_attribute : Option Bytes → Xml → Bytes → Option Bytes
or_attribute none node name = xml_tag_attr_value node name
or_attribute (some s) node name = some s

-- operation/files, with the attributes `remove` and `assign`
pub parse_files : Opt → Xml → Parsing → Parsing
unfolding text_of value_or node_for method_of
parse_files opt root p =
    let given = ltb 0 opt.filecount in
    let node = node_for given (codes "/workload/config/operation/files") root p.node in
    let count = if given then opt.filecount else value_or 0 (λ s. to_u64 (atoi s)) (text_of node) in
    record {
      cfg = record p.cfg {
        filecount = if ltb max_files count then max_files else count;
        files_remove = parse_boolean_string (xml_tag_attr_value node (codes "remove")) true;
        files_assign_method =
            method_of (or_attribute opt.files_assign_method node (codes "assign"));
      };
      node = node;
    }

-- A text that the command line gives, or that of the node.
string_for : Option Bytes → Xml → Option Bytes
string_for (some s) node = some s
string_for none null = none
string_for none (tag n attr txt child ordered) = some txt

abbrev is_given : Option Bytes → Bool
is_given none = false
is_given (some s) = true

-- operation/prefix
pub parse_prefix : Opt → Xml → Parsing → Parsing
unfolding string_for node_for
parse_prefix opt root p =
    let node =
      node_for (is_given opt.prefix) (codes "/workload/config/operation/prefix") root p.node in
    record { cfg = record p.cfg { prefix = string_for opt.prefix node }; node = node }

-- operation/suffix
pub parse_suffix : Opt → Xml → Parsing → Parsing
unfolding string_for node_for
parse_suffix opt root p =
    let node =
      node_for (is_given opt.suffix) (codes "/workload/config/operation/suffix") root p.node in
    record { cfg = record p.cfg { suffix = string_for opt.suffix node }; node = node }

-- operation/filesize: a negative one is 0.
pub parse_filesize : Opt → Xml → Parsing → Parsing
unfolding text_of value_or node_for
parse_filesize opt root p =
    let given = if is_minus_one opt.filesize then false else true in
    let node = node_for given (codes "/workload/config/operation/filesize") root p.node in
    record {
      cfg = record p.cfg {
        filesize = to_nat (if given then opt.filesize else value_or (pos 0) atoll (text_of node));
      };
      node = node;
    }

-- operation/duration
pub parse_duration : Opt → Xml → Parsing → Parsing
unfolding text_of value_or node_for
parse_duration opt root p =
    let given = if opt.duration == unset then false else true in
    let node = node_for given (codes "/workload/config/operation/duration") root p.node in
    record {
      cfg = record p.cfg {
        duration =
            if given then opt.duration else value_or 0 (λ s. to_u64 (atoll s)) (text_of node);
      };
      node = node;
    }

abbrev is_any : Bytes → List Bytes → Bool
is_any s [] = false
is_any s (name ∷ names) = same_bytes_nocase s name || is_any s names

-- `def_workload_access_method_read`, `..._write` and `..._rw` are 1, 2 and 3.
access_method_of : Bytes → ℕ
access_method_of s =
    if is_any s (codes "read" ∷ codes "r" ∷ codes "input" ∷ codes "i" ∷ codes "load" ∷ [])
    then 1
    else if is_any s (codes "write" ∷ codes "w" ∷ codes "ouput" ∷ codes "o" ∷ codes "save" ∷ [])
    then 2
    else 3

-- operation/access, with its attributes
pub parse_access : Opt → Xml → Parsing → Parsing
unfolding text_of value_or access_method_of
parse_access opt root p =
    let node = get_xml_node root (codes "/workload/config/operation/access") in
    record {
      cfg = record p.cfg {
        access_method = value_or 3 access_method_of (text_of node);
        access_sync = parse_boolean_string (xml_tag_attr_value node (codes "sync")) false;
        access_sendfile = parse_boolean_string (xml_tag_attr_value node (codes "sendfile")) false;
        access_threads =
            if is_pos opt.threads
            then opt.threads
            else value_or (pos 0) atoi (xml_tag_attr_value node (codes "threads"));
      };
      node = node;
    }

-- operation: the option, or the attribute `pause` of the node, if there is one
unfoldable pub paused_at : Xml → Workload → Workload
paused_at null w = w
paused_at (tag n attr txt child ordered) w =
    set_main_pause
      (parse_boolean_string (xml_tag_attr_value (tag n attr txt child ordered) (codes "pause"))
        false)
      w

unfoldable pub pause_by : Option Bool → Xml → Xml × Workload → Xml × Workload
pause_by (some pause) root (node, w) = (node, set_main_pause pause w)
pause_by none root (node, w) =
    let found = get_xml_node root (codes "/workload/config/operation") in (found, paused_at found w)

unfoldable pub parse_pause : Opt → Xml → Xml × Workload → Xml × Workload
unfolding pause_by paused_at
parse_pause opt root s = pause_by opt.pause root s

-- The whole section, from the ratio to the access.
pub parse_values : Opt → Xml → Parsing → Parsing
parse_values opt root p = parse_access opt root (
    parse_duration opt root (
      parse_filesize opt root (
        parse_suffix opt root (
          parse_prefix opt root (
            parse_files opt root
              (parse_interval opt root (parse_right opt root (parse_left opt root p))))))))
