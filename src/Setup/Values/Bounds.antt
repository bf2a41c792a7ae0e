-- ===== src/Setup/Values/Bounds.antt =====
-- source/workload_config.c: the values of the configuration are in their ranges, whatever the command
-- line and the file say.
use workload.Prelude.{
  ℕ, zero, suc, ◌*◌, ◌≤◌, ◌<◌, ◌≡◌, arith, Option, none, some, ltb, if◌then◌else◌,
}
use workload.Prelude.Int.{ℤ, pos, negsuc}
use workload.Math.{aspect_ratio_uint}
use workload.Math.Gcd.{Divides, aspect_ratio_uint_exact, aspect_ratio_uint_lowest}
use workload.Store.Types.{Bytes, Cfg}
use workload.Text.Chars.{atoi, codes}
use workload.Xml.{Xml}
use workload.Setup.Options.{Opt, to_u32}
use workload.Setup.Values.{
  Parsing, text_of, value_or, ratio, or_attribute, method_of, access_method_of, parse_left,
  parse_right, parse_interval, parse_files, parse_prefix, parse_suffix, parse_filesize,
  parse_duration, parse_access, parse_values,
}

to_u32_bound : (z : ℤ) → to_u32 z < 4294967296
to_u32_bound (pos n) = omega arith
to_u32_bound (negsuc n) = omega arith

ratio_bounds : (s : Bytes) → (1 ≤ ratio s) × (ratio s < 4294967296)
unfolding ratio
ratio_bounds s = ground (arith, to_u32_bound (atoi s))

value_or_bounds : (o : Option Bytes) → (1 ≤ value_or 1 ratio o) × (value_or 1 ratio o < 4294967296)
unfolding value_or
value_or_bounds none = omega arith
value_or_bounds (some s) = ratio_bounds s

-- The ratio before its reduction: from the option if it is not 0, and from the file otherwise.
either_bounds :
    (given : ℕ) (o : Option Bytes)
    → given < 4294967296
    → (1 ≤ (if ltb 0 given then given else value_or 1 ratio o))
      × ((if ltb 0 given then given else value_or 1 ratio o) < 4294967296)
either_bounds given o small = ground (arith, value_or_bounds o)

factor_pos : (r g n : ℕ) → r * g ≡ n → 1 ≤ n → 1 ≤ r
factor_pos zero g n e few = absurd (omega (arith, e))
factor_pos (suc r) g n e few = omega arith

factor_small : (r g n : ℕ) → 0 < g → r * g ≡ n → n < 4294967296 → r < 4294967296
factor_small r g n h e small = grind arith

factor_bounds :
    (r g n : ℕ) → 0 < g → r * g ≡ n → 1 ≤ n → n < 4294967296 → (1 ≤ r) × (r < 4294967296)
factor_bounds r g n h e few small = (factor_pos r g n e few, factor_small r g n h e small)

reduced_bounds :
    (a b : ℕ)
    → (1 ≤ a) × (a < 4294967296)
    → (1 ≤ b) × (b < 4294967296)
    → (1 ≤ (aspect_ratio_uint a b).ratio1)
      × ((aspect_ratio_uint a b).ratio1 < 4294967296)
      × (1 ≤ (aspect_ratio_uint a b).ratio2)
      × ((aspect_ratio_uint a b).ratio2 < 4294967296)
reduced_bounds a b p q =
    let e = aspect_ratio_uint_exact a b p.0 q.0 in
    let r = aspect_ratio_uint a b in
    let left = factor_bounds r.ratio1 r.result a e.0 e.1 p.0 p.1 in
    let right = factor_bounds r.ratio2 r.result b e.0 e.2 q.0 q.1 in
    (left.0, left.1, right.0, right.1)

-- The values of the configuration once it is parsed.
pub record IsValid (c : Cfg) : Type 0 where
  pub left : (1 ≤ c.left_ratio) × (c.left_ratio < 4294967296)
  pub right : (1 ≤ c.right_ratio) × (c.right_ratio < 4294967296)
  pub lowest : (d : ℕ) → Divides d c.left_ratio → Divides d c.right_ratio → d ≡ 1
  pub count : c.filecount ≤ 1000000
  pub assign_method : c.files_assign_method ≤ 2
  pub access_method : (1 ≤ c.access_method) × (c.access_method ≤ 3)

method_of_bounds : (o : Option Bytes) → method_of o ≤ 2
unfolding method_of
method_of_bounds none = omega arith
method_of_bounds (some s) = ground arith

access_method_of_bounds : (s : Bytes) → (1 ≤ access_method_of s) × (access_method_of s ≤ 3)
unfolding access_method_of
access_method_of_bounds s = ground arith

access_value_bounds :
    (o : Option Bytes) → (1 ≤ value_or 3 access_method_of o) × (value_or 3 access_method_of o ≤ 3)
unfolding value_or
access_value_bounds none = omega arith
access_value_bounds (some s) = access_method_of_bounds s

parse_files_bounds :
    (opt : Opt) (root : Xml) (p : Parsing)
    → ((parse_files opt root p).cfg.filecount ≤ 1000000)
      × ((parse_files opt root p).cfg.files_assign_method ≤ 2)
unfolding parse_files
parse_files_bounds opt root p = (
  ground arith,
  method_of_bounds
      (or_attribute opt.files_assign_method (parse_files opt root p).node (codes "assign")),
)

parse_access_bounds :
    (opt : Opt) (root : Xml) (p : Parsing)
    → (1 ≤ (parse_access opt root p).cfg.access_method)
      × ((parse_access opt root p).cfg.access_method ≤ 3)
unfolding parse_access
parse_access_bounds opt root p = access_value_bounds (text_of (parse_access opt root p).node)

-- Whatever the options and the file say, the values parsed are in their ranges, if the ratios of the
-- options are numbers of 32 bits: the two ratios are positive numbers of 32 bits in lowest terms, there
-- are at most a million files, the method of assignment is 0, 1 or 2, and an access reads or writes or
-- both.
pub parse_values-IsValid :
    (opt : Opt) (root : Xml) (p : Parsing)
    → opt.left_ratio < 4294967296
    → opt.right_ratio < 4294967296
    → IsValid (parse_values opt root p).cfg
unfolding parse_values parse_left parse_right parse_interval parse_files parse_prefix parse_suffix
    parse_filesize parse_duration parse_access
parse_values-IsValid opt root p small_left small_right =
    let a = either_bounds opt.left_ratio (text_of (parse_left opt root p).node) small_left in
    let b =
      either_bounds opt.right_ratio (text_of (parse_right opt root (parse_left opt root p)).node)
        small_right in
    let r = reduced_bounds _ _ a b in
    let files =
      parse_files_bounds opt root
        (parse_interval opt root (parse_right opt root (parse_left opt root p))) in
    record {
      left = (r.0, r.1);
      right = (r.2, r.3);
      lowest = λ d. aspect_ratio_uint_lowest _ _ d a.0 b.0;
      count = files.0;
      assign_method = files.1;
      access_method = parse_access_bounds opt root p;
    }
