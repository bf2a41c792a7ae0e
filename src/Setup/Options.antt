-- ===== src/Setup/Options.antt =====
-- source/workload.c: the options of the command line, `workload_init_option` and
-- `workload_parse_option`. What getopt_long finds is the list of the options.
use workload.Prelude.{
  ℕ, ◌-◌, Bool, true, false, Option, none, some, List, [], ◌∷◌, if◌then◌else◌, u32,
}
use workload.Prelude.Int.{ℤ, pos, negsuc, minus_one}
use workload.Store.Types.{Bytes, Workload}
use workload.Text.Chars.{atoi, codes}
use workload.Control.{set_main_relocate}

-- `workload_opt_t`. A pause of -1 is `none`, and the option gives it the value 1 only.
pub record Opt : Type 0 where
  pub help : Bool
  pub debug : Bool
  pub verbose : Bool
  pub daemonize : Bool
  pub nochdir : Bool
  pub noclose : Bool
  pub pid_file : Option Bytes
  pub launcher : Bool
  pub config_file : Option Bytes
  pub refresh_screen_interval : ℕ
  pub dump_disk : Bool
  pub dump_file : Bool
  pub left_ratio : ℕ
  pub right_ratio : ℕ
  pub duration : ℕ
  pub access_interval : ℕ
  pub files_assign_method : Option Bytes
  pub prefix : Option Bytes
  pub suffix : Option Bytes
  pub filecount : ℕ
  pub filesize : ℤ
  pub pause : Option Bool
  pub threads : ℤ

-- `~0ull`
abbrev pub unset : ℕ
unset = 18446744073709551615

-- workload_init_option
abbrev pub init_option : Opt
init_option = record {
  help = false;
  debug = false;
  verbose = false;
  daemonize = false;
  nochdir = false;
  noclose = false;
  pid_file = some (codes "/var/run/workload.pid");
  launcher = false;
  config_file = none;
  refresh_screen_interval = 100;
  dump_disk = false;
  dump_file = false;
  left_ratio = 0;
  right_ratio = 0;
  duration = unset;
  access_interval = unset;
  files_assign_method = none;
  prefix = none;
  suffix = none;
  filecount = 0;
  filesize = minus_one;
  pause = none;
  threads = minus_one;
}

-- The options of `sg_workload_options`, with `optarg` where one is read.
pub data Given : Type 0 where
  help debug verbose daemon nochdir noclose launcher dump_disk dump_file pause relocate : Given
  pidfile config left right duration interval assign_method prefix suffix filecount filesize
        threads :
      (optarg : Option Bytes) → Given

-- `(unsigned int)` and `(unsigned long long)` of a signed value
abbrev pub to_u32 : ℤ → ℕ
to_u32 (pos n) = u32 n
to_u32 (negsuc n) = 4294967295 - u32 n

abbrev pub to_u64 : ℤ → ℕ
to_u64 (pos n) = n
to_u64 (negsuc n) = 18446744073709551615 - n

-- `if(optarg != NULL) ... = atoi(optarg);`
abbrev number : Option Bytes → (ℤ → Opt) → Opt → Opt
number none put o = o
number (some s) put o = put (atoi s)

-- One round of workload_parse_option, on the options
pub take_option : Given → Opt → Opt
take_option Given.help o = record o { help = true }
take_option Given.debug o = record o { debug = true; verbose = true }
take_option Given.verbose o = record o { verbose = true }
take_option Given.daemon o = record o { daemonize = true }
take_option Given.nochdir o = record o { nochdir = true }
take_option Given.noclose o = record o { noclose = true }
take_option Given.launcher o = record o { launcher = true }
take_option Given.dump_disk o = record o { dump_disk = true }
take_option Given.dump_file o = record o { dump_file = true }
take_option Given.pause o = record o { pause = some true }
take_option Given.relocate o = o
take_option (Given.pidfile a) o = record o { pid_file = a }
take_option (Given.config a) o = record o { config_file = a }
take_option (Given.left a) o = number a (λ v. record o { left_ratio = to_u32 v }) o
take_option (Given.right a) o = number a (λ v. record o { right_ratio = to_u32 v }) o
take_option (Given.duration a) o = number a (λ v. record o { duration = to_u64 v }) o
take_option (Given.interval a) o = number a (λ v. record o { access_interval = to_u64 v }) o
take_option (Given.assign_method a) o = record o { files_assign_method = a }
take_option (Given.prefix a) o = record o { prefix = a }
take_option (Given.suffix a) o = record o { suffix = a }
take_option (Given.filecount a) o = number a (λ v. record o { filecount = to_u64 v }) o
take_option (Given.filesize a) o = number a (λ v. record o { filesize = v }) o
take_option (Given.threads a) o = number a (λ v. record o { threads = v }) o

abbrev is_relocate : Given → Bool
is_relocate Given.relocate = true
is_relocate _ = false

-- workload_parse_option, with the workload that `--relocate` changes
pub parse_option : List Given → Opt × Workload → Opt × Workload
unfolding take_option
parse_option [] s = s
parse_option (g ∷ gs) (o, w) =
    parse_option gs (take_option g o, if is_relocate g then set_main_relocate true w else w)
