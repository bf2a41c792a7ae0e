-- ===== src/Io/Mkdir.antt =====
-- source/io.c: what workload_mkdir_recursive leaves behind, on a system that keeps the documented
-- behaviour of stat and mkdir.
use workload.Prelude.{◌≡◌, ◌≢◌, ◌⊎◌, Bool, true, Option, none, some, []}
use workload.Store.Types.{Bytes}
use workload.Io.{is_directory, missing, made, exists, System, Result}

-- mkdir makes a directory where it says so, answers EEXIST only for a pathname that is there or is a
-- symbolic link to nothing, which stat does not find, no other pathname comes to stand for anything but
-- a directory, and mkdir makes no links.
pub record IsFileSystem {S : Type 0} (sys : System S) : Type 0 where
  pub makes :
      (q : Bytes) (s : S) → (sys.mkdir q s).0 ≡ made → sys.stat q (sys.mkdir q s).1 ≡ is_directory
  pub is_dangling : Bytes → S → Bool
  pub exists :
      (q : Bytes) (s : S)
      → (sys.mkdir q s).0 ≡ exists
      → (sys.stat q s ≢ missing) ⊎ (is_dangling q s ≡ true)
  pub dangles : (q : Bytes) (s : S) → is_dangling q s ≡ true → sys.stat q s ≡ missing
  pub links :
      (path q : Bytes) (s : S) → is_dangling q (sys.mkdir path s).1 ≡ true → is_dangling q s ≡ true
  pub keeps :
      (path q : Bytes) (s : S)
      → (sys.stat q (sys.mkdir path s).1 ≡ is_directory)
        ⊎ (sys.stat q (sys.mkdir path s).1 ≡ sys.stat q s)

abbrev pub named : Option Bytes → Bytes
named none = []
named (some q) = q

module _ {S : Type 0} (sys : System S) (laws : IsFileSystem sys) where
  abbrev pub Grown : S → S → Type 0
  Grown s t =
      (q : Bytes)
      → ((sys.stat q t ≡ is_directory) ⊎ (sys.stat q t ≡ sys.stat q s))
        × (laws.is_dangling q t ≡ true → laws.is_dangling q s ≡ true)

  -- The first entry was there before, or was missing.
  abbrev pub Entered : Option Bytes → S → Option Bytes → Type 0
  Entered first s now = (e : Bytes) → now ≡ some e → (first ≡ some e) ⊎ (sys.stat e s ≡ missing)

  abbrev pub Outcome : Option Bytes → S → Result sys → Type 0
  Outcome first s r = Grown s r.1.1 × Entered first s r.1.0

  -- A directory, unless the pathname was a link to nothing before.
  abbrev pub IsThere : Bytes → (before now : S) → Type 0
  IsThere path before now =
      (sys.stat path now ≡ is_directory) ⊎ (laws.is_dangling path before ≡ true)

  abbrev Reached : Bytes → S → Result sys → Type 0
  Reached path s r = r.0 ≡ true → IsThere path s r.1.1
