-- ===== src/Io/Room.antt =====
-- source/io.c: workload_mkdir_recursive succeeds where nothing is in the way.
use workload.Prelude.{ℕ, zero, suc, ◌≡◌, ◌≢◌, ◌⊎◌, true, false, some}
use workload.Store.Types.{Bytes}
use workload.Io.{is_directory, missing, refused, System, parent_of}
use workload.Io.Mkdir.{IsFileSystem}

-- mkdir does not fail in a directory, and memory is given.
pub record HasRoom {S : Type 0} (sys : System S) : Type 0 where
  pub grants :
      (path : Bytes) (s : S)
      → ((p : Bytes) → parent_of path ≡ some p → sys.stat p s ≡ is_directory)
      → (sys.mkdir path s).0 ≢ refused
  pub copies : (p : Bytes) → sys.strndup p ≡ true

module _ {S : Type 0} (sys : System S) (laws : IsFileSystem sys) (room : HasRoom sys) where
  -- The pathname and those above it, `fuel` of them, are directories, or are missing and no links.
  abbrev pub IsClear : ℕ → Bytes → S → Type 0
  IsClear zero path s = Unit {0}
  IsClear (suc fuel) path s =
      ((sys.stat path s ≡ is_directory)
        ⊎ ((sys.stat path s ≡ missing) × (laws.is_dangling path s ≡ false)))
      × ((p : Bytes) → parent_of path ≡ some p → IsClear fuel p s)
