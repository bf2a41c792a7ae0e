-- ===== src/Io/Tests.antt =====
-- The theorems on the making of directories, on a system of which the state tells the directories.
use workload.Prelude.{
  ◌≡◌, ◌≢◌, ◌⊎◌, refl, Bool, true, false, ◌||◌, Bool-cases, inl, inr, if◌then◌else◌,
}
use workload.Store.Types.{Bytes}
use workload.Text.Chars.{same_bytes}
use workload.Setup.Disks.Complete.{same_bytes_refl}
use workload.Io.{is_directory, missing, made, exists, System}
use workload.Io.Mkdir.{IsFileSystem}

abbrev Directories : Type 0
Directories = Bytes → Bool

abbrev disk : System Directories
disk = record {
  stat = λ q s. if s q then is_directory else missing;
  mkdir = λ q s. if s q then (exists, s) else (made, λ r. same_bytes q r || s r);
  strndup = λ q. true;
  strdup = λ q. true;
}

disk_makes :
    (q : Bytes) (s : Directories)
    → (disk.mkdir q s).0 ≡ made
    → disk.stat q (disk.mkdir q s).1 ≡ is_directory
disk_makes q s h = elim (Bool-cases (s q)) [
  | inl there ↦ let e : exists ≡ made = rw there at h in absurd (cc)
  | inr gone ↦ rw (gone, same_bytes_refl q) refl
]

disk_exists :
    (q : Bytes) (s : Directories)
    → (disk.mkdir q s).0 ≡ exists
    → (disk.stat q s ≢ missing) ⊎ (false ≡ true)
disk_exists q s h = elim (Bool-cases (s q)) [
  | inl there ↦ inl (rw there (λ e. absurd (cc)))
  | inr gone ↦ let e : made ≡ exists = rw gone at h in absurd (cc)
]

disk_keeps :
    (path q : Bytes) (s : Directories)
    → (disk.stat q (disk.mkdir path s).1 ≡ is_directory)
      ⊎ (disk.stat q (disk.mkdir path s).1 ≡ disk.stat q s)
disk_keeps path q s = elim (Bool-cases (s path)) [
  | inl there ↦ rw there (inr refl)
  | inr gone ↦ elim (Bool-cases (same_bytes path q)) [
    | inl here ↦ rw (gone, here) (inl refl)
    | inr other ↦ rw (gone, other) (inr refl)
  ]
]

disk-IsFileSystem : IsFileSystem disk
disk-IsFileSystem = record {
  makes = disk_makes;
  is_dangling = λ q s. false;
  exists = disk_exists;
  dangles = λ q s h. absurd (cc);
  links = λ path q s h. h;
  keeps = disk_keeps;
}

-- No directory is there at first.
abbrev none_made : Directories
none_made q = false
