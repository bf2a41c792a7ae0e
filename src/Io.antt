-- ===== src/Io.antt =====
-- source/io.c: a directory is made with the directories above it.
pub mod Parent
pub mod Mkdir
pub mod Room
mod Tests
use workload.Prelude.{
  ℕ, zero, suc, ◌-◌, Bool, true, false, Option, none, some, List, [], ◌∷◌, if◌then◌else◌, get_or,
  length, take,
}
use workload.Store.Types.{Bytes}
use workload.Text.Base.{is_separator, is_empty}

-- What stat says of a pathname: a directory, something else, ENOENT, or another error.
pub data Status : Type 0 where
  is_directory not_directory missing unknown : Status

-- What mkdir says: it made the directory, EEXIST, or another error.
pub data Making : Type 0 where
  made exists refused : Making

-- The calls of the system on its files, of which `S` is the state, and whether memory is given for the
-- copy of a pathname.
pub record System (S : Type 0) : Type 0 where
  pub stat : Bytes → S → Status
  pub mkdir : Bytes → S → Making × S
  pub strndup : Bytes → Bool
  pub strdup : Bytes → Bool

-- The loop that passes over separators at the end.
pub tail_offset : Bytes → ℕ → ℕ
tail_offset path zero = zero
tail_offset path (suc i) =
    let before = tail_offset path i in
    if is_separator (get_or path (suc i) 0) then before else suc i

-- The loop that looks for the last separator before, but for one at the front.
pub cut_offset : Bytes → ℕ → Option ℕ
cut_offset path zero = none
cut_offset path (suc i) =
    let before = cut_offset path i in
    if is_separator (get_or path (suc i) 0) then some (suc i) else before

-- The pathname of the directory above, if there is one.
pub cut : Bytes → Option ℕ → Option Bytes
cut path none = none
cut path (some k) = some (take k path)

pub parent_of : Bytes → Option Bytes
unfolding tail_offset cut_offset cut
parent_of path = cut path (cut_offset path (tail_offset path (length path - 1)))

module _ {S : Type 0} (sys : System S) where
  -- The result (`false` is -1), `*s_first_entry`, and the state.
  abbrev pub Result : Type 0
  Result = Bool × (Option Bytes × S)

  abbrev pub or_else : Option Bytes → Option Bytes → Option Bytes
  or_else none other = other
  or_else (some e) other = some e

  pub after_mkdir : (path : Bytes) → Option Bytes → Making × S → Result
  after_mkdir path first (exists, s) = (true, (first, s))
  after_mkdir path first (made, s) =
      (true, (or_else first (if sys.strdup path then some path else none), s))
  after_mkdir path first (refused, s) = (false, (first, s))

  -- The call of mkdir, unless the directory above failed.
  pub then_mkdir : (path : Bytes) → Result → Result
  unfolding after_mkdir
  then_mkdir path (ok, (first, s)) =
      if ok then after_mkdir path first (sys.mkdir path s) else (false, (first, s))

  pub by_status : Status → Option Bytes → S → (created : Result) → Result
  by_status is_directory first s created = (true, (first, s))
  by_status not_directory first s created = (false, (first, s))
  by_status missing first s created = created
  by_status unknown first s created = (false, (first, s))

  -- The directories above: none of them, or those that `recursive` makes.
  pub make_parent : (recursive : Bytes → Result) → Option Bytes → Option Bytes → S → Result
  make_parent recursive none first s = (true, (first, s))
  make_parent recursive (some p) first s = if sys.strndup p then recursive p else (true, (first, s))

  -- workload_mkdir_recursive, on fuel. The mode is left out.
  pub mkdir_recursive : ℕ → Bytes → Option Bytes → S → Result
  unfolding then_mkdir by_status make_parent
  mkdir_recursive zero path first s = (false, (first, s))
  mkdir_recursive (suc fuel) path first s =
      let above = make_parent (λ p. mkdir_recursive fuel p first s) (parent_of path) first s in
      by_status (sys.stat path s) first s
        (if is_empty path then (false, (first, s)) else then_mkdir path above)
