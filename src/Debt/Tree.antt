-- ===== src/Debt/Tree.antt =====
-- What internal/debtcheck/debtcheck.go reads of the file system, and its findings.
use natsx.Base.{Bool, List, Option}
use natsx.Base.Text.{Text}

-- The names in a directory with what `os.Lstat` finds there, in the order of `Readdirnames`: a file with
-- its text (in valid UTF-8), if it can be read, a directory, one that cannot be read, or an error.
pub data Entries : Type 0 where
  end_names : Entries
  file : Text → Option Text → Entries → Entries
  directory : Text → Entries → Entries → Entries
  closed_directory vanished : Text → Entries → Entries

-- The same at the root.
pub data Root : Type 0 where
  root_missing root_closed : Root
  root_file : Option Text → Root
  root_directory : Entries → Root

-- `os` and `filepath`, `crypto/sha256` with `encoding/hex`, and `go/parser`.
pub record Disk : Type 0 where
  pub lstat : Text → Root
  pub read_file : Text → Option Text
  -- `os.Stat` without an error
  pub exists : Text → Bool
  pub join : Text → Text → Text
  pub base : Text → Text
  -- `filepath.Rel` with slashes, or the path itself on an error
  pub rel : Text → Text → Text
  pub sha256 : Text → Text
  -- The quoted paths of the imports, or none if the file cannot be parsed.
  pub imports : Text → Text → Option (List Text)

pub record Finding : Type 0 where
  pub id : Text
  pub severity : Text
  pub path : Text
  pub message : Text
