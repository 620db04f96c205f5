-- ===== src/Debt/Walk.antt =====
-- The walk over the files of a repository in internal/debtcheck/debtcheck.go, and what it skips.
use natsx.Base.{
  ℕ, Bool, true, false, ◌&&◌, ◌||◌, not, List, [], ◌∷◌, ◌++◌, Option, ◌-◌, any, text_eq, ltb, ◌==◌,
  if◌then◌else◌,
}
use natsx.Base.Text.{Text, codes, has_prefix, has_suffix}
use natsx.Base.Sort.{sort, text_less}
use natsx.Debt.Tree.{
  Disk, Entries, end_names, file, directory, closed_directory, vanished, Root, root_missing,
  root_closed, root_file, root_directory, Finding,
}

unfoldable pub skip_dir : Text → Bool
skip_dir name = any (text_eq name) (
    codes ".git"
    ∷ codes ".omx"
    ∷ codes ".worktree"
    ∷ codes "vendor"
    ∷ codes "node_modules"
    ∷ codes "release"
    ∷ codes "tmp"
    ∷ codes ".cache"
    ∷ [])

unfoldable pub skip_path : Disk → Text → Text → Bool
skip_path d root path =
    let rel_path = d.rel root path in
    has_prefix rel_path (codes ".agent/debt/")
    || has_prefix rel_path (codes ".agent/inbox/")
    || has_prefix rel_path (codes "internal/debtcheck/")

unfoldable pub skip_file : Disk → Text → Bool
skip_file d path =
    let base = d.base path in
    has_prefix base (codes ".") && not (text_eq base (codes ".gitignore"))
    || any (has_suffix path)
        (codes ".png" ∷ codes ".jpg" ∷ codes ".jpeg" ∷ codes ".gif" ∷ codes ".pdf" ∷ [])

-- The number of bytes of a code point in UTF-8.
abbrev byte_width : ℕ → ℕ
byte_width c = if ltb c 0x80 then 1 else if ltb c 0x800 then 2 else if ltb c 0x10000 then 3 else 4

-- Whether one of the first `limit` bytes is zero.
unfoldable pub zero_byte_within : ℕ → Text → Bool
zero_byte_within limit [] = false
zero_byte_within limit (c ∷ s) =
    not (limit == 0) && (c == 0 || zero_byte_within (limit - byte_width c) s)

unfoldable pub bytes_look_binary : Text → Bool
unfolding zero_byte_within
bytes_look_binary data' = zero_byte_within 4096 data'

-- What a walk has found, and whether it has met no error.
abbrev pub Walked : Type 0
Walked = List Finding × Bool

-- A file's path and its text, if it can be read.
abbrev pub Visit : Type 0
Visit = Text → Option Text → Walked

abbrev pub Step : Type 0
Step = Text × Walked

abbrev pub name_less : Step → Step → Bool
name_less a b = text_less a.0 b.0

-- The loop over the names: the first error ends it.
unfoldable pub in_order : List Step → Walked
in_order [] = ([], true)
in_order (step ∷ steps) =
    let rest = in_order steps in
    if step.1.1 then (step.1.0 ++ rest.0, rest.1) else (step.1.0, false)

-- What each name of a directory gives. A walk has no other effect, so what a name gives that the loop
-- does not come to is left out by `in_order`.
unfoldable pub steps_of : Disk → Visit → Text → Entries → List Step
unfolding in_order
steps_of d visit dir end_names = []
steps_of d visit dir (file name text rest) =
    (name, visit (d.join dir name) text) ∷ steps_of d visit dir rest
steps_of d visit dir (directory name inner rest) =
    let below = in_order (sort name_less (steps_of d visit (d.join dir name) inner)) in
    (name, if skip_dir name then ([], true) else below) ∷ steps_of d visit dir rest
steps_of d visit dir (closed_directory name rest) =
    (name, ([], skip_dir name)) ∷ steps_of d visit dir rest
steps_of d visit dir (vanished name rest) = (name, ([], false)) ∷ steps_of d visit dir rest

unfoldable pub walk_dir : Disk → Visit → Text → Entries → Walked
unfolding steps_of
walk_dir d visit dir entries = in_order (sort name_less (steps_of d visit dir entries))

unfoldable pub walk_root : Disk → Visit → Text → Root → Walked
unfolding walk_dir
walk_root d visit root root_missing = ([], false)
walk_root d visit root root_closed = ([], false)
walk_root d visit root (root_file text) = visit root text
walk_root d visit root (root_directory entries) = walk_dir d visit root entries

unfoldable pub walk_files : Disk → Visit → Text → Walked
unfolding walk_root
walk_files d visit root = walk_root d visit root (d.lstat root)
