-- ===== src/Makefile.antt =====
-- The checks of cmd/goalcli/governance.go on the repository's Makefile: the block of a target, its
-- definitions and its dependencies.
pub mod Graph
pub mod Reach
pub mod Cycles
pub mod Acyclic
pub mod Gaps
pub mod Profiles
pub mod Dag
use natsx.Base.{
  ℕ, suc, Bool, true, false, ◌&&◌, ◌||◌, not, List, [], ◌∷◌, ◌++◌, Option, none, some, is_empty,
  any, text_eq, ◌==◌, if◌then◌else◌,
}
use natsx.Base.Text.{
  Text, codes, has_prefix, ends_with, contains, contains_any, trim_space, trim_suffix, split, join,
  fields, push_front,
}

abbrev pub newline : ℕ
newline = b'\n'

abbrev pub has : Text → List Text → Bool
has x xs = any (text_eq x) xs

abbrev pub starts_target : Text → Text → Bool
starts_target target line = has_prefix line (target ++ codes ":")

-- The line ends the block of a target.
abbrev pub ends_block : Text → Bool
ends_block line =
    not (is_empty line)
    && not (has_prefix line (codes "\t"))
    && not (has_prefix line (codes " "))
    && contains_any line (codes ":")

-- The loop over the lines, with `inBlock`.
unfoldable pub block_lines : Text → Bool → List Text → List Text
block_lines target in_block [] = []
block_lines target in_block (line ∷ lines) =
    let inside = block_lines target true lines in
    let outside = block_lines target false lines in
    if starts_target target line
    then line ∷ inside
    else if in_block
    then (if ends_block line then [] else line ∷ inside)
    else outside

unfoldable pub makefile_target_block : Text → Text → Text
unfolding block_lines
makefile_target_block content target =
    join (block_lines target false (split content newline)) newline

unfoldable pub count_lines : Text → List Text → ℕ
count_lines target [] = 0
count_lines target (line ∷ lines) =
    let rest = count_lines target lines in if starts_target target line then suc rest else rest

unfoldable pub makefile_target_definition_count : Text → Text → ℕ
unfolding count_lines
makefile_target_definition_count content target = count_lines target (split content newline)

-- `strings.SplitN(line, ":", 2)`: what stands before the first colon, and what after it.
unfoldable pub cut_colon : Text → Text × Option Text
cut_colon [] = ([], none)
cut_colon (c ∷ s) =
    let rest = cut_colon s in if c == b':' then ([], some s) else (c ∷ rest.0, rest.1)

abbrev not_phony : List Text → List Text
not_phony [] = []
not_phony (t ∷ ts) =
    let rest = not_phony ts in if text_eq t (codes ".PHONY") then rest else t ∷ rest

abbrev skips_line : Text → Bool
skips_line line =
    is_empty line
    || has_prefix line (codes "\t")
    || has_prefix line (codes " ")
    || has_prefix line (codes "#")
    || contains line (codes ":=")

unfoldable pub names_of_lines : List Text → List Text
unfolding cut_colon
names_of_lines [] = []
names_of_lines (line ∷ lines) =
    let rest = names_of_lines lines in
    if skips_line line then rest else not_phony (fields (cut_colon line).0) ++ rest

-- The names of the targets; the map of the source is the set of them.
unfoldable pub makefile_target_names : Text → List Text
unfolding names_of_lines
makefile_target_names content = names_of_lines (split content newline)

-- A line of dependencies, trimmed, without the backslash that continues it.
abbrev pub bare : Text → Text
bare line = trim_space (trim_suffix (trim_space line) b'\\')

abbrev pub is_continued : Text → Bool
is_continued line = ends_with b'\\' (trim_space line)

abbrev keep : Text → List Text → List Text
keep text texts = if is_empty text then texts else text ∷ texts

-- The lines after the first one, while the line before them is continued.
unfoldable pub continued_lines : List Text → List Text
continued_lines [] = []
continued_lines (line ∷ lines) =
    let rest = continued_lines lines in
    if has_prefix line (codes "\t")
    then []
    else if is_empty (trim_space line)
    then rest
    else keep (bare line) (if is_continued line then rest else [])

unfoldable pub dependency_lines : List Text → List Text
unfolding continued_lines cut_colon
dependency_lines [] = []
dependency_lines (line ∷ lines) = elim (cut_colon line).1 [
  | none ↦ []
  | some after ↦ keep (bare after) (if is_continued after then continued_lines lines else [])
]

unfoldable pub makefile_target_dependencies : Text → Text → List Text
unfolding dependency_lines
makefile_target_dependencies content target =
    let block = makefile_target_block content target in
    if is_empty block then [] else fields (join (dependency_lines (split block newline)) b' ')

unfoldable pub makefile_dependency_has_token : List Text → Text → Bool
makefile_dependency_has_token dependencies token = any (λ field. text_eq field token) dependencies
