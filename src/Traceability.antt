-- ===== src/Traceability.antt =====
-- cmd/goalcli/traceability.go: the rows of the traceability matrix and the check of their artifacts.
pub mod Artifacts
pub mod Passing
use natsx.Base.{
  ℕ, zero, suc, Bool, true, false, ◌&&◌, ◌||◌, not, List, [], ◌∷◌, ◌++◌, Option, none, some,
  is_empty, all, any, text_eq, leb, ltb, ◌==◌, if◌then◌else◌,
}
use natsx.Base.Text.{
  Text, codes, has_prefix, has_suffix, contains_any, trim, trim_right, trim_space, split,
  trim_prefix,
}
use natsx.Base.Decimal.{is_digit}

pub record TraceabilityRow : Type 0 where
  pub req_id : Text
  pub artifacts : List Text
  pub evidence : List Text

-- `\s` of a regular expression
abbrev is_blank : ℕ → Bool
is_blank c = c == b' ' || c == b'\t' || c == b'\n' || c == 0xC || c == b'\r'

-- `\s*(REQ-\d+)\s*` on a whole cell: what the group takes.
unfoldable pub req_id_of : Text → Option Text
req_id_of cell =
    let id = trim is_blank cell in
    let number = trim_prefix id (codes "REQ-") in
    if has_prefix id (codes "REQ-") && not (is_empty number) && all is_digit number
    then some id
    else none

abbrev replace_semicolon : ℕ → ℕ
replace_semicolon c = if c == 0xFF1B then b';' else c

abbrev normalized : Text → Text
normalized [] = []
normalized (c ∷ s) = replace_semicolon c ∷ normalized s

-- The characters that `strings.TrimRight` takes away.
abbrev is_stop : ℕ → Bool
is_stop c = c == b' ' || c == b',' || c == 0xFF0C || c == 0x3002 || c == b'.'

abbrev is_gap : ℕ → Bool
is_gap c = c == b' ' || c == b'\t'

-- What stands before the first space or tab.
abbrev before_gap : Text → Text
before_gap [] = []
before_gap (c ∷ s) = if is_gap c then [] else c ∷ before_gap s

-- The cut is made only where something stands before the gap.
abbrev cut_gap : Text → Text
cut_gap t = if is_empty (before_gap t) then t else before_gap t

unfoldable pub token_of : Text → Text
token_of part = cut_gap (trim_right is_stop (trim_space part))

abbrev keep_token : Text → List Text → List Text
keep_token token rest = if is_empty token then rest else token ∷ rest

unfoldable pub tokens_of : List Text → List Text
unfolding token_of
tokens_of [] = []
tokens_of (part ∷ parts) = keep_token (token_of part) (tokens_of parts)

unfoldable pub split_cell_tokens : Text → List Text
unfolding tokens_of
split_cell_tokens cell = tokens_of (split (normalized cell) b';')

-- `traceabilityRowRegex` on a line, by the cells between its bars: nothing before the first bar, five
-- cells, and another bar after them.
unfoldable pub row_of_cells : List Text → Option TraceabilityRow
unfolding req_id_of split_cell_tokens
row_of_cells (before ∷ req ∷ _ ∷ artifacts ∷ evidence ∷ _ ∷ _ ∷ _) =
    if is_empty before
    then elim (req_id_of req) [
      | none ↦ none
      | some id ↦ some (record {
        req_id = trim_space id;
        artifacts = split_cell_tokens artifacts;
        evidence = split_cell_tokens evidence;
      })
    ]
    else none
row_of_cells _ = none

unfoldable pub rows_of_lines : List Text → List TraceabilityRow
unfolding row_of_cells
rows_of_lines [] = []
rows_of_lines (line ∷ lines) =
    let rest = rows_of_lines lines in
    elim (row_of_cells (split line b'|')) [ none ↦ rest | some row ↦ row ∷ rest ]

-- `parseTraceabilityMatrix` on the text of the file.
unfoldable pub parse_traceability_matrix : Text → List TraceabilityRow
unfolding rows_of_lines
parse_traceability_matrix content = rows_of_lines (split content b'\n')

unfoldable pub traceability_path_prefixes : List Text
traceability_path_prefixes =
    codes ".agent/"
    ∷ codes ".github/"
    ∷ codes "cmd/"
    ∷ codes "contracts/"
    ∷ codes "docs/"
    ∷ codes "examples/"
    ∷ codes "internal/"
    ∷ codes "pkg/"
    ∷ codes "release/"
    ∷ codes "scripts/"
    ∷ codes "testkit/"
    ∷ []

unfoldable pub traceability_path_suffixes : List Text
traceability_path_suffixes =
    codes ".md"
    ∷ codes ".yaml"
    ∷ codes ".yml"
    ∷ codes ".json"
    ∷ codes ".go"
    ∷ codes ".sh"
    ∷ codes ".mk"
    ∷ []

unfoldable pub traceability_known_top_files : List Text
traceability_known_top_files =
    codes "README.md"
    ∷ codes "Makefile"
    ∷ codes "CONSTITUTION.md"
    ∷ codes "AGENTS.md"
    ∷ codes "CLAUDE.md"
    ∷ codes "go.mod"
    ∷ codes "go.sum"
    ∷ codes ".gitignore"
    ∷ codes ".golangci.yml"
    ∷ codes "renovate.json"
    ∷ []

unfoldable pub looks_like_path : Text → Bool
looks_like_path token =
    not (is_empty token)
    && (any (text_eq token) traceability_known_top_files
        || any (has_prefix token) traceability_path_prefixes
        || contains_any token (codes "/") && any (has_suffix token) traceability_path_suffixes)
