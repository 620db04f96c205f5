-- ===== src/IssueRegistry.antt =====
-- The issue registry of cmd/goalcli/governance.go: its entries and what is asked of them.
pub mod Ids
pub mod Contiguous
pub mod Valid
use natsx.Base.{
  ℕ, zero, suc, ◌+◌, ◌-◌, ◌*◌, Bool, true, false, ◌&&◌, ◌||◌, not, List, [], ◌∷◌, ◌++◌, map, Option,
  none, some, is_empty, any, text_eq, ltb, leb, ◌==◌, if◌then◌else◌,
}
use natsx.Base.Text.{
  Text, codes, has_prefix, trim_prefix, trim_space, trim, contains_any, split, join,
}
use natsx.Base.Decimal.{format_nat, is_digit}
use natsx.Base.Sort.{sort}

pub record IssueRegistryEntry : Type 0 where
  pub id : Text
  pub block : Text

-- What stands before the first `#`.
unfoldable pub before_comment : Text → Text
before_comment [] = []
before_comment (c ∷ s) = let rest = before_comment s in if c == b'#' then [] else c ∷ rest

abbrev is_quote : ℕ → Bool
is_quote c = c == b'"' || c == 0x27

unfoldable pub trim_yaml_scalar : Text → Text
unfolding before_comment
trim_yaml_scalar value = trim is_quote (trim_space (before_comment value))

-- The identifier that a line gives, if it begins an entry.
unfoldable pub entry_id : Text → Option Text
unfolding trim_yaml_scalar
entry_id line =
    let trimmed = trim_space line in
    if has_prefix trimmed (codes "- id:")
    then some (trim_yaml_scalar (trim_space (trim_prefix trimmed (codes "- id:"))))
    else none

-- `flush`: the entry that is being read, with its lines; without an identifier there is none.
abbrev flush : Text → List Text → List IssueRegistryEntry
flush id lines = if is_empty id then [] else record { id = id; block = join lines b'\n' } ∷ []

-- The loop over the lines, with `currentID` and `currentLines`.
unfoldable pub entries_of : Text → List Text → List Text → List IssueRegistryEntry
unfolding entry_id
entries_of current lines [] = flush current lines
entries_of current lines (line ∷ rest) = elim (entry_id line) [
  | some id ↦ flush current lines ++ entries_of id (line ∷ []) rest
  | none ↦ entries_of current (if is_empty current then lines else lines ++ line ∷ []) rest
]

unfoldable pub parse_issue_registry_entries : Text → List IssueRegistryEntry
unfolding entries_of
parse_issue_registry_entries text = entries_of [] [] (split text b'\n')

unfoldable pub value_of_lines : Text → List Text → Option Text
unfolding trim_yaml_scalar
value_of_lines prefix [] = none
value_of_lines prefix (line ∷ lines) =
    let rest = value_of_lines prefix lines in
    let trimmed = trim_space line in
    if has_prefix trimmed prefix
    then some (trim_yaml_scalar (trim_space (trim_prefix trimmed prefix)))
    else rest

unfoldable pub block_yaml_value : Text → Text → Option Text
unfolding value_of_lines
block_yaml_value block key = value_of_lines (key ++ codes ":") (split block b'\n')

abbrev is_set : Option Text → Bool
is_set none = false
is_set (some value) = not (is_empty value) && not (text_eq value (codes "[]"))

unfoldable pub block_has_non_empty_yaml_value : Text → Text → Bool
unfolding block_yaml_value
block_has_non_empty_yaml_value block key = is_set (block_yaml_value block key)

-- The loop over the lines, with `inList`.
unfoldable pub list_item_in : Text → Bool → List Text → Bool
list_item_in key in_list [] = false
list_item_in key in_list (line ∷ lines) =
    let trimmed = trim_space line in
    let same = list_item_in key in_list lines in
    let entered = list_item_in key true lines in
    if is_empty trimmed || has_prefix trimmed (codes "#")
    then same
    else if not in_list
    then (if has_prefix trimmed (key ++ codes ":") then entered else same)
    else if has_prefix trimmed (codes "- ")
    then true
    else if contains_any trimmed (codes ":")
    then false
    else same

unfoldable pub block_has_yaml_list_item : Text → Text → Bool
unfolding list_item_in
block_has_yaml_list_item block key = list_item_in key false (split block b'\n')

unfoldable pub block_has_evidence : Text → Bool
unfolding block_has_non_empty_yaml_value block_has_yaml_list_item
block_has_evidence block =
    block_has_non_empty_yaml_value block (codes "evidence")
    || block_has_yaml_list_item block (codes "evidence")
