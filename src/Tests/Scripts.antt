-- ===== src/Tests/Scripts.antt =====
-- The texts that the tools read, at concrete inputs: a Makefile, an issue registry, a traceability matrix
-- and the names that the debt check skips.
use natsx.Base.{true, [], ◌∷◌, ◌≡◌, refl, none, some, map}
use natsx.Base.Text.{
  Text, codes, has_prefix, trim_left, trim_right, trim, trim_space, is_space, trim_prefix,
  trim_suffix, contains, contains_any, ends_with, split, join, to_upper,
}
use natsx.Base.Sort.{insert, sort}
use natsx.Makefile.{
  block_lines, makefile_target_block, cut_colon, continued_lines, dependency_lines,
  makefile_target_dependencies, names_of_lines, makefile_target_names,
}
use natsx.IssueRegistry.{
  before_comment, trim_yaml_scalar, entry_id, entries_of, parse_issue_registry_entries,
  value_of_lines, block_yaml_value, list_item_in, block_has_yaml_list_item,
}
use natsx.IssueRegistry.Ids.{prefixes, three_digits, number_after, match_id, missing_after}
use natsx.Traceability.{
  req_id_of, token_of, tokens_of, split_cell_tokens, row_of_cells, rows_of_lines,
  parse_traceability_matrix,
}
use natsx.Debt.Downstream.{
  contains_downstream_placeholder, is_yaml_scalar_line, has_yaml_scalar_line,
}
use natsx.Debt.Walk.{zero_byte_within, bytes_look_binary}
use natsx.Base.{ltb}

abbrev makefile : Text
makefile =
    codes
      ".PHONY: a\nVAR := x\ncontext-full: one \\\n\n  two three\\\n  four\n\tgo vet $(X)\nnext: five\n"

dependencies_read :
    makefile_target_dependencies makefile (codes "context-full")
    ≡ codes "one" ∷ codes "two" ∷ codes "three" ∷ codes "four" ∷ []
unfolding makefile_target_dependencies makefile_target_block block_lines dependency_lines
    continued_lines cut_colon split join has_prefix trim_left trim_right trim trim_space is_space
    trim_suffix contains_any ends_with
dependencies_read = refl

names_read : makefile_target_names makefile ≡ codes "context-full" ∷ codes "next" ∷ []
unfolding makefile_target_names names_of_lines cut_colon split has_prefix contains is_space
names_read = refl

abbrev issues : Text
issues = codes "x: y\n- id: \"P0-001\" # first\n  title: t\n- id: P1-002\n  evidence:\n    - e\n"

matrix_read :
    parse_traceability_matrix
      (codes "# t\n| REQ-12 | s | docs/a.md v2; .agent/b；note。 | ev | o |\n| X | a | b | c | d |\n")
    ≡ record {
      req_id = codes "REQ-12";
      artifacts = codes "docs/a.md" ∷ codes ".agent/b" ∷ codes "note" ∷ [];
      evidence = codes "ev" ∷ [];
    }
      ∷ []
unfolding parse_traceability_matrix rows_of_lines row_of_cells req_id_of split_cell_tokens tokens_of
    token_of split has_prefix trim_left trim_right trim trim_space is_space trim_prefix
matrix_read = refl

issues_read :
    map (λ e. e.id) (parse_issue_registry_entries issues) ≡ codes "P0-001" ∷ codes "P1-002" ∷ []
unfolding parse_issue_registry_entries entries_of entry_id trim_yaml_scalar before_comment split
    has_prefix trim_left trim_right trim trim_space is_space trim_prefix
issues_read = refl

title_read :
    block_yaml_value (codes "- id: P0-001\n  title: 'a b' # c") (codes "title") ≡ some (codes "a b")
unfolding block_yaml_value value_of_lines trim_yaml_scalar before_comment split has_prefix trim_left
    trim_right trim trim_space is_space trim_prefix
title_read = refl

evidence_read : block_has_yaml_list_item (codes "evidence:\n  - e") (codes "evidence") ≡ true
unfolding block_has_yaml_list_item list_item_in split has_prefix trim_left trim_right trim
    trim_space is_space contains_any
evidence_read = refl

id_read : match_id prefixes (codes "CTX-012") ≡ some (codes "CTX", 12)
unfolding match_id number_after three_digits
id_read = refl

id_refused : match_id prefixes (codes "P1-12") ≡ none
unfolding match_id number_after three_digits
id_refused = refl

-- A number 000 is passed over, so that nothing is missing after it.
zero_passes : missing_after 0 (sort ltb (0 ∷ [])) ≡ none
unfolding missing_after sort insert
zero_passes = refl

two_missing : missing_after 0 (sort ltb (3 ∷ 1 ∷ 1 ∷ [])) ≡ some 2
unfolding missing_after sort insert
two_missing = refl

placeholder_found : contains_downstream_placeholder (codes "x todo y") ≡ true
unfolding contains_downstream_placeholder to_upper contains has_prefix
placeholder_found = refl

claim_found : has_yaml_scalar_line (codes "# a\n  k:  v \n") (codes "k") (codes "v") ≡ true
unfolding has_yaml_scalar_line is_yaml_scalar_line split has_prefix trim_left trim_right trim
    trim_space is_space trim_prefix
claim_found = refl

binary_found : bytes_look_binary (97 ∷ 0 ∷ []) ≡ true
unfolding bytes_look_binary zero_byte_within
binary_found = refl
