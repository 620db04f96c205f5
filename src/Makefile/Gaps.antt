-- ===== src/Makefile/Gaps.antt =====
-- The gaps that cmd/goalcli/governance.go finds in the Makefile: each function gives what the one of the
-- source appends.
use natsx.Base.{
  Bool, true, false, ◌||◌, not, List, [], ◌∷◌, ◌++◌, Option, none, some, is_empty, text_eq, ◌==◌,
  if◌then◌else◌,
}
use natsx.Base.Text.{Text, codes, contains}
use natsx.Base.Decimal.{format_nat}
use natsx.Makefile.{
  makefile_target_block, makefile_target_definition_count, makefile_target_dependencies,
  makefile_dependency_has_token,
}
use natsx.Makefile.Graph.{Graph, Found, has, reaches, append_makefile_profile_cycle_gaps}

abbrev pub gap_if : Bool → Text → List Text
gap_if true gap = gap ∷ []
gap_if false gap = []

unfoldable pub makefile_duplicate_gaps : Text → List Text → List Text
makefile_duplicate_gaps content [] = []
makefile_duplicate_gaps content (target ∷ targets) =
    let count = makefile_target_definition_count content target in
    gap_if (not (count == 1)) (
      codes "Makefile target "
      ++ target
      ++ codes " must be defined exactly once, found "
      ++ format_nat count)
    ++ makefile_duplicate_gaps content targets

abbrev missing_block : Text → List Text
missing_block target = (codes "Makefile missing target block " ++ target) ∷ []

unfoldable pub missing_dependency_gaps : List Text → Text → List Text → List Text
missing_dependency_gaps dependencies target [] = []
missing_dependency_gaps dependencies target (token ∷ tokens) =
    gap_if (not (makefile_dependency_has_token dependencies token))
      (codes "Makefile " ++ target ++ codes " missing dependency " ++ token)
    ++ missing_dependency_gaps dependencies target tokens

unfoldable pub forbidden_dependency_gaps : List Text → Text → List Text → List Text
forbidden_dependency_gaps dependencies target [] = []
forbidden_dependency_gaps dependencies target (token ∷ tokens) =
    gap_if (makefile_dependency_has_token dependencies token)
      (codes "Makefile " ++ target ++ codes " must not depend on " ++ token)
    ++ forbidden_dependency_gaps dependencies target tokens

unfoldable pub makefile_target_dependency_gaps : Text → Text → List Text → List Text → List Text
unfolding missing_dependency_gaps forbidden_dependency_gaps
makefile_target_dependency_gaps content target required forbidden =
    let dependencies = makefile_target_dependencies content target in
    if is_empty (makefile_target_block content target)
    then missing_block target
    else missing_dependency_gaps dependencies target required
      ++ forbidden_dependency_gaps dependencies target forbidden

unfoldable pub reference_gaps : Text → Text → List Text → List Text
reference_gaps block target [] = []
reference_gaps block target (token ∷ tokens) =
    gap_if (contains block token)
      (codes "Makefile " ++ target ++ codes " must not reference " ++ token)
    ++ reference_gaps block target tokens

unfoldable pub makefile_target_forbidden_reference_gaps : Text → Text → List Text → List Text
unfolding reference_gaps
makefile_target_forbidden_reference_gaps content target forbidden =
    let block = makefile_target_block content target in
    if is_empty block then missing_block target else reference_gaps block target forbidden

abbrev pub release_final : Text
release_final = codes "release-final-check"

abbrev pub context_release : Text
context_release = codes "context-release"

unfoldable pub calls_itself : Text → Text → Bool
calls_itself content block =
    makefile_dependency_has_token (makefile_target_dependencies content release_final) release_final
    || contains block (codes "$(MAKE) release-final-check")
    || contains block (codes "make release-final-check")
    || contains block (codes "$(GOALCLI) release-final-check")

unfoldable pub release_final_delegation_gaps : Text → List Text
release_final_delegation_gaps content =
    let block = makefile_target_block content release_final in
    if is_empty block
    then missing_block release_final
    else gap_if (calls_itself content block) (codes "release-final-check must not call itself")
      ++ gap_if (not (contains block (codes "$(MAKE) context-release")))
          (codes "release-final-check must call context-release")

abbrev pub profile_targets : List Text
profile_targets =
    codes "context-lite"
    ∷ codes "context-standard"
    ∷ codes "context-full"
    ∷ codes "context-release"
    ∷ []

unfoldable pub allowed_leaf : List Text
allowed_leaf =
    codes "require-gowork-off"
    ∷ codes "governance-check"
    ∷ codes "p1-governance-check"
    ∷ codes "docs-check"
    ∷ codes "p2-runtime-check"
    ∷ codes "integration"
    ∷ codes "dependency-check"
    ∷ codes "standard-impact-check"
    ∷ codes "score-check"
    ∷ codes "debt-evidence"
    ∷ codes "evidence"
    ∷ codes "release-evidence-hash"
    ∷ codes "release-evidence-check"
    ∷ codes "release-evidence-checksum-check"
    ∷ codes "context-profile-check"
    ∷ codes "context-schema-check"
    ∷ codes "context-profile"
    ∷ codes "context-fast-check"
    ∷ codes "context-standard-check"
    ∷ codes "context-full-check"
    ∷ []

-- The dependency becomes an edge of the graph.
unfoldable pub is_edge : Text → Bool
is_edge dep = has dep profile_targets || text_eq dep release_final

unfoldable pub is_known : Text → Bool
unfolding is_edge
is_known dep = is_edge dep || has dep allowed_leaf

unfoldable pub edges_of : List Text → List Text
unfolding is_edge
edges_of [] = []
edges_of (dep ∷ deps) = let rest = edges_of deps in if is_edge dep then dep ∷ rest else rest

-- The map `graph`; a target without an edge has an empty entry.
unfoldable pub dag_graph : Text → List Text → Graph
unfolding edges_of
dag_graph content [] = []
dag_graph content (target ∷ targets) =
    (target, edges_of (makefile_target_dependencies content target)) ∷ dag_graph content targets

unfoldable pub unknown_gates : Text → List Text → List Text
unfolding is_known
unknown_gates target [] = []
unknown_gates target (dep ∷ deps) =
    gap_if (not (is_known dep))
      (codes "Makefile " ++ target ++ codes " references unknown context gate " ++ dep)
    ++ unknown_gates target deps

unfoldable pub unknown_gate_gaps : Text → List Text → List Text
unfolding unknown_gates
unknown_gate_gaps content [] = []
unknown_gate_gaps content (target ∷ targets) =
    unknown_gates target (makefile_target_dependencies content target)
    ++ unknown_gate_gaps content targets

abbrev pub reach_gap : List Text → Option Found → Option (List Text)
reach_gap gaps none = none
reach_gap gaps (some found) =
    some
      (gaps ++ gap_if found.0 (codes "Makefile context-release must not reach release-final-check"))

abbrev pub then_reach : Graph → Option (List Text) → Option (List Text)
then_reach g none = none
then_reach g (some gaps) = reach_gap gaps (reaches g context_release release_final)

unfoldable pub append_context_profile_dag_gaps : Text → List Text → Option (List Text)
append_context_profile_dag_gaps content gaps =
    let g = dag_graph content profile_targets in
    then_reach g (
      append_makefile_profile_cycle_gaps g profile_targets
        (gaps ++ unknown_gate_gaps content profile_targets))
