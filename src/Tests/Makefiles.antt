-- ===== src/Tests/Makefiles.antt =====
-- The checks of the Makefile at a concrete one.
use natsx.Base.{refl, true, List, lookup, [], ◌∷◌, ◌≡◌, ◌↔◌, some}
use natsx.Base.Text.{Text, codes}
use natsx.Makefile.Graph.{Graph, Found, reaches}
use natsx.Makefile.Reach.{PathTo, reaches_iff}
use natsx.Makefile.Gaps.{
  profile_targets, dag_graph, append_context_profile_dag_gaps, context_release, release_final,
}
use natsx.Makefile.Profiles.{context_profile_cycle_gaps}
use natsx.Makefile.Dag.{all_known, IsCyclic, dag_gaps_iff}

abbrev makefile : Text
makefile =
    codes
      "context-lite: governance-check\n\tgo vet\ncontext-full: context-lite \\\n  docs-check\ncontext-release: context-full\n"

abbrev graph : Graph
graph =
    (codes "context-full", codes "context-lite" ∷ [])
    ∷ (codes "context-release", codes "context-full" ∷ [])
    ∷ []

reaches_iff_example :
    (found : Found) × (reaches graph context_release (codes "context-lite") ≡ some found)
    × ((found.0 ≡ true) ↔ PathTo graph (codes "context-lite") context_release)
reaches_iff_example = reaches_iff graph context_release (codes "context-lite")

dag_gaps_iff_example :
    (gaps : List Text) × (append_context_profile_dag_gaps makefile [] ≡ some gaps)
    × ((gaps ≡ []) ↔ (
        (all_known makefile profile_targets ≡ true)
        × (¬ IsCyclic (dag_graph makefile profile_targets))
        × (¬ PathTo (dag_graph makefile profile_targets) release_final context_release)))
dag_gaps_iff_example = dag_gaps_iff makefile

-- A table in which the full profile and the release profile lead to each other.
abbrev cyclic_profiles : List (Text × List Text)
cyclic_profiles =
    (codes "full", codes "context-release" ∷ codes "docs-check" ∷ [])
    ∷ (codes "release", codes "context-full" ∷ [])
    ∷ []

profile_cycle_example :
    context_profile_cycle_gaps cyclic_profiles []
    ≡ some (codes "context profile DAG cycle: full -> release -> full" ∷ [])
unfolding context_profile_cycle_gaps lookup
profile_cycle_example = refl
