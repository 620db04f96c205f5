-- ===== src/Makefile/Dag.antt =====
-- What `appendContextProfileDAGGaps` of cmd/goalcli/governance.go says of the Makefile.
use natsx.Base.{
  Bool, true, false, ◌&&◌, List, [], ◌∷◌, ◌++◌, some, ◌≡◌, refl, sym, ap, ◌∙◌, inl, inr, ◌↔◌,
  length, append-eq-nil, eq-nil_of_length, all, lookup, text_eq, text_eq_iff, text_eq_refl,
  Bool-cases, Option-cases, arith,
}
use natsx.Base.Text.{Text, codes}
use natsx.Makefile.{makefile_target_dependencies}
use natsx.Makefile.Graph.{Graph, has, targets, context_targets}
use natsx.Makefile.Reach.{PathTo, reaches_iff, targets-none}
use natsx.Makefile.Cycles.{Depends, Chain, one, more}
use natsx.Makefile.Acyclic.{cycle_gaps_honest, cycle_gaps_complete}
use natsx.Makefile.Gaps.{
  gap_if, profile_targets, is_known, dag_graph, unknown_gates, unknown_gate_gaps, reach_gap,
  then_reach, append_context_profile_dag_gaps, context_release, release_final,
}

-- All dependencies of the targets are known gates.
abbrev pub all_known : Text → List Text → Bool
all_known content [] = true
all_known content (target ∷ targets) =
    all is_known (makefile_target_dependencies content target) && all_known content targets

unknown_gates-nil :
    (target : Text) (deps : List Text)
    → (unknown_gates target deps ≡ []) ↔ (all is_known deps ≡ true)
unfolding unknown_gates
unknown_gates-nil target [] = ground arith
unknown_gates-nil target (dep ∷ deps) = elim (Bool-cases (is_known dep)) [
  | inl known ↦ rw known (unknown_gates-nil target deps)
  | inr unknown ↦ rw unknown (ground arith)
]

unknown_gate_gaps-nil :
    (content : Text) (targets : List Text)
    → (unknown_gate_gaps content targets ≡ []) ↔ (all_known content targets ≡ true)
unfolding unknown_gate_gaps
unknown_gate_gaps-nil content [] = ground arith
unknown_gate_gaps-nil content (t ∷ ts) =
    let deps = makefile_target_dependencies content t in
    ground (
      arith,
      append-eq-nil (unknown_gates t deps) (unknown_gate_gaps content ts),
      unknown_gates-nil t deps,
      unknown_gate_gaps-nil content ts,
    )

-- A target that depends on another is a key of the graph.
lookup-dag_graph :
    (content : Text) (ts : List Text) (x : Text) (deps : List Text)
    → lookup x (dag_graph content ts) ≡ some deps
    → has x ts ≡ true
unfolding lookup dag_graph
lookup-dag_graph content [] x deps h = ground (arith, h)
lookup-dag_graph content (t ∷ ts) x deps h = elim (Bool-cases (text_eq t x)) [
  | inl same ↦ rw (sym ((text_eq_iff t x).0 same)) (rw (text_eq_refl t) refl)
  | inr other ↦ ground (arith, lookup-dag_graph content ts x deps (rw other at h))
]

Depends-profile_targets :
    (content : Text) (ts : List Text) (x y : Text)
    → Depends (dag_graph content ts) x y
    → has x ts ≡ true
unfolding context_targets
Depends-profile_targets content ts x y e = elim (Option-cases (lookup x (dag_graph content ts))) [
  | inl missing ↦
      let nothing : has y (context_targets []) ≡ true =
        rw (targets-none (dag_graph content ts) x missing) at e in
      absurd (ground (arith, nothing))
  | inr entry ↦ lookup-dag_graph content ts x entry.0 entry.1
]

Chain-profile_targets :
    (content : Text) (ts : List Text) {x y : Text}
    → Chain (dag_graph content ts) y x
    → has x ts ≡ true
Chain-profile_targets content ts (one {x = x} e) = Depends-profile_targets content ts x _ e
Chain-profile_targets content ts (more {x = x} {y = y} e c) =
    Depends-profile_targets content ts x y e

-- Some target of the graph depends on itself.
abbrev pub IsCyclic : Graph → Type 0
IsCyclic g = (x : Text) × Chain g x x

gap_if-nil :
    (b : Bool) (gaps : List Text) (gap : Text)
    → (gaps ++ gap_if b gap ≡ []) ↔ ((gaps ≡ []) × (b ≡ false))
gap_if-nil true gaps gap = ground (arith, append-eq-nil gaps (gap ∷ []))
gap_if-nil false gaps gap = ground (arith, append-eq-nil gaps [])

-- The check of the context targets has fuel enough, and finds no gap exactly if all their dependencies
-- are known gates, none of them depends on itself, and context-release does not lead to
-- release-final-check.
pub dag_gaps_iff :
    (content : Text)
    → let g = dag_graph content profile_targets in
      (gaps : List Text) × (append_context_profile_dag_gaps content [] ≡ some gaps)
      × ((gaps ≡ []) ↔ (
          (all_known content profile_targets ≡ true)
          × (¬ IsCyclic g)
          × (¬ PathTo g release_final context_release)))
unfolding append_context_profile_dag_gaps
dag_gaps_iff content =
    let g = dag_graph content profile_targets in
    let unknown = unknown_gate_gaps content profile_targets in
    let cycles = cycle_gaps_honest g profile_targets unknown in
    let reached = reaches_iff g context_release release_final in
    let gap = codes "Makefile context-release must not reach release-final-check" in
    let nils = gap_if-nil reached.0.0 cycles.0 gap in
    (
      cycles.0 ++ gap_if reached.0.0 gap,
      ap (then_reach g) cycles.1 ∙ ap (reach_gap cycles.0) reached.1,
      (
        λ e.
            let none_unknown : unknown ≡ [] =
              eq-nil_of_length unknown (omega (arith, cycles.2, ap length ((nils.0 e).0))) in
            let same : length cycles.0 ≡ length unknown = rw ((nils.0 e).0, none_unknown) refl in
            (
              (unknown_gate_gaps-nil content profile_targets).0 none_unknown,
              λ cycle.
                  cycle_gaps_complete g profile_targets unknown cycles.0 cycle.0 cycle.0 cycles.1
                    same (Chain-profile_targets content profile_targets cycle.1) (inl refl) cycle.1,
              λ path. absurd (ground (arith, reached.2.1 path, (nils.0 e).1)),
            ),
        λ h.
            let none_unknown : unknown ≡ [] =
              (unknown_gate_gaps-nil content profile_targets).1 h.0 in
            let out_nil : cycles.0 ≡ [] = elim cycles.3 [
              | inl same ↦ eq-nil_of_length cycles.0 (same ∙ ap length none_unknown)
              | inr cycle ↦ absurd (h.1 cycle)
            ] in
            let away : reached.0.0 ≡ false = elim (Bool-cases reached.0.0) [
              | inl there ↦ absurd (h.2 (reached.2.0 there))
              | inr not_there ↦ not_there
            ] in
            nils.1 (out_nil, away),
      ),
    )
