-- ===== src/Makefile/Profiles.antt =====
-- The table of context profiles of cmd/goalcli/governance.go, and the gaps of its contract with the
-- Makefile.
use natsx.Base.{
  Bool, ◌&&◌, not, List, [], ◌∷◌, ◌++◌, Option, none, some, ◌≡◌, refl, all, is_empty, text_eq, ℕ,
  zero, suc, length, map, lookup, is_empty-append, inl, inr, ap, Bool-cases, if◌then◌else◌,
}
use natsx.Base.Text.{Text, codes}
use mathlib.Core.Option
use natsx.Makefile.{makefile_target_names}
use natsx.Makefile.Graph.{has, Search, visit_all, targets, mark, join_path, gaps_of}
use natsx.Makefile.Gaps.{gap_if}

-- The order is that in which a loop over the map meets the profiles.
unfoldable pub context_profile_gates : List (Text × List Text)
context_profile_gates =
    (codes "lite", codes "governance-check" ∷ [])
    ∷ (
      codes "standard",
      codes "governance-check" ∷ codes "p1-governance-check" ∷ codes "docs-check" ∷ [],
    )
    ∷ (
      codes "full",
      codes "governance-check" ∷ codes "p1-governance-check" ∷ codes "p2-runtime-check" ∷ [],
    )
    ∷ (
      codes "release",
      codes "context-full"
          ∷ codes "integration"
          ∷ codes "dependency-check"
          ∷ codes "standard-impact-check"
          ∷ codes "score-check"
          ∷ codes "debt-evidence"
          ∷ codes "evidence"
          ∷ codes "release-evidence-hash"
          ∷ codes "release-evidence-check"
          ∷ codes "release-evidence-checksum-check"
          ∷ [],
    )
    ∷ []

unfoldable pub normalize_context_profile : Text → Text
normalize_context_profile profile = if text_eq profile (codes "fast") then codes "lite" else profile

unfoldable pub map_context_alias_to_profile : Text → Text
map_context_alias_to_profile command =
    if has command (codes "context-lite" ∷ codes "context-fast-check" ∷ [])
    then codes "lite"
    else if has command (codes "context-full" ∷ codes "context-full-check" ∷ [])
    then codes "full"
    else if text_eq command (codes "context-release")
    then codes "release"
    else codes "standard"

unfoldable pub valid_context_profile_name : Text → Bool
valid_context_profile_name profile =
    has profile (codes "lite" ∷ codes "standard" ∷ codes "full" ∷ codes "release" ∷ [])

unfoldable pub is_release_gate : Text → Bool
is_release_gate gate = has gate (codes "release-check" ∷ codes "release-final-check" ∷ [])

-- The loop over the gates of a profile.
unfoldable pub gate_gaps : List Text → Text → List Text → List Text
gate_gaps names profile [] = []
gate_gaps names profile (gate ∷ gates) =
    gap_if (is_release_gate gate)
      (codes "context profile " ++ profile ++ codes " must not include " ++ gate)
    ++ (gap_if (not (has gate names)) (
          codes "context profile " ++ profile ++ codes " references unknown Makefile gate " ++ gate)
        ++ gate_gaps names profile gates)

-- The loop over the profiles of a table.
unfoldable pub profile_contract_gaps : List Text → List (Text × List Text) → List Text
unfolding gate_gaps
profile_contract_gaps names [] = []
profile_contract_gaps names ((profile, gates) ∷ rest) =
    gap_if (is_empty profile) (codes "context profile name must not be empty")
    ++ (gap_if (not (valid_context_profile_name profile))
          (codes "unknown context profile " ++ profile)
        ++ (gate_gaps names profile gates ++ profile_contract_gaps names rest))

unfoldable pub context_gate_profile : Text → Option Text
context_gate_profile gate =
    if has gate (codes "context-lite" ∷ codes "context-fast-check" ∷ [])
    then some (codes "lite")
    else if has gate (codes "context-standard" ∷ codes "context-standard-check" ∷ [])
    then some (codes "standard")
    else if has gate (codes "context-full" ∷ codes "context-full-check" ∷ [])
    then some (codes "full")
    else if text_eq gate (codes "context-release")
    then some (codes "release")
    else none

unfoldable pub next_profiles : List Text → List Text
unfolding context_gate_profile
next_profiles [] = []
next_profiles (gate ∷ gates) = elim (context_gate_profile gate) [
  | some next ↦ next ∷ next_profiles gates
  | none ↦ next_profiles gates
]

-- The closure `visit` of the search for cycles of profiles, on fuel: it reports a cycle each time it
-- meets one. `path` stands for `visiting` too, as in the search of the targets.
unfoldable pub visit_profile :
    ℕ → List (Text × List Text) → List Text → Text → Search → Option Search
unfolding visit_all next_profiles targets mark join_path
visit_profile zero table path profile s = none
visit_profile (suc fuel) table path profile s =
    let next = visit_profile fuel table (path ++ profile ∷ []) in
    let cycle = join_path (path ++ profile ∷ []) in
    if has profile path
    then some (record s { gaps = s.gaps ++ (codes "context profile DAG cycle: " ++ cycle) ∷ [] })
    else if has profile s.visited
    then some s
    else mark profile (visit_all next (next_profiles (targets table profile)) s)

unfoldable pub context_profile_cycle_gaps : List (Text × List Text) → List Text → Option (List Text)
unfolding visit_profile
context_profile_cycle_gaps table gaps = gaps_of (
    visit_all (visit_profile (suc (length table)) table []) (map (λ row. row.0) table)
      (record { visited = []; reported = []; gaps = gaps }))

unfoldable pub context_profile_contract_gaps : Text → Option (List Text)
unfolding profile_contract_gaps context_profile_cycle_gaps
context_profile_contract_gaps makefile_text =
    context_profile_cycle_gaps context_profile_gates
      (profile_contract_gaps (makefile_target_names makefile_text) context_profile_gates)

abbrev pub fits_gate : List Text → Text → Bool
fits_gate names gate = not (is_release_gate gate) && has gate names

abbrev pub fits : List Text → Text × List Text → Bool
fits names (profile, gates) =
    not (is_empty profile) && valid_context_profile_name profile && all (fits_gate names) gates

gate_gaps-fits_gate :
    (names : List Text) (profile : Text) (gates : List Text)
    → is_empty (gate_gaps names profile gates) ≡ all (fits_gate names) gates
unfolding gate_gaps
gate_gaps-fits_gate names profile [] = refl
gate_gaps-fits_gate names profile (gate ∷ gates) = elim (Bool-cases (is_release_gate gate)) [
  | inl release ↦ rw release refl
  | inr other ↦ elim (Bool-cases (has gate names)) [
    | inl known ↦ rw (other, known) (gate_gaps-fits_gate names profile gates)
    | inr unknown ↦ rw (other, unknown) refl
  ]
]

profile_contract_gaps-fits :
    (names : List Text) (table : List (Text × List Text))
    → is_empty (profile_contract_gaps names table) ≡ all (fits names) table
unfolding profile_contract_gaps
profile_contract_gaps-fits names [] = refl
profile_contract_gaps-fits names (([], gates) ∷ rest) = refl
profile_contract_gaps-fits names ((c ∷ profile, gates) ∷ rest) =
    elim (Bool-cases (valid_context_profile_name (c ∷ profile))) [
      | inl valid ↦
          let first = gate_gaps names (c ∷ profile) gates in
          let next = profile_contract_gaps names rest in
          rw (valid, is_empty-append first next, gate_gaps-fits_gate names (c ∷ profile) gates)
            (ap (λ b. all (fits_gate names) gates && b) (profile_contract_gaps-fits names rest))
      | inr invalid ↦ rw invalid refl
    ]

-- The table has no cycle, so the search of it leaves the gaps as they are.
context_profile_cycle_gaps-none :
    (gaps : List Text) → context_profile_cycle_gaps context_profile_gates gaps ≡ some gaps
unfolding context_profile_cycle_gaps context_profile_gates lookup
context_profile_cycle_gaps-none gaps = refl

-- The check of the profiles has fuel enough; it finds no gap exactly if each profile has a valid name,
-- and each of its gates is a target of the Makefile and none of the release checks.
pub context_profile_contract_gaps-fits :
    (makefile_text : Text)
    → Option.map is_empty (context_profile_contract_gaps makefile_text)
      ≡ some (all (fits (makefile_target_names makefile_text)) context_profile_gates)
unfolding context_profile_contract_gaps
context_profile_contract_gaps-fits makefile_text =
    let names = makefile_target_names makefile_text in
    rw (context_profile_cycle_gaps-none (profile_contract_gaps names context_profile_gates))
      (ap some (profile_contract_gaps-fits names context_profile_gates))
