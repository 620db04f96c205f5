-- ===== src/Traceability/Passing.antt =====
-- When the check of cmd/goalcli/traceability.go passes.
use natsx.Base.{
  is_empty-append, Bool, true, false, ◌&&◌, ◌||◌, not, List, [], ◌∷◌, ◌≡◌, refl, ap, ◌↔◌, inl, inr,
  is_empty, all, Bool-cases, arith,
}
use natsx.Base.Text.{Text}
use natsx.Errors.{is_nil}
use natsx.Traceability.{TraceabilityRow, parse_traceability_matrix, looks_like_path}
use natsx.Traceability.Artifacts.{
  Files, verify_artifact_exists, artifact_gaps, traceability_gaps, traceability_exit,
  run_traceability_check,
}

-- An artifact that looks like a path is there.
unfoldable pub resolves : Files → Text → Bool
resolves files artifact =
    not (looks_like_path artifact) || is_nil (verify_artifact_exists files artifact)

-- A row has artifacts, and those that look like paths are there.
abbrev pub is_traced : Files → TraceabilityRow → Bool
is_traced files row = not (is_empty row.artifacts) && all (resolves files) row.artifacts

artifact_gaps-nil :
    (files : Files) (req_id : Text) (artifacts : List Text)
    → is_empty (artifact_gaps files req_id artifacts) ≡ all (resolves files) artifacts
unfolding artifact_gaps resolves
artifact_gaps-nil files req_id [] = refl
artifact_gaps-nil files req_id (a ∷ artifacts) = elim (Bool-cases (looks_like_path a)) [
  | inl path ↦ elim (Bool-cases (is_nil (verify_artifact_exists files a))) [
    | inl there ↦ rw (path, there) (artifact_gaps-nil files req_id artifacts)
    | inr missing ↦ rw (path, missing) refl
  ]
  | inr text ↦ rw text (artifact_gaps-nil files req_id artifacts)
]

traceability_gaps-nil :
    (files : Files) (rows : List TraceabilityRow)
    → is_empty (traceability_gaps files rows) ≡ all (is_traced files) rows
unfolding traceability_gaps
traceability_gaps-nil files [] = refl
traceability_gaps-nil files (row ∷ rows) = elim (Bool-cases (is_empty row.artifacts)) [
  | inl bare ↦ rw bare refl
  | inr full ↦
      let first = artifact_gaps files row.req_id row.artifacts in
      let rest = traceability_gaps files rows in
      rw (full, is_empty-append first rest, artifact_gaps-nil files row.req_id row.artifacts)
        (ap (λ b. all (resolves files) row.artifacts && b) (traceability_gaps-nil files rows))
]

traceability_exit-zero :
    (files : Files) (rows : List TraceabilityRow)
    → (traceability_exit files rows ≡ 0)
      ↔ ((is_empty rows ≡ false) × (all (is_traced files) rows ≡ true))
unfolding traceability_exit
traceability_exit-zero files [] =
    (λ e. absurd (ground (arith, e)), λ h. absurd (ground (arith, h.0)))
traceability_exit-zero files (row ∷ rows) =
    rw (traceability_gaps-nil files (row ∷ rows))
      (elim (Bool-cases (all (is_traced files) (row ∷ rows))) [
        | inl traced ↦ rw traced (λ e. (refl, refl), λ h. refl)
        | inr not_traced ↦
            rw not_traced (λ e. absurd (ground (arith, e)), λ h. absurd (ground (arith, h.1)))
      ])

-- The check passes exactly if the matrix can be read and has rows, each row has artifacts, and those
-- of them that look like paths pass `verifyArtifactExists`. The evidence of a row is not asked for.
pub run_traceability_check_iff :
    (files : Files) (matrix_path : Text)
    → let rows = parse_traceability_matrix (files.read_file matrix_path).0 in
      (run_traceability_check files matrix_path ≡ 0) ↔ (
        (is_nil (files.read_file matrix_path).1 ≡ true)
        × (is_empty rows ≡ false)
        × (all (is_traced files) rows ≡ true))
unfolding run_traceability_check
run_traceability_check_iff files matrix_path =
    let rows = parse_traceability_matrix (files.read_file matrix_path).0 in
    let checked = traceability_exit-zero files rows in
    elim (Bool-cases (is_nil (files.read_file matrix_path).1)) [
      | inl read ↦
          rw read (λ e. (refl, (checked.0 e).0, (checked.0 e).1), λ h. checked.1 (h.1, h.2))
      | inr failed ↦ rw failed (λ e. absurd (ground (arith, e)), λ h. absurd (ground (arith, h.0)))
    ]
