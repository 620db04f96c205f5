-- ===== src/Debt/Accepted.antt =====
-- When the evidence of a run of internal/debtcheck/debtcheck.go is accepted.
use natsx.Base.{
  ℕ, Bool, true, false, not, List, [], ◌∷◌, ◌++◌, ◌≤◌, ◌≡◌, refl, ap, ◌∙◌, ◌↔◌, arith, length, All,
  text_eq, ◌==◌,
}
use natsx.Base.Text.{Text, codes}
use natsx.Base.Decimal.{format_nat}
use natsx.Errors.{ok}
use natsx.Debt.Tree.{Disk, Finding}
use natsx.Debt.{
  run, make_report, section_reports, selected_sections, missing_policy_findings, scan_section,
}
use natsx.Debt.Counts.{
  Summary, SectionReport, Options, Report, add_up, score, status, normalize, build_section,
  section_status, count_findings, schema_version, manifest_schema,
}
use natsx.Debt.Counting.{total, total-count_findings, all_findings, add_up-section_reports}
use natsx.Debt.Evidence.{
  Evidence, section_evidence, evidence_from_report, problem_if, section_problems, validate_evidence,
}
use natsx.Debt.Gate.{run-ok}

-- No section has a finding.
abbrev pub IsClean : List SectionReport → Type 0
IsClean = All (λ s. s.findings ≡ [])

problem_if-append :
    (b : Bool) (problem : Text) (problems : List Text)
    → (problem_if b problem ++ problems ≡ []) ↔ ((b ≡ false) × (problems ≡ []))
problem_if-append true problem problems = ground arith
problem_if-append false problem problems = ground arith

section_status-passed :
    (s : Summary) → (text_eq (section_status s) (codes "passed") ≡ true) ↔ (total s ≡ 0)
unfolding section_status
section_status-passed s = ground arith

count_findings-passed :
    (fs : List Finding)
    → ((((count_findings fs).p0 == 0) ≡ true)
        × (text_eq (section_status (count_findings fs)) (codes "passed") ≡ true))
      ↔ (fs ≡ [])
count_findings-passed [] =
    ground (arith, section_status-passed (count_findings []), total-count_findings [])
count_findings-passed (f ∷ fs) =
    let counts = count_findings (f ∷ fs) in
    ground (arith, section_status-passed counts, total-count_findings (f ∷ fs))

-- The evidence on the sections of a report has no problem exactly if they are clean.
section_problems-nil :
    (d : Disk) (opts : Options) (sections : List Text)
    → let ss = section_reports d opts sections in
      (section_problems (section_evidence ss) ≡ []) ↔ IsClean ss
unfolding section_problems section_evidence section_reports build_section
section_problems-nil d opts [] = ground arith
section_problems-nil d opts (s ∷ ss) =
    let fs = missing_policy_findings d opts ++ scan_section d opts.root s in
    let r = build_section s fs in
    let below = section_problems (section_evidence (section_reports d opts ss)) in
    let status_is = not (text_eq r.status (codes "passed")) in
    let status_text = codes "debt section " ++ s ++ codes " status is " ++ r.status in
    ground (
      arith,
      count_findings-passed fs,
      section_problems-nil d opts ss,
      problem_if-append (not (r.p0 == 0))
          (codes "debt section " ++ s ++ codes " has " ++ format_nat r.p0 ++ codes " P0 findings")
          (problem_if status_is status_text ++ below),
      problem_if-append status_is status_text below,
    )

clean-all_findings : (ss : List SectionReport) → IsClean ss → all_findings ss ≡ []
clean-all_findings [] h = refl
clean-all_findings (s ∷ ss) h = rw (h.0) (clean-all_findings ss h.1)

-- Without a finding the score is 10, and the status is that of the comparison with the minimum.
status-clean :
    (s : Summary) (min : ℕ) (mode : Text)
    → total s ≡ 0
    → (score s ≡ 1000)
      × ((text_eq (status s (score s) min mode) (codes "passed") ≡ true) ↔ (min ≤ 1000))
unfolding score status
status-clean s min mode h = ground (arith, h)

validate_evidence_iff :
    (e : Evidence) (min : ℕ)
    → (validate_evidence e min ≡ []) ↔ (
        (text_eq e.schema_version manifest_schema ≡ true)
        × (text_eq e.report_schema_version schema_version ≡ true)
        × (text_eq e.status (codes "passed") ≡ true)
        × (min ≤ e.score)
        × (section_problems e.sections ≡ []))
unfolding validate_evidence
validate_evidence_iff e min = grind (arith, problem_if-append)

-- The evidence of a run that returns a report is accepted exactly if no section has a finding and
-- neither the minimum of the run nor the one asked for is above 10.
pub validate_evidence-run :
    (d : Disk) (marshal : Report → Text) (opts : Options) (report : Report) (min_score : ℕ)
    → run d marshal opts ≡ ok report
    → (validate_evidence (evidence_from_report report) min_score ≡ [])
      ↔ (IsClean report.sections × (report.min_score ≤ 1000) × (min_score ≤ 1000))
unfolding evidence_from_report make_report
validate_evidence-run d marshal opts report min_score h = rw ((run-ok d marshal opts report h).0) (
    let o = normalize opts in
    let sections = selected_sections o.section in
    let ss = section_reports d o sections in
    let s = add_up ss in
    let no_findings : IsClean ss → total s ≡ 0 =
      λ clean. (add_up-section_reports d o sections).2 ∙ ap length (clean-all_findings ss clean) in
    ground (
      arith,
      validate_evidence_iff (evidence_from_report (make_report d marshal o)) min_score,
      section_problems-nil d o sections,
      no_findings,
      status-clean s o.min_score o.mode,
    ))
