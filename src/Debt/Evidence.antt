-- ===== src/Debt/Evidence.antt =====
-- The evidence of internal/debtcheck/debtcheck.go: a summary of a report, and what is asked of it.
use natsx.Base.{ℕ, Bool, true, false, not, List, [], ◌∷◌, ◌++◌, ◌/◌, ◌%◌, text_eq, ltb, ◌==◌}
use natsx.Base.Text.{Text, codes}
use natsx.Base.Decimal.{format_nat}
use natsx.Debt.Counts.{Report, SectionReport, Digests, schema_version, manifest_schema}

pub record SectionEvidence : Type 0 where
  pub name : Text
  pub status : Text
  pub p0 : ℕ
  pub p1 : ℕ
  pub p2 : ℕ

pub record Evidence : Type 0 where
  pub schema_version : Text
  pub report_schema_version : Text
  pub status : Text
  pub score : ℕ
  pub min_score : ℕ
  pub mode : Text
  pub active_profile : Text
  pub digests : Digests
  pub sections : List SectionEvidence

unfoldable pub section_evidence : List SectionReport → List SectionEvidence
section_evidence [] = []
section_evidence (s ∷ ss) =
    record { name = s.name; status = s.status; p0 = s.p0; p1 = s.p1; p2 = s.p2 }
    ∷ section_evidence ss

unfoldable pub evidence_from_report : Report → Evidence
unfolding section_evidence
evidence_from_report report = record {
  schema_version = manifest_schema;
  report_schema_version = report.schema_version;
  status = report.status;
  score = report.score;
  min_score = report.min_score;
  mode = report.mode;
  active_profile = report.active_profile;
  digests = report.digests;
  sections = section_evidence report.sections;
}

-- `%.2f` of a number of hundredths
unfoldable pub show_hundredths : ℕ → Text
show_hundredths n =
    format_nat (n / 100) ++ codes "." ++ format_nat (n % 100 / 10) ++ format_nat (n % 10)

abbrev pub problem_if : Bool → Text → List Text
problem_if true problem = problem ∷ []
problem_if false problem = []

unfoldable pub section_problems : List SectionEvidence → List Text
section_problems [] = []
section_problems (s ∷ ss) =
    problem_if (not (s.p0 == 0))
      (codes "debt section " ++ s.name ++ codes " has " ++ format_nat s.p0 ++ codes " P0 findings")
    ++ (problem_if (not (text_eq s.status (codes "passed")))
          (codes "debt section " ++ s.name ++ codes " status is " ++ s.status)
        ++ section_problems ss)

unfoldable pub validate_evidence : Evidence → ℕ → List Text
unfolding section_problems
validate_evidence e min_score =
    problem_if (not (text_eq e.schema_version manifest_schema))
      (codes "debt schema version mismatch")
    ++ (problem_if (not (text_eq e.report_schema_version schema_version))
          (codes "debt report schema version mismatch")
        ++ (problem_if (not (text_eq e.status (codes "passed")))
              (codes "debt status is " ++ e.status)
            ++ (problem_if (ltb e.score min_score) (
                  codes "debt score "
                  ++ show_hundredths e.score
                  ++ codes " below "
                  ++ show_hundredths min_score)
                ++ section_problems e.sections)))
