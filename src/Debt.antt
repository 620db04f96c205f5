-- ===== src/Debt.antt =====
-- internal/debtcheck/debtcheck.go: the options, the report, its counts, its score and its exit code.
-- A score is a number of hundredths, as it is rounded to two decimals; so is the minimum.
pub mod Walk
pub mod Scan
pub mod Downstream
pub mod Contract
pub mod Counts
pub mod Evidence
pub mod Markdown
pub mod Counting
pub mod Gate
pub mod Runs
pub mod Accepted
pub mod Reached
pub mod Scans
pub mod Secrets
pub mod Yaml
pub mod Tree
use natsx.Base.{
  ℕ, Bool, true, false, ◌&&◌, ◌||◌, not, List, [], ◌∷◌, ◌++◌, Option, none, some, ◌+◌, is_empty,
  any, text_eq, ltb, ◌==◌, if◌then◌else◌,
}
use natsx.Base.Text.{Text, codes}
use natsx.Errors.{Error, nil, foreign, unnamed, Result, ok, fail, is_nil}
use natsx.Debt.Tree.{Disk, Finding}
use natsx.Debt.Scan.{
  finding_of, scan_go_imports, scan_text_marker, scan_dependency_debt, scan_security_debt,
}
use natsx.Debt.Contract.{scan_downstream_debt}
use natsx.Debt.Counts.{
  Options, Report, Digests, Summary, SectionReport, schema_version, normalize, build_section,
  add_up, score, status,
}

unfoldable pub all_sections : List Text
all_sections =
    codes "architecture"
    ∷ codes "domain"
    ∷ codes "docs"
    ∷ codes "dependency"
    ∷ codes "testing"
    ∷ codes "implementation"
    ∷ codes "security"
    ∷ codes "downstream"
    ∷ []

unfoldable pub selected_sections : Text → List Text
selected_sections section =
    if not (text_eq section (codes "all")) then section ∷ [] else all_sections

-- `%q` prints the text in quotes, here without escapes.
abbrev quoted : Text → Text
quoted t = codes "\"" ++ t ++ codes "\""

unfoldable pub is_mode : Text → Bool
is_mode mode = any (text_eq mode) (codes "enforce" ∷ codes "warn" ∷ codes "observe" ∷ [])

unfoldable pub is_section : Text → Bool
is_section section = any (text_eq section) (codes "all" ∷ all_sections)

unfoldable pub validate_mode : Text → Error
validate_mode mode =
    if is_mode mode
    then nil
    else foreign unnamed (codes "unsupported debt mode " ++ quoted mode) nil

unfoldable pub validate_section : Text → Error
validate_section section =
    if is_section section
    then nil
    else foreign unnamed (codes "unsupported debt section " ++ quoted section) nil

unfoldable pub missing_file : Disk → Text → Text → Text → List Finding
missing_file d root id path =
    if d.exists (d.join root path)
    then []
    else finding_of id (codes "P0") path (codes "required debt governance policy file is missing")
      ∷ []

unfoldable pub missing_policy_findings : Disk → Options → List Finding
missing_policy_findings d opts =
    missing_file d opts.root (codes "debt.rules.missing") opts.config_path
    ++ (missing_file d opts.root (codes "debt.registry.missing") opts.registry_path
        ++ (missing_file d opts.root (codes "debt.exceptions.missing") opts.exceptions_path
            ++ missing_file d opts.root (codes "debt.dependency-purpose.missing")
                opts.dependency_purpose_path))

unfoldable pub scan_section : Disk → Text → Text → List Finding
scan_section d root section =
    if text_eq section (codes "architecture")
    then scan_go_imports d root
    else if text_eq section (codes "domain")
    then scan_text_marker d root (codes "xlib-domain-forbidden") (codes "debt.domain.marker")
        (codes "domain debt marker is present")
    else if text_eq section (codes "docs")
    then scan_text_marker d root (codes "xlib-docs-drift") (codes "debt.docs.marker")
        (codes "documentation drift marker is present")
    else if text_eq section (codes "dependency")
    then scan_dependency_debt d root
    else if text_eq section (codes "testing")
    then scan_text_marker d root (codes "xlib-testing-debt") (codes "debt.testing.marker")
        (codes "testing debt marker is present")
    else if text_eq section (codes "implementation")
    then scan_text_marker d root (codes "xlib-implementation-debt")
        (codes "debt.implementation.marker") (codes "implementation debt marker is present")
    else if text_eq section (codes "security")
    then scan_security_debt d root
    else if text_eq section (codes "downstream")
    then scan_downstream_debt d root
    else []

unfoldable pub digest_file : Disk → Text → Text → Text
digest_file d root path = elim (d.read_file (d.join root path)) [
  | none ↦ codes "missing"
  | some text ↦ d.sha256 text
]

-- The loop over the sections.
unfoldable pub section_reports : Disk → Options → List Text → List SectionReport
section_reports d opts [] = []
section_reports d opts (section ∷ sections) =
    build_section section (missing_policy_findings d opts ++ scan_section d opts.root section)
    ∷ section_reports d opts sections

-- `encoding/json` on a report, whose text is then hashed.
unfoldable pub report_digest : Disk → (Report → Text) → Report → Text
report_digest d marshal report =
    d.sha256 (marshal (record report { digests = record report.digests { report = [] } }))

-- The report, once the options have been found to be valid.
unfoldable pub make_report : Disk → (Report → Text) → Options → Report
make_report d marshal opts =
    let sections = section_reports d opts (selected_sections opts.section) in
    let summary = add_up sections in
    let report : Report = record {
      schema_version = schema_version;
      status = status summary (score summary) opts.min_score opts.mode;
      mode = opts.mode;
      active_profile = codes "xlib-standard-debt-v1";
      score = score summary;
      min_score = opts.min_score;
      digests = record {
        rules = digest_file d opts.root opts.config_path;
        rule_registry = digest_file d opts.root opts.registry_path;
        exceptions = digest_file d opts.root opts.exceptions_path;
        dependency_purpose = digest_file d opts.root opts.dependency_purpose_path;
        report = [];
      };
      summary = summary;
      sections = sections;
    } in
    record report { digests = record report.digests { report = report_digest d marshal report } }

unfoldable pub run_normal : Disk → (Report → Text) → Options → Result Report
unfolding validate_mode validate_section
run_normal d marshal opts =
    if not (is_nil (validate_mode opts.mode))
    then fail (validate_mode opts.mode)
    else if not (is_nil (validate_section opts.section))
    then fail (validate_section opts.section)
    else ok (make_report d marshal opts)

-- `Run`
unfoldable pub run : Disk → (Report → Text) → Options → Result Report
unfolding run_normal
run d marshal opts = run_normal d marshal (normalize opts)

unfoldable pub exit_code : Report → ℕ
exit_code report =
    if text_eq report.mode (codes "observe") || text_eq report.mode (codes "warn")
    then 0
    else if not (text_eq report.status (codes "passed"))
    then 1
    else 0
