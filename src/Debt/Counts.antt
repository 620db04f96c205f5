-- ===== src/Debt/Counts.antt =====
-- The options and the report of internal/debtcheck/debtcheck.go, with its counts, its score and its
-- status. A score is a number of hundredths, as it is rounded to two decimals; a minimum has no more.
use natsx.Base.{ℕ, ◌&&◌, ◌||◌, List, [], ◌∷◌, ◌+◌, ◌-◌, ◌*◌, text_eq, ltb, ◌==◌, if◌then◌else◌}
use natsx.Base.Text.{Text, codes}
use natsx.Debt.Tree.{Finding}

abbrev pub schema_version : Text
schema_version = codes "debt-report/v1"

abbrev pub manifest_schema : Text
manifest_schema = codes "debt-evidence/v1"

abbrev pub default_min_score : ℕ
default_min_score = 980

pub record Options : Type 0 where
  pub root : Text
  pub config_path : Text
  pub registry_path : Text
  pub exceptions_path : Text
  pub dependency_purpose_path : Text
  pub section : Text
  pub mode : Text
  pub min_score : ℕ

pub record Digests : Type 0 where
  pub rules : Text
  pub rule_registry : Text
  pub exceptions : Text
  pub dependency_purpose : Text
  pub report : Text

pub record Summary : Type 0 where
  pub p0 : ℕ
  pub p1 : ℕ
  pub p2 : ℕ

pub record SectionReport : Type 0 where
  pub name : Text
  pub status : Text
  pub p0 : ℕ
  pub p1 : ℕ
  pub p2 : ℕ
  pub findings : List Finding

pub record Report : Type 0 where
  pub schema_version : Text
  pub status : Text
  pub mode : Text
  pub active_profile : Text
  pub score : ℕ
  pub min_score : ℕ
  pub digests : Digests
  pub summary : Summary
  pub sections : List SectionReport

abbrev or_default : Text → Text → Text
or_default [] value = value
or_default (c ∷ s) value = c ∷ s

unfoldable pub normalize : Options → Options
normalize opts = record {
  root = or_default opts.root (codes ".");
  config_path = or_default opts.config_path (codes ".agent/debt/rules.yaml");
  registry_path = or_default opts.registry_path (codes ".agent/debt/rule-registry.yaml");
  exceptions_path = or_default opts.exceptions_path (codes ".agent/debt/exceptions.yaml");
  dependency_purpose_path =
      or_default opts.dependency_purpose_path (codes ".agent/debt/dependency-purpose.yaml");
  section = or_default opts.section (codes "all");
  mode = or_default opts.mode (codes "enforce");
  min_score = if opts.min_score == 0 then default_min_score else opts.min_score;
}

-- One round of the count of `buildSection`.
unfoldable pub count_finding : Finding → Summary → Summary
count_finding finding counts =
    if text_eq finding.severity (codes "P0")
    then record counts { p0 = 1 + counts.p0 }
    else if text_eq finding.severity (codes "P1")
    then record counts { p1 = 1 + counts.p1 }
    else record counts { p2 = 1 + counts.p2 }

unfoldable pub count_findings : List Finding → Summary
unfolding count_finding
count_findings [] = record { p0 = 0; p1 = 0; p2 = 0 }
count_findings (f ∷ fs) = count_finding f (count_findings fs)

unfoldable pub section_status : Summary → Text
section_status counts =
    if counts.p0 == 0 && counts.p1 == 0 && counts.p2 == 0
    then codes "passed"
    else if counts.p0 == 0
    then codes "warning"
    else codes "failed"

unfoldable pub build_section : Text → List Finding → SectionReport
unfolding count_findings section_status
build_section name findings =
    let counts = count_findings findings in
    record {
      name = name;
      status = section_status counts;
      p0 = counts.p0;
      p1 = counts.p1;
      p2 = counts.p2;
      findings = findings;
    }

-- The sums of the sections' counts.
unfoldable pub add_up : List SectionReport → Summary
add_up [] = record { p0 = 0; p1 = 0; p2 = 0 }
add_up (s ∷ ss) =
    let rest = add_up ss in record { p0 = s.p0 + rest.p0; p1 = s.p1 + rest.p1; p2 = s.p2 + rest.p2 }

-- 10 less a tenth per P1 and a twentieth per P2, less 1 per P0, and not below 0.
unfoldable pub score : Summary → ℕ
score summary = 1000 - (10 * summary.p1 + 5 * summary.p2 + 100 * summary.p0)

unfoldable pub status : Summary → ℕ → ℕ → Text → Text
status summary score min_score mode =
    if ltb 0 summary.p0
    then codes "failed"
    else if ltb score min_score
    then (if text_eq mode (codes "observe") || text_eq mode (codes "warn")
        then codes "warning"
        else codes "failed")
    else if ltb 0 summary.p1 || ltb 0 summary.p2
    then (if text_eq mode (codes "enforce") then codes "passed" else codes "warning")
    else codes "passed"
