-- ===== src/Debt/Runs.antt =====
-- When `Run` of internal/debtcheck/debtcheck.go fails, and the policy files that it asks for.
use natsx.Base.{
  Bool, true, false, ◌&&◌, List, [], ◌∷◌, ◌++◌, ◌≤◌, ◌≡◌, refl, ◌↔◌, ◌⊎◌, inl, inr, arith, text_eq,
  Bool-cases,
}
use natsx.Base.Text.{Text, codes}
use natsx.Errors.{ok}
use natsx.Debt.Tree.{Disk}
use natsx.Debt.{
  run, run_normal, make_report, exit_code, section_reports, selected_sections, is_mode, is_section,
  all_sections, validate_mode, validate_section, missing_policy_findings, missing_file,
  scan_section,
}
use natsx.Debt.Counts.{Options, Report, normalize, build_section}
use natsx.Debt.Counting.{tally, tally-append, all_findings}
use natsx.Debt.Gate.{enforce, run-ok, exit_code-run}

-- Whether the four policy files are all there.
abbrev pub has_policy : Disk → Options → Bool
has_policy d opts =
    d.exists (d.join opts.root opts.config_path)
    && d.exists (d.join opts.root opts.registry_path)
    && d.exists (d.join opts.root opts.exceptions_path)
    && d.exists (d.join opts.root opts.dependency_purpose_path)

missing_policy-tally :
    (d : Disk) (opts : Options)
    → has_policy d opts ≡ false
    → 1 ≤ tally (codes "P0") (missing_policy_findings d opts)
unfolding missing_policy_findings missing_file
missing_policy-tally d opts h = ground (arith, h)

-- Every run reports on some section.
first_section :
    (d : Disk) (opts : Options)
    → (s : Text) × (ss : List Text) × (selected_sections opts.section ≡ s ∷ ss)
unfolding selected_sections all_sections
first_section d opts = elim (Bool-cases (text_eq opts.section (codes "all"))) [
  | inl h ↦ rw h (codes "architecture", _, refl)
  | inr h ↦ rw h (opts.section, [], refl)
]

section_reports-tally :
    (d : Disk) (opts : Options) (s : Text) (ss : List Text)
    → has_policy d opts ≡ false
    → 1 ≤ tally (codes "P0") (all_findings (section_reports d opts (s ∷ ss)))
unfolding section_reports build_section
section_reports-tally d opts s ss h =
    let fs = missing_policy_findings d opts in
    let gs = scan_section d opts.root s in
    let hs = all_findings (section_reports d opts ss) in
    omega (
      arith,
      missing_policy-tally d opts h,
      tally-append (codes "P0") fs gs,
      tally-append (codes "P0") (fs ++ gs) hs,
    )

pub exit_code-cases : (r : Report) → (exit_code r ≡ 0) ⊎ (exit_code r ≡ 1)
unfolding exit_code
exit_code-cases r = ground arith

-- A run in the mode that enforces does not exit with 0 while a policy file is missing.
pub exit_code-missing :
    (d : Disk) (marshal : Report → Text) (opts : Options) (report : Report)
    → run d marshal opts ≡ ok report
    → report.mode ≡ enforce
    → has_policy d (normalize opts) ≡ false
    → exit_code report ≡ 1
unfolding make_report
exit_code-missing d marshal opts report h m missing =
    let o = normalize opts in
    let first = first_section d o in
    let p0 : 1 ≤ tally (codes "P0") (all_findings report.sections) =
      rw ((run-ok d marshal opts report h).0)
        (rw (first.2) (section_reports-tally d o first.0 first.1 missing)) in
    elim (exit_code-cases report) [
      | inl zero ↦ absurd (omega (arith, p0, ((exit_code-run d marshal opts report h m).0 zero).0))
      | inr one ↦ one
    ]

-- `Run` returns a report exactly if the mode and the section, with their defaults, are known ones.
pub run_ok_iff :
    (d : Disk) (marshal : Report → Text) (opts : Options)
    → ((report : Report) × (run d marshal opts ≡ ok report))
      ↔ ((is_mode (normalize opts).mode ≡ true) × (is_section (normalize opts).section ≡ true))
unfolding run run_normal validate_mode validate_section
run_ok_iff d marshal opts = (
  λ h. ((run-ok d marshal opts h.0 h.1).1, (run-ok d marshal opts h.0 h.1).2),
  λ h. (make_report d marshal (normalize opts), ground (arith, h)),
)
