-- ===== src/Debt/Gate.antt =====
-- The exit code of internal/debtcheck/debtcheck.go in terms of the findings.
use natsx.Base.{ℕ, true, ◌+◌, ◌*◌, ◌≤◌, ◌≡◌, refl, ◌↔◌, arith, length, text_eq}
use natsx.Base.Text.{Text, codes}
use natsx.Errors.{ok}
use natsx.Debt.Tree.{Disk}
use natsx.Debt.{
  run, run_normal, make_report, exit_code, section_reports, selected_sections, is_mode, is_section,
  validate_mode, validate_section,
}
use natsx.Debt.Counts.{Summary, Options, Report, add_up, score, status, normalize}
use natsx.Debt.Counting.{tally, all_findings, add_up-section_reports}

abbrev pub enforce : Text
enforce = codes "enforce"

pub min_score-normalize : (opts : Options) → 1 ≤ (normalize opts).min_score
unfolding normalize
min_score-normalize opts = ground arith

-- In the mode that enforces, a status passes exactly if there is no P0 and the score is enough.
status-enforce :
    (s : Summary) (n min : ℕ)
    → (text_eq (status s n min enforce) (codes "passed") ≡ true) ↔ ((s.p0 ≡ 0) × (min ≤ n))
unfolding status
status-enforce s n min = ground arith

pub exit_code-enforce :
    (r : Report) → r.mode ≡ enforce → (exit_code r ≡ 0) ↔ (text_eq r.status (codes "passed") ≡ true)
unfolding exit_code
exit_code-enforce r h = rw h (ground arith)

-- What a run that returns a report returns.
pub run-ok :
    (d : Disk) (marshal : Report → Text) (opts : Options) (report : Report)
    → run d marshal opts ≡ ok report
    → (report ≡ make_report d marshal (normalize opts))
      × (is_mode (normalize opts).mode ≡ true)
      × (is_section (normalize opts).section ≡ true)
unfolding run run_normal validate_mode validate_section
run-ok d marshal opts report h = ground (arith, h)

score_enough :
    (s : Summary) (min : ℕ)
    → 1 ≤ min
    → (min ≤ score s) ↔ (10 * s.p1 + 5 * s.p2 + 100 * s.p0 + min ≤ 1000)
unfolding score
score_enough s min h = ground arith

score-make_report :
    (d : Disk) (marshal : Report → Text) (opts : Options)
    → (text_eq (make_report d marshal opts).status (codes "passed"))
      ≡ text_eq
          (status
            (add_up (make_report d marshal opts).sections)
            (score (add_up (make_report d marshal opts).sections))
            opts.min_score
            opts.mode)
          (codes "passed")
unfolding make_report
score-make_report d marshal opts = refl

-- The gate on a report that is made in the mode that enforces, by its sums.
gate_by_sums :
    (d : Disk) (marshal : Report → Text) (opts : Options)
    → opts.mode ≡ enforce
    → let s = add_up (section_reports d opts (selected_sections opts.section)) in
      (exit_code (make_report d marshal opts) ≡ 0) ↔ ((s.p0 ≡ 0) × (opts.min_score ≤ score s))
unfolding make_report
gate_by_sums d marshal opts h =
    let s = add_up (section_reports d opts (selected_sections opts.section)) in
    let e : text_eq (status s (score s) opts.min_score opts.mode) (codes "passed")
        ≡ text_eq (status s (score s) opts.min_score enforce) (codes "passed") =
      rw h refl in
    ground (
      arith,
      e,
      exit_code-enforce (make_report d marshal opts) h,
      status-enforce s (score s) opts.min_score,
    )

-- A run that returns a report in the mode that enforces exits with 0 exactly if no finding is a P0
-- and the findings cost no more than the minimum leaves of 1000 hundredths: 5 each, and 5 more for
-- each P1.
pub exit_code-run :
    (d : Disk) (marshal : Report → Text) (opts : Options) (report : Report)
    → run d marshal opts ≡ ok report
    → report.mode ≡ enforce
    → (exit_code report ≡ 0) ↔ (
        (tally (codes "P0") (all_findings report.sections) ≡ 0)
        × (5 * length (all_findings report.sections)
              + 5 * tally (codes "P1") (all_findings report.sections)
              + report.min_score
            ≤ 1000))
unfolding make_report
exit_code-run d marshal opts report h m = rw ((run-ok d marshal opts report h).0) (
    let o = normalize opts in
    let sections = selected_sections o.section in
    let mode : o.mode ≡ enforce = rw ((run-ok d marshal opts report h).0) at m in
    ground (
      arith,
      gate_by_sums d marshal o mode,
      add_up-section_reports d o sections,
      score_enough (add_up (section_reports d o sections)) o.min_score (min_score-normalize opts),
    ))
