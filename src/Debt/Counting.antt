-- ===== src/Debt/Counting.antt =====
-- The counts of internal/debtcheck/debtcheck.go: what a section's and a report's numbers are.
use natsx.Base.{
  ℕ, suc, List, [], ◌∷◌, ◌++◌, ◌+◌, ◌≡◌, refl, inl, inr, arith, length, length-append, text_eq,
  text_eq_iff, if◌then◌else◌, Bool-cases,
}
use natsx.Base.Text.{Text, codes}
use natsx.Debt.Tree.{Disk, Finding}
use natsx.Debt.{section_reports, missing_policy_findings, scan_section}
use natsx.Debt.Counts.{
  Summary, SectionReport, Options, count_finding, count_findings, build_section, add_up,
}

-- The number of findings of a severity.
abbrev pub tally : Text → List Finding → ℕ
tally severity [] = 0
tally severity (f ∷ fs) =
    if text_eq f.severity severity then suc (tally severity fs) else tally severity fs

abbrev pub total : Summary → ℕ
total s = s.p0 + s.p1 + s.p2

-- All findings of a report.
abbrev pub all_findings : List SectionReport → List Finding
all_findings [] = []
all_findings (s ∷ ss) = s.findings ++ all_findings ss

pub tally-append :
    (severity : Text) (fs gs : List Finding)
    → tally severity (fs ++ gs) ≡ tally severity fs + tally severity gs
tally-append severity [] gs = omega arith
tally-append severity (f ∷ fs) gs = ground (arith, tally-append severity fs gs)

total-count_finding : (f : Finding) (s : Summary) → total (count_finding f s) ≡ suc (total s)
unfolding count_finding
total-count_finding f s = elim (Bool-cases (text_eq f.severity (codes "P0"))) [
  | inl h ↦ rw h (omega arith)
  | inr h ↦ elim (Bool-cases (text_eq f.severity (codes "P1"))) [
    | inl k ↦ rw (h, k) (omega arith)
    | inr k ↦ rw (h, k) (omega arith)
  ]
]

pub total-count_findings : (fs : List Finding) → total (count_findings fs) ≡ length fs
unfolding count_findings
total-count_findings [] = refl
total-count_findings (f ∷ fs) =
    omega (arith, total-count_finding f (count_findings fs), total-count_findings fs)

pub p0-count_findings : (fs : List Finding) → (count_findings fs).p0 ≡ tally (codes "P0") fs
unfolding count_findings count_finding
p0-count_findings [] = refl
p0-count_findings (f ∷ fs) = elim (Bool-cases (text_eq f.severity (codes "P0"))) [
  | inl h ↦ rw h (omega (arith, p0-count_findings fs))
  | inr h ↦ elim (Bool-cases (text_eq f.severity (codes "P1"))) [
    | inl k ↦ rw (h, k) (p0-count_findings fs)
    | inr k ↦ rw (h, k) (p0-count_findings fs)
  ]
]

pub p1-count_findings : (fs : List Finding) → (count_findings fs).p1 ≡ tally (codes "P1") fs
unfolding count_findings count_finding
p1-count_findings [] = refl
p1-count_findings (f ∷ fs) = elim (Bool-cases (text_eq f.severity (codes "P0"))) [
  | inl h ↦ rw ((text_eq_iff f.severity (codes "P0")).0 h) (p1-count_findings fs)
  | inr h ↦ elim (Bool-cases (text_eq f.severity (codes "P1"))) [
    | inl k ↦ rw (h, k) (omega (arith, p1-count_findings fs))
    | inr k ↦ rw (h, k) (p1-count_findings fs)
  ]
]

-- The sums over the sections of a report are counts of its findings.
pub add_up-section_reports :
    (d : Disk) (opts : Options) (sections : List Text)
    → let ss = section_reports d opts sections in
      ((add_up ss).p0 ≡ tally (codes "P0") (all_findings ss))
      × ((add_up ss).p1 ≡ tally (codes "P1") (all_findings ss))
      × (total (add_up ss) ≡ length (all_findings ss))
unfolding section_reports add_up build_section
add_up-section_reports d opts [] = (refl, refl, refl)
add_up-section_reports d opts (s ∷ ss) =
    let fs = missing_policy_findings d opts ++ scan_section d opts.root s in
    let gs = all_findings (section_reports d opts ss) in
    let below = add_up-section_reports d opts ss in
    (
      omega (arith, below.0, p0-count_findings fs, tally-append (codes "P0") fs gs),
      omega (arith, below.1, p1-count_findings fs, tally-append (codes "P1") fs gs),
      omega (arith, below.2, total-count_findings fs, length-append fs gs),
    )
