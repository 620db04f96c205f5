-- ===== src/Debt/Markdown.antt =====
-- `ToMarkdown` of internal/debtcheck/debtcheck.go: the report as a text.
use natsx.Base.{List, [], ◌∷◌, ◌++◌, is_empty, if◌then◌else◌}
use natsx.Base.Text.{Text, codes}
use natsx.Base.Decimal.{format_nat}
use natsx.Debt.Tree.{Finding}
use natsx.Debt.Counts.{Report, SectionReport}
use natsx.Debt.Evidence.{show_hundredths}

abbrev end_line : Text
end_line = codes "\n"

unfoldable pub finding_lines : List Finding → Text
finding_lines [] = []
finding_lines (f ∷ fs) =
    (codes "- ["
      ++ f.severity
      ++ codes "] "
      ++ f.id
      ++ codes " "
      ++ (if is_empty f.path then codes "policy" else f.path)
      ++ codes ": "
      ++ f.message
      ++ end_line)
    ++ finding_lines fs

unfoldable pub section_markdown : SectionReport → Text
unfolding finding_lines
section_markdown s =
    codes "### "
    ++ s.name
    ++ end_line
    ++ end_line
    ++ codes "Status: "
    ++ s.status
    ++ codes "; P0/P1/P2: "
    ++ format_nat s.p0
    ++ codes "/"
    ++ format_nat s.p1
    ++ codes "/"
    ++ format_nat s.p2
    ++ end_line
    ++ end_line
    ++ (if is_empty s.findings
        then codes "No findings.\n\n"
        else finding_lines s.findings ++ end_line)

unfoldable pub sections_markdown : List SectionReport → Text
unfolding section_markdown
sections_markdown [] = []
sections_markdown (s ∷ ss) = section_markdown s ++ sections_markdown ss

unfoldable pub to_markdown : Report → Text
unfolding sections_markdown
to_markdown report =
    codes "# Debt Governance Report\n\n- Status: "
    ++ report.status
    ++ codes "\n- Mode: "
    ++ report.mode
    ++ codes "\n- Score: "
    ++ show_hundredths report.score
    ++ codes " (minimum "
    ++ show_hundredths report.min_score
    ++ codes ")\n- Active profile: "
    ++ report.active_profile
    ++ codes "\n- P0/P1/P2: "
    ++ format_nat report.summary.p0
    ++ codes "/"
    ++ format_nat report.summary.p1
    ++ codes "/"
    ++ format_nat report.summary.p2
    ++ codes "\n\n## Sections\n\n"
    ++ sections_markdown report.sections
