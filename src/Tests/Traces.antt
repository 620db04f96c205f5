-- ===== src/Tests/Traces.antt =====
-- The traceability check at a concrete matrix.
use natsx.Base.{true, false, [], ◌≡◌, ◌↔◌, all, is_empty}
use natsx.Base.Text.{codes}
use natsx.Errors.{nil, is_nil}
use natsx.Traceability.{parse_traceability_matrix}
use natsx.Traceability.Artifacts.{Files, is_file, run_traceability_check}
use natsx.Traceability.Passing.{is_traced, run_traceability_check_iff}

abbrev files : Files
files = record {
  is_git_ignored = λ path. false;
  stat = λ path. is_file;
  glob = λ pattern. ([], nil);
  read_file = λ path. (codes "| REQ-1 | s | go.mod; note | ev | o |\n", nil);
}

run_traceability_check_iff_example : (run_traceability_check files (codes "m.md") ≡ 0) ↔ (
    (is_nil (files.read_file (codes "m.md")).1 ≡ true)
    × (is_empty (parse_traceability_matrix (files.read_file (codes "m.md")).0) ≡ false)
    × (all (is_traced files) (parse_traceability_matrix (files.read_file (codes "m.md")).0) ≡ true))
run_traceability_check_iff_example = run_traceability_check_iff files (codes "m.md")
