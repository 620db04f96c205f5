-- ===== src/Tests/Goals.antt =====
-- The ledger of the goal runtime at concrete inputs.
use natsx.Base.{
  ◌⊎◌, lookup, true, false, List, [], ◌∷◌, ◌++◌, Option, none, some, ◌≡◌, refl, ◌↔◌, All,
}
use natsx.Base.Text.{Text, codes, trim_space, split, join}
use natsx.Errors.{Error, nil, is_nil, foreign, unnamed, ok}
use natsx.GoalRuntime.Data.{command_gates, Files, ReadsBack, Report, LedgerEntry, newline}
use natsx.GoalRuntime.Ledger.{
  read_lines, read_ledger_entries, upsert_ledger_entry, updated, kept_lines,
}
use natsx.GoalRuntime.Evidence.{
  is_known, is_final, is_passed, ledger_entry_for_report, write_evidence,
}
use natsx.GoalRuntime.Upsert.{others, read-upsert}
use natsx.GoalRuntime.Prerequisites.{IsMet}
use natsx.GoalRuntime.Evaluation.{
  Options, evaluate, evaluate_with, required_authority_paths, is_standard_source_root,
}
use natsx.GoalRuntime.Passing.{Prepared, evaluate_iff}
use natsx.Tests.Encoding.{sample_json, sample_json-Encodes}
use natsx.GoalRuntime.Writing.{write_evidence-IsMet}

-- A disk with one file: its text, or none.
abbrev content_of : Option Text → Text × Error
content_of none = ([], foreign unnamed (codes "no such file") nil)
content_of (some content) = (content, nil)

abbrev disk : Files
disk = record {
  World = Option Text;
  join = λ root path. root ++ codes "/" ++ path;
  dir = λ path. path;
  exists = λ path w. true;
  mkdir_all = λ path w. (nil, w);
  read_file = λ path w. content_of w;
  is_not_exist = λ err. true;
  write_file = λ path content w. (nil, some content);
}

disk-ReadsBack : ReadsBack disk
disk-ReadsBack = record { read-write = λ path content w h. refl }

abbrev goal : Text
goal = codes "G1"

abbrev entry_of : Text → Text → LedgerEntry
entry_of command status = record {
  schema_version = codes "goalcli-mva/v1";
  goal_id = goal;
  command = command;
  status = status;
  mva_status = codes "complete";
  blocking = true;
  evidence_pack_path = codes "p.json";
}

abbrev failed_delivery : LedgerEntry
failed_delivery = entry_of (codes "goal-delivery") (codes "failed")

abbrev passed_delivery : LedgerEntry
passed_delivery = entry_of (codes "goal-delivery") (codes "passed")

-- A ledger of one line.
abbrev one_line : LedgerEntry → Option Text
one_line e = some ((sample_json.marshal e).0 ++ newline ∷ [])

ledgers : Unit {0}
unfolding read_ledger_entries read_lines split trim_space join upsert_ledger_entry updated
    kept_lines others write_evidence ledger_entry_for_report is_known is_final is_passed
ledgers = tt

read_test :
    read_ledger_entries sample_json disk (codes "l") (one_line failed_delivery)
    ≡ ok (failed_delivery ∷ [])
unfolding ledgers
read_test = refl

upsert_test :
    is_nil
      (upsert_ledger_entry sample_json disk
        (codes "l")
        passed_delivery
        (one_line failed_delivery)).0
    ≡ true
unfolding upsert_ledger_entry
upsert_test = refl

read-upsert_example :
    read_ledger_entries sample_json disk
      (codes "l")
      (upsert_ledger_entry sample_json disk
        (codes "l")
        passed_delivery
        (one_line failed_delivery)).1
    ≡ ok (others passed_delivery (failed_delivery ∷ []) ++ passed_delivery ∷ [])
read-upsert_example =
    read-upsert sample_json sample_json-Encodes disk disk-ReadsBack (codes "l") passed_delivery
      (one_line failed_delivery) (failed_delivery ∷ []) read_test upsert_test

abbrev final : Text
final = codes "goal-runtime-final"

abbrev options : Options
options = record { goal_id = goal; mode = []; root = [] }

-- On a disk where all paths are there, with a ledger of one entry that failed.
abbrev final_report : Report
final_report =
    evaluate_with sample_json disk final (codes "G12_G16_FINAL") goal (codes "FULL") (codes ".")
      (one_line failed_delivery)

evaluate_test : evaluate sample_json disk final options (one_line failed_delivery) ≡ ok final_report
unfolding evaluate command_gates lookup trim_space
evaluate_test = refl

evaluate_iff_example : (is_passed final_report ≡ true) ↔ (
    All
      (λ (path : Text). true ≡ true)
      (required_authority_paths
        (is_standard_source_root sample_json disk (codes ".") (one_line failed_delivery)))
    × ((is_final final ≡ false)
        ⊎ Prepared sample_json disk (codes ".") goal (one_line failed_delivery)))
unfolding trim_space
evaluate_iff_example =
    evaluate_iff sample_json disk final options (one_line failed_delivery) final_report
      evaluate_test

abbrev delivery : Text → Text → Report
delivery command status = record {
  schema_version = codes "goalcli-mva/v1";
  command = command;
  status = status;
  goal_id = goal;
  gate = codes "G13";
  mode = codes "FULL";
  executor = codes "goalcli";
  control_plane = codes "Harness Runtime";
  blocking = true;
  mva_status = codes "complete";
  ledger_path = codes "l";
  evidence_pack_path = codes "p.json";
  gates = [];
  details = [];
  evidence = [];
  authority_paths = [];
  gaps = [];
}

written_test :
    is_nil
      (write_evidence sample_json disk []
        (delivery (codes "goal-delivery") (codes "passed"))
        (one_line failed_delivery)).0
    ≡ true
unfolding ledgers
written_test = refl

final_test : is_final (codes "goal-delivery") ≡ false
unfolding ledgers
final_test = refl

read_default_test :
    read_ledger_entries sample_json disk (codes "./l") (one_line failed_delivery)
    ≡ ok (failed_delivery ∷ [])
unfolding ledgers
read_default_test = refl

write_evidence-IsMet_example :
    (fs : List LedgerEntry) × (read_ledger_entries sample_json disk
        (codes "./l")
        (write_evidence sample_json disk []
          (delivery (codes "goal-delivery") (codes "passed"))
          (one_line failed_delivery)).1
      ≡ ok fs)
    × IsMet goal fs (codes "goal-delivery")
write_evidence-IsMet_example =
    write_evidence-IsMet sample_json disk sample_json-Encodes disk-ReadsBack []
      (delivery (codes "goal-delivery") (codes "passed")) (one_line failed_delivery)
      (failed_delivery ∷ []) final_test read_default_test written_test
