-- ===== src/GoalRuntime/Evidence.antt =====
-- The gates of a command, and `WriteEvidence` of internal/goalruntime/goalruntime.go.
use natsx.Base.{
  Bool, true, false, ◌&&◌, not, List, [], ◌∷◌, ◌++◌, Option, none, some, lookup, text_eq, is_empty,
  if◌then◌else◌, map,
}
use natsx.Base.Text.{Text, codes}
use natsx.Errors.{Error, nil, is_nil, foreign, unnamed, show_bool}
use natsx.GoalRuntime.Data.{
  Files, Json, LedgerEntry, Report, GateReport, newline, command_gates, command_harness_gates,
  final_prerequisite_commands, final_runtime_command,
}
use natsx.GoalRuntime.Ledger.{wrapped, upsert_ledger_entry, validate_final_prerequisites}

unfoldable pub is_known : Text → Bool
unfolding lookup command_gates
is_known command = elim (lookup command command_gates) [ none ↦ false | some _ ↦ true ]

unfoldable pub is_final : Text → Bool
is_final command = text_eq command final_runtime_command

abbrev text_or_empty : Option Text → Text
text_or_empty none = []
text_or_empty (some t) = t

abbrev gate_report : Text → GateReport
gate_report command = record {
  id = text_or_empty (lookup command command_harness_gates);
  command = command;
  status = codes "passed";
  blocking = true;
}

-- `gatesForCommand`
unfoldable pub gates_for_command : Text → List GateReport
unfolding lookup command_harness_gates
gates_for_command command =
    map gate_report (if is_final command then final_prerequisite_commands else command ∷ [])

-- `ledgerEntryForReport`
unfoldable pub ledger_entry_for_report : Report → LedgerEntry
ledger_entry_for_report r = record {
  schema_version = r.schema_version;
  goal_id = r.goal_id;
  command = r.command;
  status = r.status;
  mva_status = r.mva_status;
  blocking = r.blocking;
  evidence_pack_path = r.evidence_pack_path;
}

unfoldable pub is_passed : Report → Bool
is_passed r =
    text_eq r.status (codes "passed") && text_eq r.mva_status (codes "complete") && r.blocking

abbrev pub unsupported : Text → Error
unsupported command =
    foreign unnamed (codes "evidence write is not supported for command " ++ command) nil

abbrev pub incomplete : Report → Error
incomplete r =
    foreign unnamed
      (codes "refuse to write incomplete goalcli evidence: status="
        ++ r.status
        ++ codes " mva_status="
        ++ r.mva_status
        ++ codes " blocking="
        ++ show_bool r.blocking)
      nil

-- `strings.Join(gaps, "; ")`
abbrev pub join_gaps : List Text → Text
join_gaps [] = []
join_gaps (g ∷ []) = g
join_gaps (g ∷ h ∷ gs) = g ++ codes "; " ++ join_gaps (h ∷ gs)

abbrev pub root_or_dot : Text → Text
root_or_dot root = if is_empty root then codes "." else root

module _ (json : Json) (files : Files) where
  -- The evidence pack of a final report.
  unfoldable pub write_pack : Text → Report → files.World → Error × files.World
  write_pack root r w =
      let path = files.join root r.evidence_pack_path in
      let (made, w1) = files.mkdir_all (files.dir path) w in
      let (pack, bad) = json.marshal_indent r in
      let (written, w2) = files.write_file path (pack ++ newline ∷ []) w1 in
      if not (is_nil made)
      then (wrapped (codes "create evidence pack directory: ") made, w1)
      else if not (is_nil bad)
      then (wrapped (codes "marshal evidence pack: ") bad, w1)
      else if not (is_nil written)
      then (
        wrapped (codes "write evidence pack " ++ r.evidence_pack_path ++ codes ": ") written,
        w2,
      )
      else (nil, w2)

  unfoldable pub write_evidence : Text → Report → files.World → Error × files.World
  write_evidence root r w =
      let top = root_or_dot root in
      let record_entry =
        upsert_ledger_entry json files (files.join top r.ledger_path) (ledger_entry_for_report r) in
      let gaps = validate_final_prerequisites json files top r.goal_id w in
      let (err, w1) = write_pack top r w in
      if not (is_known r.command)
      then (unsupported r.command, w)
      else if not (is_passed r)
      then (incomplete r, w)
      else if not (is_final r.command)
      then record_entry w
      else if not (is_empty gaps)
      then (
        foreign unnamed
            (codes "refuse to write final goalcli evidence before prerequisites: "
              ++ join_gaps gaps)
            nil,
        w,
      )
      else if not (is_nil err)
      then (err, w1)
      else record_entry w1
