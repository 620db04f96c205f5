-- ===== src/GoalRuntime/Ledger.antt =====
-- The ledger file: one JSON entry to a line.
use natsx.Base.{
  ℕ, pos, suc, Bool, ◌&&◌, not, List, [], ◌∷◌, ◌++◌, Option, none, some, lookup, put, text_eq,
  is_empty, if◌then◌else◌,
}
use natsx.Base.Text.{Text, codes, trim_space, split}
use natsx.Base.Decimal.{itoa}
use natsx.Errors.{Error, nil, is_nil, foreign, unnamed, error_text, Result, ok, fail}
use natsx.GoalRuntime.Data.{
  Files, Json, LedgerEntry, newline, source_ledger_path, final_prerequisite_commands,
}

-- `fmt.Errorf` with one `%w` at its end
abbrev pub wrapped : Text → Error → Error
wrapped text err = foreign unnamed (text ++ error_text err) err

abbrev pub consing : {A : Type 0} → A → Result (List A) → Result (List A)
consing e (ok es) = ok (e ∷ es)
consing e (fail err) = fail err

abbrev pub same_key : LedgerEntry → LedgerEntry → Bool
same_key a b =
    text_eq a.goal_id b.goal_id
    && text_eq a.command b.command
    && text_eq a.evidence_pack_path b.evidence_pack_path

module _ (json : Json) where
  -- The loop of `readLedgerEntries`, at line `i`.
  unfoldable pub read_lines : ℕ → List Text → Result (List LedgerEntry)
  read_lines i [] = ok []
  read_lines i (raw ∷ rest) =
      let entries = read_lines (suc i) rest in
      let line = trim_space raw in
      let (entry, err) = json.unmarshal line in
      if is_empty line
      then entries
      else if not (is_nil err)
      then fail
          (wrapped (codes "invalid ledger entry on line " ++ itoa (pos (suc i)) ++ codes ": ") err)
      else consing entry entries

  -- The loop of `upsertLedgerEntry`: the lines that stay, each with a line break.
  unfoldable pub kept_lines : LedgerEntry → List Text → Text
  kept_lines entry [] = []
  kept_lines entry (raw ∷ rest) =
      let next = kept_lines entry rest in
      let line = trim_space raw in
      let (existing, err) = json.unmarshal line in
      if is_empty line
      then next
      else if is_nil err && same_key existing entry
      then next
      else line ++ newline ∷ next

  -- The bytes that `upsertLedgerEntry` writes in place of a file.
  unfoldable pub updated : LedgerEntry → Text → Error → Text
  updated entry content err =
      let lines = if is_nil err then split content newline else [] in
      kept_lines entry lines ++ ((json.marshal entry).0 ++ newline ∷ [])

  module _ (files : Files) where
    unfoldable pub read_ledger_entries : Text → files.World → Result (List LedgerEntry)
    read_ledger_entries path w =
        let (content, err) = files.read_file path w in
        if not (is_nil err) then fail err else read_lines 0 (split content newline)

    unfoldable pub upsert_ledger_entry : Text → LedgerEntry → files.World → Error × files.World
    upsert_ledger_entry path entry w =
        let (made, w1) = files.mkdir_all (files.dir path) w in
        let (content, err) = files.read_file path w1 in
        let bad = (json.marshal entry).1 in
        let (written, w2) = files.write_file path (updated entry content err) w1 in
        if not (is_nil made)
        then (wrapped (codes "create evidence ledger directory: ") made, w1)
        else if not (is_nil err) && not (files.is_not_exist err)
        then (wrapped (codes "read evidence ledger: ") err, w1)
        else if not (is_nil bad)
        then (wrapped (codes "marshal evidence ledger entry: ") bad, w1)
        else if not (is_nil written)
        then (wrapped (codes "write evidence ledger: ") written, w2)
        else (nil, w2)

-- `byCommand`: of the entries of a goal, the last one of each command.
unfoldable pub by_command :
    Text → List LedgerEntry → List (Text × LedgerEntry) → List (Text × LedgerEntry)
unfolding put
by_command goal [] m = m
by_command goal (e ∷ es) m =
    if text_eq e.goal_id goal then by_command goal es (put e.command e m) else by_command goal es m

abbrev pub is_complete : LedgerEntry → Bool
is_complete e =
    text_eq e.status (codes "passed") && text_eq e.mva_status (codes "complete") && e.blocking

abbrev pub gap : Text → Text → Option LedgerEntry → List Text
gap goal command none =
    (codes "missing prerequisite evidence for goal_id " ++ goal ++ codes ": " ++ command) ∷ []
gap goal command (some e) =
    if is_complete e
    then []
    else (codes "incomplete prerequisite evidence for goal_id " ++ goal ++ codes ": " ++ command)
      ∷ []

unfoldable pub prerequisite_gaps : Text → List (Text × LedgerEntry) → List Text → List Text
unfolding lookup
prerequisite_gaps goal m [] = []
prerequisite_gaps goal m (command ∷ commands) =
    gap goal command (lookup command m) ++ prerequisite_gaps goal m commands

abbrev pub gaps_of : Text → Result (List LedgerEntry) → List Text
gaps_of goal (fail err) =
    (codes "missing prerequisite evidence ledger: "
      ++ source_ledger_path
      ++ codes " ("
      ++ error_text err
      ++ codes ")")
    ∷ []
gaps_of goal (ok entries) =
    prerequisite_gaps goal (by_command goal entries []) final_prerequisite_commands

-- `validateFinalPrerequisites`
unfoldable pub validate_final_prerequisites :
    (json : Json) (files : Files) → Text → Text → files.World → List Text
validate_final_prerequisites json files root goal w =
    gaps_of goal (read_ledger_entries json files (files.join root source_ledger_path) w)
