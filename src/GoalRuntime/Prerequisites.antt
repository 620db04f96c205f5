-- ===== src/GoalRuntime/Prerequisites.antt =====
-- When the final report's prerequisites are met.
use natsx.Base.{
  true, ◌&&◌, List, [], ◌∷◌, Option, none, some, ◌≡◌, refl, sym, ◌↔◌, arith, is_empty,
  if◌then◌else◌, text_eq, lookup, put, lookup-put, All,
}
use mathlib.Core.Path.{subst}
use natsx.Base.Text.{Text}
use natsx.Errors.{Result, ok, fail}
use natsx.GoalRuntime.Data.{
  Files, Json, LedgerEntry, source_ledger_path, final_prerequisite_commands,
}
use natsx.GoalRuntime.Ledger.{
  by_command, is_complete, gap, prerequisite_gaps, gaps_of, read_ledger_entries,
  validate_final_prerequisites,
}

-- The last entry of a goal's command, if it has one.
unfoldable pub last_of : Text → Text → List LedgerEntry → Option LedgerEntry
last_of goal command [] = none
last_of goal command (e ∷ es) =
    let later = last_of goal command es in
    elim later [
      | none ↦ if text_eq e.goal_id goal && text_eq e.command command then some e else none
      | some found ↦ some found
    ]

abbrev pub or_else : Option LedgerEntry → Option LedgerEntry → Option LedgerEntry
or_else none o = o
or_else (some e) _ = some e

pub lookup-by_command :
    (goal command : Text) (es : List LedgerEntry) (m : List (Text × LedgerEntry))
    → lookup command (by_command goal es m) ≡ or_else (last_of goal command es) (lookup command m)
unfolding by_command last_of
lookup-by_command goal command [] m = refl
lookup-by_command goal command (e ∷ es) m = ground (
  arith,
  lookup-by_command goal command es m,
  lookup-by_command goal command es (put e.command e m),
  lookup-put e.command command e m,
)

-- The last entry of the goal's command says that it has passed.
abbrev pub IsMet : Text → List LedgerEntry → Text → Type 0
IsMet goal es command =
    (e : LedgerEntry) × (last_of goal command es ≡ some e) × (is_complete e ≡ true)

gap_iff :
    (goal command : Text) (o : Option LedgerEntry)
    → (is_empty (gap goal command o) ≡ true)
      ↔ ((e : LedgerEntry) × (o ≡ some e) × (is_complete e ≡ true))
gap_iff goal command none = ground arith
gap_iff goal command (some e) =
    (λ h. (e, refl, ground (arith, h)), λ (d, same, complete). ground (arith, same, complete))

prerequisite_gaps_iff :
    (goal : Text) (es : List LedgerEntry) (commands : List Text)
    → (is_empty (prerequisite_gaps goal (by_command goal es []) commands) ≡ true)
      ↔ All (IsMet goal es) commands
unfolding prerequisite_gaps
prerequisite_gaps_iff goal es [] = (λ _. tt, λ _. refl)
prerequisite_gaps_iff goal es (command ∷ commands) =
    let here = gap_iff goal command (lookup command (by_command goal es [])) in
    let found = lookup-by_command goal command es [] in
    let there = prerequisite_gaps_iff goal es commands in
    (
      λ h.
          let (e, is, complete) = here.0 (ground (arith, h)) in
          ((e, ground (arith, found, is), complete), there.0 (ground (arith, h))),
      λ ((e, is, complete), rest).
          let a : is_empty (gap goal command (lookup command (by_command goal es []))) ≡ true =
            here.1 (e, ground (arith, found, is), complete) in
          ground (arith, a, there.1 rest),
    )

gaps_of_iff :
    (goal : Text) (r : Result (List LedgerEntry))
    → (is_empty (gaps_of goal r) ≡ true)
      ↔ ((es : List LedgerEntry) × (r ≡ ok es) × All (IsMet goal es) final_prerequisite_commands)
gaps_of_iff goal (fail err) =
    (λ h. absurd (ground (arith, h)), λ (es, is, _). absurd (ground (arith, is)))
gaps_of_iff goal (ok entries) =
    let met = prerequisite_gaps_iff goal entries final_prerequisite_commands in
    (
      λ h. (entries, refl, met.0 h),
      λ (es, is, all_met). met.1 (same es (ground (arith, is)) all_met),
    )
  where
    same :
        (es : List LedgerEntry)
        → entries ≡ es
        → All (IsMet goal es) final_prerequisite_commands
        → All (IsMet goal entries) final_prerequisite_commands
    same es e h = subst (λ l. All (IsMet goal l) final_prerequisite_commands) (sym e) h

-- `validateFinalPrerequisites` returns no gap if and only if the source ledger can be read and the
-- last entry of each of the five commands, for the same goal, is passed, complete and blocking: an
-- entry of another goal does not count, and an older entry that passed does not make up for a later
-- one that failed. The other gaps of a final report are not looked at.
pub validate_final_prerequisites_iff :
    (json : Json) (files : Files) (root goal : Text) (w : files.World)
    → (is_empty (validate_final_prerequisites json files root goal w) ≡ true) ↔ (
        (es : List LedgerEntry) × (read_ledger_entries json files
            (files.join root source_ledger_path)
            w
          ≡ ok es)
        × All (IsMet goal es) final_prerequisite_commands)
unfolding validate_final_prerequisites
validate_final_prerequisites_iff json files root goal w =
    gaps_of_iff goal (read_ledger_entries json files (files.join root source_ledger_path) w)
