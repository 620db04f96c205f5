-- ===== src/GoalRuntime/Passing.antt =====
-- When the report of `Evaluate` of internal/goalruntime/goalruntime.go has passed.
use natsx.Base.{
  Bool, true, false, ◌&&◌, List, [], ◌∷◌, Option, none, some, ◌≡◌, refl, sym, ◌↔◌, ◌⊎◌, arith,
  is_empty, All, lookup, if◌then◌else◌,
}
use natsx.Base.Text.{Text, codes, trim_space}
use natsx.Errors.{Error, ok, fail}
use natsx.GoalRuntime.Data.{
  Files, Json, LedgerEntry, Report, default_goal_id, source_ledger_path, command_gates,
  final_prerequisite_commands,
}
use natsx.GoalRuntime.Ledger.{read_ledger_entries, validate_final_prerequisites}
use natsx.GoalRuntime.Evidence.{is_final, is_passed, root_or_dot}
use natsx.GoalRuntime.Evaluation.{
  Options, required_authority_paths, is_standard_source_root, check_paths, evaluate_with, text_or,
  evaluate, evaluate-is_passed,
}
use natsx.GoalRuntime.Prerequisites.{IsMet, validate_final_prerequisites_iff}

evaluated :
    (o : Option Text) (err : Error) (report_of : Text → Report) (report : Report)
    → elim o [ none ↦ fail err | some gate ↦ ok (report_of gate) ] ≡ ok report
    → (gate : Text) × (report_of gate ≡ report)
evaluated none err report_of report h = absurd (ground (arith, h))
evaluated (some gate) err report_of report h = (gate, ground (arith, h))

module _ (json : Json) (files : Files) where
  check_paths_iff :
      (root : Text) (w : files.World) (paths : List Text)
      → (is_empty (check_paths json files root w paths).1 ≡ true)
        ↔ All (λ path. files.exists (files.join root path) w ≡ true) paths
  unfolding check_paths
  check_paths_iff root w [] = (λ _. tt, λ _. refl)
  check_paths_iff root w (path ∷ paths) = ground (arith, check_paths_iff root w paths)

  -- The ledger can be read, and meets the prerequisites of the final report.
  abbrev pub Prepared : Text → Text → files.World → Type 0
  Prepared root goal w =
      (es : List LedgerEntry) × (read_ledger_entries json files (files.join root source_ledger_path)
          w
        ≡ ok es)
      × All (IsMet goal es) final_prerequisite_commands

  gaps_iff :
      (final : Bool) (missing others : List Text)
      → (is_empty (if final && is_empty missing then others else missing) ≡ true)
        ↔ ((is_empty missing ≡ true) × ((final ≡ false) ⊎ (is_empty others ≡ true)))
  gaps_iff final missing others = ground arith

  evaluate_with_iff :
      (command gate goal mode root : Text) (w : files.World)
      → let paths = required_authority_paths (is_standard_source_root json files root w) in
        (is_passed (evaluate_with json files command gate goal mode root w) ≡ true) ↔ (
          All (λ path. files.exists (files.join root path) w ≡ true) paths
          × ((is_final command ≡ false) ⊎ Prepared root goal w))
  unfolding evaluate_with
  evaluate_with_iff command gate goal mode root w =
      let paths = required_authority_paths (is_standard_source_root json files root w) in
      let missing = (check_paths json files root w paths).1 in
      let others = validate_final_prerequisites json files root goal w in
      ground (
        arith,
        (evaluate-is_passed json files command gate goal mode root w).0,
        gaps_iff (is_final command) missing others,
        check_paths_iff root w paths,
        validate_final_prerequisites_iff json files root goal w,
      )

  -- The report of `Evaluate` has passed if and only if all authority paths of the root are there,
  -- those of the standard's own sources where it is the standard's root; and, for the final command,
  -- the source ledger can be read and the last entry of each of the five commands, for the same
  -- goal, is passed, complete and blocking. The goal is the default one where the options name none,
  -- and the root `.`.
  pub evaluate_iff :
      (command : Text) (options : Options) (w : files.World) (report : Report)
      → evaluate json files command options w ≡ ok report
      → let root = root_or_dot options.root in
        let goal = text_or default_goal_id (trim_space options.goal_id) in
        let paths = required_authority_paths (is_standard_source_root json files root w) in
        (is_passed report ≡ true) ↔ (
          All (λ path. files.exists (files.join root path) w ≡ true) paths
          × ((is_final command ≡ false) ⊎ Prepared root goal w))
  unfolding evaluate
  evaluate_iff command options w report h =
      let root = root_or_dot options.root in
      let goal = text_or default_goal_id (trim_space options.goal_id) in
      let mode = text_or (codes "FULL") (trim_space options.mode) in
      let report_of : Text → Report =
        λ gate. evaluate_with json files command gate goal mode root w in
      let (gate, is) = evaluated (lookup command command_gates) _ report_of report h in
      rw (sym is) (evaluate_with_iff command gate goal mode root w)
