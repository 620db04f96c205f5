-- ===== src/GoalRuntime/Evaluation.antt =====
-- `Evaluate` of internal/goalruntime/goalruntime.go: the report on one command.
use natsx.Base.{
  Bool, true, false, ◌&&◌, not, List, [], ◌∷◌, ◌++◌, map, Option, none, some, ◌≡◌, refl, lookup,
  text_eq, is_empty, if◌then◌else◌,
}
use natsx.Base.Text.{Text, codes, trim_space, split, fields}
use natsx.Errors.{nil, is_nil, foreign, unnamed, Result, ok, fail}
use natsx.GoalRuntime.Data.{
  Files, Json, Report, default_goal_id, evidence_ledger_path, source_ledger_path, newline,
  command_gates, final_prerequisite_commands,
}
use natsx.GoalRuntime.Ledger.{validate_final_prerequisites}
use natsx.GoalRuntime.Evidence.{gates_for_command, is_final, is_passed, root_or_dot}

pub record Options : Type 0 where
  pub goal_id : Text
  pub mode : Text
  pub root : Text

unfoldable pub gate_descriptions : List (Text × Text)
gate_descriptions =
    (codes "goal-acceptance", codes "验收矩阵和目标 ID contract 已收敛")
    ∷ (codes "goal-delivery", codes "交付证据路径和 goalcli 执行面已收敛")
    ∷ (codes "goal-handover", codes "接手材料和边界声明已收敛")
    ∷ (codes "goal-downstream-adoption", codes "下游采用证明保持为本地 contract，不修改 downstream 仓库")
    ∷ (codes "goal-certify", codes "认证证明保持为本地 contract，不宣称完整 release 完成")
    ∷ (
      codes "goal-runtime-final",
      codes "G12-G16 本地 contract 汇总为 goalcli v0.1.0 MVA final evidence",
    )
    ∷ []

unfoldable pub source_only_authority_paths : List Text
source_only_authority_paths =
    codes ".worktree/goalcli-v0.1.0-plan.md"
    ∷ codes ".omx/context/goalcli-v0.1.0-team-20260603T005302Z.md"
    ∷ codes "docs/adr/ADR-20260603-001-goalcli-runtime.md"
    ∷ []

unfoldable pub portable_authority_paths : List Text
portable_authority_paths =
    codes "docs/standard/goalcli-cli-contract.md"
    ∷ codes ".agent/harness.yaml"
    ∷ codes ".agent/command-registry.yaml"
    ∷ codes ".agent/registry/runtime.yaml"
    ∷ codes ".agent/registry/commands.yaml"
    ∷ codes ".agent/command-implementation-status.yaml"
    ∷ codes ".agent/evidence/README.md"
    ∷ codes "docs/standard/goalcli-runtime.md"
    ∷ codes "docs/plans/goalcli-v0.1.0-roadmap.md"
    ∷ codes "Makefile"
    ∷ []

unfoldable pub standard_module_path : Text
standard_module_path = codes "github.com/ZoneCNH/xlib-standard"

unfoldable pub required_authority_paths : Bool → List Text
required_authority_paths standard =
    (if standard then source_only_authority_paths else []) ++ portable_authority_paths

-- `%q` prints the command in quotes, here without escapes.
abbrev quoted : Text → Text
quoted command = codes "\"" ++ command ++ codes "\""

-- The module path of a line of go.mod.
abbrev module_of : List Text → Option Text
module_of (keyword ∷ path ∷ _) = if text_eq keyword (codes "module") then some path else none
module_of _ = none

-- The loop of `modulePathForRoot`.
unfoldable pub module_path_in : List Text → Option Text
module_path_in [] = none
module_path_in (line ∷ lines) =
    let later = module_path_in lines in
    elim (module_of (fields line)) [ none ↦ later | some path ↦ some path ]

abbrev empty_or_text : Option Text → Text
empty_or_text none = []
empty_or_text (some t) = t

abbrev pub text_or : Text → Text → Text
text_or d t = if is_empty t then d else t

module _ (json : Json) (files : Files) where
  unfoldable pub module_path_for_root : Text → files.World → Option Text
  module_path_for_root root w =
      let (content, err) = files.read_file (files.join root (codes "go.mod")) w in
      if not (is_nil err) then none else module_path_in (split content newline)

  unfoldable pub is_standard_source_root : Text → files.World → Bool
  is_standard_source_root root w = elim (module_path_for_root root w) [
    | none ↦ true
    | some path ↦ text_eq path standard_module_path
  ]

  -- The loop over the authority paths: those that are there, and the gaps.
  unfoldable pub check_paths : Text → files.World → List Text → List Text × List Text
  check_paths root w [] = ([], [])
  check_paths root w (path ∷ paths) =
      let (found, gaps) = check_paths root w paths in
      if files.exists (files.join root path) w
      then (path ∷ found, gaps)
      else (found, (codes "missing authority path: " ++ path) ∷ gaps)

  -- The report on a command with the gate `gate`, for a goal, a mode and a root that are filled in.
  unfoldable pub evaluate_with : Text → Text → Text → Text → Text → files.World → Report
  evaluate_with command gate goal mode root w =
      let standard = is_standard_source_root root w in
      let (found, missing) = check_paths root w (required_authority_paths standard) in
      let gaps =
        if is_final command && is_empty missing
        then validate_final_prerequisites json files root goal w
        else missing in
      record {
        schema_version = codes "goalcli-mva/v1";
        command = command;
        status = if is_empty gaps then codes "passed" else codes "failed";
        goal_id = goal;
        gate = gate;
        mode = mode;
        executor = codes "goalcli";
        control_plane = codes "Harness Runtime";
        blocking = true;
        mva_status = if is_empty gaps then codes "complete" else codes "not-complete";
        ledger_path = source_ledger_path;
        evidence_pack_path = evidence_ledger_path ++ goal ++ codes ".json";
        gates = gates_for_command command;
        details =
            (empty_or_text (lookup command gate_descriptions)
              ∷ codes "goalcli v0.1.0 使用 cmd/goalcli 作为唯一执行面；不再保留历史并列入口"
              ∷ codes "G12-G16 是 goalcli MVA evidence gates，不是全局 release blocking gates"
              ∷ codes "root plan 是 authority；完成状态由本地 authority 校验和 evidence 写入共同证明"
              ∷ [])
            ++ (if text_eq goal default_goal_id
                then []
                else codes "non-default goal_id accepted for local contract replay" ∷ [])
            ++ (if standard
                then []
                else codes
                    "rendered downstream 按 template-generation-contract 排除 source-only authority，仅校验 portable governance authority"
                  ∷ []);
        evidence =
            ((codes "fixture_id=" ++ default_goal_id)
              ∷ (codes "source_evidence_ledger=" ++ source_ledger_path)
              ∷ (codes "generated_evidence_pack=" ++ evidence_ledger_path)
              ∷ codes "runtime_logic=internal/goalruntime"
              ∷ [])
            ++ (if is_final command
                then map (λ c. codes "requires=" ++ c) final_prerequisite_commands
                else []);
        authority_paths = found;
        gaps = gaps;
      }

  unfoldable pub evaluate : Text → Options → files.World → Result Report
  evaluate command options w = elim (lookup command command_gates) [
    | none ↦ fail (foreign unnamed (codes "unsupported goalcli command " ++ quoted command) nil)
    | some gate ↦ ok (
        evaluate_with command gate (text_or default_goal_id (trim_space options.goal_id))
          (text_or (codes "FULL") (trim_space options.mode)) (root_or_dot options.root) w)
  ]

  -- The report on a command is passed, in the sense in which `WriteEvidence` asks for it, exactly if it has
  -- no gap, and it is a report on that command.
  pub evaluate-is_passed :
      (command gate goal mode root : Text) (w : files.World)
      → let report = evaluate_with command gate goal mode root w in
        (is_passed report ≡ is_empty report.gaps) × (report.command ≡ command)
  unfolding evaluate_with is_passed
  evaluate-is_passed command gate goal mode root w =
      (go (is_empty (evaluate_with command gate goal mode root w).gaps), refl)
    where
      go :
          (b : Bool)
          → (text_eq (if b then codes "passed" else codes "failed") (codes "passed")
              && text_eq (if b then codes "complete" else codes "not-complete") (codes "complete")
              && true)
            ≡ b
      go true = refl
      go false = refl
