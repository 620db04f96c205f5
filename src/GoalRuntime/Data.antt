-- ===== src/GoalRuntime/Data.antt =====
-- The tables, the options, the report and the ledger entry of internal/goalruntime/goalruntime.go, and
-- the files and the JSON encoder that its functions are parameterised by.
use natsx.Base.{ℕ, Bool, true, false, List, [], ◌∷◌, ◌≡◌, is_empty, any, ◌==◌}
use natsx.Base.Text.{Text, codes, trim_space}
use natsx.Errors.{Error, nil, is_nil}

abbrev pub default_goal_id : Text
default_goal_id = codes "GOAL-20260603-XLIB-GOALCLI-001"

abbrev pub evidence_ledger_path : Text
evidence_ledger_path = codes "release/evidence/goalcli/"

abbrev pub source_ledger_path : Text
source_ledger_path = codes ".agent/evidence/ledger.jsonl"

abbrev pub final_runtime_command : Text
final_runtime_command = codes "goal-runtime-final"

unfoldable pub command_gates : List (Text × Text)
command_gates =
    (codes "goal-acceptance", codes "G12")
    ∷ (codes "goal-delivery", codes "G13")
    ∷ (codes "goal-handover", codes "G14")
    ∷ (codes "goal-downstream-adoption", codes "G15A")
    ∷ (codes "goal-certify", codes "G16")
    ∷ (codes "goal-runtime-final", codes "G12_G16_FINAL")
    ∷ []

unfoldable pub command_harness_gates : List (Text × Text)
command_harness_gates =
    (codes "goal-acceptance", codes "G12_ACCEPTANCE")
    ∷ (codes "goal-delivery", codes "G13_DELIVERY")
    ∷ (codes "goal-handover", codes "G14_HANDOVER")
    ∷ (codes "goal-downstream-adoption", codes "G15_DOWNSTREAM_ADOPTION")
    ∷ (codes "goal-certify", codes "G16_CERTIFY")
    ∷ []

abbrev pub final_prerequisite_commands : List Text
final_prerequisite_commands =
    codes "goal-acceptance"
    ∷ codes "goal-delivery"
    ∷ codes "goal-handover"
    ∷ codes "goal-downstream-adoption"
    ∷ codes "goal-certify"
    ∷ []

pub record GateReport : Type 0 where
  pub id : Text
  pub command : Text
  pub status : Text
  pub blocking : Bool

pub record Report : Type 0 where
  pub schema_version : Text
  pub command : Text
  pub status : Text
  pub goal_id : Text
  pub gate : Text
  pub mode : Text
  pub executor : Text
  pub control_plane : Text
  pub blocking : Bool
  pub mva_status : Text
  pub ledger_path : Text
  pub evidence_pack_path : Text
  pub gates : List GateReport
  pub details : List Text
  pub evidence : List Text
  pub authority_paths : List Text
  pub gaps : List Text

pub record LedgerEntry : Type 0 where
  pub schema_version : Text
  pub goal_id : Text
  pub command : Text
  pub status : Text
  pub mva_status : Text
  pub blocking : Bool
  pub evidence_pack_path : Text

-- `os` and `filepath`, over a world of files. `join` takes the root and a path with slashes.
pub record Files : Type 1 where
  pub World : Type 0
  pub join : Text → Text → Text
  pub dir : Text → Text
  -- `os.Stat` without an error
  pub exists : Text → World → Bool
  pub mkdir_all : Text → World → Error × World
  pub read_file : Text → World → Text × Error
  pub is_not_exist : Error → Bool
  pub write_file : Text → Text → World → Error × World

-- A file that was written without an error is read back as it was written.
pub record ReadsBack (files : Files) : Type 0 where
  pub read-write :
      (path content : Text) (w : files.World)
      → is_nil (files.write_file path content w).0 ≡ true
      → files.read_file path (files.write_file path content w).1 ≡ (content, nil)

abbrev pub newline : ℕ
newline = 10

-- `encoding/json` on entries and reports.
pub record Json : Type 0 where
  pub marshal : LedgerEntry → Text × Error
  pub unmarshal : Text → LedgerEntry × Error
  pub marshal_indent : Report → Text × Error

-- What `encoding/json` documents of `Marshal`: its text holds no line break and no space at its ends, it
-- is not empty, and `Unmarshal` gives the entry back.
pub record Encodes (json : Json) : Type 0 where
  pub one_line : (e : LedgerEntry) → any (λ c. c == newline) (json.marshal e).0 ≡ false
  pub trimmed : (e : LedgerEntry) → trim_space (json.marshal e).0 ≡ (json.marshal e).0
  pub not_empty : (e : LedgerEntry) → is_empty (json.marshal e).0 ≡ false
  pub unmarshal-marshal : (e : LedgerEntry) → json.unmarshal (json.marshal e).0 ≡ (e, nil)
