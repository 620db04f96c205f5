-- ===== src/Debt/Downstream.antt =====
-- `scanDownstreamDebt` of internal/debtcheck/debtcheck.go: what the files about downstream use must hold.
use natsx.Base.{
  Bool, true, false, ◌&&◌, ◌||◌, not, List, [], ◌∷◌, ◌++◌, Option, none, some, any, is_empty,
  text_eq, if◌then◌else◌,
}
use natsx.Base.Text.{
  Text, codes, has_prefix, has_suffix, trim_prefix, trim_space, contains, split, to_upper,
}
use natsx.Debt.Tree.{Finding}
use natsx.Debt.Scan.{finding_of}

abbrev pub registry_path : Text
registry_path = codes ".agent/downstream-registry.yaml"

abbrev pub baseline_path : Text
baseline_path = codes ".agent/downstream-baseline-scan.yaml"

abbrev pub modes_path : Text
modes_path = codes ".agent/downstream-adoption-modes.yaml"

abbrev pub status_path : Text
status_path = codes ".agent/downstream-adoption-status.yaml"

abbrev pub matrix_path : Text
matrix_path = codes "docs/downstream-matrix.md"

abbrev pub compatibility_path : Text
compatibility_path = codes "docs/standard/downstream-compatibility.md"

abbrev pub integration_path : Text
integration_path = codes "scripts/run_integration.sh"

abbrev pub render_path : Text
render_path = codes "scripts/render_template.sh"

unfoldable pub downstream_required_files : List Text
downstream_required_files =
    registry_path ∷ baseline_path ∷ modes_path ∷ status_path ∷ matrix_path ∷ compatibility_path
    ∷ integration_path ∷ render_path ∷ []

unfoldable pub downstream_representative_repos : List Text
downstream_representative_repos =
    codes "kernel/configx" ∷ codes "kernel/redisx" ∷ codes "corekit" ∷ []

unfoldable pub downstream_target_libraries : List Text
downstream_target_libraries =
    codes "kernel"
    ∷ codes "configx"
    ∷ codes "observex"
    ∷ codes "testkitx"
    ∷ codes "postgresx"
    ∷ codes "redisx"
    ∷ codes "kafkax"
    ∷ codes "taosx"
    ∷ codes "ossx"
    ∷ codes "clickhousex"
    ∷ []

unfoldable pub downstream_integration_tokens : List Text
downstream_integration_tokens =
    codes "kernel|github.com/ZoneCNH/kernel|kernel"
    ∷ codes "configx|github.com/ZoneCNH/configx|configx"
    ∷ codes "redisx|github.com/ZoneCNH/redisx|redisx"
    ∷ codes "GOWORK=off make debt"
    ∷ codes "GOWORK=off make debt-evidence"
    ∷ codes "GOWORK=off make debt-evidence-checksum-check"
    ∷ []

unfoldable pub downstream_render_template_exclusions : List Text
downstream_render_template_exclusions =
    codes "release/debt/latest.json"
    ∷ codes "release/debt/latest.md"
    ∷ codes "release/debt/latest.json.sha256"
    ∷ []

unfoldable pub contains_downstream_placeholder : Text → Bool
contains_downstream_placeholder text =
    let upper = to_upper text in
    contains upper (codes "TODO")
    || contains upper (codes "TBD")
    || contains upper (codes "PLACEHOLDER")

-- What the loop of `hasYAMLScalarLine` asks of a line.
unfoldable pub is_yaml_scalar_line : Text → Text → Text → Bool
is_yaml_scalar_line key value line =
    let trimmed = trim_space line in
    not (has_prefix trimmed (codes "#"))
    && has_prefix trimmed (key ++ codes ":")
    && text_eq (trim_space (trim_prefix trimmed (key ++ codes ":"))) value

unfoldable pub has_yaml_scalar_line : Text → Text → Text → Bool
has_yaml_scalar_line text key value = any (is_yaml_scalar_line key value) (split text b'\n')

-- A finding of severity P0 under a condition.
unfoldable pub p0_if : Bool → Text → Text → Text → List Finding
p0_if true path id message = finding_of id (codes "P0") path message ∷ []
p0_if false path id message = []

unfoldable pub require_downstream_token : Text → Text → Text → Text → Text → List Finding
unfolding p0_if
require_downstream_token text path token id message =
    p0_if (not (is_empty text || contains text token)) path id message

-- The loops that ask for one token after the other.
unfoldable pub require_tokens : Text → Text → List Text → Text → Text → List Finding
unfolding require_downstream_token
require_tokens text path [] id message = []
require_tokens text path (token ∷ tokens) id message =
    require_downstream_token text path token id message
    ++ require_tokens text path tokens id message

-- The findings on one required file by itself.
unfoldable pub check_downstream_file : Text → Option Text → List Finding
unfolding p0_if
check_downstream_file path none =
    p0_if true path (codes "debt.downstream.file-missing")
      (codes "required downstream governance file is missing")
check_downstream_file path (some text) =
    p0_if (has_suffix path (codes ".yaml") && not (contains text (codes "schema_version:"))) path
      (codes "debt.downstream.schema-missing")
      (codes "downstream governance YAML must declare schema_version")
    ++ (if contains_downstream_placeholder text
        then finding_of (codes "debt.downstream.placeholder") (codes "P1") path
            (codes "downstream governance file still contains placeholder text")
          ∷ []
        else [])

abbrev pub map_prefix : Text → List Text → Text → List Text
map_prefix before [] after = []
map_prefix before (t ∷ ts) after = (before ++ t ++ after) ∷ map_prefix before ts after
