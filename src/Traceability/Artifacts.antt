-- ===== src/Traceability/Artifacts.antt =====
-- The check of cmd/goalcli/traceability.go over the rows of the matrix. Files and git are a parameter.
use natsx.Base.{ℕ, Bool, not, List, [], ◌∷◌, ◌++◌, is_empty, if◌then◌else◌}
use natsx.Base.Text.{Text, codes, has_suffix, contains_any}
use natsx.Errors.{Error, nil, is_nil, foreign, unnamed, error_text}
use natsx.Traceability.{TraceabilityRow, parse_traceability_matrix, looks_like_path}

-- What `os.Stat` finds: a file or a directory, nothing (`os.IsNotExist`), or another error.
pub data Stat : Type 0 where
  is_directory is_file not_found : Stat
  stat_error : Error → Stat

pub record Files : Type 0 where
  -- `git check-ignore` ends without an error
  pub is_git_ignored : Text → Bool
  pub stat : Text → Stat
  -- `filepath.Glob`: the matches, or the error of the pattern
  pub glob : Text → List Text × Error
  pub read_file : Text → Text × Error

abbrev new_error : Text → Error
new_error text = foreign unnamed text nil

-- `%w`
abbrev wraps : Text → Error → Error
wraps text err = foreign unnamed (text ++ codes ": " ++ error_text err) err

-- `strings.TrimSuffix(artifact, "/*")`
unfoldable pub drop_two : Text → Text
drop_two [] = []
drop_two (_ ∷ []) = []
drop_two (_ ∷ _ ∷ []) = []
drop_two (c ∷ d ∷ e ∷ s) = c ∷ drop_two (d ∷ e ∷ s)

unfoldable pub directory_error : Text → Stat → Error
directory_error dir is_directory = nil
directory_error dir is_file = new_error (codes "not a directory: " ++ dir)
directory_error dir not_found = new_error (codes "directory not found: " ++ dir)
directory_error dir (stat_error err) = wraps (codes "directory stat error " ++ dir) err

unfoldable pub file_error : Text → Stat → Error
file_error artifact is_directory = nil
file_error artifact is_file = nil
file_error artifact not_found = new_error (codes "missing artifact: " ++ artifact)
file_error artifact (stat_error err) = wraps (codes "artifact stat error " ++ artifact) err

unfoldable pub glob_error : Text → List Text × Error → Error
glob_error artifact found =
    if not (is_nil found.1)
    then wraps (codes "invalid glob \"" ++ artifact ++ codes "\"") found.1
    else if is_empty found.0
    then new_error (codes "glob matched no files: " ++ artifact)
    else nil

unfoldable pub verify_artifact_exists : Files → Text → Error
unfolding drop_two directory_error glob_error file_error
verify_artifact_exists files artifact =
    if files.is_git_ignored artifact
    then nil
    else if has_suffix artifact (codes "/*")
    then directory_error (drop_two artifact) (files.stat (drop_two artifact))
    else if contains_any artifact (codes "*?[")
    then glob_error artifact (files.glob artifact)
    else file_error artifact (files.stat artifact)

-- The loop over the artifacts of a row.
unfoldable pub artifact_gaps : Files → Text → List Text → List Text
unfolding verify_artifact_exists
artifact_gaps files req_id [] = []
artifact_gaps files req_id (artifact ∷ artifacts) =
    let rest = artifact_gaps files req_id artifacts in
    let err = verify_artifact_exists files artifact in
    if not (looks_like_path artifact)
    then rest
    else if not (is_nil err)
    then (req_id ++ codes ": " ++ error_text err) ∷ rest
    else rest

-- The loop over the rows.
unfoldable pub traceability_gaps : Files → List TraceabilityRow → List Text
unfolding artifact_gaps
traceability_gaps files [] = []
traceability_gaps files (row ∷ rows) =
    (if is_empty row.artifacts
      then (row.req_id ++ codes ": 主要产物 column is empty") ∷ []
      else artifact_gaps files row.req_id row.artifacts)
    ++ traceability_gaps files rows

-- The exit code of the command, once its flags are read.
unfoldable pub traceability_exit : Files → List TraceabilityRow → ℕ
traceability_exit files [] = 2
traceability_exit files (row ∷ rows) =
    if is_empty (traceability_gaps files (row ∷ rows)) then 0 else 9

unfoldable pub run_traceability_check : Files → Text → ℕ
unfolding traceability_exit
run_traceability_check files matrix_path =
    let read = files.read_file matrix_path in
    if not (is_nil read.1) then 2 else traceability_exit files (parse_traceability_matrix read.0)
