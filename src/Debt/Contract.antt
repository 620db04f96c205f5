-- ===== src/Debt/Contract.antt =====
-- `scanDownstreamDebt` of internal/debtcheck/debtcheck.go, from its parts.
use natsx.Base.{◌&&◌, not, List, [], ◌∷◌, ◌++◌, none, some, is_empty}
use natsx.Base.Text.{Text, codes, contains}
use natsx.Base.Sort.{sort}
use natsx.Debt.Tree.{Disk, Finding}
use natsx.Debt.Scan.{finding_less}
use natsx.Debt.Downstream.{
  registry_path, baseline_path, modes_path, status_path, matrix_path, compatibility_path,
  integration_path, render_path, downstream_required_files, downstream_representative_repos,
  downstream_target_libraries, downstream_integration_tokens, downstream_render_template_exclusions,
  has_yaml_scalar_line, p0_if, require_downstream_token, require_tokens, check_downstream_file,
  map_prefix,
}

-- The first loop.
unfoldable pub check_downstream_files : Disk → Text → List Text → List Finding
unfolding check_downstream_file
check_downstream_files d root [] = []
check_downstream_files d root (path ∷ paths) =
    check_downstream_file path (d.read_file (d.join root path))
    ++ check_downstream_files d root paths

-- `files[path]` once the loop is over, the empty text for a file that could not be read
unfoldable pub file_text : Disk → Text → Text → Text
file_text d root path = elim (d.read_file (d.join root path)) [ none ↦ [] | some text ↦ text ]

unfoldable pub check_registry : Text → List Finding
check_registry registry =
    require_tokens registry registry_path
      (map_prefix (codes "repo: ") downstream_representative_repos [])
      (codes "debt.downstream.registry-missing-repo")
      (codes "downstream registry is missing required representative repo")

unfoldable pub check_baseline : Text → List Finding
check_baseline baseline =
    require_downstream_token baseline baseline_path (codes "repo: kernel/configx")
      (codes "debt.downstream.baseline-missing-repo")
      (codes "downstream baseline must name the reference repo")
    ++ (require_downstream_token baseline baseline_path (codes "mode: patch-only")
          (codes "debt.downstream.baseline-missing-mode")
          (codes "downstream baseline must preserve patch-only mode")
        ++ p0_if (not (is_empty baseline) && not (contains baseline (codes "gap"))) baseline_path
            (codes "debt.downstream.baseline-missing-gap-status")
            (codes "downstream baseline must explicitly record the repo-missing gap status"))

unfoldable pub check_modes : Text → List Finding
check_modes modes =
    require_downstream_token modes modes_path (codes "patch-only")
      (codes "debt.downstream.mode-missing-patch-only")
      (codes "downstream adoption modes must include patch-only")
    ++ require_downstream_token modes modes_path (codes "direct_downstream_write_without_repo")
        (codes "debt.downstream.mode-missing-write-guard")
        (codes "downstream adoption modes must forbid direct downstream writes without a repo")

unfoldable pub check_status : Text → List Finding
check_status status =
    require_tokens status status_path (map_prefix (codes "name: ") downstream_target_libraries [])
      (codes "debt.downstream.status-missing-target")
      (codes "downstream adoption status must include every standard target library")
    ++ (p0_if (has_yaml_scalar_line status (codes "adoption_status") (codes "adopted")) status_path
          (codes "debt.downstream.false-adoption-claim")
          (codes "downstream adoption status claims adopted without proof-based adoption evidence")
        ++ p0_if (has_yaml_scalar_line status (codes "proof_based_adoption") (codes "true"))
            status_path (codes "debt.downstream.false-proof-claim")
            (codes
              "downstream adoption status claims proof-based adoption without downstream proof gate evidence"))

unfoldable pub check_matrix : Text → List Finding
check_matrix matrix =
    require_tokens matrix matrix_path
      (map_prefix (codes "`") downstream_target_libraries (codes "`"))
      (codes "debt.downstream.matrix-missing-target")
      (codes "downstream matrix must cover every standard target library")

unfoldable pub check_compatibility : Text → List Finding
check_compatibility compatibility =
    require_tokens compatibility compatibility_path
      (codes "`kernel`" ∷ codes "`corekit`" ∷ codes "GOWORK=off make integration" ∷ [])
      (codes "debt.downstream.compatibility-missing-contract")
      (codes
        "downstream compatibility standard must preserve default downstream and verification contract")

unfoldable pub check_integration : Text → List Finding
check_integration integration =
    require_tokens integration integration_path downstream_integration_tokens
      (codes "debt.downstream.integration-missing-contract")
      (codes
        "downstream integration script must render required targets and preserve debt evidence gates")

unfoldable pub check_render_template : Text → List Finding
check_render_template render_template =
    require_tokens render_template render_path downstream_render_template_exclusions
      (codes "debt.downstream.render-template-missing-exclusion")
      (codes "rendered template must exclude generated debt evidence artifacts")

-- The findings in the order in which they are collected.
unfoldable pub collect_downstream : Disk → Text → List Finding
collect_downstream d root =
    check_downstream_files d root downstream_required_files
    ++ (check_registry (file_text d root registry_path)
        ++ (check_baseline (file_text d root baseline_path)
            ++ (check_modes (file_text d root modes_path)
                ++ (check_status (file_text d root status_path)
                    ++ (check_matrix (file_text d root matrix_path)
                        ++ (check_compatibility (file_text d root compatibility_path)
                            ++ (check_integration (file_text d root integration_path)
                                ++ check_render_template (file_text d root render_path))))))))

unfoldable pub scan_downstream_debt : Disk → Text → List Finding
scan_downstream_debt d root = sort finding_less (collect_downstream d root)
