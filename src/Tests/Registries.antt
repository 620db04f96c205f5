-- ===== src/Tests/Registries.antt =====
-- The issue registry at a concrete text.
use natsx.Base.{false, true, List, [], ◌∷◌, ◌≡◌, ◌↔◌, all, All, is_empty}
use natsx.Base.Text.{codes}
use natsx.IssueRegistry.{IssueRegistryEntry}
use natsx.IssueRegistry.Ids.{prefixes, validate_issue_registry_entries}
use natsx.IssueRegistry.Valid.{distinct, is_complete, Numbered, validate_issue_registry_iff}

abbrev registry : List IssueRegistryEntry
registry =
    record { id = codes "P0-001"; block = codes "- id: P0-001\n  title: t\n  status: implemented" }
    ∷ record { id = codes "P0-003"; block = codes "- id: P0-003" }
    ∷ []

validate_issue_registry_iff_example :
    (validate_issue_registry_entries (codes "issues.yaml") registry ≡ []) ↔ (
      (is_empty registry ≡ false)
      × (distinct registry ≡ true)
      × (all is_complete registry ≡ true)
      × All (Numbered registry) prefixes)
validate_issue_registry_iff_example = validate_issue_registry_iff (codes "issues.yaml") registry
