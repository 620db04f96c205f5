-- ===== src/IssueRegistry/Valid.antt =====
-- When `validateIssueRegistryEntries` of cmd/goalcli/governance.go finds no gap.
use natsx.Base.{
  ℕ, Bool, true, false, ◌&&◌, not, List, [], ◌∷◌, ◌++◌, Option, none, some, ◌≡◌, refl, sym, ◌∙◌,
  ◌↔◌, any, all, All, is_empty, text_eq, ltb, and-eq-true, arith, append-eq-nil,
}
use natsx.Base.Text.{Text, codes}
use natsx.Base.Sort.{sort}
use natsx.IssueRegistry.{
  IssueRegistryEntry, block_yaml_value, block_has_non_empty_yaml_value, block_has_evidence,
}
use natsx.IssueRegistry.Ids.{
  prefixes, match_id, gap_if, is_implemented, field_gaps, has, gaps_of_match, entry_gaps,
  entries_gaps, nums_of, missing_after, gaps_of_missing, prefix_gaps, all_prefix_gaps,
  validate_issue_registry_entries,
}
use natsx.IssueRegistry.Contiguous.{NoGap, missing_after_iff}

unfoldable pub has_fields : IssueRegistryEntry → Bool
has_fields e =
    block_has_non_empty_yaml_value e.block (codes "title")
    && is_implemented (block_yaml_value e.block (codes "status"))
    && block_has_non_empty_yaml_value e.block (codes "command")
    && block_has_evidence e.block

abbrev is_found : Option (Text × ℕ) → Bool
is_found none = false
is_found (some _) = true

-- The identifier is well formed, and the entry has a title, a command, evidence and the status.
abbrev pub is_complete : IssueRegistryEntry → Bool
is_complete e = is_found (match_id prefixes e.id) && has_fields e

-- No two entries have one identifier.
abbrev pub distinct : List IssueRegistryEntry → Bool
distinct [] = true
distinct (e ∷ es) = not (any (λ f. text_eq f.id e.id) es) && distinct es

-- There are issues with the prefix, and their numbers have no gap.
abbrev pub Numbered : List IssueRegistryEntry → Text → Type 0
Numbered es prefix = (is_empty (nums_of prefix es) ≡ false) × NoGap (nums_of prefix es)

gap_if-append :
    (b : Bool) (gap : Text) (gaps : List Text)
    → (gap_if b gap ++ gaps ≡ []) ↔ ((b ≡ false) × (gaps ≡ []))
gap_if-append true gap gaps = ground arith
gap_if-append false gap gaps = ground arith

gap_if-nil : (b : Bool) (gap : Text) → (gap_if b gap ≡ []) ↔ (b ≡ false)
gap_if-nil true gap = ground arith
gap_if-nil false gap = ground arith

field_gaps-nil :
    (path : Text) (e : IssueRegistryEntry) → (field_gaps path e ≡ []) ↔ (has_fields e ≡ true)
unfolding field_gaps has_fields
field_gaps-nil path e = grind (arith, gap_if-append, gap_if-nil)

gaps_of_match-nil :
    (path : Text) (e : IssueRegistryEntry) (found : Option (Text × ℕ))
    → (gaps_of_match path e found ≡ []) ↔ ((is_found found && has_fields e) ≡ true)
unfolding gaps_of_match
gaps_of_match-nil path e none = (λ h. absurd (ground (arith, h)), λ h. absurd (ground (arith, h)))
gaps_of_match-nil path e (some found) = field_gaps-nil path e

entry_gaps-nil :
    (path : Text) (e : IssueRegistryEntry) → (entry_gaps path e ≡ []) ↔ (is_complete e ≡ true)
unfolding entry_gaps
entry_gaps-nil path e = gaps_of_match-nil path e (match_id prefixes e.id)

all_fresh-cons :
    (x : Text) (seen : List Text) (es : List IssueRegistryEntry)
    → all (λ e. not (has e.id (x ∷ seen))) es
      ≡ (not (any (λ e. text_eq e.id x) es) && all (λ e. not (has e.id seen)) es)
all_fresh-cons x seen [] = refl
all_fresh-cons x seen (e ∷ es) = ground (arith, all_fresh-cons x seen es)

not-true-and : (a b : Bool) → (not a && b) ≡ true → (a ≡ false) × (b ≡ true)
not-true-and a b h = ground (arith, h)

entries_gaps-nil :
    (path : Text) (seen : List Text) (es : List IssueRegistryEntry)
    → (entries_gaps path seen es ≡ []) ↔ (
        (all (λ e. not (has e.id seen)) es ≡ true)
        × (distinct es ≡ true)
        × (all is_complete es ≡ true))
unfolding entries_gaps
entries_gaps-nil path seen [] = ground arith
entries_gaps-nil path seen (e ∷ es) =
    let gap = path ++ codes " duplicate issue id " ++ e.id in
    let rest = entries_gaps path (e.id ∷ seen) es in
    let known = gap_if-append (has e.id seen) gap (entry_gaps path e ++ rest) in
    let both = append-eq-nil (entry_gaps path e) rest in
    let one = entry_gaps-nil path e in
    let below = entries_gaps-nil path (e.id ∷ seen) es in
    let splits = all_fresh-cons e.id seen es in
    let other = not (any (λ f. text_eq f.id e.id) es) in
    let fresh = all (λ f. not (has f.id seen)) es in
    (
      λ h.
          let first = known.0 h in
          let next = both.0 first.1 in
          let after = below.0 next.1 in
          let apart = (and-eq-true other fresh).0 (sym splits ∙ after.0) in
          (rw (first.0, apart.1) refl, rw (apart.0, after.1) refl, rw (one.0 next.0, after.2) refl),
      λ h.
          let new = not-true-and (has e.id seen) fresh h.0 in
          let apart = (and-eq-true other (distinct es)).0 h.1 in
          let complete = (and-eq-true (is_complete e) (all is_complete es)).0 h.2 in
          let fresh_below = splits ∙ (and-eq-true other fresh).1 (apart.0, new.1) in
          known.1 (new.0, both.1 (one.1 complete.0, below.1 (fresh_below, apart.1, complete.1))),
    )

gaps_of_missing-nil :
    (path prefix : Text) (missing : Option ℕ)
    → (gaps_of_missing path prefix missing ≡ []) ↔ (missing ≡ none)
unfolding gaps_of_missing
gaps_of_missing-nil path prefix none = (λ h. refl, λ h. refl)
gaps_of_missing-nil path prefix (some missing) =
    (λ h. absurd (ground (arith, h)), λ h. absurd (ground (arith, h)))

prefix_gaps-nil :
    (path prefix : Text) (ns : List ℕ)
    → (prefix_gaps path prefix ns ≡ []) ↔ ((is_empty ns ≡ false) × NoGap ns)
unfolding prefix_gaps
prefix_gaps-nil path prefix [] =
    (λ h. absurd (ground (arith, h)), λ h. absurd (ground (arith, h.0)))
prefix_gaps-nil path prefix (n ∷ ns) =
    let quiet = gaps_of_missing-nil path prefix (missing_after 0 (sort ltb (n ∷ ns))) in
    let none_missing = missing_after_iff (n ∷ ns) in
    (λ h. (refl, none_missing.0 (quiet.0 h)), λ h. quiet.1 (none_missing.1 h.1))

all_prefix_gaps-nil :
    (path : Text) (ps : List Text) (es : List IssueRegistryEntry)
    → (all_prefix_gaps path ps es ≡ []) ↔ All (Numbered es) ps
unfolding all_prefix_gaps
all_prefix_gaps-nil path [] es = (λ h. tt, λ h. refl)
all_prefix_gaps-nil path (p ∷ ps) es =
    let first = prefix_gaps path p (nums_of p es) in
    let rest = all_prefix_gaps path ps es in
    let nils = append-eq-nil first rest in
    (
      λ h. (
        (prefix_gaps-nil path p (nums_of p es)).0 (nils.0 h).0,
        (all_prefix_gaps-nil path ps es).0 (nils.0 h).1,
      ),
      λ h.
          nils.1
            ((prefix_gaps-nil path p (nums_of p es)).1 h.0, (all_prefix_gaps-nil path ps es).1 h.1),
    )

all_new : (es : List IssueRegistryEntry) → all (λ f. not (has f.id [])) es ≡ true
all_new [] = refl
all_new (e ∷ es) = all_new es

-- A registry has no gap exactly if it has entries, all of them complete and no two of one
-- identifier, and for each of the four prefixes there are issues whose numbers leave none out from 1
-- up to the greatest.
pub validate_issue_registry_iff :
    (path : Text) (es : List IssueRegistryEntry)
    → (validate_issue_registry_entries path es ≡ []) ↔ (
        (is_empty es ≡ false)
        × (distinct es ≡ true)
        × (all is_complete es ≡ true)
        × All (Numbered es) prefixes)
unfolding validate_issue_registry_entries
validate_issue_registry_iff path [] =
    (λ h. absurd (ground (arith, h)), λ h. absurd (ground (arith, h.0)))
validate_issue_registry_iff path (e ∷ es) =
    let nils =
      append-eq-nil (entries_gaps path [] (e ∷ es)) (all_prefix_gaps path prefixes (e ∷ es)) in
    let entries = entries_gaps-nil path [] (e ∷ es) in
    let numbers = all_prefix_gaps-nil path prefixes (e ∷ es) in
    (
      λ h.
          let parts = nils.0 h in
          let fine = entries.0 parts.0 in (refl, fine.1, fine.2, numbers.0 parts.1),
      λ h. nils.1 (entries.1 (all_new (e ∷ es), h.1, h.2), numbers.1 h.3),
    )
