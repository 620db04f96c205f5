-- ===== src/IssueRegistry/Ids.antt =====
-- `validateIssueRegistryEntries` of cmd/goalcli/governance.go.
use natsx.Base.{
  ℕ, ◌+◌, ◌-◌, ◌*◌, Bool, true, false, ◌&&◌, not, List, [], ◌∷◌, ◌++◌, Option, none, some, any,
  text_eq, ltb, ◌==◌, if◌then◌else◌,
}
use natsx.Base.Text.{Text, codes}
use natsx.Base.Decimal.{format_nat, is_digit}
use natsx.Base.Sort.{sort}
use natsx.IssueRegistry.{
  IssueRegistryEntry, parse_issue_registry_entries, block_yaml_value,
  block_has_non_empty_yaml_value, block_has_evidence,
}

abbrev pub prefixes : List Text
prefixes = codes "P0" ∷ codes "P1" ∷ codes "P2" ∷ codes "CTX" ∷ []

-- What the regular expression takes after the prefix: a dash and three digits, to the end.
unfoldable pub three_digits : Text → Option ℕ
three_digits (dash ∷ a ∷ b ∷ c ∷ []) =
    if dash == b'-' && is_digit a && is_digit b && is_digit c
    then some ((a - b'0') * 100 + (b - b'0') * 10 + (c - b'0'))
    else none
three_digits _ = none

unfoldable pub number_after : Text → Text → Option ℕ
unfolding three_digits
number_after [] id = three_digits id
number_after (p ∷ prefix) [] = none
number_after (p ∷ prefix) (c ∷ id) = if p == c then number_after prefix id else none

-- `issueRegistryIDPattern`: the prefix and the number of an identifier.
unfoldable pub match_id : List Text → Text → Option (Text × ℕ)
unfolding number_after
match_id [] id = none
match_id (prefix ∷ rest) id = elim (number_after prefix id) [
  | some n ↦ some (prefix, n)
  | none ↦ match_id rest id
]

abbrev pub gap_if : Bool → Text → List Text
gap_if true gap = gap ∷ []
gap_if false gap = []

abbrev pub is_implemented : Option Text → Bool
is_implemented none = false
is_implemented (some status) = text_eq status (codes "implemented")

-- The gaps of an entry whose identifier is well formed.
unfoldable pub field_gaps : Text → IssueRegistryEntry → List Text
field_gaps path e =
    gap_if (not (block_has_non_empty_yaml_value e.block (codes "title")))
      (path ++ codes " " ++ e.id ++ codes " missing title")
    ++ (gap_if (not (is_implemented (block_yaml_value e.block (codes "status"))))
          (path ++ codes " " ++ e.id ++ codes " status must be implemented")
        ++ (gap_if (not (block_has_non_empty_yaml_value e.block (codes "command")))
              (path ++ codes " " ++ e.id ++ codes " missing command")
            ++ gap_if (not (block_has_evidence e.block))
                (path ++ codes " " ++ e.id ++ codes " missing evidence")))

abbrev pub has : Text → List Text → Bool
has x xs = any (text_eq x) xs

unfoldable pub gaps_of_match : Text → IssueRegistryEntry → Option (Text × ℕ) → List Text
unfolding field_gaps
gaps_of_match path e none = (path ++ codes " invalid issue id " ++ e.id) ∷ []
gaps_of_match path e (some _) = field_gaps path e

unfoldable pub entry_gaps : Text → IssueRegistryEntry → List Text
unfolding gaps_of_match match_id
entry_gaps path e = gaps_of_match path e (match_id prefixes e.id)

-- The loop over the entries, with `seen`.
unfoldable pub entries_gaps : Text → List Text → List IssueRegistryEntry → List Text
unfolding entry_gaps
entries_gaps path seen [] = []
entries_gaps path seen (e ∷ es) =
    gap_if (has e.id seen) (path ++ codes " duplicate issue id " ++ e.id)
    ++ (entry_gaps path e ++ entries_gaps path (e.id ∷ seen) es)

-- `numsByPrefix[prefix]`
unfoldable pub nums_of : Text → List IssueRegistryEntry → List ℕ
unfolding match_id
nums_of prefix [] = []
nums_of prefix (e ∷ es) =
    let rest = nums_of prefix es in
    elim (match_id prefixes e.id) [
      | none ↦ rest
      | some found ↦ if text_eq found.0 prefix then found.1 ∷ rest else rest
    ]

-- The loop over the sorted numbers: the number that is missing after `last`, if one is.
unfoldable pub missing_after : ℕ → List ℕ → Option ℕ
missing_after last [] = none
missing_after last (num ∷ nums) =
    let same = missing_after last nums in
    let next = missing_after num nums in
    if num == last then same else if not (num == last + 1) then some (last + 1) else next

-- `%03d`
unfoldable pub pad_three : ℕ → Text
pad_three n = (if ltb n 10 then codes "00" else if ltb n 100 then codes "0" else []) ++ format_nat n

unfoldable pub gaps_of_missing : Text → Text → Option ℕ → List Text
unfolding pad_three
gaps_of_missing path prefix none = []
gaps_of_missing path prefix (some missing) =
    (path
      ++ codes " "
      ++ prefix
      ++ codes " ids must be contiguous; missing "
      ++ prefix
      ++ codes "-"
      ++ pad_three missing)
    ∷ []

unfoldable pub prefix_gaps : Text → Text → List ℕ → List Text
unfolding missing_after gaps_of_missing
prefix_gaps path prefix [] = (path ++ codes " missing " ++ prefix ++ codes "-001") ∷ []
prefix_gaps path prefix (n ∷ ns) = gaps_of_missing path prefix (missing_after 0 (sort ltb (n ∷ ns)))

unfoldable pub all_prefix_gaps : Text → List Text → List IssueRegistryEntry → List Text
unfolding prefix_gaps nums_of
all_prefix_gaps path [] es = []
all_prefix_gaps path (prefix ∷ rest) es =
    prefix_gaps path prefix (nums_of prefix es) ++ all_prefix_gaps path rest es

unfoldable pub validate_issue_registry_entries : Text → List IssueRegistryEntry → List Text
unfolding entries_gaps all_prefix_gaps
validate_issue_registry_entries path [] = (path ++ codes " must contain issue entries") ∷ []
validate_issue_registry_entries path (e ∷ es) =
    entries_gaps path [] (e ∷ es) ++ all_prefix_gaps path prefixes (e ∷ es)

-- What `appendIssueRegistryGaps` appends, for a file that cannot be read or has that text.
unfoldable pub issue_registry_gaps : Text → Option Text → List Text
unfolding validate_issue_registry_entries
issue_registry_gaps path none = (codes "missing " ++ path) ∷ []
issue_registry_gaps path (some content) =
    validate_issue_registry_entries path (parse_issue_registry_entries content)
