-- ===== src/Debt/Yaml.antt =====
-- `hasYAMLScalarLine` and the order of the findings of `scanDownstreamDebt` in
-- internal/debtcheck/debtcheck.go.
use natsx.Base.{
  Bool, true, false, List, [], ◌∷◌, ◌++◌, ◌≡◌, refl, ◌∙◌, ap, ◌↔◌, inl, inr, arith, Bool-cases, any,
  text_eq, text_eq_iff,
}
use natsx.Base.Text.{Text, codes, has_prefix, trim_prefix, trim_space, split}
use natsx.Base.Sort.{IsSorted, sort-IsSorted, sort-perm, text_less_asym}
use natsx.Debt.Tree.{Disk, Finding}
use natsx.Debt.Scan.{finding_less}
use natsx.Debt.Downstream.{is_yaml_scalar_line, has_yaml_scalar_line}
use natsx.Debt.Contract.{collect_downstream, scan_downstream_debt}
use mathlib.Core.List.{Memᴰ, Perm}
use mathlib.Core.List.Memᴰ

finding_less_asym : (a b : Finding) → finding_less a b ≡ true → finding_less b a ≡ false
unfolding finding_less
finding_less_asym a b h = ground (
  arith,
  h,
  text_eq_iff a.path b.path,
  text_eq_iff b.path a.path,
  text_less_asym a.path b.path,
  text_less_asym a.id b.id,
)

-- The findings of the downstream scan are what was collected, in the order of paths and identifiers.
pub scan_downstream_debt-IsSorted :
    (d : Disk) (root : Text)
    → IsSorted finding_less (scan_downstream_debt d root)
      × Perm (scan_downstream_debt d root) (collect_downstream d root)
unfolding scan_downstream_debt
scan_downstream_debt-IsSorted d root =
    let found = collect_downstream d root in
    (sort-IsSorted finding_less finding_less_asym found, sort-perm finding_less found)

has_prefix_append : (t r : Text) → has_prefix (t ++ r) t ≡ true
unfolding has_prefix
has_prefix_append [] r = ground arith
has_prefix_append (d ∷ t) r = ground (arith, has_prefix_append t r)

trim_prefix-append : (t r : Text) → trim_prefix (t ++ r) t ≡ r
unfolding trim_prefix
trim_prefix-append [] r = ground arith
trim_prefix-append (d ∷ t) r = ground (arith, trim_prefix-append t r, has_prefix_append (d ∷ t) r)

append-trim_prefix : (s t : Text) → has_prefix s t ≡ true → s ≡ t ++ trim_prefix s t
unfolding has_prefix trim_prefix
append-trim_prefix s [] h = ground arith
append-trim_prefix [] (d ∷ t) h = ground arith
append-trim_prefix (c ∷ s) (d ∷ t) h = ground (arith, h, append-trim_prefix s t)

mem-any :
    (p : Text → Bool) (xs : List Text) → any p xs ≡ true → (x : Text) × Memᴰ x xs × (p x ≡ true)
mem-any p [] h = ground (arith, h)
mem-any p (x ∷ xs) h = elim (Bool-cases (p x)) [
  | inl holds ↦ (x, Memᴰ.head refl, holds)
  | inr fails ↦ let it = mem-any p xs (ground (arith, h, fails)) in (it.0, Memᴰ.tail it.1, it.2)
]

any-mem : (p : Text → Bool) (x : Text) (xs : List Text) → Memᴰ x xs → p x ≡ true → any p xs ≡ true
any-mem p x [] m h = absurd (Memᴰ.not-nil m)
any-mem p x (y ∷ ys) m h = elim (Memᴰ.cases_cons m) [
  | inl e ↦ let h₁ : p y ≡ true = rw e at h in rw h₁ refl
  | inr m' ↦ ground (arith, any-mem p x ys m' h)
]

-- A line that is, once trimmed, the key, a colon and a text that trims to the value, and no comment.
abbrev pub Sets : Text → Text → Text → Type 0
Sets key value line =
    (rest : Text) × (trim_space line ≡ (key ++ codes ":") ++ rest)
    × (trim_space rest ≡ value)
    × (has_prefix (trim_space line) (codes "#") ≡ false)

Sets-is_yaml_scalar_line :
    (key value line : Text) → (is_yaml_scalar_line key value line ≡ true) ↔ Sets key value line
unfolding is_yaml_scalar_line
Sets-is_yaml_scalar_line key value line =
    let t = trim_space line in
    let k = key ++ codes ":" in
    (
      λ h.
          let prefix : has_prefix t k ≡ true = ground (arith, h) in
          let plain : has_prefix t (codes "#") ≡ false = ground (arith, h) in
          let same : text_eq (trim_space (trim_prefix t k)) value ≡ true = ground (arith, h) in
          (
            trim_prefix t k,
            append-trim_prefix t k prefix,
            (text_eq_iff (trim_space (trim_prefix t k)) value).0 same,
            plain,
          ),
      λ it.
          let rest = it.0 in
          let prefix : has_prefix t k ≡ true = rw (it.1) (has_prefix_append k rest) in
          let cut : trim_prefix t k ≡ rest = rw (it.1) (trim_prefix-append k rest) in
          let same : text_eq (trim_space (trim_prefix t k)) value ≡ true =
            (text_eq_iff (trim_space (trim_prefix t k)) value).1 (ap trim_space cut ∙ it.2) in
          rw (it.3, prefix, same) refl,
    )

-- `hasYAMLScalarLine` holds exactly if some line of the text sets the key to the value.
pub has_yaml_scalar_line_iff :
    (text key value : Text)
    → (has_yaml_scalar_line text key value ≡ true)
      ↔ ((line : Text) × Memᴰ line (split text b'\n') × Sets key value line)
unfolding has_yaml_scalar_line
has_yaml_scalar_line_iff text key value =
    let lines = split text b'\n' in
    let p = is_yaml_scalar_line key value in
    (
      λ h.
          let it = mem-any p lines h in
          (it.0, it.1, (Sets-is_yaml_scalar_line key value it.0).0 it.2),
      λ it. any-mem p it.0 lines it.1 ((Sets-is_yaml_scalar_line key value it.0).1 it.2),
    )
