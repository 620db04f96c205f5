-- ===== src/IssueRegistry/Contiguous.antt =====
-- The numbers of the issues of cmd/goalcli/governance.go: what the loop over the sorted ones finds missing.
use natsx.Base.{
  ℕ, ◌+◌, ◌≤◌, ◌<◌, Bool, true, false, ◌||◌, List, [], ◌∷◌, none, some, ◌≡◌, refl, sym, ◌∙◌, ◌↔◌,
  inl, inr, any, ltb, ◌==◌, ==_iff, Bool-cases, Option-cases, arith,
}
use natsx.Base.Sort.{insert, sort, IsSorted, sort-IsSorted}
use natsx.IssueRegistry.Ids.{missing_after}

abbrev pub has_number : ℕ → List ℕ → Bool
has_number k ns = any (λ n. k == n) ns

any-insert : (p : ℕ → Bool) (x : ℕ) (ys : List ℕ) → any p (insert ltb x ys) ≡ (p x || any p ys)
unfolding insert
any-insert p x [] = refl
any-insert p x (y ∷ ys) = ground (arith, any-insert p x ys)

any-sort : (p : ℕ → Bool) (xs : List ℕ) → any p (sort ltb xs) ≡ any p xs
unfolding sort
any-sort p [] = refl
any-sort p (x ∷ xs) = ground (arith, any-insert p x (sort ltb xs), any-sort p xs)

-- Ascending numbers, none of them below the bound.
abbrev Ascending : ℕ → List ℕ → Type 0
Ascending last [] = Unit {0}
Ascending last (n ∷ ns) = (last ≤ n) × Ascending n ns

Ascending-tail : (n : ℕ) (ns : List ℕ) → IsSorted ltb (n ∷ ns) → Ascending n ns
Ascending-tail n [] h = tt
Ascending-tail n (m ∷ ns) h = (ground (arith, h), Ascending-tail m ns (h.1))

Ascending-sort : (xs : List ℕ) → Ascending 0 (sort ltb xs)
Ascending-sort xs = go (sort ltb xs) (sort-IsSorted ltb (λ a b h. ground (arith, h)) xs)
  where
    go : (ys : List ℕ) → IsSorted ltb ys → Ascending 0 ys
    go [] h = tt
    go (y ∷ ys) h = (omega arith, Ascending-tail y ys h)

below_all : (k n : ℕ) (ns : List ℕ) → Ascending n ns → k < n → has_number k ns ≡ false
below_all k n [] h less = refl
below_all k n (m ∷ ns) h less = ground (arith, h.0, less, below_all k m ns h.1)

-- A number above the bound that is not there, with a greater one that is.
abbrev Hole : ℕ → List ℕ → Type 0
Hole last ns =
    (k : ℕ) × (n : ℕ) × (last < k) × (k < n) × (has_number n ns ≡ true) × (has_number k ns ≡ false)

missing_after-Hole :
    (last m : ℕ) (ns : List ℕ) → Ascending last ns → missing_after last ns ≡ some m → Hole last ns
unfolding missing_after
missing_after-Hole last m [] h e = absurd (ground (arith, e))
missing_after-Hole last m (n ∷ ns) h e = elim (Bool-cases (n == last)) [
  | inl same ↦
      let e₁ : missing_after last ns ≡ some m = rw same at e in
      let h₁ : Ascending last ns = rw ((==_iff n last).0 same) at (h.1) in
      let it = missing_after-Hole last m ns h₁ e₁ in
      (it.0, it.1, it.2, it.3, ground (arith, it.4), ground (arith, it.2, it.5, same))
  | inr other ↦ elim (Bool-cases (n == last + 1)) [
    | inl next ↦
        let e₁ : missing_after n ns ≡ some m = rw (other, next) at e in
        let it = missing_after-Hole n m ns h.1 e₁ in
        (
          it.0,
          it.1,
          omega (arith, it.2, (==_iff n (last + 1)).0 next),
          it.3,
          ground (arith, it.4),
          ground (arith, it.2, it.5),
        )
    | inr gap ↦
        let less : last + 1 < n = ground (arith, other, gap, h.0) in
        (
          last + 1,
          n,
          omega arith,
          less,
          ground arith,
          ground (arith, less, below_all (last + 1) n ns h.1 less),
        )
  ]
]

no_Hole :
    (last k n : ℕ) (ns : List ℕ)
    → Ascending last ns
    → missing_after last ns ≡ none
    → last < k
    → k ≤ n
    → has_number n ns ≡ true
    → has_number k ns ≡ true
unfolding missing_after
no_Hole last k n [] h e less le m = absurd (ground (arith, m))
no_Hole last k n (x ∷ ns) h e less le m = elim (Bool-cases (x == last)) [
  | inl same ↦
      let e₁ : missing_after last ns ≡ none = rw same at e in
      let h₁ : Ascending last ns = rw ((==_iff x last).0 same) at (h.1) in
      let m₁ : has_number n ns ≡ true = ground (arith, m, same, less, le) in
      ground (arith, no_Hole last k n ns h₁ e₁ less le m₁)
  | inr other ↦ elim (Bool-cases (x == last + 1)) [
    | inl next ↦ elim (Bool-cases (k == x)) [
      | inl found ↦ rw found refl
      | inr later ↦
          let e₁ : missing_after x ns ≡ none = rw (other, next) at e in
          let less₁ : x < k = ground (arith, next, later, less) in
          let m₁ : has_number n ns ≡ true = ground (arith, m, less₁, le) in
          ground (arith, no_Hole x k n ns h.1 e₁ less₁ le m₁)
    ]
    | inr gap ↦
        let e₁ : some (last + 1) ≡ none = rw (other, gap) at e in absurd (ground (arith, e₁))
  ]
]

-- No number from 1 up to one of them is missing among them.
abbrev pub NoGap : List ℕ → Type 0
NoGap ns =
    ¬ ((k : ℕ) × (n : ℕ) × (1 ≤ k) × (k ≤ n) × (has_number n ns ≡ true) × (has_number k ns ≡ false))

-- The loop over the sorted numbers finds none missing exactly if there is no number from 1 up to one of
-- them that is not among them.
pub missing_after_iff : (ns : List ℕ) → (missing_after 0 (sort ltb ns) ≡ none) ↔ NoGap ns
missing_after_iff ns = (
  λ e it.
      let m : has_number it.1 (sort ltb ns) ≡ true = any-sort (λ n. it.1 == n) ns ∙ it.4 in
      let found =
        no_Hole 0 it.0 it.1 (sort ltb ns) (Ascending-sort ns) e (omega (arith, it.2)) it.3 m in
      absurd (ground (arith, found, any-sort (λ n. it.0 == n) ns, it.5)),
  λ no. elim (Option-cases (missing_after 0 (sort ltb ns))) [
    | inl none_missing ↦ none_missing
    | inr some_missing ↦
        let it =
          missing_after-Hole 0 some_missing.0 (sort ltb ns) (Ascending-sort ns) some_missing.1 in
        absurd (
          no (
            it.0,
            it.1,
            it.2,
            omega (arith, it.3),
            sym (any-sort (λ n. it.1 == n) ns) ∙ it.4,
            sym (any-sort (λ n. it.0 == n) ns) ∙ it.5,
          ))
  ],
)
