-- ===== src/Subject/Shape.antt =====
-- What `ValidateSubject` accepts, in terms of the tokens between the dots.
use natsx.Base.{true, false, ◌||◌, List, [], ◌∷◌, is_empty, any, ◌≡◌, refl, ◌↔◌, arith}
use natsx.Base.Text.{Text, codes, is_space, has_prefix, ends_with, contains, split}
use natsx.Errors.{is_nil}
use natsx.Subject.{dot, validate_subject}
use natsx.Subject.Tokens.{trim_space-none}

abbrev tail : List Text → List Text
tail [] = []
tail (_ ∷ ps) = ps

-- The first part of a split is empty exactly at an empty text and at one that starts with a dot.
any_empty-split :
    (s : Text)
    → any is_empty (split s dot)
      ≡ (is_empty s || has_prefix s (codes ".") || any is_empty (tail (split s dot)))
unfolding split has_prefix
any_empty-split [] = refl
any_empty-split (c ∷ s) = ground arith

tail-split :
    (s : Text) → any is_empty (tail (split s dot)) ≡ (ends_with dot s || contains s (codes ".."))
unfolding split ends_with contains
tail-split [] = refl
tail-split (c ∷ s) = ground (arith, any_empty-split s, tail-split s)

-- A subject that names something between every two dots, and holds no white space.
pub record IsSubject (s : Text) : Type 0 where
  pub no_space : any is_space s ≡ false
  pub no_empty_token : any is_empty (split s dot) ≡ false

split-nil : split [] dot ≡ [] ∷ []
unfolding split
split-nil = refl

-- `ValidateSubject` accepts exactly the texts without white space whose tokens, as `strings.Split`
-- cuts them at the dots, are all non-empty.
pub validate_subject_iff : (op s : Text) → (is_nil (validate_subject op s) ≡ true) ↔ IsSubject s
unfolding validate_subject
validate_subject_iff op [] = ground (arith, split-nil)
validate_subject_iff op (c ∷ s) =
    ground (arith, any_empty-split (c ∷ s), tail-split (c ∷ s), trim_space-none (c ∷ s))
