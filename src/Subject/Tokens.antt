-- ===== src/Subject/Tokens.antt =====
-- What `validateSubjectToken` accepts.
use natsx.Base.{ℕ, true, false, List, [], ◌∷◌, is_empty, any, ◌≡◌, refl, ◌↔◌, arith, All}
use natsx.Base.Text.{Text, codes, is_space, trim_space, has_prefix, contains, contains_any}
use natsx.Base.Text.Laws.{lacks, trim-none}
use natsx.Errors.{is_nil}
use natsx.Subject.{dot, check_token, validate_subject_token, validate_tokens}

-- A token as the subject convention wants it: not empty, no dot, no wildcard, no white space.
pub record IsToken (t : Text) : Type 0 where
  pub filled : is_empty t ≡ false
  pub no_dot : lacks dot t ≡ false
  pub no_wildcard : contains_any t (codes "*>") ≡ false
  pub no_space : any is_space t ≡ false

pub contains-one : (s : Text) (c : ℕ) → contains s (c ∷ []) ≡ lacks c s
unfolding contains has_prefix
contains-one [] c = refl
contains-one (d ∷ s) c = ground (arith, contains-one s c)

pub trim_space-none : (s : Text) → any is_space s ≡ false → trim_space s ≡ s
unfolding trim_space
trim_space-none s h = trim-none is_space s h

check_token_iff : (op t : Text) → (is_nil (check_token op t) ≡ true) ↔ IsToken t
unfolding check_token
check_token_iff op t = ground (arith, contains-one t dot)

-- A token passes `validateSubjectToken` exactly when its trim is a token of the convention.
pub validate_subject_token_iff :
    (op t : Text) → (is_nil (validate_subject_token op t) ≡ true) ↔ IsToken (trim_space t)
unfolding validate_subject_token
validate_subject_token_iff op t = check_token_iff op (trim_space t)

pub validate_tokens_iff :
    (op : Text) (parts : List Text)
    → (is_nil (validate_tokens op parts) ≡ true) ↔ All (λ t. IsToken (trim_space t)) parts
unfolding validate_tokens
validate_tokens_iff op [] = ground arith
validate_tokens_iff op (t ∷ ts) =
    ground (arith, validate_subject_token_iff op t, validate_tokens_iff op ts)

pub trim_space-IsToken : {t : Text} → IsToken t → IsToken (trim_space t)
trim_space-IsToken {t} h = rw (trim_space-none t h.no_space) h
