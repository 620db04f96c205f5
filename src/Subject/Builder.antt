-- ===== src/Subject/Builder.antt =====
-- The `SubjectBuilder`: appending in pieces, and the subjects that tokens build.
use natsx.Base.{
  false, List, [], ◌∷◌, ◌++◌, append_assoc, append-nil, sym, is_empty, any, any-append, ◌≡◌, refl,
  All,
}
use natsx.Base.Text.{Text, is_space, join, split}
use natsx.Base.Text.Laws.{lacks, trim-none, split-join}
use natsx.Subject.{dot, is_dot, SubjectBuilder, append_parts, append, subject, to_string}
use natsx.Subject.Tokens.{IsToken, trim_space-none}
use natsx.Subject.Shape.{IsSubject}

append_parts-append :
    (done xs ys : List Text) → append_parts done (xs ++ ys) ≡ append_parts (append_parts done xs) ys
unfolding append_parts
append_parts-append done [] ys = refl
append_parts-append done (x ∷ xs) ys = append_parts-append (append_parts done (x ∷ [])) xs ys

-- Appending parts in two calls is appending them in one.
pub append-append :
    (b : SubjectBuilder) (xs ys : List Text) → append (append b xs) ys ≡ append b (xs ++ ys)
unfolding append
append-append b xs ys = rw (append_parts-append b.parts xs ys)

append_parts_of_tokens :
    (done parts : List Text) → All IsToken parts → append_parts done parts ≡ done ++ parts
unfolding append_parts
append_parts_of_tokens done [] _ = sym (append-nil done)
append_parts_of_tokens done (p ∷ ps) (h, hs) =
    rw (trim_space-none p h.no_space, trim-none is_dot p h.no_dot, h.filled)
      (rw (append_parts_of_tokens (done ++ p ∷ []) ps hs) (append_assoc done (p ∷ []) ps))

join-no_space : (ps : List Text) → All IsToken ps → any is_space (join ps dot) ≡ false
unfolding join is_space
join-no_space [] _ = refl
join-no_space (p ∷ []) (h, _) = h.no_space
join-no_space (p ∷ q ∷ ps) (h, hs) =
    rw (any-append is_space p _, h.no_space) (join-no_space (q ∷ ps) hs)

tokens_lack : (ps : List Text) → All IsToken ps → All (λ t. lacks dot t ≡ false) ps
tokens_lack [] _ = tt
tokens_lack (p ∷ ps) (h, hs) = (h.no_dot, tokens_lack ps hs)

tokens_filled : (ps : List Text) → All IsToken ps → any is_empty ps ≡ false
tokens_filled [] _ = refl
tokens_filled (p ∷ ps) (h, hs) = rw h.filled (tokens_filled ps hs)

-- `Subject(tokens...).String()` of at least one token is a subject that `ValidateSubject` accepts,
-- and its tokens are those given.
pub subject-IsSubject :
    (p : Text) (ps : List Text)
    → All IsToken (p ∷ ps)
    → IsSubject (to_string (subject (p ∷ ps))) × (split (to_string (subject (p ∷ ps))) dot ≡ p ∷ ps)
unfolding subject to_string
subject-IsSubject p ps h = rw (append_parts_of_tokens [] (p ∷ ps) h) (
  record {
    no_space = join-no_space (p ∷ ps) h;
    no_empty_token = rw (split-join dot p ps (tokens_lack (p ∷ ps) h)) (tokens_filled (p ∷ ps) h);
  },
  split-join dot p ps (tokens_lack (p ∷ ps) h),
)
