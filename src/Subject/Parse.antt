-- ===== src/Subject/Parse.antt =====
-- What `ParseSubject` accepts, and what it returns.
use natsx.Base.{
  ℕ, zero, suc, true, false, ◌||◌, not, List, [], ◌∷◌, ◌==◌, is_empty, any, any-append, ◌≡◌, refl,
  sym, ◌∙◌, ◌↔◌, arith, ℤ, pos, negsuc, All, Bool-cases, ap, inl, inr,
}
use natsx.Base.Text.{Text, codes, is_space, trim_space, has_prefix, split, join}
use natsx.Base.Text.Laws.{lacks, split-lacks, split-append, join-split}
use natsx.Base.Decimal.{atoi, is_digit, parsed, failed, Number}
use natsx.Base.Decimal.Laws.{atoi-any}
use natsx.Errors.Chain.{returning-eq-ok}
use natsx.Errors.{is_nil, ok}
use natsx.Subject.{
  dot, SubjectParts, validate_subject, validate_tokens, parse_subject, parse_parts, with_version,
  tail_text,
}
use natsx.Subject.Tokens.{IsToken, validate_tokens_iff, trim_space-none, trim_space-IsToken}
use natsx.Subject.Shape.{IsSubject, validate_subject_iff}

split-no_space :
    (s : Text) → any is_space s ≡ false → All (λ t. any is_space t ≡ false) (split s dot)
unfolding split
split-no_space [] h = (refl, tt)
split-no_space (c ∷ s) h = ground (arith, split-no_space s)

-- A text that starts with `v` and goes on.
version_part_shape :
    (v : Text)
    → (not (has_prefix v (codes "v")) || is_empty (tail_text v)) ≡ false
    → v ≡ b'v' ∷ tail_text v
unfolding has_prefix
version_part_shape [] h = cc
version_part_shape (c ∷ w) h = ground arith

with_version_sound :
    (input : Text) (parts : SubjectParts) (number : Number ℤ) {p : SubjectParts}
    → with_version input parts number ≡ ok p
    → (n : ℕ) × (number ≡ parsed (pos (suc n))) × (p ≡ record parts { version = pos (suc n) })
unfolding with_version
with_version_sound input parts (failed e) h = cc
with_version_sound input parts (parsed (pos zero)) h = cc
with_version_sound input parts (parsed (pos (suc n))) h = (n, refl, ground arith)
with_version_sound input parts (parsed (negsuc n)) h = cc

-- What a successful `parse_parts` has seen.
record Parsed (parts : List Text) (p : SubjectParts) : Type 0 where
  word : Text
  number : ℕ
  same_parts : parts ≡ p.domain ∷ p.resource ∷ p.action ∷ (b'v' ∷ word) ∷ []
  valid :
      is_nil (validate_tokens (codes "natsx.ParseSubject") (p.domain ∷ p.resource ∷ p.action ∷ []))
      ≡ true
  same_version : p.version ≡ pos (suc number)
  read : atoi word ≡ parsed (pos (suc number))

parse_parts_sound :
    (parts : List Text) (p : SubjectParts) → parse_parts parts ≡ ok p → Parsed parts p
unfolding parse_parts
parse_parts_sound [] p h = cc
parse_parts_sound (d ∷ []) p h = cc
parse_parts_sound (d ∷ r ∷ []) p h = cc
parse_parts_sound (d ∷ r ∷ a ∷ []) p h = cc
parse_parts_sound (d ∷ r ∷ a ∷ v ∷ x ∷ more) p h = cc
parse_parts_sound (d ∷ r ∷ a ∷ v ∷ []) p h =
    let (valid, rest) =
      returning-eq-ok (validate_tokens (codes "natsx.ParseSubject") (d ∷ r ∷ a ∷ [])) _ h in
    elim (Bool-cases (not (has_prefix v (codes "v")) || is_empty (tail_text v))) [
      | inl bad ↦ absurd (unfold has_prefix in cc (rw bad at rest))
      | inr good ↦
          let (n, reads, same) = with_version_sound _ _ _ (rw good at rest) in
          rw same (record {
            word = tail_text v;
            number = n;
            same_parts = ap (λ t. d ∷ r ∷ a ∷ t ∷ []) (version_part_shape v good);
            valid = valid;
            same_version = refl;
            read = reads;
          })
    ]

-- The tokens of a subject without white space are their own trims.
IsToken-of_trim : {t : Text} → IsToken (trim_space t) → any is_space t ≡ false → IsToken t
IsToken-of_trim {t} h e = rw (← trim_space-none t e) h

-- What `ParseSubject` accepts has the shape `domain.resource.action.vN`: the three parts are
-- tokens, the text is the join of these and of `v` with a word, and the word is read by
-- `strconv.Atoi` as the version, which is positive.
parse_subject_sound :
    (subject : Text) (p : SubjectParts)
    → parse_subject subject ≡ ok p
    → IsToken p.domain
      × IsToken p.resource
      × IsToken p.action
      × ((word : Text) × (n : ℕ) × (subject
            ≡ join (p.domain ∷ p.resource ∷ p.action ∷ (b'v' ∷ word) ∷ []) dot)
          × (p.version ≡ pos (suc n))
          × (atoi word ≡ parsed (pos (suc n))))
unfolding parse_subject
parse_subject_sound subject p h =
    let (good, rest) =
      returning-eq-ok (validate_subject (codes "natsx.ParseSubject") subject) _ h in
    let shape = (validate_subject_iff (codes "natsx.ParseSubject") subject).0 good in
    let found = parse_parts_sound (split subject dot) p rest in
    let clean = rw found.same_parts at (split-no_space subject shape.no_space) in
    let tokens =
      (validate_tokens_iff (codes "natsx.ParseSubject") (p.domain ∷ p.resource ∷ p.action ∷ [])).0
        found.valid in
    (
      IsToken-of_trim tokens.0 clean.0,
      IsToken-of_trim tokens.1.0 clean.1.0,
      IsToken-of_trim tokens.1.1.0 clean.1.1.0,
      (
        found.word,
        found.number,
        sym (join-split dot subject) ∙ ap (λ parts. join parts dot) found.same_parts,
        found.same_version,
        found.read,
      ),
    )

digit-no_space : (c : ℕ) → is_digit c ≡ true → is_space c ≡ false
unfolding is_space
digit-no_space c h = ground arith

digit-no_dot : (c : ℕ) → is_digit c ≡ true → (c == dot) ≡ false
digit-no_dot c h = ground arith

module _ (d r a w : Text) (n : ℕ) (hd : IsToken d) (hr : IsToken r) (ha : IsToken a)
    (read : atoi w ≡ parsed (pos (suc n))) where
  abbrev subject_text : Text
  subject_text = join (d ∷ r ∷ a ∷ (b'v' ∷ w) ∷ []) dot

  version_lacks : lacks dot (b'v' ∷ w) ≡ false
  version_lacks = atoi-any (λ c. c == dot) digit-no_dot refl refl w read

  version_no_space : any is_space (b'v' ∷ w) ≡ false
  unfolding is_space
  version_no_space = atoi-any is_space digit-no_space refl refl w read

  split-subject_text : split subject_text dot ≡ d ∷ r ∷ a ∷ (b'v' ∷ w) ∷ []
  unfolding join
  split-subject_text =
      rw
        (
          split-append dot d _ hd.no_dot,
          split-append dot r _ hr.no_dot,
          split-append dot a _ ha.no_dot,
        )
        (rw (split-lacks dot (b'v' ∷ w) version_lacks))

  subject_text-no_space : any is_space subject_text ≡ false
  unfolding is_space join
  subject_text-no_space = simp (any-append, hd.no_space, hr.no_space, ha.no_space) version_no_space

  subject_text-IsSubject : IsSubject subject_text
  subject_text-IsSubject = record {
    no_space = subject_text-no_space;
    no_empty_token = rw split-subject_text (ground (arith, hd.filled, hr.filled, ha.filled));
  }

  word-filled : is_empty w ≡ false
  unfolding atoi
  word-filled = ground (arith, read)

  tokens-valid : is_nil (validate_tokens (codes "natsx.ParseSubject") (d ∷ r ∷ a ∷ [])) ≡ true
  tokens-valid =
      (validate_tokens_iff (codes "natsx.ParseSubject") (d ∷ r ∷ a ∷ [])).1
        (trim_space-IsToken hd, (trim_space-IsToken hr, (trim_space-IsToken ha, tt)))

  parse_parts_complete :
      parse_parts (d ∷ r ∷ a ∷ (b'v' ∷ w) ∷ [])
      ≡ ok (record { domain = d; resource = r; action = a; version = pos (suc n) })
  unfolding parse_parts with_version
  parse_parts_complete = rw (tokens-valid, word-filled, read)

  parse_subject_complete :
      parse_subject subject_text
      ≡ ok (record { domain = d; resource = r; action = a; version = pos (suc n) })
  unfolding parse_subject
  parse_subject_complete =
      rw ((validate_subject_iff (codes "natsx.ParseSubject") subject_text).1 subject_text-IsSubject)
        (rw split-subject_text parse_parts_complete)

-- `ParseSubject` accepts exactly the texts `domain.resource.action.vN`: three tokens of the
-- convention and a `v` before a word that `strconv.Atoi` reads as a positive integer, joined by
-- dots; and it returns these tokens and that integer.
pub parse_subject_iff :
    (subject : Text) (p : SubjectParts)
    → (parse_subject subject ≡ ok p) ↔ (
        IsToken p.domain
        × IsToken p.resource
        × IsToken p.action
        × ((word : Text) × (n : ℕ) × (subject
              ≡ join (p.domain ∷ p.resource ∷ p.action ∷ (b'v' ∷ word) ∷ []) dot)
            × (p.version ≡ pos (suc n))
            × (atoi word ≡ parsed (pos (suc n)))))
parse_subject_iff subject p = (
  parse_subject_sound subject p,
  λ (hd, hr, ha, found).
      let (word, n, same, version, read) = found in
      rw same (
        parse_subject_complete p.domain p.resource p.action word n hd hr ha read
        ∙ ap (λ v. ok (record p { version = v })) (sym version)),
)
