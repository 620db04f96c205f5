-- ===== src/Subject.antt =====
-- pkg/natsx/subject.go: the builder, `BuildSubject`, `ParseSubject` and the two validators. Texts are
-- lists of code points, so a Go string that is not valid UTF-8 is outside the model.
pub mod Tokens
pub mod Shape
pub mod Parse
pub mod RoundTrip
pub mod Builder
use natsx.Base.{
  ℕ, Bool, true, false, ◌&&◌, ◌||◌, not, List, [], ◌∷◌, ◌++◌, ◌==◌, if◌then◌else◌, is_empty, any, ℤ,
  is_nonpositive, pos,
}
use natsx.Base.Text.{
  Text, codes, is_space, trim, trim_space, has_prefix, ends_with, contains, contains_any, split,
  join,
}
use natsx.Base.Decimal.{itoa, NumError, syntax, range, Number, parsed, failed, atoi}
use natsx.Errors.{
  Error, nil, foreign, num_syntax, num_range, validation_error, Result, ok, fail, returning, is_nil,
}

pub record SubjectBuilder : Type 0 where
  pub parts : List Text

pub record SubjectParts : Type 0 where
  pub domain : Text
  pub resource : Text
  pub action : Text
  pub version : ℤ

abbrev pub dot : ℕ
dot = b'.'

abbrev pub is_dot : ℕ → Bool
is_dot c = c == dot

-- The loop of `Append`.
unfoldable pub append_parts : List Text → List Text → List Text
append_parts done [] = done
append_parts done (part ∷ rest) =
    let p = trim is_dot (trim_space part) in
    append_parts (if is_empty p then done else done ++ p ∷ []) rest

unfoldable pub append : SubjectBuilder → List Text → SubjectBuilder
unfolding append_parts trim_space
append b parts = record { parts = append_parts b.parts parts }

unfoldable pub subject : List Text → SubjectBuilder
unfolding append
subject parts = append (record { parts = [] }) parts

unfoldable pub to_string : SubjectBuilder → Text
unfolding join
to_string b = join b.parts dot

-- The tests of `ValidateSubject` and of `validateSubjectToken`, in the order of the source.
unfoldable pub validate_subject : Text → Text → Error
unfolding trim_space ends_with contains has_prefix is_space validation_error
validate_subject op subject =
    if is_empty (trim_space subject)
    then validation_error op (codes "subject is required") nil
    else if any is_space subject
    then validation_error op (codes "subject must not contain whitespace") nil
    else if has_prefix subject (codes ".") || ends_with dot subject || contains subject (codes "..")
    then validation_error op (codes "subject must not contain empty tokens") nil
    else nil

-- The four tests of a token that has been trimmed.
unfoldable pub check_token : Text → Text → Error
unfolding contains contains_any is_space validation_error
check_token op token =
    if is_empty token
    then validation_error op (codes "subject token is required") nil
    else if contains token (codes ".")
    then validation_error op (codes "subject token must not contain dots") nil
    else if contains_any token (codes "*>")
    then validation_error op (codes "subject token must not contain wildcards") nil
    else if any is_space token
    then validation_error op (codes "subject token must not contain whitespace") nil
    else nil

unfoldable pub validate_subject_token : Text → Text → Error
unfolding check_token trim_space
validate_subject_token op token = check_token op (trim_space token)

-- The loop over the tokens: the first error, if there is one.
unfoldable pub validate_tokens : Text → List Text → Error
unfolding validate_subject_token
validate_tokens op [] = nil
validate_tokens op (part ∷ parts) =
    let rest = validate_tokens op parts in
    let err = validate_subject_token op part in if is_nil err then rest else err

unfoldable pub build_subject : Text → Text → Text → ℤ → Result Text
build_subject domain resource action version =
    let op = codes "natsx.BuildSubject" in
    if is_nonpositive version
    then fail (validation_error op (codes "version must be positive") nil)
    else returning (validate_tokens op (domain ∷ resource ∷ action ∷ [])) (
        ok (
          join
            (trim_space domain
              ∷ trim_space resource
              ∷ trim_space action
              ∷ (codes "v" ++ itoa version)
              ∷ [])
            dot))

-- The `*NumError` of a failed `Atoi`. Its text quotes the input, here without escapes.
unfoldable pub atoi_error : Text → NumError → Error
atoi_error input syntax =
    foreign num_syntax (codes "strconv.Atoi: parsing \"" ++ input ++ codes "\": invalid syntax") nil
atoi_error input range =
    foreign num_range (codes "strconv.Atoi: parsing \"" ++ input ++ codes "\": value out of range")
      nil

-- The end of `ParseSubject`, from `strconv.Atoi(versionPart[1:])` on.
unfoldable pub with_version : Text → SubjectParts → Number ℤ → Result SubjectParts
unfolding atoi_error validation_error
with_version input parts (failed e) = fail (
    validation_error (codes "natsx.ParseSubject") (codes "subject version must be positive")
      (atoi_error input e))
with_version input parts (parsed version) =
    if is_nonpositive version
    then fail (
        validation_error (codes "natsx.ParseSubject") (codes "subject version must be positive")
          nil)
    else ok (record parts { version = version })

abbrev pub tail_text : Text → Text
tail_text [] = []
tail_text (_ ∷ s) = s

-- The part of `ParseSubject` behind `strings.Split`.
unfoldable pub parse_parts : List Text → Result SubjectParts
unfolding has_prefix
parse_parts (domain ∷ resource ∷ action ∷ version_part ∷ []) =
    let op = codes "natsx.ParseSubject" in
    returning (validate_tokens op (domain ∷ resource ∷ action ∷ [])) (
      if not (has_prefix version_part (codes "v")) || is_empty (tail_text version_part)
      then fail (validation_error op (codes "subject version must use vN shape") nil)
      else with_version (tail_text version_part)
          (record { domain = domain; resource = resource; action = action; version = pos 0 })
          (atoi (tail_text version_part)))
parse_parts _ = fail (
    validation_error (codes "natsx.ParseSubject")
      (codes "subject must have domain.resource.action.vN shape") nil)

unfoldable pub parse_subject : Text → Result SubjectParts
parse_subject subject =
    returning (validate_subject (codes "natsx.ParseSubject") subject)
      (parse_parts (split subject dot))
