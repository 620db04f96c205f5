-- ===== src/Tests/Subjects.antt =====
-- Subjects, envelopes and errors at concrete inputs.
use natsx.Base.{pos, true, false, [], ◌∷◌, some, ◌≡◌, refl, ◌↔◌, arith, lookup, put}
use natsx.Base.Text.{
  Text, codes, is_space, trim, trim_left, trim_right, trim_space, has_prefix, contains,
  contains_any, split, join, equal_fold,
}
use natsx.Base.Decimal.{itoa, atoi}
use natsx.Errors.{is_nil, ok}
use natsx.Subject.{SubjectParts, validate_tokens, build_subject, parse_subject, validate_subject}
use natsx.Subject.Tokens.{IsToken}
use natsx.Subject.Shape.{IsSubject, validate_subject_iff}
use natsx.Subject.Parse.{parse_subject_iff}
use natsx.Subject.RoundTrip.{parse_subject-build_subject, parse_subject_plus}
use natsx.Nats.Header.{plain_headers, values}
use natsx.Envelope.{Envelope, to_msg, envelope_from_msg}
use natsx.Envelope.RoundTrip.{IsCustom, envelope_from_msg-to_msg}
use natsx.Tests.Support.{sample_envelope}

texts : Unit {0}
unfolding build_subject validate_tokens parse_subject split join trim trim_left trim_right
    trim_space is_space has_prefix contains contains_any itoa atoi equal_fold lookup put
texts = tt

abbrev orders : SubjectParts
orders = record {
  domain = codes "orders";
  resource = codes "item";
  action = codes "create";
  version = pos 1;
}

abbrev orders_subject : Text
orders_subject = codes "orders.item.create.v1"

orders-IsToken : IsToken (codes "orders")
unfolding texts
orders-IsToken = record { filled = refl; no_dot = refl; no_wildcard = refl; no_space = refl }

item-IsToken : IsToken (codes "item")
unfolding texts
item-IsToken = record { filled = refl; no_dot = refl; no_wildcard = refl; no_space = refl }

create-IsToken : IsToken (codes "create")
unfolding texts
create-IsToken = record { filled = refl; no_dot = refl; no_wildcard = refl; no_space = refl }

build_test :
    build_subject (codes " orders") (codes "item") (codes "create") (pos 1) ≡ ok orders_subject
unfolding texts
build_test = refl

refused_tests :
    (is_nil (validate_subject [] (codes "a..b")) ≡ false)
    × (is_nil (validate_subject [] (codes "a b")) ≡ false)
    × (is_nil (validate_subject [] (codes "a.b")) ≡ true)
unfolding validate_subject texts
refused_tests = (refl, refl, refl)

parse_subject-build_subject_example : parse_subject orders_subject ≡ ok orders
unfolding texts
parse_subject-build_subject_example =
    parse_subject-build_subject (codes " orders") (codes "item") (codes "create") 1 (omega arith)
      build_test

parse_subject_iff_example : parse_subject (codes "orders.item.create.v1") ≡ ok orders
unfolding texts
parse_subject_iff_example =
    (parse_subject_iff orders_subject orders).1
      (orders-IsToken, item-IsToken, create-IsToken, (codes "1", 0, refl, refl, refl))

parse_subject_plus_example :
    parse_subject (codes "orders.item.create.v+1") ≡ parse_subject (codes "orders.item.create.v1")
unfolding texts
parse_subject_plus_example =
    parse_subject_plus (codes "orders") (codes "item") (codes "create") 0 orders-IsToken
      item-IsToken create-IsToken (omega arith)

validate_subject_iff_example :
    (is_nil (validate_subject [] orders_subject) ≡ true) ↔ IsSubject orders_subject
validate_subject_iff_example = validate_subject_iff [] orders_subject

sample-IsCustom : IsCustom sample_envelope.headers
unfolding texts
sample-IsCustom = ((refl, tt), ((refl, tt), ((refl, tt), ((refl, tt), tt))))

abbrev arrived : Envelope
arrived = envelope_from_msg plain_headers (some (to_msg plain_headers sample_envelope))

envelope_from_msg-to_msg_example :
    (arrived.subject ≡ orders_subject)
    × (arrived.reply ≡ [])
    × (arrived.payload ≡ 1 ∷ 2 ∷ [])
    × (arrived.event_id ≡ codes "e1")
    × (arrived.message_id ≡ [])
    × (arrived.schema_version ≡ [])
    × (arrived.trace_id ≡ [])
    × (values (codes "X-Tenant") arrived.headers
        ≡ values (codes "X-Tenant") sample_envelope.headers)
envelope_from_msg-to_msg_example =
    envelope_from_msg-to_msg plain_headers sample_envelope sample-IsCustom
      (unfold lookup in (refl, tt)) (codes "X-Tenant") (refl, (refl, (refl, (refl, tt))))
