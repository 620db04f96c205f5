-- ===== src/Envelope.antt =====
-- pkg/natsx/envelope.go. Go copies slices here (`append([]byte(nil), …)`); values of the model are
-- never shared, so a copy is the value itself.
pub mod Headers
pub mod RoundTrip
use natsx.Base.{
  ℕ, Bool, true, false, ◌&&◌, ◌||◌, not, List, [], ◌∷◌, ◌++◌, Option, none, some, if◌then◌else◌,
  is_empty,
}
use natsx.Base.Text.{Text, codes, equal_fold}
use natsx.Nats.Header.{Header, HeaderApi, Msg, first}

abbrev pub header_event_id : Text
header_event_id = codes "eventId"

abbrev pub header_message_id : Text
header_message_id = codes "messageId"

abbrev pub header_schema_version : Text
header_schema_version = codes "schemaVersion"

abbrev pub header_trace_id : Text
header_trace_id = codes "traceId"

-- `headers` is a map; a nil map is an empty one.
pub record Envelope : Type 0 where
  pub subject : Text
  pub reply : Text
  pub event_id : Text
  pub message_id : Text
  pub schema_version : Text
  pub trace_id : Text
  pub headers : Header
  pub payload : List ℕ

abbrev pub empty_envelope : Envelope
empty_envelope = record {
  subject = [];
  reply = [];
  event_id = [];
  message_id = [];
  schema_version = [];
  trace_id = [];
  headers = [];
  payload = [];
}

unfoldable pub new_envelope : Text → List ℕ → Envelope
new_envelope subject payload = record empty_envelope { subject = subject; payload = payload }

-- The loop of `fromHeader` copies each entry.
unfoldable pub from_header : Header → List (Text × List Text)
from_header [] = []
from_header ((key, vals) ∷ rest) = (key, vals) ∷ from_header rest

-- The loop of `firstHeader`, over the entries in the order in which `range` meets them.
unfoldable pub fold_header : Header → Text → Text
fold_header [] key = []
fold_header ((candidate, vals) ∷ rest) key =
    let later = fold_header rest key in
    if equal_fold candidate key && not (is_empty vals) then first vals else later

module _ (api : HeaderApi) where
  unfoldable pub set_header : Header → Text → Text → Header
  set_header header key value = if is_empty value then header else api.set header key value

  unfoldable pub first_header : Header → Text → Text
  unfolding fold_header
  first_header header key =
      let value = api.get header key in if is_empty value then fold_header header key else value

  -- The inner loop of `toHeader`.
  unfoldable pub add_all : Header → Text → List Text → Header
  add_all h key [] = h
  add_all h key (v ∷ vs) = add_all (api.add h key v) key vs

  unfoldable pub to_header_from : Header → Header → Header
  unfolding add_all
  to_header_from h [] = h
  to_header_from h ((key, vals) ∷ rest) = to_header_from (add_all h key vals) rest

  unfoldable pub to_header : Header → Header
  unfolding to_header_from
  to_header headers = to_header_from [] headers

  -- `Envelope.ToMsg`
  unfoldable pub to_msg : Envelope → Msg
  unfolding to_header set_header
  to_msg e =
      let h0 = to_header e.headers in
      let h1 = set_header h0 header_event_id e.event_id in
      let h2 = set_header h1 header_message_id e.message_id in
      let h3 = set_header h2 header_schema_version e.schema_version in
      let h4 = set_header h3 header_trace_id e.trace_id in
      record { subject = e.subject; reply = e.reply; header = h4; payload = e.payload }

  -- `EnvelopeFromMsg`; a nil message is `none`.
  unfoldable pub envelope_from_msg : Option Msg → Envelope
  unfolding first_header from_header
  envelope_from_msg none = empty_envelope
  envelope_from_msg (some m) = record {
    subject = m.subject;
    reply = m.reply;
    event_id = first_header m.header header_event_id;
    message_id = first_header m.header header_message_id;
    schema_version = first_header m.header header_schema_version;
    trace_id = first_header m.header header_trace_id;
    headers = from_header m.header;
    payload = m.payload;
  }
