-- ===== src/Tests/Support.antt =====
-- Small implementations of what the models are parameterised by: a URL parser for `nats://` addresses, a
-- connection, an environment.
use natsx.Base.{
  pos, Bool, true, false, List, [], ◌∷◌, ◌++◌, Option, none, some, ◌≡◌, refl, if◌then◌else◌,
  text_eq,
}
use natsx.Base.Text.{Text, codes, has_prefix, split}
use natsx.Client.{Client}
use natsx.Config.{zero_config}
use natsx.Envelope.{Envelope, empty_envelope}
use natsx.Errors.{Error, nil, foreign, is_error, context_canceled, connection_closed, unnamed}
use natsx.GoLib.{GoLib}
use natsx.Metrics.{Metrics, recorder, State}
use natsx.Nats.Conn.{NatsApi, ClosesConn}
use natsx.Nats.Header.{plain_headers, Msg}

pub record SampleUrl : Type 0 where
  pub user : Option Text
  pub place : Text

abbrev drop_scheme : Text → Text
drop_scheme (_ ∷ _ ∷ _ ∷ _ ∷ _ ∷ _ ∷ _ ∷ s) = s
drop_scheme _ = []

abbrev of_parts : List Text → SampleUrl
of_parts (user ∷ place ∷ _) = record { user = some user; place = place }
of_parts (place ∷ []) = record { user = none; place = place }
of_parts [] = record { user = none; place = [] }

abbrev parse_sample : Bool → Text → Option SampleUrl
parse_sample true s = some (of_parts (split (drop_scheme s) b'@'))
parse_sample false s = none

abbrev user_text : Option Text → Text
user_text none = []
user_text (some user) = user ++ codes "@"

abbrev given : Option Text → Bool
given none = false
given (some _) = true

abbrev pub sample_lib : GoLib
sample_lib = record {
  Url = SampleUrl;
  parse_url = λ s. parse_sample (has_prefix s (codes "nats://")) s;
  scheme = λ u. codes "nats";
  host = λ u. u.place;
  has_user = λ u. given u.user;
  without_user = λ u. record u { user = none };
  with_user = λ u name password. record u { user = some (name ++ codes ":" ++ password) };
  url_string = λ u. codes "nats://" ++ user_text u.user ++ u.place;
  with_user_lem = λ u name password. refl;
  parse_duration = λ s. if text_eq s (codes "1s") then some (pos 1000000000) else none;
  duration_string = λ d. codes "1s";
}

-- A connection: whether it is closed, whether its server is there, and what has been sent.
pub record World : Type 0 where
  pub closed : Bool
  pub online : Bool
  pub sent : List Msg

abbrev closed_error : Bool → Error
closed_error true = foreign connection_closed (codes "nats: connection closed") nil
closed_error false = nil

abbrev pub sample_reply : Msg
sample_reply = record { subject = codes "a.reply"; reply = []; header = []; payload = 4 ∷ [] }

abbrev pub sample_api : NatsApi
sample_api = record {
  World = World;
  Context = Bool;
  headers = plain_headers;
  context_err =
      λ done w. if done then foreign context_canceled (codes "context canceled") nil else nil;
  nkey_error = λ seed. nil;
  connect =
      λ target opts w. (if w.online then nil else foreign unnamed (codes "no servers") nil, w);
  jetstream = λ w. (nil, w);
  is_connected = λ w. w.online;
  is_closed = λ w. w.closed;
  publish_msg = λ msg w. (closed_error w.closed, record w { sent = w.sent ++ msg ∷ [] });
  flush_with_context = λ ctx w. (nil, w);
  request_msg_with_context = λ ctx msg w. (some sample_reply, closed_error w.closed, w);
  subscribe = λ subject w. (closed_error w.closed, w);
  queue_subscribe = λ subject queue w. (closed_error w.closed, w);
  respond_msg = λ msg answer w. (closed_error w.closed, record w { sent = w.sent ++ answer ∷ [] });
  drain = λ w. (closed_error w.closed, w);
  close = λ w. record w { closed = true };
  connected_server_id = λ w. codes "S1";
  connected_url = λ w. codes "nats://localhost:4222";
}

drain_closed : (b : Bool) → is_error (closed_error b) connection_closed ≡ true → b ≡ true
unfolding is_error
drain_closed true h = refl
drain_closed false h = h

pub sample_api-ClosesConn : ClosesConn sample_api
sample_api-ClosesConn = record {
  close-is_closed = λ w. refl;
  drain-is_closed = λ w h. drain_closed w.closed h;
}

abbrev pub opened : State World
opened = record { world = record { closed = false; online = true; sent = [] }; log = [] }

abbrev pub offline : State World
offline = record { world = record { closed = false; online = false; sent = [] }; log = [] }

abbrev pub sample_metrics : Metrics
sample_metrics = recorder 1

abbrev pub sample_client : Client
sample_client = record {
  cfg = zero_config;
  metrics = some sample_metrics;
  has_conn = true;
  has_js = false;
}

abbrev pub sample_envelope : Envelope
sample_envelope = record empty_envelope {
  subject = codes "orders.item.create.v1";
  payload = 1 ∷ 2 ∷ [];
  event_id = codes "e1";
  headers = (codes "X-Tenant", codes "t1" ∷ []) ∷ [];
}
