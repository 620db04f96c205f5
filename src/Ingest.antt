-- ===== src/Ingest.antt =====
-- pkg/natsx/ingest/ingest.go: the publisher and the pull consumer of the ingest adapter. A pointer or an
-- interface that may be nil is an `Option`; the interfaces `JetStreamPublisher`, `JetStreamPullSubscriber`
-- and `PullSubscription` are records of functions over a world. The closures of a `FetchMessage` are
-- calls of nats.go on the message they capture and are not modelled.
pub mod Publishing
pub mod Fetching
use natsx.Base.{
  ℕ, ℤ, pos, Bool, true, false, ◌&&◌, ◌||◌, not, List, [], ◌∷◌, ◌++◌, Option, none, some,
  if◌then◌else◌, is_empty, is_zero, map,
}
use natsx.Base.Text.{Text, codes, trim_space}
use natsx.Envelope.{Envelope, new_envelope}
use natsx.Errors.{
  Error, nil, is_nil, is_error, as_error, Target, Sentinel, nats_timeout, fetch_error, foreign,
  unnamed, error_text, Result, ok, fail,
}
use natsx.JetStream.{PubAck, PubOpt, msg_id}
use natsx.Nats.Header.{Header, Msg}

pub record PublishRequest : Type 0 where
  pub subject : Text
  pub payload : List ℕ
  pub idempotency_key : Text

pub record PublishAck : Type 0 where
  pub stream : Text
  pub sequence : ℕ
  pub duplicate : Bool

pub record PublishReject : Type 0 where
  pub code : Text
  pub reason : Text
  pub retryable : Bool

-- Both halves are pointers: that exactly one is nil is to be proved.
pub record PublishResult : Type 0 where
  pub ack : Option PublishAck
  pub reject : Option PublishReject

unfoldable pub is_ack : PublishResult → Bool
is_ack r = elim r.ack [ none ↦ false | some _ ↦ true ]

-- `JetStreamPublisher`
pub record Publishes (World : Type 0) : Type 0 where
  pub publish : Envelope → List PubOpt → World → Option PubAck × Error × World

pub record Publisher (World : Type 0) : Type 0 where
  pub js : Option (Publishes World)
  pub stream_id : Text

unfoldable pub new_publisher : {W : Type 0} → Option (Publishes W) → Text → Publisher W
new_publisher js id = record {
  js = js;
  stream_id = if is_empty (trim_space id) then codes "BINANCE_MARKET" else id;
}

-- `isRetryable`
unfoldable pub is_retryable : Error → Bool
is_retryable err = elim (as_error err) [ none ↦ true | some target ↦ target.retryable ]

abbrev rejected : Text → Text → Bool → PublishResult
rejected code reason retryable = record {
  ack = none;
  reject = some (record { code = code; reason = reason; retryable = retryable });
}

abbrev pub acked : Text → Option PubAck → PublishResult
acked id none = record {
  ack = some (record { stream = id; sequence = 0; duplicate = false });
  reject = none;
}
acked id (some a) = record {
  ack = some (record {
    stream = if is_empty a.stream then id else a.stream;
    sequence = a.sequence;
    duplicate = a.duplicate;
  });
  reject = none;
}

module _ {W : Type 0} where
  -- `Publish` on a publisher that is not nil and holds the JetStream `js`.
  unfoldable pub publish_with : Publishes W → Text → PublishRequest → W → PublishResult × W
  unfolding is_retryable
  publish_with js id req w =
      let (ack, err, v) =
        js.publish (new_envelope req.subject req.payload) (msg_id req.idempotency_key ∷ []) w in
      if is_empty (trim_space req.idempotency_key)
      then (rejected (codes "INVALID_REQUEST") (codes "idempotency key empty") false, w)
      else if is_empty (trim_space req.subject)
      then (rejected (codes "INVALID_REQUEST") (codes "subject empty") false, w)
      else if not (is_nil err)
      then (rejected (codes "JETSTREAM_PUBLISH_FAILED") (error_text err) (is_retryable err), v)
      else (acked id ack, v)

  abbrev js_of : Option (Publisher W) → Option (Publishes W)
  js_of none = none
  js_of (some p) = p.js

  abbrev id_of : Option (Publisher W) → Text
  id_of none = []
  id_of (some p) = p.stream_id

  unfoldable pub publish : Option (Publisher W) → PublishRequest → W → PublishResult × W
  publish p req w = elim (js_of p) [
    | none ↦
        (rejected (codes "NOT_INITIALIZED") (codes "jetstream publisher not initialized") false, w)
    | some js ↦ publish_with js (id_of p) req w
  ]

pub record FetchMessage : Type 0 where
  pub payload : List ℕ
  pub subject : Text
  pub headers : Header

-- `JetStreamPullSubscriber` and `PullSubscription`. The handle is whatever the implementation returns.
pub record Pulls (World : Type 0) : Type 1 where
  pub Handle : Type 0
  pub pull_subscribe : Text → Text → Text → World → Handle × Error × World
  pub fetch : Handle → ℤ → ℤ → World → List Msg × Error × World
  pub close : Handle → World → Error × World

pub record ConsumerConfig : Type 0 where
  pub stream : Text
  pub subject : Text
  pub durable : Text
  pub max_wait : ℤ

-- A `Consumer` is the configuration beside its subscriber, which the functions take.
abbrev pub default_max_wait : ℤ
default_max_wait = pos 5000000000

unfoldable pub new_consumer : ConsumerConfig → Result ConsumerConfig
new_consumer cfg =
    if is_empty (trim_space cfg.stream)
      || is_empty (trim_space cfg.subject)
      || is_empty (trim_space cfg.durable)
    then fail (foreign unnamed (codes "ingest: stream/subject/durable required") nil)
    else if is_zero cfg.max_wait
    then ok (record cfg { max_wait = default_max_wait })
    else ok cfg

-- `fromNatsHeader`; a nil map and the empty one are the same list.
unfoldable pub from_nats_header : Header → Header
from_nats_header [] = []
from_nats_header ((key, vs) ∷ h) = (key, vs) ∷ from_nats_header h

unfoldable pub fetch_message : Msg → FetchMessage
unfolding from_nats_header
fetch_message msg = record {
  payload = msg.payload;
  subject = msg.subject;
  headers = from_nats_header msg.header;
}

abbrev pub fetch_failure : ConsumerConfig → Error → Error
fetch_failure c err = fetch_error c.subject c.stream c.durable (pos 0) err

module _ {W : Type 0} (sub : Pulls W) where
  -- What `Fetch` returns of a fetch on the subscription.
  unfoldable pub fetched : ConsumerConfig → List Msg → Error → Result (List FetchMessage)
  unfolding fetch_message
  fetched c msgs err =
      if is_nil err
      then ok (map fetch_message msgs)
      else if is_error err nats_timeout
      then ok []
      else fail (fetch_failure c err)

  -- `Fetch` on a consumer that is not nil; the deferred `Close` runs behind the rest.
  unfoldable pub fetch : ConsumerConfig → ℤ → W → Result (List FetchMessage) × W
  unfolding fetched
  fetch c max w =
      let (handle, err, w1) = sub.pull_subscribe c.stream c.subject c.durable w in
      let (msgs, fetch_err, w2) = sub.fetch handle max c.max_wait w1 in
      if is_nil err
      then (fetched c msgs fetch_err, (sub.close handle w2).1)
      else (fail (fetch_failure c err), w1)
