-- ===== src/JetStream.antt =====
-- pkg/natsx/jetstream.go. A `*JetStreamClient` that may be nil is an `Option JetStreamClient`; the calls
-- of `nats.JetStreamContext` are parameters over the same world as those of the connection.
pub mod Configs
pub mod Admin
pub mod Messages
use natsx.Base.{
  ℕ, Bool, true, false, ◌&&◌, ◌||◌, not, List, [], ◌∷◌, ◌++◌, Option, none, some, if◌then◌else◌,
  is_empty,
}
use natsx.Base.Text.{Text, codes, trim_space}
use natsx.Client as C
use natsx.Client.{Client}
use natsx.Envelope.{Envelope, to_msg}
use natsx.Errors.{
  Error, nil, is_nil, is_error, foreign, conflict, unavailable, stream_name_already_in_use,
  consumer_name_already_in_use, stream_not_found, consumer_not_found, no_stream_response,
  no_matching_stream, jetstream_not_enabled, jetstream_not_enabled_for_account, consumer_deleted,
  subject_mismatch, wrap_error, validation_error, connection_error, Result, ok, fail,
}
use natsx.JetStream.Configs.{
  Shapes, StreamConfig, ConsumerConfig, stream_config_matches, consumer_config_matches,
}
use natsx.Metrics.{
  State, Metrics, Metric, inc_counter, record_metric, metric_jetstream_messages_total,
}
use natsx.Nats.Conn.{NatsApi}
use natsx.Nats.Header.{HeaderApi, Msg}
use natsx.Subject.{validate_subject}

-- `nats.PubAck`
pub record PubAck : Type 0 where
  pub stream : Text
  pub sequence : ℕ
  pub duplicate : Bool

-- A `nats.PubOpt`: `nats.MsgId`, or another one.
pub data PubOpt : Type 0 where
  msg_id : Text → PubOpt
  other_opt : ℕ → PubOpt

-- The methods of `nats.JetStreamContext` that are called. Each returns a pointer, which may be nil,
-- an error, and the world behind the call.
pub record JetStreamApi (s : Shapes) (World : Type 0) : Type 1 where
  pub StreamInfo : Type 0
  pub ConsumerInfo : Type 0
  pub stream_config : StreamInfo → StreamConfig s
  pub consumer_config : ConsumerInfo → ConsumerConfig s
  pub add_stream : StreamConfig s → World → Option StreamInfo × Error × World
  pub delete_stream : Text → World → Error × World
  pub stream_info : Text → World → Option StreamInfo × Error × World
  pub add_consumer : Text → ConsumerConfig s → World → Option ConsumerInfo × Error × World
  pub consumer_info : Text → Text → World → Option ConsumerInfo × Error × World
  pub publish_msg : Msg → List PubOpt → World → Option PubAck × Error × World
  pub pull_subscribe : Text → Text → List ℕ → World → Error × World
  -- `nats.ErrConsumerNameAlreadyInUse` as a value
  pub consumer_in_use_text : Text

pub record JetStreamClient : Type 0 where
  pub client : Option Client
  pub has_js : Bool

abbrev pub uninitialized : Option JetStreamClient → Bool
uninitialized none = true
uninitialized (some j) = not j.has_js

unfoldable pub conflict_error : Text → Error → Error
unfolding wrap_error
conflict_error op cause = wrap_error conflict op [] false cause

abbrev is_conflict : Error → Bool
is_conflict cause =
    is_error cause stream_name_already_in_use || is_error cause consumer_name_already_in_use

abbrev is_missing : Error → Bool
is_missing cause =
    is_error cause stream_not_found
    || is_error cause consumer_not_found
    || is_error cause no_stream_response
    || is_error cause no_matching_stream
    || is_error cause jetstream_not_enabled
    || is_error cause jetstream_not_enabled_for_account
    || is_error cause consumer_deleted
    || is_error cause subject_mismatch

unfoldable pub jetstream_error : Text → Error → Error
unfolding conflict_error connection_error wrap_error
jetstream_error op cause =
    if is_nil cause
    then nil
    else if is_conflict cause
    then conflict_error op cause
    else if is_missing cause
    then wrap_error unavailable op [] true cause
    else connection_error op cause

-- `(c *Client) JetStreamClient`
unfoldable pub jetstream_client :
    (api : NatsApi) → Option Client → State api.World → Result JetStreamClient × State api.World
unfolding C.jetstream
jetstream_client api c s =
    let (err, c', s') = C.jetstream api c s in
    if is_nil err then (ok (record { client = c'; has_js = true }), s') else (fail err, s')

abbrev pub not_initialized : Text → Error
not_initialized op = validation_error op (codes "jetstream is not initialized") nil

abbrev pub op_add_stream : Text
op_add_stream = codes "natsx.AddStream"

abbrev pub op_add_consumer : Text
op_add_consumer = codes "natsx.AddConsumer"

abbrev pub op_jetstream_publish : Text
op_jetstream_publish = codes "natsx.JetStreamPublish"

module _ {W : Type 0} (s : Shapes) (api : JetStreamApi s W) where
  abbrev pub existing_stream : Option api.StreamInfo → Option (StreamConfig s)
  existing_stream none = none
  existing_stream (some info) = some (api.stream_config info)

  abbrev pub existing_consumer : Option api.ConsumerInfo → Option (ConsumerConfig s)
  existing_consumer none = none
  existing_consumer (some info) = some (api.consumer_config info)

  -- `AddStream` behind its checks; `name` is the trimmed name.
  unfoldable pub create_stream : StreamConfig s → Text → W → Result (Option api.StreamInfo) × W
  create_stream cfg name w =
      let (stream, err, w1) = api.add_stream cfg w in
      let (existing, info_err, w2) = api.stream_info name w1 in
      if is_nil err
      then (ok stream, w1)
      else if is_error err stream_name_already_in_use
      then (if is_nil info_err && stream_config_matches s (some cfg) (existing_stream existing)
          then (ok existing, w2)
          else (fail (conflict_error op_add_stream err), w2))
      else (fail (jetstream_error op_add_stream err), w1)

  -- `AddStream`; the configuration is none where the pointer is nil.
  unfoldable pub add_stream :
      Option JetStreamClient → Option (StreamConfig s) → W → Result (Option api.StreamInfo) × W
  add_stream j none w =
      if uninitialized j
      then (fail (not_initialized op_add_stream), w)
      else (fail (validation_error op_add_stream (codes "stream config is required") nil), w)
  add_stream j (some cfg) w =
      if uninitialized j
      then (fail (not_initialized op_add_stream), w)
      else if is_empty (trim_space cfg.name)
      then (fail (validation_error op_add_stream (codes "stream name is required") nil), w)
      else create_stream cfg (trim_space cfg.name) w

  unfoldable pub delete_stream : Option JetStreamClient → Text → W → Error × W
  delete_stream j name w =
      let op = codes "natsx.DeleteStream" in
      let (err, w1) = api.delete_stream (trim_space name) w in
      if uninitialized j
      then (not_initialized op, w)
      else if is_empty (trim_space name)
      then (validation_error op (codes "stream name is required") nil, w)
      else if not (is_nil err)
      then (jetstream_error op err, w1)
      else (nil, w1)

  unfoldable pub stream_info :
      Option JetStreamClient → Text → W → Result (Option api.StreamInfo) × W
  stream_info j name w =
      let op = codes "natsx.StreamInfo" in
      let (stream, err, w1) = api.stream_info (trim_space name) w in
      if uninitialized j
      then (fail (not_initialized op), w)
      else if is_empty (trim_space name)
      then (fail (validation_error op (codes "stream name is required") nil), w)
      else if not (is_nil err)
      then (fail (jetstream_error op err), w1)
      else (ok stream, w1)

  unfoldable pub consumer_config_name : ConsumerConfig s → Text
  consumer_config_name cfg =
      if not (is_empty (trim_space cfg.name)) then trim_space cfg.name else trim_space cfg.durable

  -- `AddConsumer` behind the look for an existing consumer.
  unfoldable pub create_consumer :
      Text → ConsumerConfig s → W → Result (Option api.ConsumerInfo) × W
  create_consumer stream cfg w =
      let (consumer, err, w1) = api.add_consumer stream cfg w in
      let name = consumer_config_name cfg in
      let (existing, info_err, w2) = api.consumer_info stream name w1 in
      if is_nil err
      then (ok consumer, w1)
      else if is_error err consumer_name_already_in_use
      then (if is_empty name
          then (fail (conflict_error op_add_consumer err), w1)
          else if is_nil info_err
              && consumer_config_matches s (some cfg) (existing_consumer existing)
          then (ok existing, w2)
          else (fail (conflict_error op_add_consumer err), w2))
      else (fail (jetstream_error op_add_consumer err), w1)

  abbrev pub is_found : Option api.ConsumerInfo → Bool
  is_found none = false
  is_found (some _) = true

  -- `AddConsumer` for a consumer with a name: what there is under that name decides first.
  unfoldable pub named_consumer :
      Text → ConsumerConfig s → Text → W → Result (Option api.ConsumerInfo) × W
  named_consumer stream cfg name w =
      let (existing, info_err, w1) = api.consumer_info stream name w in
      if is_nil info_err && is_found existing
      then (if consumer_config_matches s (some cfg) (existing_consumer existing)
          then (ok existing, w1)
          else (
            fail (
                conflict_error op_add_consumer
                  (foreign consumer_name_already_in_use api.consumer_in_use_text nil)),
            w1,
          ))
      else if not (is_nil info_err) && not (is_error info_err consumer_not_found)
      then (fail (jetstream_error op_add_consumer info_err), w1)
      else create_consumer stream cfg w1

  unfoldable pub add_consumer :
      Option JetStreamClient
      → Text
      → Option (ConsumerConfig s)
      → W
      → Result (Option api.ConsumerInfo) × W
  add_consumer j stream none w =
      if uninitialized j
      then (fail (not_initialized op_add_consumer), w)
      else if is_empty (trim_space stream)
      then (fail (validation_error op_add_consumer (codes "stream name is required") nil), w)
      else (fail (validation_error op_add_consumer (codes "consumer config is required") nil), w)
  add_consumer j stream (some cfg) w =
      let name = consumer_config_name cfg in
      if uninitialized j
      then (fail (not_initialized op_add_consumer), w)
      else if is_empty (trim_space stream)
      then (fail (validation_error op_add_consumer (codes "stream name is required") nil), w)
      else if is_empty name
      then create_consumer (trim_space stream) cfg w
      else named_consumer (trim_space stream) cfg name w

  abbrev pub count_message : Option JetStreamClient → Text → State W → State W
  count_message none subject t = t
  count_message (some j) subject t = elim j.client [
    | none ↦ t
    | some c ↦ elim c.metrics [
      | none ↦ t
      | some m ↦
          record_metric m
            (inc_counter metric_jetstream_messages_total
              ((codes "op", codes "publish") ∷ (codes "subject", subject) ∷ []))
            t
    ]
  ]

  -- `Publish`, with the functions of `nats.Header` that `ToMsg` calls.
  unfoldable pub publish :
      HeaderApi
      → Option JetStreamClient
      → Envelope
      → List PubOpt
      → State W
      → Result (Option PubAck) × State W
  publish headers j env opts t =
      let invalid = validate_subject op_jetstream_publish env.subject in
      let (ack, err, w) = api.publish_msg (to_msg headers env) opts t.world in
      let t' : State W = record t { world = w } in
      if uninitialized j
      then (fail (not_initialized op_jetstream_publish), t)
      else if not (is_nil invalid)
      then (fail invalid, t)
      else if not (is_nil err)
      then (fail (jetstream_error op_jetstream_publish err), t')
      else (ok ack, count_message j env.subject t')

  -- `PullSubscribe`; what it returns beside its error is the subscription itself.
  unfoldable pub pull_subscribe : Option JetStreamClient → Text → Text → List ℕ → W → Error × W
  pull_subscribe j subject durable opts w =
      let op = codes "natsx.PullSubscribe" in
      let invalid = validate_subject op (trim_space subject) in
      let (err, w1) = api.pull_subscribe (trim_space subject) (trim_space durable) opts w in
      if uninitialized j
      then (not_initialized op, w)
      else if not (is_nil invalid)
      then (invalid, w)
      else if not (is_empty durable) && is_empty (trim_space durable)
      then (validation_error op (codes "consumer durable is invalid") nil, w)
      else if not (is_nil err)
      then (jetstream_error op err, w1)
      else (nil, w1)
