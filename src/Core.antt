-- ===== src/Core.antt =====
-- pkg/natsx/core.go: readiness, publish, request, and subscriptions with their callback.
pub mod Publish
pub mod Request
pub mod Subscribe
use natsx.Base.{
  ℕ, Bool, true, false, ◌&&◌, ◌||◌, not, List, [], ◌∷◌, ◌++◌, Option, none, some, if◌then◌else◌,
  is_empty,
}
use natsx.Base.Text.{Text, codes, trim_space}
use natsx.Client.{Client, is_disconnected}
use natsx.Envelope.{Envelope, empty_envelope, to_msg, envelope_from_msg}
use natsx.Errors.{
  Error, nil, is_nil, is_error, deadline_exceeded, context_canceled, unavailable, internal,
  wrap_error, validation_error, context_error, connection_error, Result, ok, fail,
}
use natsx.Metrics.{
  Metrics, State, Metric, inc_counter, observe_histogram, record_metric, record_error_metric,
  metric_core_messages_total, metric_core_request_duration_seconds,
}
use natsx.Nats.Conn.{NatsApi}
use natsx.Nats.Header.{Msg}
use natsx.Subject.{validate_subject}

abbrev pub op_publish : Text
op_publish = codes "natsx.Publish"

abbrev pub op_request : Text
op_request = codes "natsx.Request"

abbrev pub message_metric : Text → Text → Metric
message_metric op subject =
    inc_counter metric_core_messages_total ((codes "op", op) ∷ (codes "subject", subject) ∷ [])

abbrev pub duration_metric : Text → Metric
duration_metric subject =
    observe_histogram metric_core_request_duration_seconds ((codes "subject", subject) ∷ [])

-- A method call on the metrics of a client, which panics in Go if they are nil: no client of `New` or
-- `Wrap` has such.
abbrev pub metric_call : {W : Type 0} → Option Metrics → Metric → State W → State W
metric_call none metric s = s
metric_call (some m) metric s = record_metric m metric s

abbrev pub metrics_of : Option Client → Option Metrics
metrics_of none = none
metrics_of (some c) = c.metrics

-- The three ways in which `Request` reports the error of a request: by the context's own error, by
-- the error if a context made it, or as one of the connection.
unfoldable pub request_error : Error → Error → Error
unfolding context_error connection_error is_error
request_error err ctx_err =
    if not (is_nil ctx_err)
    then context_error op_request ctx_err
    else if is_error err deadline_exceeded || is_error err context_canceled
    then context_error op_request err
    else connection_error op_request err

module _ (api : NatsApi) where
  abbrev pub St : Type 0
  St = State api.World

  -- `ready`
  unfoldable pub ready : Text → Option Client → Option api.Context → St → Error
  unfolding validation_error context_error wrap_error
  ready op c none s =
      if is_disconnected c
      then validation_error op (codes "client is not connected") nil
      else validation_error op (codes "context is required") nil
  ready op c (some ctx) s =
      if is_disconnected c
      then validation_error op (codes "client is not connected") nil
      else if not (is_nil (api.context_err ctx s.world))
      then context_error op (api.context_err ctx s.world)
      else if not (api.is_connected s.world)
      then wrap_error unavailable op (codes "NATS connection is not connected") true nil
      else nil

  -- An error that is recorded under an operation and returned.
  abbrev pub failing : Option Metrics → Text → Error → St → Error × St
  failing metrics op err s = (err, record_error_metric metrics op err s)

  -- `Publish` behind the two checks.
  unfoldable pub publish_sent : Option Metrics → api.Context → Envelope → St → Error × St
  unfolding record_error_metric connection_error context_error
  publish_sent metrics ctx env s =
      let (sent, w) = api.publish_msg (to_msg api.headers env) s.world in
      let (flushed, v) = api.flush_with_context ctx w in
      if not (is_nil sent)
      then failing metrics (codes "publish") (connection_error op_publish sent)
          (record s { world = w })
      else if not (is_nil flushed)
      then failing metrics (codes "publish") (context_error op_publish flushed)
          (record s { world = v })
      else (
        nil,
        metric_call metrics (message_metric (codes "publish") env.subject) (record s { world = v }),
      )

  unfoldable pub publish : Option Client → Option api.Context → Envelope → St → Error × St
  publish c none env s = (ready op_publish c none s, s)
  publish c (some ctx) env s =
      let refused = ready op_publish c (some ctx) s in
      let invalid = validate_subject op_publish env.subject in
      if not (is_nil refused)
      then (refused, s)
      else if not (is_nil invalid)
      then (invalid, s)
      else publish_sent (metrics_of c) ctx env s

  -- `Request` behind the two checks. An error comes with the empty envelope.
  unfoldable pub request_sent : Option Metrics → api.Context → Envelope → St → Envelope × Error × St
  unfolding record_error_metric
  request_sent metrics ctx env s =
      let (msg, err, w) = api.request_msg_with_context ctx (to_msg api.headers env) s.world in
      let t : St = record s { world = w } in
      let wrapped = request_error err (api.context_err ctx w) in
      if not (is_nil err)
      then (empty_envelope, wrapped, record_error_metric metrics (codes "request") wrapped t)
      else (
        envelope_from_msg api.headers msg,
        nil,
        metric_call metrics (duration_metric env.subject)
            (metric_call metrics (message_metric (codes "request") env.subject) t),
      )

  unfoldable pub request :
      Option Client → Option api.Context → Envelope → St → Envelope × Error × St
  request c none env s = (empty_envelope, ready op_request c none s, s)
  request c (some ctx) env s =
      let refused = ready op_request c (some ctx) s in
      let invalid = validate_subject op_request env.subject in
      if not (is_nil refused)
      then (empty_envelope, refused, s)
      else if not (is_nil invalid)
      then (empty_envelope, invalid, s)
      else request_sent (metrics_of c) ctx env s

  -- A handler answers an envelope by one and an error, and acts on the world.
  abbrev pub Handler : Type 0
  Handler = api.Context → Envelope → api.World → Envelope × Error × api.World

  -- The callback of a subscription, run on a message; `background` is `context.Background()`.
  unfoldable pub on_message : api.Context → Option Metrics → Text → Text → Handler → Msg → St → St
  unfolding record_error_metric wrap_error connection_error
  on_message background metrics op subject handler msg s =
      let (reply, err, w) = handler background (envelope_from_msg api.headers (some msg)) s.world in
      let answer = record (to_msg api.headers reply) { subject = msg.reply } in
      let (responded, v) = api.respond_msg msg answer w in
      let count = metric_call metrics (message_metric (codes "subscribe") subject) in
      if not (is_nil err)
      then record_error_metric metrics (codes "subscribe")
          (wrap_error internal op (codes "handler returned error") false err)
          (record s { world = w })
      else if is_empty msg.reply
      then count (record s { world = w })
      else if not (is_nil responded)
      then record_error_metric metrics (codes "subscribe") (connection_error op responded)
          (record s { world = v })
      else count (record s { world = v })

  -- What a subscription that stands runs on each message, or the error; a nil handler is none.
  unfoldable pub subscribe_with :
      api.Context
      → Text
      → Option Client
      → Text
      → Text
      → Option Handler
      → St
      → Result (Msg → St → St) × St
  unfolding record_error_metric validation_error connection_error
  subscribe_with background op c subject queue handler s =
      let invalid = validate_subject op subject in
      let (err, w) =
        if is_empty queue
        then api.subscribe subject s.world
        else api.queue_subscribe subject queue s.world in
      if is_disconnected c
      then (fail (validation_error op (codes "client is not connected") nil), s)
      else if not (is_nil invalid)
      then (fail invalid, s)
      else elim handler [
        | none ↦ (fail (validation_error op (codes "handler is required") nil), s)
        | some h ↦
            if not (is_nil err)
            then (
              fail (connection_error op err),
              record_error_metric (metrics_of c) (codes "subscribe") (connection_error op err)
                  (record s { world = w }),
            )
            else (ok (on_message background (metrics_of c) op subject h), record s { world = w })
      ]

  unfoldable pub subscribe :
      api.Context → Option Client → Text → Option Handler → St → Result (Msg → St → St) × St
  unfolding subscribe_with
  subscribe background c subject handler s =
      subscribe_with background (codes "natsx.Subscribe") c subject [] handler s

  unfoldable pub queue_subscribe :
      api.Context → Option Client → Text → Text → Option Handler → St → Result (Msg → St → St) × St
  unfolding subscribe_with validation_error trim_space
  queue_subscribe background c subject queue handler s =
      let op = codes "natsx.QueueSubscribe" in
      if is_empty (trim_space queue)
      then (fail (validation_error op (codes "queue is required") nil), s)
      else subscribe_with background op c subject queue handler s
