-- ===== src/Core/Request.antt =====
-- `Request`: what it records and returns.
use natsx.Base.{true, false, ◌++◌, Option, none, some, ◌≡◌, refl, ◌⊎◌, ◌↔◌, arith}
use natsx.Base.Text.{codes}
use natsx.Client.{Client}
use natsx.Core.{
  op_request, message_metric, duration_metric, ready, request_error, request_sent, request,
}
use natsx.Core.Publish.{ready-IsClassified, validate_subject-IsClassified, IsReady, ready_iff}
use natsx.Envelope.{Envelope, empty_envelope, to_msg, envelope_from_msg}
use natsx.Errors.{Error, is_nil, as_error}
use natsx.Errors.Chain.{IsClassified}
use natsx.Metrics.{Metrics, State, recorded, record_metric, error_metric}
use natsx.Nats.Conn.{NatsApi}
use natsx.Subject.Shape.{IsSubject, validate_subject_iff}

request_error-IsClassified :
    (err ctx_err : Error)
    → IsClassified (request_error err ctx_err) × (is_nil (request_error err ctx_err) ≡ false)
unfolding request_error as_error
request_error-IsClassified err ctx_err = ground arith

module _ (api : NatsApi) where
  -- Every error of `Request` is classified, and comes with the empty envelope.
  pub request-IsClassified :
      (c : Option Client) (ctx : Option api.Context) (env : Envelope) (s : State api.World)
      → is_nil (request api c ctx env s).1 ≡ false
      → IsClassified (request api c ctx env s).1 × ((request api c ctx env s).0 ≡ empty_envelope)
  unfolding request request_sent
  request-IsClassified c none env s h = (ready-IsClassified api op_request c none s h, refl)
  request-IsClassified c (some ctx) env s h = ground (
    arith,
    ready-IsClassified api op_request c (some ctx) s,
    validate_subject-IsClassified op_request env.subject,
    request_error-IsClassified (api.request_msg_with_context ctx (to_msg api.headers env) s.world).1
        (api.context_err ctx (api.request_msg_with_context ctx (to_msg api.headers env) s.world).2),
  )

  -- The exchange behind a request that returns no error.
  pub record IsAnswered (ctx : api.Context) (env reply : Envelope) (w w' : api.World) : Type 0 where
    pub answered : is_nil (api.request_msg_with_context ctx (to_msg api.headers env) w).1 ≡ true
    pub reply_lem :
        reply
        ≡ envelope_from_msg api.headers
            (api.request_msg_with_context ctx (to_msg api.headers env) w).0
    pub after : w' ≡ (api.request_msg_with_context ctx (to_msg api.headers env) w).2

  -- `Request` returns no error exactly when the client is ready, the subject is accepted and the
  -- server has answered; and then it returns the envelope of the answer.
  pub request_iff :
      (c : Client) (ctx : api.Context) (env : Envelope) (s : State api.World)
      → let out = request api (some c) (some ctx) env s in
        (is_nil out.1 ≡ true) ↔ (
          IsReady api c ctx s.world
          × IsSubject env.subject
          × IsAnswered ctx env out.0 s.world out.2.world)
  unfolding request request_sent request_error
  request_iff c ctx env s =
      ground (arith, ready_iff api op_request c ctx s, validate_subject_iff op_request env.subject)

  -- For a client with metrics, `Request` either refuses with an error, changing and recording
  -- nothing, or records the kind of the error that it returns, or the message and its duration.
  pub request_records :
      (c : Client) (m : Metrics) (ctx : Option api.Context) (env : Envelope) (s : State api.World)
      → c.metrics ≡ some m
      → let out = request api (some c) ctx env s in
        ((is_nil out.1 ≡ false) × (out.2 ≡ s))
        ⊎ ((is_nil out.1 ≡ false)
            × (out.2.log ≡ s.log ++ recorded m (error_metric (codes "request") out.1)))
        ⊎ ((is_nil out.1 ≡ true)
            × (out.2.log
                ≡ s.log
                  ++ recorded m (message_metric (codes "request") env.subject)
                  ++ recorded m (duration_metric env.subject)))
  unfolding request request_sent record_metric
  request_records c m none env s h = unfold ready in ground arith
  request_records c m (some ctx) env s h = ground (
    arith,
    request_error-IsClassified (api.request_msg_with_context ctx (to_msg api.headers env) s.world).1
        (api.context_err ctx (api.request_msg_with_context ctx (to_msg api.headers env) s.world).2),
  )
