-- ===== src/Core/Publish.antt =====
-- `Publish`: when it succeeds, what it records, and how its errors are classified.
use natsx.Base.{true, false, ◌++◌, Option, none, some, ◌≡◌, ◌⊎◌, ◌↔◌, arith, if◌then◌else◌}
use natsx.Base.Text.{Text, codes}
use natsx.Client.{Client}
use natsx.Core.{op_publish, message_metric, ready, publish_sent, publish}
use natsx.Envelope.{Envelope, to_msg}
use natsx.Errors.{nil, is_nil, as_error}
use natsx.Errors.Chain.{IsClassified}
use natsx.Metrics.{Metrics, State, recorded, record_metric, error_metric}
use natsx.Nats.Conn.{NatsApi}
use natsx.Subject.{validate_subject}
use natsx.Subject.Shape.{IsSubject, validate_subject_iff}

pub validate_subject-IsClassified :
    (op subject : Text)
    → is_nil (validate_subject op subject) ≡ false
    → IsClassified (validate_subject op subject)
unfolding validate_subject as_error
validate_subject-IsClassified op subject h = ground arith

module _ (api : NatsApi) where
  -- What `ready` asks of the client and the connection.
  pub record IsReady (c : Client) (ctx : api.Context) (w : api.World) : Type 0 where
    pub opened : c.has_conn ≡ true
    pub live : is_nil (api.context_err ctx w) ≡ true
    pub connected : api.is_connected w ≡ true

  pub ready_iff :
      (op : Text) (c : Client) (ctx : api.Context) (s : State api.World)
      → (is_nil (ready api op (some c) (some ctx) s) ≡ true) ↔ IsReady c ctx s.world
  unfolding ready
  ready_iff op c ctx s = ground arith

  pub ready-IsClassified :
      (op : Text) (c : Option Client) (ctx : Option api.Context) (s : State api.World)
      → is_nil (ready api op c ctx s) ≡ false
      → IsClassified (ready api op c ctx s)
  unfolding ready as_error
  ready-IsClassified op c none s h = ground arith
  ready-IsClassified op c (some ctx) s h = ground arith

  -- The message of an envelope, sent and flushed.
  pub record IsSent (ctx : api.Context) (env : Envelope) (w w' : api.World) : Type 0 where
    pub sent : is_nil (api.publish_msg (to_msg api.headers env) w).0 ≡ true
    pub flushed :
        is_nil (api.flush_with_context ctx (api.publish_msg (to_msg api.headers env) w).1).0 ≡ true
    pub after : w' ≡ (api.flush_with_context ctx (api.publish_msg (to_msg api.headers env) w).1).1

  publish_sent_iff :
      (m : Option Metrics) (ctx : api.Context) (env : Envelope) (s : State api.World)
      → (publish_sent api m ctx env s).0 ≡ nil
      → IsSent ctx env s.world (publish_sent api m ctx env s).1.world
  unfolding publish_sent
  publish_sent_iff m ctx env s h = ground arith

  -- `Publish` returns no error exactly when the client is ready, the subject is one that
  -- `ValidateSubject` accepts, and the envelope's message has been published and flushed; and then
  -- the world is as the flush has left it.
  pub publish_iff :
      (c : Client) (ctx : api.Context) (env : Envelope) (s : State api.World)
      → (is_nil (publish api (some c) (some ctx) env s).0 ≡ true) ↔ (
          IsReady c ctx s.world
          × IsSubject env.subject
          × IsSent ctx env s.world (publish api (some c) (some ctx) env s).1.world)
  unfolding publish publish_sent
  publish_iff c ctx env s =
      ground (arith, ready_iff op_publish c ctx s, validate_subject_iff op_publish env.subject)

  -- Every error of `Publish` is classified: a client or subject that is refused is no cause to
  -- retry, a connection that fails is.
  pub publish-IsClassified :
      (c : Option Client) (ctx : Option api.Context) (env : Envelope) (s : State api.World)
      → is_nil (publish api c ctx env s).0 ≡ false
      → IsClassified (publish api c ctx env s).0
  unfolding publish publish_sent as_error
  publish-IsClassified c none env s h = ready-IsClassified op_publish c none s h
  publish-IsClassified c (some ctx) env s h = ground (
    arith,
    ready-IsClassified op_publish c (some ctx) s,
    validate_subject-IsClassified op_publish env.subject,
  )

  -- For a client with metrics, `Publish` either refuses with an error, changing and recording
  -- nothing, or records one call under its operation: the message if it returns no error, and
  -- otherwise the kind of the error returned.
  pub publish_records :
      (c : Client) (m : Metrics) (ctx : Option api.Context) (env : Envelope) (s : State api.World)
      → c.metrics ≡ some m
      → let out = publish api (some c) ctx env s in
        ((is_nil out.0 ≡ false) × (out.1 ≡ s))
        ⊎ (out.1.log
            ≡ s.log
              ++ recorded m (
                  if is_nil out.0
                  then message_metric (codes "publish") env.subject
                  else error_metric (codes "publish") out.0))
  unfolding publish publish_sent record_metric
  publish_records c m none env s h = unfold ready in ground arith
  publish_records c m (some ctx) env s h = ground arith
