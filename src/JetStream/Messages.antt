-- ===== src/JetStream/Messages.antt =====
-- What `JetStreamClient.Publish` and `PullSubscribe` reject, send and record.
use natsx.Base.{ℕ, true, false, List, Option, none, ◌≡◌, ◌≢◌, ◌⊎◌, ◌↔◌, arith, is_empty}
use natsx.Base.Text.{Text, codes, trim_space}
use natsx.Envelope.{Envelope, to_msg}
use natsx.Errors.{
  Error, nil, is_nil, as_error, ok, fail, validation_error, wrap_error, connection_error,
}
use natsx.JetStream.{
  JetStreamApi, JetStreamClient, PubAck, PubOpt, uninitialized, conflict_error, jetstream_error,
  op_jetstream_publish, publish, pull_subscribe,
}
use natsx.JetStream.Configs.{Shapes}
use natsx.Metrics.{State}
use natsx.Nats.Header.{HeaderApi}
use natsx.Core.Publish.{validate_subject-IsClassified}
use natsx.Subject.Shape.{IsSubject, validate_subject_iff}

module _ {W : Type 0} (s : Shapes) (api : JetStreamApi s W) (headers : HeaderApi) where
  -- `Publish` succeeds if and only if there is a JetStream, the subject has the grammar's shape, and the server
  -- takes the envelope's message; the acknowledgement is then the server's.
  pub jetstream_publish_iff :
      (j : Option JetStreamClient) (env : Envelope) (opts : List PubOpt) (t : State W)
      (ack : Option PubAck)
      → ((publish s api headers j env opts t).0 ≡ ok ack) ↔ (
          (uninitialized j ≡ false)
          × IsSubject env.subject
          × (is_nil (api.publish_msg (to_msg headers env) opts t.world).1 ≡ true)
          × ((api.publish_msg (to_msg headers env) opts t.world).0 ≡ ack))
  unfolding publish
  jetstream_publish_iff j env opts t ack =
      ground (arith, validate_subject_iff op_jetstream_publish env.subject)

  -- A publish that fails counts no message, and its error is a `*Error`. The world is changed only
  -- where there is a JetStream and a valid subject, and the server has refused the message.
  pub jetstream_publish_fails :
      (j : Option JetStreamClient) (env : Envelope) (opts : List PubOpt) (t : State W) (err : Error)
      → (publish s api headers j env opts t).0 ≡ fail err
      → (as_error err ≢ none)
        × ((publish s api headers j env opts t).1.log ≡ t.log)
        × (((publish s api headers j env opts t).1.world ≡ t.world)
            ⊎ ((uninitialized j ≡ false)
                × IsSubject env.subject
                × (is_nil (api.publish_msg (to_msg headers env) opts t.world).1 ≡ false)))
  unfolding publish as_error jetstream_error conflict_error wrap_error connection_error
      validation_error
  jetstream_publish_fails j env opts t err h = ground (
    arith,
    h,
    validate_subject_iff op_jetstream_publish env.subject,
    validate_subject-IsClassified op_jetstream_publish env.subject,
  )

module _ {W : Type 0} (s : Shapes) (api : JetStreamApi s W) where
  -- `PullSubscribe` returns no error if and only if there is a JetStream, the trimmed subject is one
  -- that `ValidateSubject` accepts, the durable name is empty or not blank, and the server takes the
  -- subscription for the trimmed subject and the trimmed durable name.
  pub pull_subscribe_iff :
      (j : Option JetStreamClient) (subject durable : Text) (opts : List ℕ) (w : W)
      → ((pull_subscribe s api j subject durable opts w).0 ≡ nil) ↔ (
          (uninitialized j ≡ false)
          × IsSubject (trim_space subject)
          × ((is_empty durable ≡ true) ⊎ (is_empty (trim_space durable) ≡ false))
          × ((api.pull_subscribe (trim_space subject) (trim_space durable) opts w).0 ≡ nil))
  unfolding pull_subscribe jetstream_error conflict_error wrap_error connection_error
      validation_error
  pull_subscribe_iff j subject durable opts w =
      ground (arith, validate_subject_iff (codes "natsx.PullSubscribe") (trim_space subject))
