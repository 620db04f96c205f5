-- ===== src/Ingest/Publishing.antt =====
-- The outcomes of the ingest publisher, by itself and on top of `JetStreamClient`.
use natsx.Base.{
  Bool, true, false, not, List, [], ◌∷◌, Option, none, some, ◌≡◌, refl, ◌⊎◌, ◌↔◌, arith, is_empty,
}
use natsx.Base.Text.{Text, trim_space}
use natsx.Envelope.{Envelope, new_envelope, to_msg}
use natsx.Errors.{
  Error, nil, is_nil, as_error, Result, ok, fail, Target, wrap_error, connection_error,
  validation_error,
}
use natsx.Ingest.{
  PublishRequest, PublishAck, PublishResult, is_ack, Publishes, Publisher, new_publisher,
  is_retryable, publish_with, publish,
}
use natsx.JetStream as J
use natsx.JetStream.{
  JetStreamApi, JetStreamClient, PubAck, PubOpt, msg_id, uninitialized, op_jetstream_publish,
  jetstream_error, conflict_error,
}
use natsx.JetStream.Configs.{Shapes}
use natsx.Metrics.{State}
use natsx.Nats.Header.{HeaderApi}
use natsx.Subject.{validate_subject}
use natsx.Subject.Shape.{IsSubject, validate_subject_iff}

abbrev pub is_reject : PublishResult → Bool
is_reject r = elim r.reject [ none ↦ false | some _ ↦ true ]

abbrev pub may_retry : PublishResult → Bool
may_retry r = elim r.reject [ none ↦ false | some reject ↦ reject.retryable ]

trim-nil : trim_space [] ≡ []
unfolding trim_space
trim-nil = refl

trim_none : (subject : Text) → IsSubject subject → is_empty (trim_space subject) ≡ false
unfolding validate_subject
trim_none subject h = ground (arith, h, validate_subject_iff [] subject)

module _ {W : Type 0} where
  -- A publish ends in exactly one of an acknowledgement and a rejection, whatever the publisher, the
  -- request and the server.
  pub publish_exclusive :
      (p : Option (Publisher W)) (req : PublishRequest) (w : W)
      → is_ack (publish p req w).0 ≡ not (is_reject (publish p req w).0)
  unfolding publish publish_with is_ack
  publish_exclusive none req w = refl
  publish_exclusive (some p) req w = ground arith

  -- A publisher of `NewPublisher` rejects with a retry allowed if and only if the key and the
  -- subject are not blank and the server call fails with an error that is no `*Error` or one marked
  -- retryable.
  pub may_retry_iff :
      (js : Publishes W) (id : Text) (req : PublishRequest) (w : W)
      → let err =
          (js.publish
            (new_envelope req.subject req.payload)
            (msg_id req.idempotency_key ∷ [])
            w).1 in
        (may_retry (publish (some (new_publisher (some js) id)) req w).0 ≡ true) ↔ (
          (is_empty (trim_space req.idempotency_key) ≡ false)
          × (is_empty (trim_space req.subject) ≡ false)
          × (is_nil err ≡ false)
          × ((as_error err ≡ none)
              ⊎ ((target : Target) × (as_error err ≡ some target) × (target.retryable ≡ true))))
  unfolding publish publish_with new_publisher is_retryable
  may_retry_iff js id req w = ground arith

  -- The stream that an acknowledgement names: the server's, and else the configured one, which is never blank.
  pub publish_stream :
      (js : Publishes W) (id : Text) (req : PublishRequest) (w : W) (ack : PublishAck)
      → (publish (some (new_publisher (some js) id)) req w).0.ack ≡ some ack
      → is_empty ack.stream ≡ false
  unfolding publish publish_with new_publisher
  publish_stream js id req w ack h = ground (arith, trim-nil)

-- The production publisher: `JetStreamClient.Publish` as a `JetStreamPublisher`.
module _ {W : Type 0} (s : Shapes) (api : JetStreamApi s W) (headers : HeaderApi) where
  abbrev pub answer : Result (Option PubAck) × State W → Option PubAck × Error × State W
  answer (ok ack, t) = (ack, nil, t)
  answer (fail err, t) = (none, err, t)

  unfoldable pub via_jetstream : Option JetStreamClient → Publishes (State W)
  via_jetstream j = record { publish = λ env opts t. answer (J.publish s api headers j env opts t) }

  jetstream_publish_lem :
      (j : Option JetStreamClient) (env : Envelope) (opts : List PubOpt) (t : State W)
      → (is_nil (answer (J.publish s api headers j env opts t)).1 ≡ true) ↔ (
          (uninitialized j ≡ false)
          × IsSubject env.subject
          × (is_nil (api.publish_msg (to_msg headers env) opts t.world).1 ≡ true))
  unfolding J.publish jetstream_error conflict_error wrap_error connection_error validation_error
  jetstream_publish_lem j env opts t =
      ground (arith, validate_subject_iff op_jetstream_publish env.subject)

  -- Through the JetStream client, a request is acknowledged if and only if its key is not blank, its subject
  -- has the grammar's shape, the client has a JetStream, and the server takes the message that holds subject and
  -- payload alone, sent with the key as its message id.
  pub via_jetstream_iff :
      (j : Option JetStreamClient) (id : Text) (req : PublishRequest) (t : State W)
      → (is_ack (publish (some (new_publisher (some (via_jetstream j)) id)) req t).0 ≡ true) ↔ (
          (is_empty (trim_space req.idempotency_key) ≡ false)
          × IsSubject req.subject
          × (uninitialized j ≡ false)
          × (is_nil
                (api.publish_msg
                  (to_msg headers (new_envelope req.subject req.payload))
                  (msg_id req.idempotency_key ∷ [])
                  t.world).1
              ≡ true))
  unfolding publish publish_with new_publisher is_ack via_jetstream new_envelope
  via_jetstream_iff j id req t = ground (
    arith,
    trim_none req.subject,
    jetstream_publish_lem j (new_envelope req.subject req.payload) (msg_id req.idempotency_key ∷ [])
        t,
  )
