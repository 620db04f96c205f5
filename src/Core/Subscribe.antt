-- ===== src/Core/Subscribe.antt =====
-- Subscriptions and their callback.
use natsx.Base.{ℕ, true, false, List, [], ◌∷◌, ◌++◌, some, ◌≡◌, ◌⊎◌, arith, if◌then◌else◌, is_empty}
use natsx.Base.Text.{Text, codes}
use natsx.Core.{message_metric, Handler, on_message}
use natsx.Envelope.{Envelope, to_msg, envelope_from_msg}
use natsx.Errors.{Error, is_nil, error_kind, kind_text}
use natsx.Metrics.{
  Metric, Metrics, State, recorded, record_metric, inc_counter, metric_client_errors_total,
}
use natsx.Nats.Conn.{NatsApi}
use natsx.Nats.Header.{Msg}

module _ (api : NatsApi) (background : api.Context) (m : Metrics) (op subject : Text)
    (handler : Handler api) (msg : Msg) (s : State api.World) where
  abbrev handled : Envelope × Error × api.World
  handled = handler background (envelope_from_msg api.headers (some msg)) s.world

  abbrev responded : Error × api.World
  responded =
      api.respond_msg msg (record (to_msg api.headers handled.0) { subject = msg.reply }) handled.2

  abbrev after : State api.World
  after = on_message api background (some m) op subject handler msg s

  abbrev failed_as : Text → List (ℕ × Metric)
  failed_as kind = recorded m (
      inc_counter metric_client_errors_total
        ((codes "op", codes "subscribe") ∷ (codes "kind", kind) ∷ []))

  -- The callback of a client with metrics runs the handler once. It answers on the reply subject
  -- exactly if there is one and the handler returns no error; and it records one call: an internal
  -- error where the handler fails, a connection error where the answer cannot be sent, and else the
  -- message.
  pub on_message_lem :
      ((is_nil handled.1 ≡ false)
        × (after.world ≡ handled.2)
        × (after.log ≡ s.log ++ failed_as (codes "internal")))
      ⊎ ((is_nil handled.1 ≡ true)
          × (is_empty msg.reply ≡ true)
          × (after.world ≡ handled.2)
          × (after.log ≡ s.log ++ recorded m (message_metric (codes "subscribe") subject)))
      ⊎ ((is_nil handled.1 ≡ true)
          × (is_empty msg.reply ≡ false)
          × (after.world ≡ responded.1)
          × (after.log
              ≡ s.log
                ++ (if is_nil responded.0
                    then recorded m (message_metric (codes "subscribe") subject)
                    else failed_as (codes "connection"))))
  unfolding on_message record_metric error_kind kind_text
  on_message_lem = ground arith
