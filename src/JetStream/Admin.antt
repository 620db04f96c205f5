-- ===== src/JetStream/Admin.antt =====
-- About `jetStreamError`, `AddStream` and `AddConsumer` of pkg/natsx/jetstream.go.
use natsx.Base.{true, false, ◌||◌, ◌&&◌, Option, some, ◌≡◌, ◌⊎◌, ◌↔◌, arith, is_empty}
use natsx.Base.Text.{Text, trim_space}
use natsx.Errors.{
  Error, is_nil, is_error, as_error, wrap_error, connection_error, conflict, unavailable,
  connection, Sentinel, stream_name_already_in_use, consumer_name_already_in_use,
  consumer_not_found, ok,
}
use natsx.JetStream.{
  JetStreamApi, JetStreamClient, conflict_error, jetstream_error, existing_stream, create_stream,
  add_stream, consumer_config_name, named_consumer, create_consumer, existing_consumer, is_found,
  uninitialized, add_consumer,
}
use natsx.JetStream.Configs.{
  Shapes, StreamConfig, ConsumerConfig, stream_config_matches, consumer_config_matches,
}

-- A failure of the server stays a failure, in which `errors.Is` sees what it sees in the cause. It
-- is a `*Error` of one of three classes: a conflict, which is not to be retried, or an unavailable
-- or a connection error, which may be. It is a conflict exactly if the cause is a stream or consumer
-- name in use.
pub jetstream_error_lem :
    (op : Text) (cause : Error)
    → is_nil cause ≡ false
    → let err = jetstream_error op cause in
      (is_nil err ≡ false)
      × ((target : Sentinel) → is_error err target ≡ is_error cause target)
      × ((as_error err ≡ some (record { kind = conflict; retryable = false }))
          ⊎ (as_error err ≡ some (record { kind = unavailable; retryable = true }))
          ⊎ (as_error err ≡ some (record { kind = connection; retryable = true })))
      × ((as_error err ≡ some (record { kind = conflict; retryable = false })) ↔ (
          ((is_error cause stream_name_already_in_use)
            || is_error cause consumer_name_already_in_use)
          ≡ true))
unfolding jetstream_error as_error is_error conflict_error connection_error wrap_error
jetstream_error_lem op cause h = (ground arith, λ target. ground arith, ground arith, ground arith)

module _ {W : Type 0} (s : Shapes) (api : JetStreamApi s W) where
  -- A stream that `AddStream` hands out is the one that the server made of the configuration, or one
  -- that stood under its name with a configuration that the wanted one leaves unchanged.
  pub add_stream_ok :
      (j : Option JetStreamClient) (cfg : StreamConfig s) (w v : W) (info : Option api.StreamInfo)
      → add_stream s api j (some cfg) w ≡ (ok info, v)
      → ((is_nil (api.add_stream cfg w).1 ≡ true) × (info ≡ (api.add_stream cfg w).0))
        ⊎ ((is_error (api.add_stream cfg w).1 stream_name_already_in_use ≡ true)
            × (info ≡ (api.stream_info (trim_space cfg.name) (api.add_stream cfg w).2).0)
            × (stream_config_matches s (some cfg) (existing_stream s api info) ≡ true))
  unfolding add_stream create_stream
  add_stream_ok j cfg w v info h = ground (arith, h)

  -- What the server made of the configuration, or what stands under the name that it says is in use,
  -- if it matches.
  abbrev pub Created : Text → ConsumerConfig s → W → Option api.ConsumerInfo → W → Type 0
  Created stream cfg w info v =
      let made = api.add_consumer stream cfg w in
      let look = api.consumer_info stream (consumer_config_name s api cfg) made.2 in
      ((is_nil made.1 ≡ true) × (info ≡ made.0) × (v ≡ made.2))
      ⊎ ((is_nil made.1 ≡ false)
          × (is_error made.1 consumer_name_already_in_use ≡ true)
          × (is_empty (consumer_config_name s api cfg) ≡ false)
          × (is_nil look.1 ≡ true)
          × (consumer_config_matches s (some cfg) (existing_consumer s api look.0) ≡ true)
          × (info ≡ look.0)
          × (v ≡ look.2))

  create_consumer_iff :
      (stream : Text) (cfg : ConsumerConfig s) (w v : W) (info : Option api.ConsumerInfo)
      → (create_consumer s api stream cfg w ≡ (ok info, v)) ↔ Created stream cfg w info v
  unfolding create_consumer
  create_consumer_iff stream cfg w v info = ground arith

  -- What stands under the name, if it matches; or, if the server knows of none there, what is created.
  abbrev pub Named : Text → ConsumerConfig s → W → Option api.ConsumerInfo → W → Type 0
  Named stream cfg w info v =
      let look = api.consumer_info stream (consumer_config_name s api cfg) w in
      ((is_nil look.1 ≡ true)
        × (is_found s api look.0 ≡ true)
        × (consumer_config_matches s (some cfg) (existing_consumer s api look.0) ≡ true)
        × (info ≡ look.0)
        × (v ≡ look.2))
      ⊎ (((is_nil look.1 && is_found s api look.0) ≡ false)
          × ((is_nil look.1 || is_error look.1 consumer_not_found) ≡ true)
          × Created stream cfg look.2 info v)

  named_consumer_iff :
      (stream : Text) (cfg : ConsumerConfig s) (w v : W) (info : Option api.ConsumerInfo)
      → (named_consumer s api stream cfg (consumer_config_name s api cfg) w ≡ (ok info, v))
        ↔ Named stream cfg w info v
  unfolding named_consumer
  named_consumer_iff stream cfg w v info =
      let look = api.consumer_info stream (consumer_config_name s api cfg) w in
      ground (arith, create_consumer_iff stream cfg look.2 v info)

  -- For a configuration that is given, `AddConsumer` returns a consumer if and only if there is a
  -- JetStream, the name of the stream is not blank, and one of two holds. The configuration has a
  -- name, and a look under it finds a consumer that matches: then nothing is created. Or it has no
  -- name, or the look finds none; and then the server makes the consumer, or it says, where there is
  -- a name, that it is in use, and a second look finds one that matches. The consumer is the one
  -- found or made, and the world is the one behind the last of these calls.
  pub add_consumer_iff :
      (j : Option JetStreamClient) (stream : Text) (cfg : ConsumerConfig s) (w v : W)
      (info : Option api.ConsumerInfo)
      → (add_consumer s api j stream (some cfg) w ≡ (ok info, v)) ↔ (
          (uninitialized j ≡ false)
          × (is_empty (trim_space stream) ≡ false)
          × (((is_empty (consumer_config_name s api cfg) ≡ true)
                × Created (trim_space stream) cfg w info v)
              ⊎ ((is_empty (consumer_config_name s api cfg) ≡ false)
                  × Named (trim_space stream) cfg w info v)))
  unfolding add_consumer
  add_consumer_iff j stream cfg w v info = ground (
    arith,
    create_consumer_iff (trim_space stream) cfg w v info,
    named_consumer_iff (trim_space stream) cfg w v info,
  )
