-- ===== src/Tests/JetStreams.antt =====
-- Streams, consumers and the ingest adapter at concrete inputs.
use natsx.Base.{
  ℕ, arith, suc, ◌-◌, zero, Bool, pos, true, false, [], ◌∷◌, none, some, ◌≡◌, refl, ◌⊎◌, ◌↔◌,
  is_empty, ◌||◌,
}
use natsx.Base.Eq.{bool_eq}
use natsx.Base.Text.{codes, trim_space}
use natsx.Envelope.{empty_envelope}
use natsx.Errors.{
  Error, nil, is_nil, is_error, as_error, Sentinel, conflict, unavailable, connection, foreign,
  stream_not_found, stream_name_already_in_use, consumer_name_already_in_use, nats_timeout, ok,
  fail,
}
use natsx.Ingest as I
use natsx.Ingest.{
  PublishRequest, new_publisher, is_ack, Publishes, Pulls, ConsumerConfig, fetch, fetch_message,
  fetch_failure,
}
use natsx.Ingest.Publishing.{via_jetstream, via_jetstream_iff}
use natsx.Ingest.Fetching.{Counted}
use natsx.JetStream.{
  PubAck, jetstream_error, add_stream, create_stream, add_consumer, consumer_config_name,
  existing_stream, publish,
}
use natsx.JetStream.Admin.{jetstream_error_lem, add_stream_ok, add_consumer_iff, Created, Named}
use natsx.JetStream.Configs.{stream_config_matches, consumer_config_matches, none_of}
use natsx.JetStream.Configs.Overlay.{
  overlay_stream, overlay_consumer, stream_config_matches_iff, consumer_config_matches_iff,
}
use natsx.Metrics.{State}
use natsx.Nats.Header.{plain_headers}
use natsx.Subject.{validate_subject}
use natsx.Subject.Shape.{IsSubject}
use natsx.Tests.Streams.{plain, orders_stream, worker, server, js_client}

abbrev missing : Error
missing = foreign stream_not_found (codes "stream not found") nil

jetstream_error_lem_example :
    let err = jetstream_error (codes "natsx.StreamInfo") missing in
    (is_nil err ≡ false)
    × ((target : Sentinel) → is_error err target ≡ is_error missing target)
    × ((as_error err ≡ some (record { kind = conflict; retryable = false }))
        ⊎ (as_error err ≡ some (record { kind = unavailable; retryable = true }))
        ⊎ (as_error err ≡ some (record { kind = connection; retryable = true })))
    × ((as_error err ≡ some (record { kind = conflict; retryable = false })) ↔ (
        (is_error missing stream_name_already_in_use
          || is_error missing consumer_name_already_in_use)
        ≡ true))
jetstream_error_lem_example = jetstream_error_lem (codes "natsx.StreamInfo") missing refl

add_test :
    add_stream plain server (some js_client) (some orders_stream) 0 ≡ (ok (some orders_stream), 0)
unfolding add_stream create_stream trim_space is_error stream_config_matches none_of bool_eq
add_test = refl

add_stream_ok_example :
    ((is_nil (server.add_stream orders_stream 0).1 ≡ true)
      × (some orders_stream ≡ (server.add_stream orders_stream 0).0))
    ⊎ ((is_error (server.add_stream orders_stream 0).1 stream_name_already_in_use ≡ true)
        × (some orders_stream
            ≡ (server.stream_info
                (trim_space orders_stream.name)
                (server.add_stream orders_stream 0).2).0)
        × (stream_config_matches plain
              (some orders_stream)
              (existing_stream plain server (some orders_stream))
            ≡ true))
add_stream_ok_example =
    add_stream_ok plain server (some js_client) orders_stream 0 0 (some orders_stream) add_test

add_consumer_iff_example :
    (add_consumer plain server (some js_client) (codes "ORDERS") (some worker) 3
      ≡ (ok (some worker), 3))
    ↔ ((false ≡ false)
        × (is_empty (trim_space (codes "ORDERS")) ≡ false)
        × (((is_empty (consumer_config_name plain server worker) ≡ true)
              × Created plain server (trim_space (codes "ORDERS")) worker 3 (some worker) 3)
            ⊎ ((is_empty (consumer_config_name plain server worker) ≡ false)
                × Named plain server (trim_space (codes "ORDERS")) worker 3 (some worker) 3)))
add_consumer_iff_example =
    add_consumer_iff plain server (some js_client) (codes "ORDERS") worker 3 3 (some worker)

stream_config_matches_iff_example :
    (stream_config_matches plain (some orders_stream) (some orders_stream) ≡ true)
    ↔ (overlay_stream plain orders_stream orders_stream ≡ orders_stream)
stream_config_matches_iff_example = stream_config_matches_iff plain orders_stream orders_stream

consumer_config_matches_iff_example :
    (consumer_config_matches plain (some worker) (some (record worker { durable = codes "other" }))
      ≡ true)
    ↔ (overlay_consumer plain worker (record worker { durable = codes "other" })
        ≡ record worker { durable = codes "other" })
consumer_config_matches_iff_example =
    consumer_config_matches_iff plain worker (record worker { durable = codes "other" })

abbrev start : State ℕ
start = record { world = 0; log = [] }

abbrev first_ack : PubAck
first_ack = record { stream = codes "ORDERS"; sequence = 1; duplicate = false }

abbrev bad_error : Error
bad_error = validate_subject (codes "natsx.JetStreamPublish") []

bad_test :
    (publish plain server plain_headers (some js_client) empty_envelope [] start).0 ≡ fail bad_error
unfolding publish validate_subject trim_space
bad_test = refl

abbrev tick_request : PublishRequest
tick_request = record {
  subject = codes "market.tick";
  payload = 7 ∷ [];
  idempotency_key = codes "k1";
}

via_jetstream_iff_example :
    (is_ack
        (I.publish
          (some
            (new_publisher (some (via_jetstream plain server plain_headers (some js_client))) []))
          tick_request
          start).0
      ≡ true)
    ↔ ((is_empty (trim_space (codes "k1")) ≡ false)
        × IsSubject (codes "market.tick")
        × (false ≡ false)
        × (true ≡ true))
via_jetstream_iff_example =
    via_jetstream_iff plain server plain_headers (some js_client) [] tick_request start

-- A publisher whose server is away.
abbrev away : Publishes ℕ
away = record { publish = λ env opts w. (none, missing, w) }

abbrev timed_out : Error
timed_out = foreign nats_timeout (codes "nats: timeout") nil

-- A pull that times out; the world counts the handles that are open.
abbrev slow : Pulls ℕ
slow = record {
  Handle = Unit {0};
  pull_subscribe = λ stream subject durable w. (tt, nil, suc w);
  fetch = λ handle max wait w. ([], timed_out, w);
  close = λ handle w. (nil, w - 1);
}

abbrev ticks : ConsumerConfig
ticks = record {
  stream = codes "S";
  subject = codes "market.>";
  durable = codes "d";
  max_wait = pos 1;
}

abbrev is_some : ℕ → Bool
is_some zero = false
is_some (suc n) = true

never_refused : {A : Type 0} → true ≡ false → A
never_refused h = absurd (ground (arith, h))

abbrev slow_counted : Counted slow
slow_counted = record {
  open_count = λ w. w;
  is_open = λ handle w. is_some w;
  subscribed = λ stream subject durable w got. (refl, refl);
  refused = λ stream subject durable w failed. never_refused failed;
  pulled = λ handle max wait w. (refl, refl);
  ended = λ handle w still. refl;
}
