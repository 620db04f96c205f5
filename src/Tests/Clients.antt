-- ===== src/Tests/Clients.antt =====
-- The client, the core operations and the health check at concrete inputs.
use natsx.Base.{
  ℕ, true, false, List, [], ◌∷◌, ◌++◌, none, some, ◌≡◌, ◌≢◌, refl, ◌⊎◌, ◌↔◌, if◌then◌else◌,
}
use natsx.Base.Text.{Text, codes, has_prefix, split, trim_space}
use natsx.Client.{
  Client, ClientOption, with_metrics, default_options, apply_options, new, Wake, timer, tick, close,
  strings_join, connect_options, close_loop, connect_client, open_client, close_round,
}
use natsx.Client.Open.{Opened, new-Opened, new-failure}
use natsx.Client.Closing.{close_ends, close-is_closed}
use natsx.Config.{
  zero_config, with_defaults, validate, endpoints, validate_filled, validate_endpoints,
}
use natsx.Core.{publish, request, on_message, message_metric, Handler}
use natsx.Core.Publish.{IsReady, IsSent, publish_iff, publish_records}
use natsx.Core.Request.{IsAnswered, request_iff}
use natsx.Core.Subscribe.{on_message_lem}
use natsx.Envelope.{Envelope, to_msg, envelope_from_msg}
use natsx.Errors.{Error, nil, is_nil, Result, ok, fail, connection_error, foreign, unnamed}
use natsx.Metrics.{
  Metric, State, recorded, error_metric, record_metric, record_error_metric, inc_counter,
  metric_client_created_total, metric_client_closed_total, metric_client_errors_total,
}
use natsx.Nats.Header.{Msg, plain_headers}
use natsx.Subject.Shape.{IsSubject}
use natsx.Tests.Support.{
  sample_lib, World, sample_api, sample_api-ClosesConn, opened, offline, sample_metrics,
  sample_client, sample_envelope,
}

opening : Unit {0}
unfolding new connect_client open_client with_defaults endpoints validate validate_filled
    validate_endpoints split has_prefix trim_space record_metric
opening = tt

abbrev recording : List ClientOption
recording = with_metrics (some sample_metrics) ∷ []

abbrev after_new : Result Client × State World
after_new = new sample_lib sample_api (some false) zero_config recording opened

abbrev made : Client
made = record {
  cfg = with_defaults zero_config;
  metrics = some sample_metrics;
  has_conn = true;
  has_js = false;
}

abbrev counted : State World
counted = record opened {
  log = (1, inc_counter metric_client_created_total ((codes "name", codes "natsx") ∷ [])) ∷ [];
}

new_test : new sample_lib sample_api (some false) zero_config recording opened ≡ (ok made, counted)
unfolding opening
new_test = refl

new-Opened_example :
    Opened sample_lib sample_api
      (apply_options recording default_options)
      zero_config
      opened
      made
      counted
new-Opened_example =
    new-Opened sample_lib sample_api (some false) zero_config recording opened new_test

abbrev no_servers : Error
no_servers = foreign unnamed (codes "no servers") nil

abbrev refusal : Error
refusal = connection_error (codes "natsx.New") no_servers

abbrev failed : State World
failed = record offline { log = recorded sample_metrics (error_metric (codes "new") refusal) }

failed_test :
    new sample_lib sample_api (some false) zero_config recording offline ≡ (fail refusal, failed)
unfolding opening record_error_metric
failed_test = refl

new-failure_example :
    let o = apply_options recording default_options in
    let dial =
      sample_api.connect
        (strings_join (endpoints (with_defaults zero_config)))
        (connect_options o (with_defaults zero_config))
        offline.world in
    (failed.log ≡ offline.log ++ recorded o.metrics (error_metric (codes "new") refusal))
    × ((failed.world ≡ offline.world)
        ⊎ ((is_nil dial.0 ≡ false) × (failed.world ≡ dial.1))
        ⊎ (sample_api.is_closed failed.world ≡ true))
new-failure_example =
    new-failure sample_lib sample_api sample_api-ClosesConn (some false) zero_config recording
      offline failed_test

-- The drained connection closes itself while the ticker runs.
abbrev wakes : List (Wake World)
wakes =
    record { channel = tick; later = λ w. record w { closed = true } }
    ∷ record { channel = timer; later = λ w. w }
    ∷ []

abbrev after_close : State World
after_close = record opened {
  world = record { closed = true; online = true; sent = [] };
  log = (1, inc_counter metric_client_closed_total ((codes "name", []) ∷ [])) ∷ [];
}

close_test : close sample_api false (some sample_client) none wakes opened ≡ some (nil, after_close)
unfolding close close_loop close_round record_metric
close_test = refl

close-is_closed_example : sample_api.is_closed after_close.world ≡ true
close-is_closed_example =
    close-is_closed sample_api sample_client sample_api-ClosesConn false none wakes opened refl
      close_test

close_ends_example : close sample_api false (some sample_client) (some false) wakes opened ≢ none
close_ends_example = close_ends sample_api sample_client false (some false) wakes opened refl

publish_iff_example :
    (is_nil (publish sample_api (some sample_client) (some false) sample_envelope opened).0 ≡ true)
    ↔ (IsReady sample_api sample_client false opened.world
        × IsSubject sample_envelope.subject
        × IsSent sample_api false sample_envelope opened.world
            (publish sample_api (some sample_client) (some false) sample_envelope opened).1.world)
publish_iff_example = publish_iff sample_api sample_client false sample_envelope opened

publish_records_example :
    let out = publish sample_api (some sample_client) (some false) sample_envelope opened in
    ((is_nil out.0 ≡ false) × (out.1 ≡ opened))
    ⊎ (out.1.log
        ≡ opened.log
          ++ recorded sample_metrics (
              if is_nil out.0
              then message_metric (codes "publish") sample_envelope.subject
              else error_metric (codes "publish") out.0))
publish_records_example =
    publish_records sample_api sample_client sample_metrics (some false) sample_envelope opened refl

request_iff_example :
    let out = request sample_api (some sample_client) (some false) sample_envelope opened in
    (is_nil out.1 ≡ true) ↔ (
      IsReady sample_api sample_client false opened.world
      × IsSubject sample_envelope.subject
      × IsAnswered sample_api false sample_envelope out.0 opened.world out.2.world)
request_iff_example = request_iff sample_api sample_client false sample_envelope opened

-- A handler that answers with what it was sent.
abbrev echo : Handler sample_api
echo ctx env w = (env, nil, w)

abbrev question : Msg
question = record {
  subject = codes "a.ask";
  reply = codes "a.inbox";
  header = [];
  payload = 5 ∷ [];
}

abbrev after_echo : State World
after_echo =
    on_message sample_api false (some sample_metrics) (codes "natsx.Subscribe") (codes "a.*") echo
      question opened

abbrev echoed : Envelope
echoed = envelope_from_msg plain_headers (some question)

abbrev failed_as : Text → List (ℕ × Metric)
failed_as kind = recorded sample_metrics (
    inc_counter metric_client_errors_total
      ((codes "op", codes "subscribe") ∷ (codes "kind", kind) ∷ []))

on_message_lem_example :
    ((true ≡ false)
      × (after_echo.world ≡ opened.world)
      × (after_echo.log ≡ opened.log ++ failed_as (codes "internal")))
    ⊎ ((true ≡ true)
        × (false ≡ true)
        × (after_echo.world ≡ opened.world)
        × (after_echo.log
            ≡ opened.log
              ++ recorded sample_metrics (message_metric (codes "subscribe") (codes "a.*"))))
    ⊎ ((true ≡ true)
        × (false ≡ false)
        × (after_echo.world ≡ record opened.world {
          sent = record (to_msg plain_headers echoed) { subject = codes "a.inbox" } ∷ [];
        })
        × (after_echo.log
            ≡ opened.log
              ++ recorded sample_metrics (message_metric (codes "subscribe") (codes "a.*"))))
on_message_lem_example =
    on_message_lem sample_api false sample_metrics (codes "natsx.Subscribe") (codes "a.*") echo
      question opened
