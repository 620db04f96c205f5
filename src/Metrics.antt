-- ===== src/Metrics.antt =====
-- pkg/natsx/metrics.go and options.go: the names, the calls that reach a `Metrics`, and the options
-- of a client. A call is recorded with the implementation that it reaches; `NoopMetrics` drops it.
-- Durations are read off a clock and are not modelled, so a histogram's call holds no value; the
-- value of a gauge is in tenths.
use natsx.Base.{ℕ, List, [], ◌∷◌, ◌++◌, Option, none, some}
use natsx.Base.Text.{Text, codes}
use natsx.Errors.{Error, error_kind, kind_text}

abbrev pub metric_client_created_total : Text
metric_client_created_total = codes "foundationx_nats_client_created_total"

abbrev pub metric_client_closed_total : Text
metric_client_closed_total = codes "foundationx_nats_client_closed_total"

abbrev pub metric_client_errors_total : Text
metric_client_errors_total = codes "foundationx_nats_client_errors_total"

abbrev pub metric_client_health_status : Text
metric_client_health_status = codes "foundationx_nats_client_health_status"

abbrev pub metric_client_health_latency_ms : Text
metric_client_health_latency_ms = codes "foundationx_nats_client_health_latency_ms"

abbrev pub metric_core_messages_total : Text
metric_core_messages_total = codes "foundationx_nats_core_messages_total"

abbrev pub metric_core_request_duration_seconds : Text
metric_core_request_duration_seconds = codes "foundationx_nats_core_request_duration_seconds"

abbrev pub metric_jetstream_messages_total : Text
metric_jetstream_messages_total = codes "foundationx_nats_jetstream_messages_total"

abbrev pub Labels : Type 0
Labels = List (Text × Text)

pub data Metric : Type 0 where
  inc_counter : Text → Labels → Metric
  observe_histogram : Text → Labels → Metric
  set_gauge : Text → ℕ → Labels → Metric

-- An implementation of the interface `Metrics`: the one that drops all calls, or one of the caller.
pub data Metrics : Type 0 where
  noop : Metrics
  recorder : ℕ → Metrics

-- The world that calls act on, and the metric calls made so far.
pub record State (World : Type 0) : Type 0 where
  pub world : World
  pub log : List (ℕ × Metric)

abbrev pub recorded : Metrics → Metric → List (ℕ × Metric)
recorded noop metric = []
recorded (recorder id) metric = (id, metric) ∷ []

abbrev pub error_metric : Text → Error → Metric
error_metric op err =
    inc_counter metric_client_errors_total
      ((codes "op", op) ∷ (codes "kind", kind_text (error_kind err)) ∷ [])

module _ {W : Type 0} where
  -- A method call on a `Metrics`.
  unfoldable pub record_metric : Metrics → Metric → State W → State W
  record_metric metrics metric s = record s { log = s.log ++ recorded metrics metric }

  -- `recordErrorMetric`; `none` is a nil interface.
  unfoldable pub record_error_metric : Option Metrics → Text → Error → State W → State W
  unfolding record_metric
  record_error_metric none op err s = s
  record_error_metric (some metrics) op err s = record_metric metrics (error_metric op err) s
