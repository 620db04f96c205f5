-- ===== src/Health.antt =====
-- pkg/natsx/health.go. The clock's readings (`CheckedAt`, `LatencyMs`) are not modelled; what the gauge
-- is set to is in tenths.
pub mod Status
use natsx.Base.{
  ℕ, Bool, true, false, ◌&&◌, ◌||◌, not, List, [], ◌∷◌, ◌++◌, Option, none, some, ◌≡◌, refl, ◌↔◌,
  arith, if◌then◌else◌, is_empty,
}
use natsx.Base.Text.{Text, codes}
use natsx.Client.{Client, is_disconnected}
use natsx.Config.{with_defaults}
use natsx.Core.{metrics_of}
use natsx.Errors.{Error, nil, is_nil, error_text}
use natsx.Metrics.{
  Metrics, Metric, State, recorder, noop, set_gauge, observe_histogram, record_metric,
  metric_client_health_status, metric_client_health_latency_ms,
}
use natsx.Nats.Conn.{NatsApi}

pub data HealthStatusValue : Type 0 where
  healthy degraded unhealthy : HealthStatusValue

abbrev pub status_text : HealthStatusValue → Text
status_text healthy = codes "healthy"
status_text degraded = codes "degraded"
status_text unhealthy = codes "unhealthy"

pub record HealthStatus : Type 0 where
  pub name : Text
  pub status : HealthStatusValue
  pub message : Text
  pub metadata : List (Text × Text)

unfoldable pub health_gauge_value : HealthStatusValue → ℕ
health_gauge_value healthy = 10
health_gauge_value degraded = 5
health_gauge_value unhealthy = 0

abbrev pub status_labels : HealthStatus → List (Text × Text)
status_labels status =
    (codes "name", status.name) ∷ (codes "status", status_text status.status) ∷ []

abbrev pub health_gauge : HealthStatus → Metric
health_gauge status =
    set_gauge metric_client_health_status (health_gauge_value status.status) (status_labels status)

abbrev pub health_latency : HealthStatus → Metric
health_latency status = observe_histogram metric_client_health_latency_ms (status_labels status)

abbrev pub health_name : Option Client → Text
health_name none = codes "natsx"
health_name (some c) = (with_defaults c.cfg).name

module _ (api : NatsApi) where
  -- The closure `finish`.
  unfoldable pub finish :
      Option Client → HealthStatus → State api.World → HealthStatus × State api.World
  unfolding record_metric
  finish none status s = (status, s)
  finish (some c) status s = elim c.metrics [
    | none ↦ (status, s)
    | some m ↦
        (status, record_metric m (health_latency status) (record_metric m (health_gauge status) s))
  ]

  -- The status that is found.
  unfoldable pub health_status : Option Client → Option api.Context → State api.World → HealthStatus
  health_status c none s = record {
    name = health_name c;
    status = unhealthy;
    message = codes "context is required";
    metadata = [];
  }
  health_status c (some ctx) s =
      let status : HealthStatus = record {
        name = health_name c;
        status = unhealthy;
        message = [];
        metadata = [];
      } in
      let err = api.context_err ctx s.world in
      if not (is_nil err)
      then record status { message = error_text err }
      else if is_disconnected c
      then record status { message = codes "client is not connected" }
      else if api.is_closed s.world
      then record status { message = codes "connection is closed" }
      else if not (api.is_connected s.world)
      then record status {
        status = degraded;
        message = codes "connection is reconnecting or disconnected";
      }
      else record status {
        status = healthy;
        message = codes "ok";
        metadata =
            (codes "server_id", api.connected_server_id s.world)
            ∷ (codes "server_url", api.connected_url s.world)
            ∷ [];
      }

  -- `HealthCheck`
  unfoldable pub health_check :
      Option Client → Option api.Context → State api.World → HealthStatus × State api.World
  unfolding health_status finish
  health_check c ctx s = finish c (health_status c ctx s) s
