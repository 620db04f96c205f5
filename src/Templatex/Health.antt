-- ===== src/Templatex/Health.antt =====
-- pkg/templatex/health.go. The clock's readings (`CheckedAt`, `LatencyMs`) are not modelled.
use natsx.Base.{
  ℕ, Bool, true, false, not, List, [], ◌∷◌, Option, none, some, ℤ, pos, negsuc, is_nonpositive,
  is_empty, ltb, if◌then◌else◌,
}
use natsx.Base.Text.{Text, codes}
use natsx.Templatex.{Error, is_nil, error_text}
use natsx.Templatex.Client.{
  Client, Metrics, Log, record_metric, client_health_status, client_health_latency_ms,
}

pub data HealthStatusValue : Type 0 where
  healthy degraded unhealthy : HealthStatusValue

abbrev pub status_text : HealthStatusValue → Text
status_text healthy = codes "healthy"
status_text degraded = codes "degraded"
status_text unhealthy = codes "unhealthy"

pub record HealthStatus : Type 0 where
  pub name : Text
  pub status : HealthStatusValue
  pub message : Text
  pub metadata : List (Text × Text)

-- What the code reads of a context: its error, at first and once more after the deadline, and the time
-- that is left until the deadline, if it has one.
pub record Context : Type 0 where
  pub err : Error
  pub remaining : Option ℤ
  pub err_after : Error

-- `a < b`
abbrev pub int_less : ℤ → ℤ → Bool
int_less (pos a) (pos b) = ltb a b
int_less (pos a) (negsuc b) = false
int_less (negsuc a) (pos b) = true
int_less (negsuc a) (negsuc b) = ltb b a

-- What `time.Duration.String` prints is a parameter.
module _ (duration_text : ℤ → Text) where
  abbrev result : Text → HealthStatusValue → Text → HealthStatus
  result name status message = record {
    name = name;
    status = status;
    message = message;
    metadata = [];
  }

  -- The deadline against the timeout of the client, where both are set.
  unfoldable pub deadline_status : Text → ℤ → Context → Option ℤ → HealthStatus
  deadline_status name timeout ctx none = result name healthy (codes "ok")
  deadline_status name timeout ctx (some remaining) =
      if is_nonpositive remaining
      then result name unhealthy (
          if is_nil ctx.err_after
          then codes "context deadline exceeded"
          else error_text ctx.err_after)
      else if int_less remaining timeout
      then record {
        name = name;
        status = degraded;
        message = codes "context deadline is shorter than client timeout";
        metadata =
            (codes "reason", codes "deadline_below_timeout")
            ∷ (codes "timeout", duration_text timeout)
            ∷ [];
      }
      else result name healthy (codes "ok")

  abbrev pub client_name : Option Client → Text
  client_name none = codes "templatex"
  client_name (some c) = if is_empty c.cfg.name then codes "templatex" else c.cfg.name

  -- The status of a client, once the context has been found alive.
  unfoldable pub client_status : Option Client → Context → HealthStatus
  unfolding deadline_status
  client_status none ctx = result (client_name none) unhealthy (codes "client is not initialized")
  client_status (some c) ctx =
      let name = client_name (some c) in
      if not c.initialized
      then result name unhealthy (codes "client is not initialized")
      else if c.closed
      then result name unhealthy (codes "client is closed")
      else if is_nonpositive c.cfg.timeout
      then result name healthy (codes "ok")
      else deadline_status name c.cfg.timeout ctx ctx.remaining

  unfoldable pub health_status : Option Client → Option Context → HealthStatus
  unfolding client_status
  health_status c none = result (client_name c) unhealthy (codes "context is required")
  health_status c (some ctx) =
      if not (is_nil ctx.err)
      then result (client_name c) unhealthy (error_text ctx.err)
      else client_status c ctx

  unfoldable pub health_gauge_value : HealthStatusValue → ℕ
  health_gauge_value healthy = 1
  health_gauge_value degraded = 0
  health_gauge_value unhealthy = 0

  abbrev metrics_of : Option Client → Option Metrics
  metrics_of none = none
  metrics_of (some c) = c.metrics

  unfoldable pub record_health_metric : Option Metrics → HealthStatus → Log → Log
  record_health_metric metrics status log =
      record_metric metrics (client_health_latency_ms status.name (status_text status.status)) (
        record_metric metrics
          (client_health_status status.name (status_text status.status)
            (health_gauge_value status.status))
          log)

  -- `HealthCheck`
  unfoldable pub health_check : Option Client → Option Context → Log → HealthStatus × Log
  unfolding health_status record_health_metric
  health_check c ctx log =
      let status = health_status c ctx in (status, record_health_metric (metrics_of c) status log)
