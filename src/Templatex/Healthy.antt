-- ===== src/Templatex/Healthy.antt =====
-- When `HealthCheck` of pkg/templatex/health.go finds a client healthy, and `New` and `Close` of client.go.
use natsx.Base.{
  Bool, true, false, ◌&&◌, ◌||◌, not, Option, none, some, ◌≡◌, ℤ, is_nonpositive, arith,
}
use natsx.Base.Text.{Text}
use natsx.Templatex.{is_nil}
use natsx.Templatex.Client.{Client}
use natsx.Templatex.Health.{
  HealthStatusValue, healthy, degraded, unhealthy, Context, int_less, health_status, client_status,
  deadline_status,
}

abbrev pub is_healthy : HealthStatusValue → Bool
is_healthy healthy = true
is_healthy degraded = false
is_healthy unhealthy = false

abbrev pub is_live : Option Client → Bool
is_live none = false
is_live (some c) = c.initialized && not c.closed

-- The client has no timeout, the context no deadline, or the deadline leaves the timeout.
abbrev pub has_time : Option Client → Context → Bool
has_time none ctx = false
has_time (some c) ctx = elim ctx.remaining [
  | none ↦ true
  | some remaining ↦
      is_nonpositive c.cfg.timeout
      || not (is_nonpositive remaining) && not (int_less remaining c.cfg.timeout)
]

-- A client is healthy exactly if it is initialised and not closed, the context is alive, and its deadline
-- leaves the client its timeout.
pub health_status_iff :
    (duration_text : ℤ → Text) (c : Option Client) (ctx : Context)
    → is_healthy (health_status duration_text c (some ctx)).status
      ≡ (is_nil ctx.err && is_live c && has_time c ctx)
unfolding health_status client_status deadline_status
health_status_iff duration_text none ctx = ground arith
health_status_iff duration_text (some c) ctx = ground arith
