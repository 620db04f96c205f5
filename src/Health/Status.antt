-- ===== src/Health/Status.antt =====
-- When a client is healthy, and what a check records.
use natsx.Base.{Bool, true, false, ◌++◌, Option, none, some, ◌≡◌, refl, ◌↔◌, arith}
use natsx.Base.Text.{Text}
use natsx.Client.{Client, is_disconnected}
use natsx.Core.{ready, metrics_of}
use natsx.Errors.{is_nil, validation_error, context_error, wrap_error}
use natsx.Metrics.{State, recorded, record_metric}
use natsx.Nats.Conn.{NatsApi}
use natsx.Health.{
  HealthStatusValue, healthy, degraded, unhealthy, health_gauge, health_latency, finish,
  health_status, health_check,
}

abbrev pub is_healthy : HealthStatusValue → Bool
is_healthy healthy = true
is_healthy degraded = false
is_healthy unhealthy = false

module _ (api : NatsApi) where
  -- On a connection that is not closed, a check finds a client healthy if and only if `ready`, the test
  -- before publishing and requesting, passes with the same context, under any operation's name.
  pub healthy_iff_ready :
      (op : Text) (c : Option Client) (ctx : Option api.Context) (s : State api.World)
      → api.is_closed s.world ≡ false
      → is_healthy (health_check api c ctx s).0.status ≡ is_nil (ready api op c ctx s)
  unfolding health_check health_status finish ready validation_error context_error wrap_error
  healthy_iff_ready op c ctx s h = elim ctx [
    | none ↦ elim c [ none ↦ ground arith | some d ↦ ground arith ]
    | some x ↦ elim c [ none ↦ ground arith | some d ↦ ground arith ]
  ]

  -- A check acts on nothing but the metrics. A client with metrics records the gauge and then the
  -- latency of the status found; without a client or metrics nothing is recorded.
  pub health_check_records :
      (c : Option Client) (ctx : Option api.Context) (s : State api.World)
      → let (status, t) = health_check api c ctx s in
        (t.world ≡ s.world)
        × (t.log ≡ elim (metrics_of c) [
          | none ↦ s.log
          | some m ↦
              (s.log ++ recorded m (health_gauge status)) ++ recorded m (health_latency status)
        ])
  unfolding health_check finish record_metric
  health_check_records none ctx s = (refl, refl)
  health_check_records (some c) ctx s = ground arith

  -- With a live context and a connection, a client is degraded exactly if its connection is open and away
  -- from its server.
  pub degraded_iff :
      (c : Client) (ctx : api.Context) (s : State api.World)
      → is_nil (api.context_err ctx s.world) ≡ true
      → is_disconnected (some c) ≡ false
      → ((health_check api (some c) (some ctx) s).0.status ≡ degraded)
        ↔ ((api.is_closed s.world ≡ false) × (api.is_connected s.world ≡ false))
  unfolding health_check health_status finish
  degraded_iff c ctx s hc hd = ground arith
