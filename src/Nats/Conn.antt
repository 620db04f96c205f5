-- ===== src/Nats/Conn.antt =====
-- What the client calls of a `*nats.Conn` and of a `context.Context`. The world is whatever these act
-- on: connection, server and clock. A call returns its results and the world behind it.
use natsx.Base.{ℕ, ℤ, Bool, true, List, Option, ◌≡◌}
use natsx.Base.Text.{Text}
use natsx.Config.{TlsConfig}
use natsx.Errors.{Error, is_error, connection_closed}
use natsx.Metrics.{Metrics}
use natsx.Nats.Header.{HeaderApi, Msg}

-- The options that `New` passes to `nats.Connect`. The two handlers hold what they capture; a seed
-- stands for the option that `NkeyOptionFromSeed` makes of it; `custom` is one of the caller's.
pub data NatsOption : Type 0 where
  opt_name : Text → NatsOption
  opt_timeout : ℤ → NatsOption
  opt_max_reconnects : ℤ → NatsOption
  opt_reconnect_wait : ℤ → NatsOption
  opt_drain_timeout : ℤ → NatsOption
  opt_disconnect_handler : Metrics → Text → NatsOption
  opt_reconnect_handler : Metrics → Text → NatsOption
  opt_token : Text → NatsOption
  opt_user_info : Text → Text → NatsOption
  opt_user_credentials : Text → NatsOption
  opt_nkey : Text → NatsOption
  opt_secure : Option TlsConfig → NatsOption
  opt_custom : ℕ → NatsOption

pub record NatsApi : Type 1 where
  pub World : Type 0
  pub Context : Type 0
  pub headers : HeaderApi
  -- `ctx.Err()`
  pub context_err : Context → World → Error
  -- `nats.NkeyOptionFromSeed`: its error, or nil
  pub nkey_error : Text → Error
  -- `nats.Connect`
  pub connect : Text → List NatsOption → World → Error × World
  -- `conn.JetStream()`
  pub jetstream : World → Error × World
  pub is_connected : World → Bool
  pub is_closed : World → Bool
  pub publish_msg : Msg → World → Error × World
  pub flush_with_context : Context → World → Error × World
  pub request_msg_with_context : Context → Msg → World → Option Msg × Error × World
  pub subscribe : Text → World → Error × World
  pub queue_subscribe : Text → Text → World → Error × World
  -- `msg.RespondMsg(reply)`
  pub respond_msg : Msg → Msg → World → Error × World
  pub drain : World → Error × World
  pub close : World → World
  pub connected_server_id : World → Text
  pub connected_url : World → Text

-- What nats.go documents of closing: `Close` leaves the connection closed, and `Drain` fails with
-- `ErrConnectionClosed` on a closed connection only.
pub record ClosesConn (api : NatsApi) : Type 0 where
  pub close-is_closed : (w : api.World) → api.is_closed (api.close w) ≡ true
  pub drain-is_closed :
      (w : api.World)
      → is_error (api.drain w).0 connection_closed ≡ true
      → api.is_closed (api.drain w).1 ≡ true
