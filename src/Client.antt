-- ===== src/Client.antt =====
-- pkg/natsx/client.go and options.go. A `*Client` that may be nil is an `Option Client`; all clients
-- of the model share the one connection of the world, so a client only says whether it has one.
pub mod Open
pub mod Closing
use natsx.Base.{
  ℕ, ℤ, Bool, true, false, ◌&&◌, ◌||◌, not, List, [], ◌∷◌, ◌++◌, Option, none, some, if◌then◌else◌,
  is_empty,
}
use natsx.Base.Text.{Text, codes, join}
use natsx.Config.{Config, zero_config, with_defaults, endpoints, validate, build_tls_config}
use natsx.Errors.{
  Error, nil, is_nil, is_error, ErrorKind, unavailable, timeout, connection_closed,
  connection_reconnecting, wrap_error, validation_error, context_error, connection_error, Result,
  ok, fail,
}
use natsx.GoLib.{GoLib}
use natsx.Metrics.{
  Metrics, noop, State, Metric, inc_counter, record_metric, record_error_metric,
  metric_client_created_total, metric_client_closed_total,
}
use natsx.Nats.Conn.{
  NatsApi, NatsOption, opt_name, opt_timeout, opt_max_reconnects, opt_reconnect_wait,
  opt_drain_timeout, opt_disconnect_handler, opt_reconnect_handler, opt_token, opt_user_info,
  opt_user_credentials, opt_nkey, opt_secure,
}

-- `metrics` is none at a nil interface, which a client of `New` or `Wrap` does not have.
pub record Client : Type 0 where
  pub cfg : Config
  pub metrics : Option Metrics
  pub has_conn : Bool
  pub has_js : Bool

-- `WithMetrics` (none for nil) and `WithNATSOptions`.
pub data ClientOption : Type 0 where
  with_metrics : Option Metrics → ClientOption
  with_nats_options : List NatsOption → ClientOption

pub record Options : Type 0 where
  pub metrics : Metrics
  pub nats_options : List NatsOption

abbrev pub default_options : Options
default_options = record { metrics = noop; nats_options = [] }

unfoldable pub apply_option : ClientOption → Options → Options
apply_option (with_metrics none) o = o
apply_option (with_metrics (some m)) o = record o { metrics = m }
apply_option (with_nats_options opts) o = record o { nats_options = o.nats_options ++ opts }

unfoldable pub apply_options : List ClientOption → Options → Options
unfolding apply_option
apply_options [] o = o
apply_options (opt ∷ opts) o = apply_options opts (apply_option opt o)

abbrev when : Bool → NatsOption → List NatsOption
when test opt = if test then opt ∷ [] else []

-- The options that `New` appends before it looks at the nkey seed, and those behind it.
unfoldable pub options_before : Metrics → Config → List NatsOption
options_before metrics cfg =
    (opt_name cfg.name
      ∷ opt_timeout cfg.timeout
      ∷ opt_max_reconnects cfg.max_reconnects
      ∷ opt_reconnect_wait cfg.reconnect_wait
      ∷ opt_drain_timeout cfg.drain_timeout
      ∷ opt_disconnect_handler metrics cfg.name
      ∷ opt_reconnect_handler metrics cfg.name
      ∷ [])
    ++ when (not (is_empty cfg.token)) (opt_token cfg.token)
    ++ when (not (is_empty cfg.username) || not (is_empty cfg.password))
        (opt_user_info cfg.username cfg.password)
    ++ when (not (is_empty cfg.credentials_file)) (opt_user_credentials cfg.credentials_file)

unfoldable pub connect_options : Options → Config → List NatsOption
unfolding options_before
connect_options o cfg =
    options_before o.metrics cfg
    ++ when (not (is_empty cfg.nkey_seed)) (opt_nkey cfg.nkey_seed)
    ++ when cfg.tls (opt_secure (build_tls_config cfg))
    ++ o.nats_options

-- `stringsJoin`: every part but the first behind a comma.
unfoldable pub strings_join_from : Text → List Text → Text
strings_join_from out [] = out
strings_join_from out (p ∷ ps) = strings_join_from (out ++ b',' ∷ [] ++ p) ps

unfoldable pub strings_join : List Text → Text
unfolding strings_join_from
strings_join [] = []
strings_join (p ∷ ps) = strings_join_from ([] ++ p) ps

abbrev pub op_new : Text
op_new = codes "natsx.New"

module _ (lib : GoLib) (api : NatsApi) where
  abbrev pub St : Type 0
  St = State api.World

  -- An error that `New` returns, recorded first.
  unfoldable pub new_failure : Metrics → Error → St → Result Client × St
  unfolding record_error_metric
  new_failure metrics err s = (fail err, record_error_metric (some metrics) (codes "new") err s)

  abbrev pub success : Metrics → Client → St → Result Client × St
  success metrics client s = (
    ok client,
    record_metric metrics
        (inc_counter metric_client_created_total ((codes "name", client.cfg.name) ∷ [])) s,
  )

  -- The part of `New` behind a connection that stands: JetStream, and the client.
  unfoldable pub open_client : Options → Config → St → Result Client × St
  unfolding new_failure
  open_client o cfg s =
      let client : Client = record {
        cfg = cfg;
        metrics = some o.metrics;
        has_conn = true;
        has_js = false;
      } in
      let (err, w) = api.jetstream s.world in
      if cfg.enable_jetstream
      then (if is_nil err
          then success o.metrics (record client { has_js = true }) (record s { world = w })
          else new_failure o.metrics
              (wrap_error unavailable op_new (codes "jetstream is unavailable") true err)
              (record s { world = api.close w }))
      else success o.metrics client s

  -- The part of `New` behind a valid configuration.
  unfoldable pub connect_client : Options → Config → St → Result Client × St
  connect_client o cfg s =
      let nkey = api.nkey_error cfg.nkey_seed in
      let (err, w) = api.connect (strings_join (endpoints cfg)) (connect_options o cfg) s.world in
      if not (is_empty cfg.nkey_seed) && not (is_nil nkey)
      then new_failure o.metrics (validation_error op_new (codes "invalid nkey seed") nkey) s
      else if is_nil err
      then open_client o cfg (record s { world = w })
      else new_failure o.metrics (connection_error op_new err) (record s { world = w })

  abbrev new_with : Options → Option api.Context → Config → St → Result Client × St
  new_with o none cfg s =
      new_failure o.metrics (validation_error op_new (codes "context is required") nil) s
  new_with o (some ctx) cfg s =
      let invalid = validate lib (with_defaults cfg) in
      if not (is_nil (api.context_err ctx s.world))
      then new_failure o.metrics (context_error op_new (api.context_err ctx s.world)) s
      else if is_nil invalid
      then connect_client o (with_defaults cfg) s
      else new_failure o.metrics invalid s

  unfoldable pub new : Option api.Context → Config → List ClientOption → St → Result Client × St
  unfolding apply_options
  new ctx cfg opts s = new_with (apply_options opts default_options) ctx cfg s

  -- `Wrap`; the flag says whether the connection is not nil.
  unfoldable pub wrap : Bool → List ClientOption → St → Result Client × St
  unfolding apply_options
  wrap false opts s =
      (fail (validation_error (codes "natsx.Wrap") (codes "connection is required") nil), s)
  wrap true opts s =
      let (err, w) = api.jetstream s.world in
      (
        ok (record {
          cfg = with_defaults (record zero_config { name = codes "natsx" });
          metrics = some (apply_options opts default_options).metrics;
          has_conn = true;
          has_js = is_nil err;
        }),
        record s { world = w },
      )

-- `c == nil || c.conn == nil`
abbrev pub is_disconnected : Option Client → Bool
is_disconnected none = true
is_disconnected (some c) = not c.has_conn

module _ (api : NatsApi) where
  -- What `(c *Client) JetStream` returns (its error, nil beside a context), and the client behind it.
  unfoldable pub jetstream :
      Option Client → State api.World → Error × Option Client × State api.World
  jetstream none s =
      (validation_error (codes "natsx.JetStream") (codes "client is not connected") nil, none, s)
  jetstream (some c) s =
      let (err, w) = api.jetstream s.world in
      if not c.has_conn
      then (
        validation_error (codes "natsx.JetStream") (codes "client is not connected") nil,
        some c,
        s,
      )
      else if c.has_js
      then (nil, some c, s)
      else if is_nil err
      then (nil, some (record c { has_js = true }), record s { world = w })
      else (
        wrap_error unavailable (codes "natsx.JetStream") (codes "jetstream is unavailable") true
            err,
        some c,
        record s { world = w },
      )

-- What wakes the `select` of `Close` up: the context, the drain timer, or the ticker.
pub data Channel : Type 0 where
  done timer tick : Channel

-- A wake-up, with what the world has become while `Close` waited.
pub record Wake (World : Type 0) : Type 0 where
  pub channel : Channel
  pub later : World → World

abbrev pub op_close : Text
op_close = codes "natsx.Close"

module _ (api : NatsApi) where
  abbrev close_failure : Client → Error → State api.World → Error × State api.World
  close_failure c err s = (err, record_error_metric c.metrics (codes "close") err s)

  abbrev count_closed : Option Metrics → Config → State api.World → State api.World
  count_closed none cfg s = s
  count_closed (some m) cfg s =
      record_metric m (inc_counter metric_client_closed_total ((codes "name", cfg.name) ∷ [])) s

  -- One round behind a wake-up, given the rounds that follow.
  unfoldable pub close_round :
      Client
      → api.Context
      → Channel
      → State api.World
      → Option (Error × State api.World)
      → Option (Error × State api.World)
  unfolding record_error_metric context_error
  close_round c ctx done s rest =
      let t : State api.World = record s { world = api.close s.world } in
      some (close_failure c (context_error op_close (api.context_err ctx t.world)) t)
  close_round c ctx timer s rest = some (
      close_failure c (wrap_error timeout op_close (codes "drain timeout exceeded") true nil)
        (record s { world = api.close s.world }))
  close_round c ctx tick s rest = rest

  -- The loop of `Close`, over the wake-ups in their order; none if it still waits behind the last.
  unfoldable pub close_loop :
      Client
      → api.Context
      → List (Wake api.World)
      → State api.World
      → Option (Error × State api.World)
  close_loop c ctx [] s =
      if api.is_closed s.world then some (nil, count_closed c.metrics c.cfg s) else none
  close_loop c ctx (wake ∷ wakes) s =
      let s' : State api.World = record s { world = wake.later s.world } in
      let rest = close_loop c ctx wakes s' in
      let round = close_round c ctx wake.channel s' rest in
      if api.is_closed s.world then some (nil, count_closed c.metrics c.cfg s) else round

  -- `Close` behind a failed `Drain`.
  unfoldable pub drain_failure : Client → Error → State api.World → Error × State api.World
  unfolding record_error_metric is_error connection_error
  drain_failure c err s =
      if is_error err connection_closed
      then (nil, s)
      else if is_error err connection_reconnecting
      then close_failure c (connection_error op_close err) (record s { world = api.close s.world })
      else close_failure c (connection_error op_close err) s

  abbrev pub close_with :
      Client
      → api.Context
      → List (Wake api.World)
      → State api.World
      → Option (Error × State api.World)
  close_with c ctx wakes s =
      let (err, w) = api.drain s.world in
      if not (is_nil (api.context_err ctx s.world))
      then some (context_error op_close (api.context_err ctx s.world), s)
      else if api.is_closed s.world
      then some (nil, s)
      else if is_nil err
      then close_loop c ctx wakes (record s { world = w })
      else some (drain_failure c err (record s { world = w }))

  -- `Close`; `background` is `context.Background()`, which a nil context stands for.
  unfoldable pub close :
      api.Context
      → Option Client
      → Option api.Context
      → List (Wake api.World)
      → State api.World
      → Option (Error × State api.World)
  close background none ctx wakes s = some (nil, s)
  close background (some c) none wakes s =
      if not c.has_conn then some (nil, s) else close_with c background wakes s
  close background (some c) (some ctx) wakes s =
      if not c.has_conn then some (nil, s) else close_with c ctx wakes s
