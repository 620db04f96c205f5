-- ===== src/Templatex/Client.antt =====
-- pkg/templatex/client.go, metrics.go and options.go. The calls that reach a `Metrics` are recorded;
-- `NoopMetrics` drops them. A call of `Close` is run here without another beside it.
use natsx.Base.{ℕ, Bool, true, false, not, List, [], ◌∷◌, ◌++◌, Option, none, some, if◌then◌else◌}
use natsx.Base.Text.{Text, codes}
use natsx.Templatex.{
  Error, nil, is_nil, Config, validate, validation_error, context_error, error_kind, kind_text,
}

pub data Metric : Type 0 where
  client_created_total client_closed_total : Text → Metric
  client_errors_total : Text → Text → Metric
  client_health_status : Text → Text → ℕ → Metric
  client_health_latency_ms : Text → Text → Metric

pub data Metrics : Type 0 where
  noop recorder : Metrics

abbrev pub Log : Type 0
Log = List Metric

abbrev pub record_metric : Option Metrics → Metric → Log → Log
record_metric none metric log = log
record_metric (some noop) metric log = log
record_metric (some recorder) metric log = log ++ metric ∷ []

unfoldable pub record_error_metric : Option Metrics → Text → Error → Log → Log
record_error_metric metrics op err log =
    record_metric metrics (client_errors_total op (kind_text (error_kind err))) log

-- What `New` and `Close` read of a context.
pub record Context : Type 0 where
  pub err : Error

-- The fields of the client but for its mutex.
pub record Client : Type 0 where
  pub cfg : Config
  pub metrics : Option Metrics
  pub initialized : Bool
  pub closed : Bool

-- `WithMetrics`, the only option: nil is ignored.
abbrev pub ClientOption : Type 0
ClientOption = Option Metrics

-- The loop over the options, from `NoopMetrics`.
unfoldable pub apply_options : Metrics → List ClientOption → Metrics
apply_options metrics [] = metrics
apply_options metrics (none ∷ opts) = apply_options metrics opts
apply_options metrics (some m ∷ opts) = apply_options m opts

abbrev op_new : Text
op_new = codes "templatex.New"

abbrev op_close : Text
op_close = codes "templatex.Close"

abbrev refuse : Metrics → Error → Log → Option Client × Error × Log
refuse metrics err log = (none, err, record_error_metric (some metrics) (codes "new") err log)

unfoldable pub new : Option Context → Config → List ClientOption → Log → Option Client × Error × Log
unfolding apply_options validate
new ctx cfg opts log =
    let metrics = apply_options noop opts in
    elim ctx [
      | none ↦ refuse metrics (validation_error op_new (codes "context is required") nil) log
      | some context ↦
          if not (is_nil context.err)
          then refuse metrics (context_error op_new context.err) log
          else if not (is_nil (validate cfg))
          then refuse metrics (validate cfg) log
          else (
            some (record { cfg = cfg; metrics = some metrics; initialized = true; closed = false }),
            nil,
            record_metric (some metrics) (client_created_total cfg.name) log,
          )
    ]

-- What the mutex guards: the error, or whether this call is the one that closes the client.
pub data Locked : Type 0 where
  uninitialized already_closed closes : Locked

unfoldable pub close_locked : Client → Locked × Client
close_locked c =
    if not c.initialized
    then (uninitialized, c)
    else if c.closed
    then (already_closed, c)
    else (closes, record c { closed = true })

-- What follows once the mutex is free.
unfoldable pub close_after : Locked → Client → Log → Error × Log
unfolding record_error_metric
close_after uninitialized c log =
    let err = validation_error op_close (codes "client is not initialized") nil in
    (err, record_error_metric c.metrics (codes "close") err log)
close_after already_closed c log = (nil, log)
close_after closes c log = (nil, record_metric c.metrics (client_closed_total c.cfg.name) log)

-- The checks before the mutex is taken: an error ends the call.
unfoldable pub close_checks : Option Context → Error
close_checks none = validation_error op_close (codes "context is required") nil
close_checks (some context) = if is_nil context.err then nil else context_error op_close context.err

-- `Close`, with the client as the call leaves it.
unfoldable pub close : Option Client → Option Context → Log → Error × Option Client × Log
unfolding close_locked close_after close_checks record_error_metric
close none ctx log = (validation_error op_close (codes "client is nil") nil, none, log)
close (some c) ctx log =
    let err = close_checks ctx in
    let locked = close_locked c in
    let result = close_after locked.0 locked.1 log in
    if not (is_nil err)
    then (err, some c, record_error_metric c.metrics (codes "close") err log)
    else (result.0, some locked.1, result.1)
