-- ===== src/Templatex/Counts.antt =====
-- How often the closing of a client of pkg/templatex/client.go is counted, and what a step of one call of
-- `Close` does to that.
use natsx.Base.{ℕ, ◌+◌, ◌≤◌, Bool, true, false, ◌||◌, List, [], ◌∷◌, ◌++◌, Option, some, ◌≡◌, arith}
use natsx.Base.Text.{Text, codes}
use natsx.Templatex.{Error, is_nil}
use natsx.Templatex.Client.{
  Context, Client, recorder, Metric, client_created_total, client_closed_total, client_errors_total,
  client_health_status, client_health_latency_ms, Log, Locked, uninitialized, already_closed,
  closes, close_after, close_checks, record_error_metric,
}
use natsx.Templatex.Interleaving.{
  Call, starting, locking, holding, closing, unlocking, leaving, done, Shared, close_step, inside,
  total,
}
use natsx.Templatex.Progress.{one_if}

abbrev closed_metric : Metric → ℕ
closed_metric (client_created_total _) = 0
closed_metric (client_closed_total _) = 1
closed_metric (client_errors_total _ _) = 0
closed_metric (client_health_status _ _ _) = 0
closed_metric (client_health_latency_ms _ _) = 0

-- How often the closing of the client has been counted.
abbrev pub closings : Log → ℕ
closings [] = 0
closings (metric ∷ log) = closed_metric metric + closings log

closings-append :
    (log : Log) (metric : Metric)
    → closings (log ++ metric ∷ []) ≡ closings log + closed_metric metric
closings-append [] metric = omega arith
closings-append (m ∷ log) metric = omega (arith, closings-append log metric)

abbrev counts : Locked → ℕ
counts uninitialized = 0
counts already_closed = 0
counts closes = 1

-- The calls that have closed the client and are still to count it.
abbrev pub will_count : Call → ℕ
will_count (unlocking l) = counts l
will_count (leaving l) = counts l
will_count _ = 0

abbrev pub at_closing : Call → ℕ
at_closing closing = 1
at_closing _ = 0

at_closing_le : (call : Call) → at_closing call ≤ inside call
at_closing_le (starting ctx) = omega arith
at_closing_le locking = omega arith
at_closing_le holding = omega arith
at_closing_le closing = omega arith
at_closing_le (unlocking l) = omega arith
at_closing_le (leaving l) = omega arith
at_closing_le (done err) = omega arith

pub total-at_closing_le : (calls : List Call) → total at_closing calls ≤ total inside calls
total-at_closing_le [] = omega arith
total-at_closing_le (call ∷ calls) = omega (arith, at_closing_le call, total-at_closing_le calls)

pub one_if_le : (b : Bool) → one_if b ≤ 1
one_if_le true = omega arith
one_if_le false = omega arith

-- A context with which a call gets past its checks.
abbrev pub passes : Option Context → Bool
passes ctx = is_nil (close_checks ctx)

-- A call that has passed its checks, or will, and for which the client is not yet seen or set closed.
abbrev pub will_close : Call → Bool
will_close (starting ctx) = passes ctx
will_close locking = true
will_close holding = true
will_close closing = true
will_close _ = false

closings-record_error_metric :
    (c : Client) (op : Text) (err : Error) (log : Log)
    → c.metrics ≡ some recorder
    → closings (record_error_metric c.metrics op err log) ≡ closings log
unfolding record_error_metric
closings-record_error_metric c op err log h = rw h (omega (arith, closings-append log))

closings-close_after :
    (l : Locked) (c : Client) (log : Log)
    → c.metrics ≡ some recorder
    → closings (close_after l c log).1 ≡ closings log + counts l
unfolding close_after
closings-close_after uninitialized c log h =
    omega (arith, closings-record_error_metric c (codes "close") _ log h)
closings-close_after already_closed c log h = omega arith
closings-close_after closes c log h = rw h (closings-append log (client_closed_total c.cfg.name))

-- What a step of one call does to these counts.
abbrev pub Kept : Call → Call → Shared → Shared → Type 0
Kept call next s t =
    (t.client.initialized ≡ true)
    × (t.client.metrics ≡ some recorder)
    × (closings t.log + will_count next + one_if s.client.closed
        ≡ closings s.log + will_count call + one_if t.client.closed)
    × (at_closing next + one_if t.client.closed ≤ 1)
    × (at_closing next + one_if t.client.closed
        ≤ at_closing call + one_if s.client.closed + inside call)
    × ((t.client.closed || will_close next) ≡ (s.client.closed || will_close call))

pub close_step-Kept :
    (call next : Call) (s t : Shared)
    → close_step call s ≡ some (next, t)
    → s.client.initialized ≡ true
    → s.client.metrics ≡ some recorder
    → at_closing call + one_if s.client.closed ≤ 1
    → Kept call next s t
unfolding close_step
close_step-Kept (starting ctx) next s t h ready records few =
    let err = close_checks ctx in
    ground (
      arith,
      h,
      ready,
      records,
      few,
      closings-record_error_metric s.client (codes "close") err s.log records,
    )
close_step-Kept locking next s t h ready records few = ground (arith, h, ready, records, few)
close_step-Kept holding next s t h ready records few = ground (arith, h, ready, records, few)
close_step-Kept closing next s t h ready records few = ground (arith, h, ready, records, few)
close_step-Kept (unlocking l) next s t h ready records few = ground (arith, h, ready, records, few)
close_step-Kept (leaving l) next s t h ready records few =
    ground (arith, h, ready, records, few, closings-close_after l s.client s.log records)
close_step-Kept (done err) next s t h ready records few = absurd (ground (arith, h))
