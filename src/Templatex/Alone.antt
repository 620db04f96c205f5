-- ===== src/Templatex/Alone.antt =====
-- A call of `Close` of pkg/templatex/client.go with no other beside it: its steps come to what the
-- function `close` returns.
use natsx.Base.{true, [], ◌∷◌, ◌≡◌, if◌then◌else◌}
use natsx.Base.Text.{codes}
use natsx.Templatex.{Error, is_nil}
use natsx.Templatex.Client.{
  Client, Log, Locked, closes, close_locked, close_after, close_checks, record_error_metric,
}
use natsx.Templatex.Interleaving.{
  Call, starting, locking, holding, closing, unlocking, leaving, done, Shared, World,
}

abbrev Outcome : Type 0
Outcome = Error × Client × Log

abbrev past : Locked → Client → Log → Outcome
past l c log = ((close_after l c log).0, c, (close_after l c log).1)

-- What comes of a call from where it stands, if no other call takes a step.
abbrev outcome : Call → Shared → Outcome
outcome (starting ctx) s =
    if is_nil (close_checks ctx)
    then past (close_locked s.client).0 (close_locked s.client).1 s.log
    else (
      close_checks ctx,
      s.client,
      record_error_metric s.client.metrics (codes "close") (close_checks ctx) s.log,
    )
outcome locking s = past (close_locked s.client).0 (close_locked s.client).1 s.log
outcome holding s = past (close_locked s.client).0 (close_locked s.client).1 s.log
outcome closing s = past closes (record s.client { closed = true }) s.log
outcome (unlocking l) s = past l s.client s.log
outcome (leaving l) s = past l s.client s.log
outcome (done err) s = (err, s.client, s.log)

-- The world has one call, from which `out` is to come.
abbrev ComesTo : Outcome → World → Type 0
ComesTo out w = (call : Call) × (w.calls ≡ call ∷ []) × (outcome call w.shared ≡ out)
