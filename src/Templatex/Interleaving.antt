-- ===== src/Templatex/Interleaving.antt =====
-- Calls of `Close` of pkg/templatex/client.go on one client, beside each other. A call runs in steps: its
-- checks, the lock, the reads and the write that the mutex guards, the unlock, and what follows. Any
-- call that can take a step may be the next.
use natsx.Base.{
  ℕ, ◌+◌, arith, Bool, true, false, not, List, [], ◌∷◌, ◌++◌, Option, none, some, ◌≡◌, map,
  if◌then◌else◌,
}
use natsx.Base.Text.{codes}
use natsx.Templatex.{Error, is_nil}
use natsx.Templatex.Client.{
  Context, Client, Log, Locked, uninitialized, already_closed, closes, close_after, close_checks,
  record_error_metric,
}

-- Where a call stands.
pub data Call : Type 0 where
  starting : Option Context → Call
  locking : Call
  holding : Call  -- behind `c.mu.Lock()`
  closing : Call  -- before `c.closed = true`
  unlocking : Locked → Call  -- before the `c.mu.Unlock()` of its branch
  leaving : Locked → Call  -- behind it
  done : Error → Call

-- The client, with its mutex, and the metrics.
pub record Shared : Type 0 where
  pub client : Client
  pub locked : Bool
  pub log : Log

-- The next step of a call. A call that is done has none, and one at the lock has none while the mutex is
-- locked.
unfoldable pub close_step : Call → Shared → Option (Call × Shared)
unfolding close_checks record_error_metric close_after
close_step (starting ctx) s =
    let err = close_checks ctx in
    if is_nil err
    then some (locking, s)
    else some (
      done err,
      record s { log = record_error_metric s.client.metrics (codes "close") err s.log },
    )
close_step locking s = if s.locked then none else some (holding, record s { locked = true })
close_step holding s =
    if not s.client.initialized
    then some (unlocking uninitialized, s)
    else if s.client.closed
    then some (unlocking already_closed, s)
    else some (closing, s)
close_step closing s =
    some (unlocking closes, record s { client = record s.client { closed = true } })
close_step (unlocking l) s = some (leaving l, record s { locked = false })
close_step (leaving l) s =
    let result = close_after l s.client s.log in some (done result.0, record s { log = result.1 })
close_step (done err) s = none

pub record World : Type 0 where
  pub shared : Shared
  pub calls : List Call

abbrev pub world : Shared → List Call → World
world s calls = record { shared = s; calls = calls }

pub data Step : World → World → Type 0 where
  step :
      (before : List Call) (call : Call) (after : List Call) (s : Shared) (next : Call) (t : Shared)
      → close_step call s ≡ some (next, t)
      → Step (world s (before ++ call ∷ after)) (world t (before ++ next ∷ after))

pub data Reached (w : World) : World → Type 0 where
  start : Reached w w
  onward : {u v : World} → Reached w u → Step u v → Reached w v

-- Calls of `Close` on the client, one for each context, none of which has begun.
abbrev pub begin : Client → List (Option Context) → World
begin c contexts = world (record { client = c; locked = false; log = [] }) (map starting contexts)

abbrev pub is_done : Call → Bool
is_done (done _) = true
is_done _ = false

-- Between the lock and the unlock.
abbrev pub inside : Call → ℕ
inside holding = 1
inside closing = 1
inside (unlocking _) = 1
inside _ = 0

-- The sum of `f` over the calls.
abbrev pub total : (Call → ℕ) → List Call → ℕ
total f [] = 0
total f (call ∷ calls) = f call + total f calls

pub total-append :
    (f : Call → ℕ) (xs : List Call) (call : Call) (ys : List Call)
    → total f (xs ++ call ∷ ys) ≡ total f xs + f call + total f ys
total-append f [] call ys = omega arith
total-append f (x ∷ xs) call ys = omega (arith, total-append f xs call ys)
