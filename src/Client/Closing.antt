-- ===== src/Client/Closing.antt =====
-- About `Close` of pkg/natsx/client.go.
use natsx.Base.{Bool, true, false, List, [], ◌∷◌, Option, none, some, ◌≡◌, ◌≢◌, arith, any}
use natsx.Errors.{Error, nil, context_error}
use natsx.Metrics.{State}
use natsx.Nats.Conn.{NatsApi, ClosesConn}
use natsx.Client.{
  Client, Channel, done, timer, tick, Wake, close, close_loop, close_round, drain_failure,
  close_with,
}

-- A wake-up by the context or by the drain timer.
abbrev pub is_final : Channel → Bool
is_final done = true
is_final timer = true
is_final tick = false

module _ (api : NatsApi) (c : Client) where
  close_loop_ends :
      (ctx : api.Context) (wakes : List (Wake api.World)) (s : State api.World)
      → any (λ wake. is_final wake.channel) wakes ≡ true
      → close_loop api c ctx wakes s ≢ none
  unfolding close_loop close_round
  close_loop_ends ctx [] s h = cc
  close_loop_ends ctx (wake ∷ wakes) s h =
      ground (arith, close_loop_ends ctx wakes (record s { world = wake.later s.world }))

  -- `Close` returns, whatever the connection does, once the context is done or the drain timer has
  -- fired: no schedule of wake-ups that holds one of these leaves it waiting.
  pub close_ends :
      (background : api.Context) (ctx : Option api.Context) (wakes : List (Wake api.World))
      (s : State api.World)
      → any (λ wake. is_final wake.channel) wakes ≡ true
      → close api background (some c) ctx wakes s ≢ none
  unfolding close
  close_ends background none wakes s h =
      ground (arith, close_loop_ends background wakes (record s { world = (api.drain s.world).1 }))
  close_ends background (some ctx) wakes s h =
      ground (arith, close_loop_ends ctx wakes (record s { world = (api.drain s.world).1 }))

  module _ (laws : ClosesConn api) where
    close_loop_closed :
        (ctx : api.Context) (wakes : List (Wake api.World)) (s : State api.World) {err : Error}
        {s' : State api.World}
        → close_loop api c ctx wakes s ≡ some (err, s')
        → api.is_closed s'.world ≡ true
    unfolding close_loop close_round
    close_loop_closed ctx [] s h = ground arith
    close_loop_closed ctx (wake ∷ wakes) s {err} {s'} h = ground (
      arith,
      close_loop_closed ctx wakes (record s { world = wake.later s.world }) {err = err} {s' = s'},
      laws.close-is_closed (wake.later s.world),
    )

    close_with_closed :
        (ctx : api.Context) (wakes : List (Wake api.World)) (s : State api.World)
        {s' : State api.World}
        → close_with api c ctx wakes s ≡ some (nil, s')
        → api.is_closed s'.world ≡ true
    unfolding drain_failure context_error
    close_with_closed ctx wakes s {s'} h = ground (
      arith,
      close_loop_closed ctx wakes (record s { world = (api.drain s.world).1 }) {err = nil}
          {s' = s'},
      laws.drain-is_closed s.world,
    )

    -- If nats.go closes a connection as it documents, then a client with a connection for which
    -- `Close` returns no error has a closed connection.
    pub close-is_closed :
        (background : api.Context) (ctx : Option api.Context) (wakes : List (Wake api.World))
        (s : State api.World) {s' : State api.World}
        → c.has_conn ≡ true
        → close api background (some c) ctx wakes s ≡ some (nil, s')
        → api.is_closed s'.world ≡ true
    unfolding close
    close-is_closed background none wakes s {s'} conn h =
        ground (arith, close_with_closed background wakes s {s' = s'})
    close-is_closed background (some ctx) wakes s {s'} conn h =
        ground (arith, close_with_closed ctx wakes s {s' = s'})

  -- Closing a closed connection again changes nothing and returns no error, unless the context has
  -- ended.
  pub close_again :
      (background : api.Context) (ctx : Option api.Context) (wakes : List (Wake api.World))
      (s : State api.World)
      → api.is_closed s.world ≡ true
      → ((x : api.Context) → api.context_err x s.world ≡ nil)
      → close api background (some c) ctx wakes s ≡ some (nil, s)
  unfolding close
  close_again background none wakes s closed live = ground (arith, live background)
  close_again background (some ctx) wakes s closed live = ground (arith, live ctx)
